-- ===== src/User/Repository.antt =====
-- user_repository.go
use distributed_order_proces.Base.{String}
use distributed_order_proces.Database.Rows.{UserRow}
use distributed_order_proces.Database.Tx.{Env, Tx, pure, ◌>>=◌}
use distributed_order_proces.User.Model.{User, Crypto}
use distributed_order_proces.User.Queries.{query_create_user, query_get_user_by_email}

abbrev pub user_from_sqlc : UserRow → User
user_from_sqlc r = record {
  id = r.id;
  email = r.email;
  password_hash = r.password_hash;
  created_at = r.created_at;
  updated_at = r.updated_at;
}

-- The errors are wrapped, and stay the same for `errors.Is`.
unfoldable pub get_user_by_email : Env → String → Tx User
get_user_by_email env email = do row ← query_get_user_by_email env email; pure (user_from_sqlc row)

unfoldable pub create_user : Env → Crypto → String → String → Tx User
create_user env crypto email password_hash = do
  row ← query_create_user env crypto email password_hash
  pure (user_from_sqlc row)
