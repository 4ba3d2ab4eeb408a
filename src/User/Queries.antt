-- ===== src/User/Queries.antt =====
-- The statements of user/sqlc/user.sql.go, each a transaction of its own.
use distributed_order_proces.Base.{String, Option, ◌∷◌, ◌||◌, not, str_eq, if◌then◌else◌}
use distributed_order_proces.Base.TextTable.{find}
use distributed_order_proces.Database.Rows.{UserRow, Db}
use distributed_order_proces.Database.Keys.{is_some, find_user}
use distributed_order_proces.Database.Tx.{
  driver, unique_violation, Result, ok, err, Env, Tx, Clock, statement,
}
use distributed_order_proces.Order.Queries.{one_row}
use distributed_order_proces.User.Model.{Crypto}

-- users.email is UNIQUE.
abbrev pub find_email : String → Db → Option UserRow
find_email email db = find UserRow.email email db.users

-- INSERT INTO users, under CHECK (email = LOWER(email)).
abbrev pub new_user : String → String → Clock → UserRow
new_user email password_hash c = record {
  id = c.uuid;
  email = email;
  password_hash = password_hash;
  created_at = c.time;
  updated_at = c.time;
}

unfoldable pub run_create_user :
    (String → String) → String → String → Clock → Db → Result (UserRow × Db)
run_create_user lower email password_hash c db =
    let row = new_user email password_hash c in
    if not (str_eq email (lower email))
    then err driver
    else if is_some (find_user c.uuid db) || is_some (find_email email db)
    then err unique_violation
    else ok (row, record db { users = row ∷ db.users })

unfoldable pub query_create_user : Env → Crypto → String → String → Tx UserRow
query_create_user env crypto email password_hash =
    statement env (run_create_user crypto.lower email password_hash)

-- SELECT ... FROM users WHERE email = $1
unfoldable pub query_get_user_by_email : Env → String → Tx UserRow
query_get_user_by_email env email = statement env (λ c db. one_row db (find_email email db))
