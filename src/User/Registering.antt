-- ===== src/User/Registering.antt =====
-- A registration of which every call is answered.
use distributed_order_proces.Base.{
  refl, suc, ◌≡◌, String, true, false, some, none, ◌∷◌, str_eq, eq_iff,
}
use distributed_order_proces.Database.Rows.{UserRow}
use distributed_order_proces.Database.Keys.{find_user}
use distributed_order_proces.Database.Tx.{World, Env, ok, clock_at, statement}
use distributed_order_proces.User.Model.{RegisterRequest, Crypto}
use distributed_order_proces.User.Queries.{
  find_email, new_user, run_create_user, query_create_user, query_get_user_by_email,
}
use distributed_order_proces.User.Repository.{user_from_sqlc, get_user_by_email, create_user}
use distributed_order_proces.User.Service.{register}

-- The row that a registration writes, at the second call that it makes.
abbrev pub registered_row : Env → RegisterRequest → String → World → UserRow
registered_row env req password_hash w =
    new_user req.email password_hash (clock_at env (record w { tick = suc w.tick }))

-- An email in lower case that is free is registered, if no call is lost, bcrypt hashes the password
-- and the server draws a fresh id: the user is returned and its row is added.
pub register-free :
    (env : Env) (crypto : Crypto) (req : RegisterRequest) (password_hash : String) (w : World)
    → env.fails w.tick ≡ false
    → env.fails (suc w.tick) ≡ false
    → req.email ≡ crypto.lower req.email
    → find_email req.email w.db ≡ none
    → find_user (registered_row env req password_hash w).id w.db ≡ none
    → crypto.hash (suc w.tick) req.password ≡ some password_hash
    → register env crypto req w ≡ (
      ok (user_from_sqlc (registered_row env req password_hash w)),
      record w {
        db = record w.db { users = registered_row env req password_hash w ∷ w.db.users };
        tick = suc (suc w.tick);
      },
    )
unfolding register get_user_by_email create_user query_create_user query_get_user_by_email
    run_create_user statement
register-free env crypto req password_hash w up up' lowercase free fresh hashed =
    let lower : str_eq req.email (crypto.lower req.email) ≡ true =
      (eq_iff req.email (crypto.lower req.email)).1 lowercase in
    rw (up, free) (rw hashed (rw (up', lower, free) (rw fresh refl)))
