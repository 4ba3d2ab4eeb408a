-- ===== src/User/Elsewhere.antt =====
-- A registration keeps every property that does not look at the users.
use distributed_order_proces.Base.{◌≡◌, subst, String, Option, none, some, List, ◌∷◌, arith}
use distributed_order_proces.Database.Rows.{UserRow, Db}
use distributed_order_proces.Database.Tx.{Env, World, Result}
use distributed_order_proces.Database.Post.{returned, failed, bind-Post}
use distributed_order_proces.Database.Keeps.{Keeps, statement-Keeps, read-Keeps}
use distributed_order_proces.User.Model.{User, RegisterRequest, Crypto}
use distributed_order_proces.User.Service.{register, register_unless, create_hashed}
use distributed_order_proces.User.Repository.{create_user, get_user_by_email}
use distributed_order_proces.User.Queries.{
  query_create_user, query_get_user_by_email, run_create_user,
}

module _ (env : Env) (crypto : Crypto) (I : Db → Type 0)
    (any_users : (us : List UserRow) (db : Db) → I db → I (record db { users = us })) where
  create_hashed-Keeps :
      (req : RegisterRequest) (o : Option String) (w : World)
      → I w.db
      → Keeps I (create_hashed env crypto req o w)
  unfolding create_user query_create_user run_create_user
  create_hashed-Keeps req none w h = failed h
  create_hashed-Keeps req (some password_hash) w h =
      bind-Post
        (statement-Keeps I env _ w h (λ row db e.
          let written : record w.db { users = row ∷ w.db.users } ≡ db = ground (arith, e) in
          subst I written (any_users _ w.db h)))
        (λ _ w' i. returned i)

  register_unless-Keeps :
      (req : RegisterRequest) {r : Result User × World}
      → Keeps I r
      → Keeps I (register_unless env crypto req r)
  register_unless-Keeps req (returned h) = failed h
  register_unless-Keeps req (failed {w = w} h) = create_hashed-Keeps req _ w h

  pub register-Keeps :
      (req : RegisterRequest) (w : World) → I w.db → Keeps I (register env crypto req w)
  unfolding register get_user_by_email query_get_user_by_email
  register-Keeps req w h =
      register_unless-Keeps req (bind-Post (read-Keeps I env _ w h) (λ _ w' i. returned i))
