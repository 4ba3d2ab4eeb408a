-- ===== src/User/Accounts.antt =====
-- The invariant of the users, and what a registration does to them.
use distributed_order_proces.Base.{
  refl, ℕ, ◌≡◌, String, true, false, Option, none, some, ◌∷◌, arith, str_eq, subst, sym, eq_iff,
  ◌∙◌, ap,
}
use distributed_order_proces.Base.Lists.{All}
use distributed_order_proces.Database.Rows.{UserRow, Db}
use distributed_order_proces.Database.Keys.{is_some, find_user}
use distributed_order_proces.Database.Tx.{World, Env, Result, ok, Clock, clock_at}
use distributed_order_proces.Database.Post.{Post, returned, failed, bind-Post}
use distributed_order_proces.Database.Single.{single-Post}
use distributed_order_proces.Order.Queries.{one_row}
use distributed_order_proces.User.Model.{User, RegisterRequest, Crypto}
use distributed_order_proces.User.Queries.{
  find_email, run_create_user, query_create_user, query_get_user_by_email,
}
use distributed_order_proces.User.Repository.{user_from_sqlc, get_user_by_email, create_user}
use distributed_order_proces.User.Service.{create_hashed, register_unless, register}
use distributed_order_proces.Base.Table as Table
use distributed_order_proces.Base.TextTable as TextTable

-- Ids and emails are unique, and emails are in lower case.
pub record Accounts (lower : String → String) (db : Db) : Type 0 where
  pub ids : Table.HasUniqueKeys UserRow.id db.users
  pub emails : TextTable.HasUniqueKeys UserRow.email db.users
  pub lowercase : All (λ row. row.email ≡ lower row.email) db.users

-- The user is new, has the password's hash, and is all that has changed.
pub record Registered (crypto : Crypto) (req : RegisterRequest) (u : User) (db db' : Db)
    : Type 0 where
  pub row : UserRow
  pub same : user_from_sqlc row ≡ u
  pub email : row.email ≡ req.email
  pub free : find_email req.email db ≡ none
  pub salt : ℕ
  pub hashed : crypto.hash salt req.password ≡ some row.password_hash
  pub written : db' ≡ record db { users = row ∷ db.users }

none-of_is_some : {A : Type 0} (o : Option A) → is_some o ≡ false → o ≡ none
none-of_is_some none h = refl
none-of_is_some (some a) h = cc

inserted :
    (lower : String → String) (email password_hash : String) (c : Clock) (db : Db) (row : UserRow)
    (db' : Db)
    → run_create_user lower email password_hash c db ≡ ok (row, db')
    → (str_eq email (lower email) ≡ true)
      × (is_some (find_user row.id db) ≡ false)
      × (is_some (find_email email db) ≡ false)
      × (row.email ≡ email)
      × (row.password_hash ≡ password_hash)
      × (db' ≡ record db { users = row ∷ db.users })
unfolding run_create_user
inserted lower email password_hash c db row db' h = ground arith

insert-Registered :
    (crypto : Crypto) (req : RegisterRequest) (salt : ℕ) (password_hash : String) (c : Clock)
    (db : Db) (row : UserRow) (db' : Db)
    → crypto.hash salt req.password ≡ some password_hash
    → run_create_user crypto.lower req.email password_hash c db ≡ ok (row, db')
    → Accounts crypto.lower db
    → Accounts crypto.lower db' × Registered crypto req (user_from_sqlc row) db db'
insert-Registered crypto req salt password_hash c db row db' hashed h accounts =
    let (lowercase, id, email, e, same, written) =
      inserted crypto.lower req.email password_hash c db row db' h in
    let free = none-of_is_some (find_email req.email db) email in
    (
      subst (λ d. Accounts crypto.lower d) (sym written)
          (record {
            ids = (none-of_is_some (find_user row.id db) id, accounts.ids);
            emails = (subst (λ k. find_email k db ≡ none) (sym e) free, accounts.emails);
            lowercase = (
              subst (λ k. k ≡ crypto.lower k) (sym e)
                  ((eq_iff req.email (crypto.lower req.email)).0 lowercase),
              accounts.lowercase,
            );
          }),
      record {
        row = row;
        same = refl;
        email = e;
        free = free;
        salt = salt;
        hashed = hashed ∙ ap some (sym same);
        written = written;
      },
    )

one_row-same :
    {A : Type 0} (db db' : Db) (o : Option A) (a : A) → one_row db o ≡ ok (a, db') → db' ≡ db
one_row-same db db' none a h = cc
one_row-same db db' (some b) a h = cc

pub get_user_by_email-Unchanged :
    (env : Env) (email : String) (w : World)
    → Post (λ (_ : User) w'. w'.db ≡ w.db) (λ _ w'. w'.db ≡ w.db) (get_user_by_email env email w)
unfolding get_user_by_email query_get_user_by_email
get_user_by_email-Unchanged env email w =
    bind-Post {P = λ (_ : UserRow) w'. w'.db ≡ w.db}
      (single-Post env _ w (λ row db h. one_row-same w.db db (find_email email w.db) row h))
      (λ row w' h. returned h)

-- A registration either creates the user, with the password's hash and an email in lower case that
-- no user had, and changes nothing else, or it leaves the tables as they were. Ids and emails stay
-- unique.
pub register-Registered :
    (env : Env) (crypto : Crypto) (req : RegisterRequest) (w : World)
    → Accounts crypto.lower w.db
    → Post
        (λ u w'. Accounts crypto.lower w'.db × Registered crypto req u w.db w'.db)
        (λ _ w'. w'.db ≡ w.db)
        (register env crypto req w)
unfolding register create_user query_create_user
register-Registered env crypto req w accounts = ask (get_user_by_email-Unchanged env req.email w)
  where
    Done : Db → User → World → Type 0
    Done db u w' = Accounts crypto.lower w'.db × Registered crypto req u db w'.db

    create :
        (w1 : World) (salt : ℕ) (o : Option String)
        → Accounts crypto.lower w1.db
        → crypto.hash salt req.password ≡ o
        → Post (Done w1.db) (λ _ w'. w'.db ≡ w1.db) (create_hashed env crypto req o w1)
    create w1 salt none held hashed = failed refl
    create w1 salt (some password_hash) held hashed =
        bind-Post {P = λ row. Done w1.db (user_from_sqlc row)}
          (single-Post env _ w1 (λ row db h.
            insert-Registered crypto req salt password_hash (clock_at env w1) w1.db row db hashed h
              held))
          (λ row w' h. returned h)

    ask :
        {r : Result User × World}
        → Post (λ _ w1. w1.db ≡ w.db) (λ _ w1. w1.db ≡ w.db) r
        → Post (Done w.db) (λ _ w'. w'.db ≡ w.db) (register_unless env crypto req r)
    ask (returned h) = failed h
    ask (failed {w = w1} h) =
        subst
          (λ d.
            Post (Done d) (λ _ w'. w'.db ≡ d)
              (create_hashed env crypto req (crypto.hash w1.tick req.password) w1))
          h
          (create w1 w1.tick (crypto.hash w1.tick req.password)
            (subst (Accounts crypto.lower) (sym h) accounts) refl)
