-- ===== src/Http/SignIn.antt =====
-- Registering, logging in and being recognised.
use distributed_order_proces.Base.{
  refl, ℕ, suc, ◌≤◌, ◌<◌, ◌≡◌, String, true, false, some, ap, ◌+◌, str_eq, ◌∷◌, eq_iff, ◌∙◌,
}
use distributed_order_proces.Base.Texts.{append}
use distributed_order_proces.Database.Rows.{Uuid, Time, UserRow, Db}
use distributed_order_proces.Database.Tx.{
  World, Env, Result, ok, Clock, clock_at, settle, statement, err, email_registered,
}
use distributed_order_proces.User.Model.{LoginRequest, Crypto, RegisterRequest, User}
use distributed_order_proces.User.Queries.{find_email, query_get_user_by_email}
use distributed_order_proces.User.Repository.{user_from_sqlc, get_user_by_email}
use distributed_order_proces.User.Service.{login, register}
use distributed_order_proces.Auth.Jwt.{
  Jwt, JwtManager, UserClaims, Parsed, claims_at, generate_token, validate_token,
}
use distributed_order_proces.Auth.Bearer.{Plain, bearer_token-Plain}
use distributed_order_proces.Http.Message.{Handler}
use distributed_order_proces.Http.Users.{auth_middleware}
use distributed_order_proces.User.Accounts.{Registered, Accounts, register-Registered}
use distributed_order_proces.Database.Post.{Post-ok}

-- golang-jwt: a signed token has no white space, and between its times it parses to the user id that
-- was signed. bcrypt: a hash matches its password.
pub record DocumentedJwt (jwt : Jwt) : Type 0 where
  pub plain :
      (secret token : String) (c : UserClaims)
      → jwt.signed_string secret c ≡ some token
      → Plain token
  pub parses :
      (secret token : String) (c : UserClaims) (now : Time)
      → jwt.signed_string secret c ≡ some token
      → c.issued_at ≤ now
      → now < c.expires_at
      → (p : Parsed) × (jwt.parse_with_claims secret now token ≡ some p)
        × (p.valid ≡ true)
        × (p.claims.user_id ≡ c.user_id)

abbrev pub HashMatches : Crypto → Type 0
HashMatches crypto =
    (salt : ℕ) (password hash : String)
    → crypto.hash salt password ≡ some hash
    → crypto.matches hash password ≡ true

answered :
    {A : Type 0} (env : Env) (run : Clock → Db → Result (A × Db)) (w : World)
    → env.fails w.tick ≡ false
    → statement env run w ≡ settle w (run (clock_at env w) w.db)
unfolding statement
answered env run w h = rw h refl

get_user_by_email-found :
    (env : Env) (email : String) (row : UserRow) (w : World)
    → env.fails w.tick ≡ false
    → find_email email w.db ≡ some row
    → get_user_by_email env email w ≡ (ok (user_from_sqlc row), record w { tick = suc w.tick })
unfolding get_user_by_email query_get_user_by_email statement
get_user_by_email-found env email row w up found = rw (up, found) refl

-- A user who is found by email and whose password matches gets the token that was signed.
pub login-found :
    (env : Env) (crypto : Crypto) (jwt : Jwt) (m : JwtManager) (req : LoginRequest) (row : UserRow)
    (t : String) (w : World)
    → env.fails w.tick ≡ false
    → find_email req.email w.db ≡ some row
    → crypto.matches row.password_hash req.password ≡ true
    → generate_token env jwt m row.id (record w { tick = suc w.tick }) ≡ some t
    → login env crypto jwt m req w ≡ (ok t, record w { tick = suc w.tick })
unfolding login
login-found env crypto jwt m req row t w up found same sign =
    rw (get_user_by_email-found env req.email row w up found) (rw (same, sign) refl)

-- Within its times the token names its user to the routes behind the middleware.
pub auth_middleware-signed :
    (env : Env) (jwt : Jwt) (m : JwtManager) (id : Uuid) (t : String) (w w' : World)
    (next : Uuid → Handler)
    → DocumentedJwt jwt
    → generate_token env jwt m id w ≡ some t
    → jwt.new_numeric_date (env.api_now w.tick) ≤ env.api_now w'.tick
    → env.api_now w'.tick < jwt.new_numeric_date (env.api_now w.tick + m.expiry)
    → auth_middleware env jwt m (append "Bearer " t) next w' ≡ next id w'
unfolding auth_middleware validate_token generate_token
auth_middleware-signed env jwt m id t w w' next doc sign begun over =
    let c = claims_at jwt m id (env.api_now w.tick) in
    let (p, parsed, valid, user) = doc.parses m.secret t c (env.api_now w'.tick) sign begun over in
    rw (bearer_token-Plain t (doc.plain m.secret t c sign), parsed)
      (rw valid (ap (λ i. next i w') user))

-- What a registration was for, in a world that still has its user: the password logs in, the token
-- names the user to the routes behind the middleware, and the email cannot be registered again.
pub record SignsIn (env : Env) (crypto : Crypto) (jwt : Jwt) (m : JwtManager)
    (req : RegisterRequest) (u : User) (t : String) (w : World) : Type 1 where
  pub logs_in :
      login env crypto jwt m (record { email = req.email; password = req.password }) w
      ≡ (ok t, record w { tick = suc w.tick })
  pub recognised :
      (w' : World) (next : Uuid → Handler)
      → jwt.new_numeric_date (env.api_now (suc w.tick)) ≤ env.api_now w'.tick
      → env.api_now w'.tick < jwt.new_numeric_date (env.api_now (suc w.tick) + m.expiry)
      → auth_middleware env jwt m (append "Bearer " t) next w' ≡ next u.id w'
  pub taken :
      (req' : RegisterRequest)
      → req'.email ≡ req.email
      → register env crypto req' w ≡ (err email_registered, record w { tick = suc w.tick })

found-after :
    (crypto : Crypto) (req : RegisterRequest) (u : User) (db db' : Db)
    → (r : Registered crypto req u db db') → find_email req.email db' ≡ some r.row
found-after crypto req u db db' r =
    let same = (eq_iff r.row.email req.email).1 r.email in
    ap (find_email req.email) r.written ∙ here same
  where
    here :
        str_eq r.row.email req.email ≡ true
        → find_email req.email (record db { users = r.row ∷ db.users }) ≡ some r.row
    here same = rw same refl

register-taken :
    (env : Env) (crypto : Crypto) (req : RegisterRequest) (row : UserRow) (w : World)
    → env.fails w.tick ≡ false
    → find_email req.email w.db ≡ some row
    → register env crypto req w ≡ (err email_registered, record w { tick = suc w.tick })
unfolding register
register-taken env crypto req row w up found =
    rw (get_user_by_email-found env req.email row w up found) refl

-- A user who has registered can sign in: in any later world that finds the same user under the email
-- and answers the lookup, the password logs in with the token that was signed, the token is accepted
-- within its times as that user's, and a second registration of the email is refused.
pub register-SignsIn :
    (env : Env) (crypto : Crypto) (jwt : Jwt) (m : JwtManager) (req : RegisterRequest) (u : User)
    (t : String) (w w1 w2 : World)
    → DocumentedJwt jwt
    → HashMatches crypto
    → Accounts crypto.lower w.db
    → register env crypto req w ≡ (ok u, w1)
    → find_email req.email w2.db ≡ find_email req.email w1.db
    → env.fails w2.tick ≡ false
    → generate_token env jwt m u.id (record w2 { tick = suc w2.tick }) ≡ some t
    → SignsIn env crypto jwt m req u t w2
register-SignsIn env crypto jwt m req u t w w1 w2 doc hashes accounts e kept up sign =
    let (_, r) = Post-ok u w1 (register-Registered env crypto req w accounts) e in
    let found : find_email req.email w2.db ≡ some r.row =
      kept ∙ found-after crypto req u w.db w1.db r in
    let id : r.row.id ≡ u.id = ap User.id r.same in
    let matches = hashes r.salt req.password r.row.password_hash r.hashed in
    record {
      logs_in =
          login-found env crypto jwt m (record { email = req.email; password = req.password }) r.row
            t w2 up found matches
            (ap (λ i. generate_token env jwt m i (record w2 { tick = suc w2.tick })) id ∙ sign);
      recognised = λ w' next begun over.
          auth_middleware-signed env jwt m u.id t (record w2 { tick = suc w2.tick }) w' next doc
            sign begun over;
      taken = λ req' same.
          register-taken env crypto req' r.row w2 up (ap (λ k. find_email k w2.db) same ∙ found);
    }
