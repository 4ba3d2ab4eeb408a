-- ===== src/Http/Refusals.antt =====
-- What a refused login tells the client.
use distributed_order_proces.Base.{refl, suc, ◌≡◌, String, true, false, some, none}
use distributed_order_proces.Database.Rows.{UserRow}
use distributed_order_proces.Database.Tx.{World, Env, err, login_generic, statement}
use distributed_order_proces.RateLimit.Redis.{Redis}
use distributed_order_proces.RateLimit.Limiter.{RateLimiter, record_failure, login_key}
use distributed_order_proces.User.Model.{LoginRequest, Crypto}
use distributed_order_proces.User.Queries.{find_email, query_get_user_by_email}
use distributed_order_proces.User.Repository.{get_user_by_email}
use distributed_order_proces.User.Service.{login}
use distributed_order_proces.Auth.Jwt.{Jwt, JwtManager}
use distributed_order_proces.Http.Message.{Response, write_error_json}
use distributed_order_proces.Http.Users.{UserCodec, client_ip, handle_login}

login-unknown :
    (env : Env) (crypto : Crypto) (jwt : Jwt) (m : JwtManager) (req : LoginRequest) (w : World)
    → env.fails w.tick ≡ false
    → find_email req.email w.db ≡ none
    → login env crypto jwt m req w ≡ (err login_generic, record w { tick = suc w.tick })
unfolding login get_user_by_email query_get_user_by_email statement
login-unknown env crypto jwt m req w up missing = rw (up, missing) refl

login-mismatch :
    (env : Env) (crypto : Crypto) (jwt : Jwt) (m : JwtManager) (req : LoginRequest) (row : UserRow)
    (w : World)
    → env.fails w.tick ≡ false
    → find_email req.email w.db ≡ some row
    → crypto.matches row.password_hash req.password ≡ false
    → login env crypto jwt m req w ≡ (err login_generic, record w { tick = suc w.tick })
unfolding login get_user_by_email query_get_user_by_email statement
login-mismatch env crypto jwt m req row w up found wrong = rw (up, found) (rw wrong refl)

module _ (r : Redis) (rl : RateLimiter) (env : Env) (crypto : Crypto) (jwt : Jwt) (m : JwtManager)
    (codec : UserCodec) where
  -- The answer 401, which counts a failure of the address.
  abbrev pub refused : String → World → r.Store → Response × World × r.Store
  refused remote_addr w s = (
    write_error_json 401 "invalid email or password",
    record w { tick = suc w.tick },
    (record_failure r rl (login_key (client_ip codec remote_addr)) s).1,
  )

  -- A login with an unknown email and one with a wrong password are answered alike and leave the
  -- same behind, when both bodies are valid and the lookup is answered: a client cannot tell which
  -- emails are registered by the answer.
  pub handle_login-Alike :
      (remote_addr unknown mismatch : String) (req req' : LoginRequest) (row : UserRow) (w : World)
      (s : r.Store)
      → codec.decode_login unknown ≡ some req
      → codec.validate_login req ≡ true
      → find_email req.email w.db ≡ none
      → codec.decode_login mismatch ≡ some req'
      → codec.validate_login req' ≡ true
      → find_email req'.email w.db ≡ some row
      → crypto.matches row.password_hash req'.password ≡ false
      → env.fails w.tick ≡ false
      → (handle_login r rl env crypto jwt m codec remote_addr unknown (w, s)
          ≡ refused remote_addr w s)
        × (handle_login r rl env crypto jwt m codec remote_addr mismatch (w, s)
            ≡ refused remote_addr w s)
  unfolding handle_login
  handle_login-Alike remote_addr unknown mismatch req req' row w s d v missing d' v' found wrong
        up =
      (
        rw d (rw (v, login-unknown env crypto jwt m req w up missing) refl),
        rw d' (rw (v', login-mismatch env crypto jwt m req' row w up found wrong) refl),
      )
