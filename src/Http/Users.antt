-- ===== src/Http/Users.antt =====
-- user_handler.go and middleware/auth.go. The routes on logins run over the tables and Redis.
use distributed_order_proces.Base.{
  String, Bool, true, false, Option, none, some, not, if◌then◌else◌,
}
use distributed_order_proces.Database.Rows.{Uuid}
use distributed_order_proces.Database.Tx.{
  Error, email_registered, login_generic, Result, ok, err, World, Env,
}
use distributed_order_proces.User.Model.{User, RegisterRequest, LoginRequest, Crypto}
use distributed_order_proces.User.Service.{register, login}
use distributed_order_proces.Auth.Jwt.{
  Jwt, JwtManager, Validated, claims, nil_claims, invalid, validate_token,
}
use distributed_order_proces.Auth.Header.{bearer_token}
use distributed_order_proces.RateLimit.Redis.{Redis}
use distributed_order_proces.RateLimit.Limiter.{
  RateLimiter, allow, record_failure, reset, login_key,
}
use distributed_order_proces.Http.Message.{
  user_value, token, user_id_text, aborted, Response, write_error_json, write_json, Handler,
}

-- What these handlers take from libraries. `split_host_port` is the host of an address.
pub record UserCodec : Type 0 where
  pub decode_register : String → Option RegisterRequest
  pub validate_register : RegisterRequest → Bool
  pub decode_login : String → Option LoginRequest
  pub validate_login : LoginRequest → Bool
  pub split_host_port : String → Option String

-- httpx/client_ip.go
abbrev pub host_or : String → Option String → String
host_or remote_addr none = remote_addr
host_or remote_addr (some host) = host

unfoldable pub client_ip : UserCodec → String → String
client_ip codec remote_addr = host_or remote_addr (codec.split_host_port remote_addr)

-- The Auth middleware. Nil claims are dereferenced.
abbrev pub with_claims : (Uuid → Handler) → Validated → Handler
with_claims next (claims c) w = next c.user_id w
with_claims next nil_claims w = (record { status = 0; body = aborted }, w)
with_claims next invalid w = (write_error_json 401 "invalid or expired token", w)

unfoldable pub auth_middleware : Env → Jwt → JwtManager → String → (Uuid → Handler) → Handler
auth_middleware env jwt m header next w =
    with_claims next (validate_token env jwt (bearer_token header) m.secret w) w

unfoldable pub register_error : Error → Response
register_error email_registered = write_error_json 409 "email is already registered"
register_error _ = write_error_json 500 "something went wrong"

abbrev pub answer_registered : Result User × World → Response × World
answer_registered (ok u, w) = (write_json 201 (user_value u), w)
answer_registered (err e, w) = (register_error e, w)

abbrev pub register_valid : Env → Crypto → UserCodec → Option RegisterRequest → Handler
register_valid env crypto codec none w = (write_error_json 400 "invalid json payload", w)
register_valid env crypto codec (some req) w =
    if not (codec.validate_register req)
    then (write_error_json 400 "invalid email or password format", w)
    else answer_registered (register env crypto req w)

unfoldable pub handle_register : Env → Crypto → UserCodec → String → Handler
handle_register env crypto codec body w =
    register_valid env crypto codec (codec.decode_register body) w

unfoldable pub handle_me : Option Uuid → Handler
handle_me none w = (write_error_json 500 "something went wrong", w)
handle_me (some user_id) w = (write_json 200 (user_id_text user_id), w)

-- `errors.Is(err, ErrLoginGeneric)`
abbrev pub is_login_generic : Error → Bool
is_login_generic login_generic = true
is_login_generic _ = false

module _ (r : Redis) (rl : RateLimiter) where
  abbrev pub LoginHandler : Type 0
  LoginHandler = World × r.Store → Response × World × r.Store

  -- An error of the check lets the request through.
  abbrev pub if_allowed : LoginHandler → Option Bool → LoginHandler
  if_allowed next none s = next s
  if_allowed next (some false) (w, s) =
      (write_error_json 429 "too many login attempts, please try again later", w, s)
  if_allowed next (some true) s = next s

  unfoldable pub login_rate_limiter : String → LoginHandler → LoginHandler
  login_rate_limiter ip next (w, s) = if_allowed next (allow r rl (login_key ip) s) (w, s)

  -- The errors of `RecordFailure` and `Reset` are logged.
  abbrev pub answer_login : String → Result String × World → r.Store → Response × World × r.Store
  answer_login key (ok t, w) s = (write_json 200 (token t), w, (reset r rl key s).1)
  answer_login key (err e, w) s =
      if is_login_generic e
      then (write_error_json 401 "invalid email or password", w, (record_failure r rl key s).1)
      else (write_error_json 500 "something went wrong", w, s)

  module _ (env : Env) (crypto : Crypto) (jwt : Jwt) (m : JwtManager) (codec : UserCodec) where
    abbrev pub login_valid : String → Option LoginRequest → LoginHandler
    login_valid ip none (w, s) = (write_error_json 400 "invalid json payload", w, s)
    login_valid ip (some req) (w, s) =
        if not (codec.validate_login req)
        then (write_error_json 400 "invalid email or password", w, s)
        else answer_login (login_key ip) (login env crypto jwt m req w) s

    unfoldable pub handle_login : String → String → LoginHandler
    handle_login remote_addr body =
        login_valid (client_ip codec remote_addr) (codec.decode_login body)

    -- POST /users/login
    unfoldable pub post_login : String → String → LoginHandler
    post_login remote_addr body =
        login_rate_limiter (client_ip codec remote_addr) (handle_login remote_addr body)
