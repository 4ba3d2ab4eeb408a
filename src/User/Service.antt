-- ===== src/User/Service.antt =====
-- user_service.go
use distributed_order_proces.Base.{String, Option, none, some, not, if◌then◌else◌}
use distributed_order_proces.Database.Tx.{
  driver, email_registered, login_generic, Result, ok, err, World, Env, Tx, on_no_rows, ◌>>=◌,
}
use distributed_order_proces.User.Model.{User, RegisterRequest, LoginRequest, Crypto}
use distributed_order_proces.User.Repository.{get_user_by_email, create_user}
use distributed_order_proces.Auth.Jwt.{Jwt, JwtManager, generate_token}

-- An error of bcrypt is none that the program tells apart.
abbrev pub create_hashed : Env → Crypto → RegisterRequest → Option String → Tx User
create_hashed env crypto req none w = (err driver, w)
create_hashed env crypto req (some password_hash) w =
    create_user env crypto req.email password_hash w

-- The error of the lookup is ignored: only a user that was found ends the registration.
abbrev pub register_unless :
    Env → Crypto → RegisterRequest → Result User × World → Result User × World
register_unless env crypto req (ok _, w) = (err email_registered, w)
register_unless env crypto req (err _, w) =
    create_hashed env crypto req (crypto.hash w.tick req.password) w

unfoldable pub register : Env → Crypto → RegisterRequest → Tx User
register env crypto req w = register_unless env crypto req (get_user_by_email env req.email w)

abbrev pub signed : Option String → Tx String
signed none w = (err driver, w)
signed (some token) w = (ok token, w)

unfoldable pub login : Env → Crypto → Jwt → JwtManager → LoginRequest → Tx String
login env crypto jwt m req = do
  user ← on_no_rows login_generic (get_user_by_email env req.email)
  λ w.
      if not (crypto.matches user.password_hash req.password)
      then (err login_generic, w)
      else signed (generate_token env jwt m user.id w) w
