-- ===== src/Auth/Jwt.antt =====
-- auth/jwt.go over golang-jwt, which signs, parses and checks the times of a token.
use distributed_order_proces.Base.{◌+◌, String, Bool, Option, none, some, if◌then◌else◌}
use distributed_order_proces.Database.Rows.{Uuid, Time}
use distributed_order_proces.Database.Tx.{Env, World}

-- `Subject` is the text of the user id.
pub record UserClaims : Type 0 where
  pub user_id : Uuid
  pub subject : String
  pub issued_at : Time
  pub expires_at : Time

-- A token that was parsed: what it claims, and `token.Valid`.
pub record Parsed : Type 0 where
  pub claims : UserClaims
  pub valid : Bool

-- `new_numeric_date` cuts a time to the library's precision. `parse_with_claims` is given the secret
-- for a token whose method is HS256, and the time of the call; `none` is its error.
pub record Jwt : Type 0 where
  pub uuid_string : Uuid → String
  pub new_numeric_date : Time → Time
  pub signed_string : String → UserClaims → Option String
  pub parse_with_claims : String → Time → String → Option Parsed

pub record JwtManager : Type 0 where
  pub secret : String
  pub expiry : Time

abbrev pub claims_at : Jwt → JwtManager → Uuid → Time → UserClaims
claims_at jwt m user_id now = record {
  user_id = user_id;
  subject = jwt.uuid_string user_id;
  issued_at = jwt.new_numeric_date now;
  expires_at = jwt.new_numeric_date (now + m.expiry);
}

-- `time.Now()` is read at the number of calls made so far.
unfoldable pub generate_token : Env → Jwt → JwtManager → Uuid → World → Option String
generate_token env jwt m user_id w =
    jwt.signed_string m.secret (claims_at jwt m user_id (env.api_now w.tick))

-- `return nil, err` for a token that is not valid has a nil error too: the claims are then nil.
pub data Validated : Type 0 where
  claims : UserClaims → Validated
  nil_claims : Validated
  invalid : Validated

abbrev pub checked : Option Parsed → Validated
checked none = invalid
checked (some p) = if p.valid then claims p.claims else nil_claims

unfoldable pub validate_token : Env → Jwt → String → String → World → Validated
validate_token env jwt token secret w =
    checked (jwt.parse_with_claims secret (env.api_now w.tick) token)
