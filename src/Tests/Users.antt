-- ===== src/Tests/Users.antt =====
-- Users who register, log in and are turned away.
use distributed_order_proces.Base.{
  refl, ℕ, suc, ◌≡◌, String, true, some, str_eq, eq_iff, ◌∷◌, zero, ap, subst, sym,
}
use distributed_order_proces.Base.Texts.{append}
use distributed_order_proces.Database.Rows.{UserRow}
use distributed_order_proces.Database.Tx.{ok, World}
use distributed_order_proces.Database.Post.{Post}
use distributed_order_proces.User.Model.{Crypto, RegisterRequest}
use distributed_order_proces.User.Repository.{user_from_sqlc}
use distributed_order_proces.User.Service.{register}
use distributed_order_proces.User.Accounts.{Accounts, Registered, register-Registered}
use distributed_order_proces.User.Registering.{registered_row, register-free}
use distributed_order_proces.Auth.Jwt.{Jwt, JwtManager, generate_token}
use distributed_order_proces.Auth.Bearer.{Plain}
use distributed_order_proces.Auth.Header.{is_space}
use distributed_order_proces.Http.SignIn.{DocumentedJwt, SignsIn, register-SignsIn}
use distributed_order_proces.Tests.Shop.{calm, open_shop, shop}

-- A hash is the password itself.
abbrev pub plain_hashes : Crypto
plain_hashes = record {
  hash = λ n password. some password;
  matches = λ password_hash password. str_eq password_hash password;
  lower = λ s. s;
}

-- A token is the user id in strokes.
abbrev pub strokes : ℕ → String
strokes zero = String.[]
strokes (suc n) = append "|" (strokes n)

abbrev pub count_strokes : String → ℕ
count_strokes String.[] = 0
count_strokes (String.◌∷◌ c s) = suc (count_strokes s)

abbrev pub stroke_tokens : Jwt
stroke_tokens = record {
  uuid_string = strokes;
  new_numeric_date = λ t. t;
  signed_string = λ secret c. some (strokes c.user_id);
  parse_with_claims = λ secret now t. some (record {
    claims = record { user_id = count_strokes t; subject = t; issued_at = 0; expires_at = suc now };
    valid = true;
  });
}

strokes-Plain : (n : ℕ) → Plain (strokes n)
unfolding is_space
strokes-Plain zero = tt
strokes-Plain (suc n) = (refl, strokes-Plain n)

count_strokes-strokes : (n : ℕ) → count_strokes (strokes n) ≡ n
count_strokes-strokes zero = refl
count_strokes-strokes (suc n) = ap suc (count_strokes-strokes n)

some-inj : {a b : String} → some a ≡ some b → a ≡ b
some-inj h = cc

stroke_tokens-DocumentedJwt : DocumentedJwt stroke_tokens
stroke_tokens-DocumentedJwt = record {
  plain = λ secret t c h. subst Plain (some-inj h) (strokes-Plain c.user_id);
  parses = λ secret t c now h begun over. (
    _,
    refl,
    refl,
    subst (λ k. count_strokes k ≡ c.user_id) (some-inj h) (count_strokes-strokes c.user_id),
  );
}

abbrev pub manager : JwtManager
manager = record { secret = "s"; expiry = 3600 }

abbrev newcomer : RegisterRequest
newcomer = record { email = "n@b.c"; password = "secret" }

pub shop-Accounts : Accounts (λ s. s) shop
shop-Accounts = record { ids = (refl, tt); emails = (refl, tt); lowercase = (refl, tt) }

abbrev newcomer_row : UserRow
newcomer_row = registered_row calm newcomer "secret" open_shop

abbrev after : World
after = record open_shop {
  db = record shop { users = newcomer_row ∷ shop.users };
  tick = suc (suc open_shop.tick);
}

register-free_example :
    register calm plain_hashes newcomer open_shop ≡ (ok (user_from_sqlc newcomer_row), after)
register-free_example =
    register-free calm plain_hashes newcomer "secret" open_shop refl refl refl refl refl refl

register-Registered_example :
    Post
      (λ u w'. Accounts (λ s. s) w'.db × Registered plain_hashes newcomer u shop w'.db)
      (λ _ w'. w'.db ≡ shop)
      (register calm plain_hashes newcomer open_shop)
register-Registered_example = register-Registered calm plain_hashes newcomer open_shop shop-Accounts

register-SignsIn_example :
    SignsIn calm plain_hashes stroke_tokens manager newcomer
      (user_from_sqlc newcomer_row)
      (strokes newcomer_row.id)
      after
unfolding generate_token
register-SignsIn_example =
    register-SignsIn calm plain_hashes stroke_tokens manager newcomer (user_from_sqlc newcomer_row)
      (strokes newcomer_row.id) open_shop after after stroke_tokens-DocumentedJwt
      (λ salt password h e. (eq_iff h password).1 (some-inj (sym e))) shop-Accounts
      (register-free calm plain_hashes newcomer "secret" open_shop refl refl refl refl refl refl)
      refl refl refl
