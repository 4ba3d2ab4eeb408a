-- ===== src/Auth/Bearer.antt =====
-- The header that a client sends with its token.
use distributed_order_proces.Base.{refl, String, false, ◌≡◌, ap, ◌∙◌}
use distributed_order_proces.Base.Texts.{append}
use Prim.Native.Char.{Char, code}
use distributed_order_proces.Auth.Header.{
  is_space, trim_left, trim_right, put_before, trim_space, trim_prefix, bearer_token,
}

-- A text without white space.
abbrev pub Plain : String → Type 0
Plain String.[] = Unit
Plain (String.◌∷◌ c s) = (is_space (code c) ≡ false) × Plain s

trim_left-Plain : (s : String) → Plain s → trim_left s ≡ s
unfolding trim_left
trim_left-Plain String.[] h = refl
trim_left-Plain (String.◌∷◌ c s) (h, _) = rw h refl

put_before-Plain :
    (c : Char) (s : String) → is_space (code c) ≡ false → put_before c s ≡ String.◌∷◌ c s
put_before-Plain c String.[] h = rw h refl
put_before-Plain c (String.◌∷◌ d s) h = refl

trim_right-Plain : (s : String) → Plain s → trim_right s ≡ s
unfolding trim_right
trim_right-Plain String.[] h = refl
trim_right-Plain (String.◌∷◌ c s) (h, k) =
    ap (put_before c) (trim_right-Plain s k) ∙ put_before-Plain c s h

-- The header `Bearer t` carries `t`.
pub bearer_token-Plain : (t : String) → Plain t → bearer_token (append "Bearer " t) ≡ t
unfolding bearer_token trim_space trim_prefix trim_left is_space
bearer_token-Plain t h = ap trim_right (trim_left-Plain t h) ∙ trim_right-Plain t h
