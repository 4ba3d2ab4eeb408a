-- ===== src/Product/Varchar.antt =====
-- What a column of type VARCHAR(n) holds of a text.
use Prim.Native.Char.{Char, code}
use distributed_order_proces.Base.{
  ℕ, zero, suc, ◌≤◌, ◌≡◌, ◌⊎◌, inl, inr, refl, ap, subst, ◌&&◌, ◌==◌, String, Bool, true, false,
  Option, none, some, arith, if◌then◌else◌,
}
use distributed_order_proces.Base.Texts.{append}
use distributed_order_proces.Product.Queries.{varchar, only_spaces, prefixed}

abbrev pub size : String → ℕ
size String.[] = 0
size (String.◌∷◌ c s) = suc (size s)

abbrev pub IsBlank : String → Type 0
IsBlank String.[] = Unit
IsBlank (String.◌∷◌ c s) = (code c ≡ 32) × IsBlank s

-- The text itself, or as much of it as there is room for if only spaces follow.
pub record Held (n : ℕ) (asked stored : String) : Type 0 where
  pub over : String
  pub whole : append stored over ≡ asked
  pub blank : IsBlank over
  pub fits : size stored ≤ n
  pub full : (over ≡ String.[]) ⊎ (size stored ≡ n)

only_spaces-IsBlank : (s : String) → only_spaces s ≡ true → IsBlank s
unfolding only_spaces
only_spaces-IsBlank String.[] h = tt
only_spaces-IsBlank (String.◌∷◌ c s) h =
    (ground (arith, h), only_spaces-IsBlank s (ground (arith, h)))

held_after :
    (n : ℕ) (c : Char) (s stored : String)
    → (o : Option String) → prefixed c o ≡ some stored
    → ((t : String) → o ≡ some t → Held n s t)
    → Held (suc n) (String.◌∷◌ c s) stored
held_after n c s stored none h rest = cc
held_after n c s stored (some t) h rest =
    let e : String.◌∷◌ c t ≡ stored = cc in
    let r = rest t refl in
    subst (λ u. Held (suc n) (String.◌∷◌ c s) u) e
      (record {
        over = r.over;
        whole = ap (λ u. String.◌∷◌ c u) r.whole;
        blank = r.blank;
        fits = omega (arith, r.fits);
        full = elim r.full [ inl nothing ↦ inl nothing | inr all ↦ inr (ap suc all) ];
      })

held_nothing :
    (b : Bool) (s stored : String)
    → (if b then some String.[] else none) ≡ some stored
    → (b ≡ true → IsBlank s)
    → Held 0 s stored
held_nothing true s stored h blank =
    let e : String.[] ≡ stored = cc in
    subst (λ u. Held 0 s u) e
      (record { over = s; whole = refl; blank = blank refl; fits = omega arith; full = inr refl })
held_nothing false s stored h blank = cc

-- What is stored of a text is the text itself, or its first `n` characters if only spaces follow.
pub varchar-Held : (n : ℕ) (s stored : String) → varchar n s ≡ some stored → Held n s stored
unfolding varchar only_spaces
varchar-Held n String.[] stored h =
    let e : String.[] ≡ stored = cc in
    subst (λ u. Held n String.[] u) e
      (record { over = String.[]; whole = refl; blank = tt; fits = omega arith; full = inl refl })
varchar-Held zero (String.◌∷◌ c s) stored h =
    held_nothing (code c == 32 && only_spaces s) (String.◌∷◌ c s) stored h
      (only_spaces-IsBlank (String.◌∷◌ c s))
varchar-Held (suc n) (String.◌∷◌ c s) stored h =
    held_after n c s stored (varchar n s) h (λ t e. varchar-Held n s t e)
