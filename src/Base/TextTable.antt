-- ===== src/Base/TextTable.antt =====
-- A table whose rows have a text for a primary key.
use distributed_order_proces.Base.{
  String, ◌≡◌, ◌≢◌, refl, Option, none, some, List, [], ◌∷◌, arith, str_eq, eq_iff, if◌then◌else◌,
}

module _ {A : Type 0} (key : A → String) where
  abbrev pub find : String → List A → Option A
  find k [] = none
  find k (row ∷ rows) = if str_eq (key row) k then some row else find k rows

  abbrev pub replace : String → A → List A → List A
  replace k v [] = []
  replace k v (row ∷ rows) = if str_eq (key row) k then v ∷ rows else row ∷ replace k v rows

  -- No two rows have the same key.
  abbrev pub HasUniqueKeys : List A → Type 0
  HasUniqueKeys [] = Unit
  HasUniqueKeys (row ∷ rows) = (find (key row) rows ≡ none) × HasUniqueKeys rows

  pub find-key : (k : String) (rows : List A) {row : A} → find k rows ≡ some row → key row ≡ k
  find-key k [] h = cc
  find-key k (x ∷ rows) {row} h = ground (arith, find-key k rows {row = row}, eq_iff (key x) k)

  pub find-replace_self :
      (k : String) (v : A) (rows : List A) {row : A}
      → key v ≡ k
      → find k rows ≡ some row
      → find k (replace k v rows) ≡ some v
  find-replace_self k v [] e h = cc
  find-replace_self k v (x ∷ rows) {row} e h =
      ground (arith, find-replace_self k v rows {row = row} e, eq_iff (key x) k, eq_iff (key v) k)

  pub find-replace_ne :
      (j k : String) (v : A) (rows : List A)
      → key v ≡ k
      → j ≢ k
      → find j (replace k v rows) ≡ find j rows
  find-replace_ne j k v [] e h = refl
  find-replace_ne j k v (x ∷ rows) e h =
      ground (
        arith,
        find-replace_ne j k v rows e h,
        eq_iff (key x) k,
        eq_iff (key x) j,
        eq_iff (key v) j,
      )
