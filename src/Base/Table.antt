-- ===== src/Base/Table.antt =====
-- A table whose rows have a number for a primary key: at most one row answers to a key. The order
-- of the rows carries no meaning.
use distributed_order_proces.Base.{
  ℕ, ◌≡◌, ◌≢◌, refl, Option, none, some, List, [], ◌∷◌, arith, ◌==◌, if◌then◌else◌,
}

module _ {A : Type 0} (key : A → ℕ) where
  -- The row with a key.
  abbrev pub find : ℕ → List A → Option A
  find k [] = none
  find k (row ∷ rows) = if key row == k then some row else find k rows

  -- Writes a row in place of the one with its key.
  abbrev pub replace : ℕ → A → List A → List A
  replace k v [] = []
  replace k v (row ∷ rows) = if key row == k then v ∷ rows else row ∷ replace k v rows

  -- The table without the row that has a key.
  abbrev pub remove : ℕ → List A → List A
  remove k [] = []
  remove k (row ∷ rows) = if key row == k then rows else row ∷ remove k rows

  -- No two rows have the same key.
  abbrev pub HasUniqueKeys : List A → Type 0
  HasUniqueKeys [] = Unit
  HasUniqueKeys (row ∷ rows) = (find (key row) rows ≡ none) × HasUniqueKeys rows

  pub find-key : (k : ℕ) (rows : List A) {row : A} → find k rows ≡ some row → key row ≡ k
  find-key k [] h = cc
  find-key k (x ∷ rows) {row} h = ground (arith, find-key k rows {row = row})

  pub find-replace_self :
      (k : ℕ) (v : A) (rows : List A) {row : A}
      → key v ≡ k
      → find k rows ≡ some row
      → find k (replace k v rows) ≡ some v
  find-replace_self k v [] e h = cc
  find-replace_self k v (x ∷ rows) {row} e h =
      ground (arith, find-replace_self k v rows {row = row} e)

  pub find-replace_ne :
      (j k : ℕ) (v : A) (rows : List A)
      → key v ≡ k
      → j ≢ k
      → find j (replace k v rows) ≡ find j rows
  find-replace_ne j k v [] e h = refl
  find-replace_ne j k v (x ∷ rows) e h = ground (arith, find-replace_ne j k v rows e h)
