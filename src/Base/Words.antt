-- ===== src/Base/Words.antt =====
-- Machine integers as bit patterns: Go's `int` and `int64` below 2 ^ 64, `int32` and PostgreSQL's
-- INT below 2 ^ 32. A pattern whose top bit is set stands for a negative number.
use distributed_order_proces.Base.{
  ℕ, ◌+◌, ◌-◌, ◌*◌, ◌%◌, ◌^◌, ◌≤◌, ◌<◌, ◌≡◌, Bool, true, ◌&&◌, ◌||◌, not, Option, none, some, arith,
  ltb, leb, if◌then◌else◌,
}

-- `a + b` and `a * b` on `int`.
unfoldable pub add_int : ℕ → ℕ → ℕ
add_int a b = (a + b) % 2 ^ 64

-- `a - b` on `int`.
unfoldable pub sub_int : ℕ → ℕ → ℕ
sub_int a b = (a + 2 ^ 64 - b) % 2 ^ 64

unfoldable pub mul_int : ℕ → ℕ → ℕ
mul_int a b = (a * b) % 2 ^ 64

-- `a < b` on `int`, which is signed.
unfoldable pub lt_int : ℕ → ℕ → Bool
lt_int a b = ltb ((a + 2 ^ 63) % 2 ^ 64) ((b + 2 ^ 63) % 2 ^ 64)

-- `int32(a)` keeps the low bits; `int(x)` of an `int32` copies the sign.
unfoldable pub int32 : ℕ → ℕ
int32 a = a % 2 ^ 32

unfoldable pub int_of_int32 : ℕ → ℕ
int_of_int32 x = if ltb x (2 ^ 31) then x else x + (2 ^ 64 - 2 ^ 32)

-- `a >= b` on INT.
unfoldable pub ge_int4 : ℕ → ℕ → Bool
ge_int4 a b = leb ((b + 2 ^ 31) % 2 ^ 32) ((a + 2 ^ 31) % 2 ^ 32)

-- The tests `>= 0` and `> 0` of the CHECK constraints.
abbrev pub is_nonneg4 : ℕ → Bool
is_nonneg4 x = ltb x (2 ^ 31)

abbrev pub is_nonneg8 : ℕ → Bool
is_nonneg8 x = ltb x (2 ^ 63)

abbrev pub is_pos4 : ℕ → Bool
is_pos4 x = ltb 0 x && ltb x (2 ^ 31)

abbrev same_sign : ℕ → ℕ → Bool
same_sign a b = (is_nonneg4 a && is_nonneg4 b) || (not (is_nonneg4 a) && not (is_nonneg4 b))

-- `a - b` and `a + b` on INT; out of range is an error of the statement.
unfoldable pub sub_int4 : ℕ → ℕ → Option ℕ
sub_int4 a b =
    let r = (a + 2 ^ 32 - b) % 2 ^ 32 in
    if not (same_sign a b) && not (same_sign r a) then none else some r

unfoldable pub add_int4 : ℕ → ℕ → Option ℕ
add_int4 a b =
    let r = (a + b) % 2 ^ 32 in if same_sign a b && not (same_sign r a) then none else some r

-- Where the numbers are not negative, the operations on patterns are those on numbers.
pub sub_int4-nonneg :
    (a b : ℕ) → a < 2 ^ 31 → b < 2 ^ 31 → ge_int4 a b ≡ true → sub_int4 a b ≡ some (a - b)
unfolding sub_int4 ge_int4
sub_int4-nonneg a b ha hb h = ground arith

pub ge_int4-nonneg : (a b : ℕ) → a < 2 ^ 31 → b < 2 ^ 31 → ge_int4 a b ≡ true → b ≤ a
unfolding ge_int4
ge_int4-nonneg a b ha hb h = ground arith

-- A sum that stays in range is exact.
pub add_int4-eq-some :
    (a b : ℕ) {r : ℕ}
    → a < 2 ^ 31
    → b < 2 ^ 31
    → add_int4 a b ≡ some r
    → (r ≡ a + b) × (a + b < 2 ^ 31)
unfolding add_int4
add_int4-eq-some a b ha hb h = ground arith
