-- ===== src/Base/Modular.antt =====
-- Products that wrap around, as those of Go's `int` do.
use distributed_order_proces.Base.{ℕ, ◌+◌, ◌*◌, ◌/◌, ◌%◌, ◌^◌, ◌≡◌, arith, ap, ◌∙◌, sym}

multiples_vanish : (p q r : ℕ) → (p * (q * 2 ^ 64 + r)) % 2 ^ 64 ≡ (p * r) % 2 ^ 64
multiples_vanish p q r = omega arith

split : (x : ℕ) → x ≡ x / 2 ^ 64 * 2 ^ 64 + x % 2 ^ 64
split x = omega arith

pub mul-mod : (p x : ℕ) → (p * (x % 2 ^ 64)) % 2 ^ 64 ≡ (p * x) % 2 ^ 64
mul-mod p x =
    sym (ap (λ y. (p * y) % 2 ^ 64) (split x) ∙ multiples_vanish p (x / 2 ^ 64) (x % 2 ^ 64))
