-- ===== src/Decimal/Exact.antt =====
-- Sums that stay below 28 digits are exact.
use aegis_os.Prelude.{
  ℕ, zero, suc, ◌+◌, ◌-◌, ◌*◌, ◌/◌, ◌^◌, ◌≤◌, ◌<◌, ◌≡◌, arith, true, false, ltb, leb, ltb→lt,
  lt→ltb, Bool-cases, inl, inr,
}
use native.Mathlib.Nat.{pow-suc}
use aegis_os.Prelude.Int.{pos, ◌+ℤ◌, ◌*ℤ◌}
use aegis_os.Decimal.{Decimal, precision, magnitude, digit_count, fix, exact_add, add, less}

digit_count-le : (fuel n k : ℕ) → n < 10 ^ k → digit_count fuel n ≤ k
unfolding digit_count
digit_count-le zero n k h = omega arith
digit_count-le (suc fuel) n zero h = ground arith
digit_count-le (suc fuel) n (suc k) h = ground (arith, pow-suc 10 k, digit_count-le fuel (n / 10) k)

-- A number of at most 28 digits is not rounded.
pub fix-exact : (d : Decimal) → magnitude d.coefficient < 10 ^ precision → fix d ≡ d
unfolding fix
fix-exact d h =
    ground (arith, digit_count-le (magnitude d.coefficient) (magnitude d.coefficient) precision h)

-- An amount of `n` units of `10 ^ -places`.
abbrev pub units : ℕ → ℕ → Decimal
units places n = record { coefficient = pos n; scale = places }

rescaled_same : (n : ℕ) → pos n *ℤ pos 1 ≡ pos n
unfolding ◌*ℤ◌
rescaled_same n = ground arith

exact_add-units : (p c a : ℕ) → exact_add (units p c) (units p a) ≡ units p (c + a)
unfolding ◌+ℤ◌
exact_add-units p c a =
    let none : p - p ≡ 0 = omega arith in
    let same : leb p p ≡ true = ground arith in rw (same, none, rescaled_same) (ground arith)

-- Amounts in one unit add up exactly below 28 digits.
pub add-units : (p c a : ℕ) → c + a < 10 ^ precision → add (units p c) (units p a) ≡ units p (c + a)
unfolding add
add-units p c a h = rw exact_add-units (fix-exact (units p (c + a)) h)

pow_pos : (p : ℕ) → 0 < 10 ^ p
pow_pos zero = omega arith
pow_pos (suc p) = omega (arith, pow-suc 10 p, pow_pos p)

le_of_not_ltb : (a b : ℕ) → ltb a b ≡ false → b ≤ a
le_of_not_ltb a b h = ground arith

not_lt : {a b : ℕ} → b ≤ a → ltb a b ≡ false
not_lt h = ground arith

scaled_lt : (m a b : ℕ) → 0 < m → a < b → a * m < b * m
scaled_lt m a b h lt = grind arith

scaled_le : (m a b : ℕ) → a ≤ b → a * m ≤ b * m
scaled_le m a b le = grind arith

less_scaled : (m a b : ℕ) → 0 < m → ltb (a * m) (b * m) ≡ ltb a b
less_scaled m a b h = elim (Bool-cases (ltb a b)) [
  | inl below ↦ rw below (lt→ltb _ _ (scaled_lt m a b h (ltb→lt a b below)))
  | inr not_below ↦ rw not_below (not_lt (scaled_le m b a (le_of_not_ltb a b not_below)))
]

rescaled_part : (p a : ℕ) → pos a *ℤ pos (10 ^ p) ≡ pos (a * 10 ^ p)
unfolding ◌*ℤ◌
rescaled_part p a = ground arith

-- In one unit the order is that of the numbers.
pub less-units : (p a b : ℕ) → less (units p a) (units p b) ≡ ltb a b
unfolding less
less-units p a b = rw rescaled_part (ground (arith, less_scaled (10 ^ p) a b (pow_pos p)))
