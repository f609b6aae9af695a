-- ===== src/Decimal.antt =====
-- `decimal.Decimal` under its default context (28 significant digits, ROUND_HALF_EVEN), as far as
-- src/watchdog/budget_enforcer.py uses it. A number is told by its value: trailing zeros, the sign
-- of zero and exponents above 0 are not kept apart, and no result is a NaN or an infinity.
pub mod Order
mod Tests
pub mod Exact
use aegis_os.Prelude.{
  ℕ, zero, suc, ◌+◌, ◌-◌, ◌*◌, ◌/◌, ◌%◌, ◌^◌, Bool, true, false, not, leb, ltb, nat_beq,
  if◌then◌else◌,
}
use aegis_os.Prelude.Int.{ℤ, pos, negsuc, sub_ℕ, ◌+ℤ◌, ◌*ℤ◌, ltb_ℤ}

-- The value is `coefficient / 10 ^ scale`.
pub record Decimal : Type 0 where
  pub coefficient : ℤ
  pub scale : ℕ

abbrev pub precision : ℕ
precision = 28

abbrev pub zero_usd : Decimal
zero_usd = record { coefficient = pos 0; scale = 0 }

abbrev pub magnitude : ℤ → ℕ
magnitude (pos n) = n
magnitude (negsuc n) = suc n

-- The number `m` with the sign of an integer.
abbrev pub with_sign_of : ℤ → ℕ → ℤ
with_sign_of (pos n) m = pos m
with_sign_of (negsuc n) m = sub_ℕ 0 m

-- The number of decimal digits, 0 for 0. A number has at most as many digits as its value.
pub digit_count : ℕ → ℕ → ℕ
digit_count zero n = 0
digit_count (suc fuel) n =
    let more = suc (digit_count fuel (n / 10)) in if nat_beq n 0 then 0 else more

-- `n / 10 ^ k`, rounded to the nearest integer, ties to even.
pub half_even : ℕ → ℕ → ℕ
half_even n k =
    let q = n / 10 ^ k in
    let twice = 2 * (n % 10 ^ k) in
    if ltb twice (10 ^ k)
    then q
    else if ltb (10 ^ k) twice
    then q + 1
    else if nat_beq (q % 2) 0
    then q
    else q + 1

-- Round to the precision of the context.
pub fix : Decimal → Decimal
unfolding digit_count half_even
fix d =
    let n = magnitude d.coefficient in
    let excess = digit_count n n - precision in
    let kept = half_even n excess in
    if nat_beq excess 0
    then d
    else if leb excess d.scale
    then record { coefficient = with_sign_of d.coefficient kept; scale = d.scale - excess }
    else record {
      coefficient = with_sign_of d.coefficient (kept * 10 ^ (excess - d.scale));
      scale = 0;
    }

-- The coefficient of a number written with `scale + k` places.
abbrev pub rescaled : Decimal → ℕ → ℤ
rescaled d k = d.coefficient *ℤ pos (10 ^ k)

abbrev pub exact_add : Decimal → Decimal → Decimal
exact_add a b =
    if leb a.scale b.scale
    then record { coefficient = rescaled a (b.scale - a.scale) +ℤ b.coefficient; scale = b.scale }
    else record { coefficient = a.coefficient +ℤ rescaled b (a.scale - b.scale); scale = a.scale }

unfoldable pub add : Decimal → Decimal → Decimal
unfolding fix ◌+ℤ◌ ◌*ℤ◌
add a b = fix (exact_add a b)

unfoldable pub sub : Decimal → Decimal → Decimal
unfolding add
sub a b = add a (record { coefficient = b.coefficient *ℤ negsuc 0; scale = b.scale })

unfoldable pub mul : Decimal → Decimal → Decimal
unfolding fix ◌*ℤ◌
mul a b = fix (record { coefficient = a.coefficient *ℤ b.coefficient; scale = a.scale + b.scale })

-- `Decimal(n)`
abbrev pub of_ℕ : ℕ → Decimal
of_ℕ n = record { coefficient = pos n; scale = 0 }

-- The quotient by a positive integer. It is computed with more digits than the context has, a
-- remainder left over is marked in the last digit, and the result is rounded. It keeps trailing
-- zeros that Python drops: the value is the same.
unfoldable pub div_ℕ : Decimal → ℕ → Decimal
unfolding fix
div_ℕ a n =
    let shift = digit_count n n + precision + 1 in
    let m = magnitude a.coefficient * 10 ^ shift in
    let q = m / n in
    let inexact = if nat_beq (m % n) 0 then false else nat_beq (q % 5) 0 in
    fix (record {
      coefficient = with_sign_of a.coefficient (if inexact then q + 1 else q);
      scale = a.scale + shift;
    })

-- `a < b`, exact.
unfoldable pub less : Decimal → Decimal → Bool
unfolding ◌*ℤ◌
less a b = ltb_ℤ (rescaled a b.scale) (rescaled b a.scale)

-- `a <= b`
unfoldable pub less_eq : Decimal → Decimal → Bool
unfolding less
less_eq a b = not (less b a)

-- `max(a, b)`: the first of two that are equal.
unfoldable pub max : Decimal → Decimal → Decimal
unfolding less
max a b = if less a b then b else a
