-- ===== src/Decimal/Order.antt =====
-- The order of decimals, as the budget checks use it.
use aegis_os.Prelude.{◌≡◌, refl, true, not, arith}
use aegis_os.Decimal.{Decimal, less, less_eq}

pub less_eq-not-less : (a b : Decimal) → less_eq a b ≡ not (less b a)
unfolding less_eq
less_eq-not-less a b = refl

-- What is strictly smaller is also smaller or equal.
pub less-less_eq : (a b : Decimal) → less a b ≡ true → less_eq a b ≡ true
unfolding less less_eq
less-less_eq a b h = ground arith
