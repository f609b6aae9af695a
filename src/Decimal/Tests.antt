-- ===== src/Decimal/Tests.antt =====
-- Runs of the decimal arithmetic.
use aegis_os.Prelude.{◌≡◌, refl}
use aegis_os.Prelude.Int.{pos}
use aegis_os.Decimal.{Decimal, mul, div_ℕ, of_ℕ}

abbrev cents : Decimal
cents = record { coefficient = pos 1; scale = 5 }

-- 0.00001 / 3 has 28 significant digits, so three times it falls short of 0.00001.
third_is_inexact :
    mul (of_ℕ 3) (div_ℕ cents 3)
    ≡ record { coefficient = pos 9999999999999999999999999999; scale = 33 }
unfolding mul div_ℕ
third_is_inexact = refl
