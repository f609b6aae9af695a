-- ===== src/Prelude/Equality.antt =====
-- Equality tests as an interface: one `==` for numbers and texts.
use Prim.Native.Nat.{ℕ}
use Prim.Native.String.{String}
use mathlib.Core.Path.{◌≡◌, refl}
use mathlib.Core.Bool.{Bool, true, false}
use mathlib.Core.Logic.{◌↔◌}
use text.Mathlib.Text.{◌==◌ as str_eq}
use text.Mathlib.TextEquality.{eq_iff}
use mathlib.Core.List.{List, [], ◌∷◌}
use aegis_os.Prelude.Tests.{nat_beq, nat_beq_iff, if◌then◌else◌}

pub record Eq {ℓ} (K : Type ℓ) : Type ℓ where
  pub beq : K → K → Bool
  pub beq_iff : (j k : K) → (beq j k ≡ true) ↔ (j ≡ k)

-- The keys of the registries by a text.
instance abbrev pub string_eq : Eq String
string_eq = record { beq_iff = eq_iff; beq = str_eq }

module _ {ℓ} {K : Type ℓ} ⦃tests : Eq K⦄ where
  infix 50 ◌==◌
  abbrev pub ◌==◌ : K → K → Bool
  j == k = tests.beq j k

  pub ==_refl : (k : K) → (k == k) ≡ true
  ==_refl k = (tests.beq_iff k k).1 refl

  -- `k in ks`
  unfoldable pub contains : List K → K → Bool
  contains [] k = false
  contains (j ∷ ks) k = if j == k then true else contains ks k

-- The keys that are a number.
instance abbrev pub nat_eq : Eq ℕ
nat_eq = record { beq_iff = nat_beq_iff; beq = nat_beq }
