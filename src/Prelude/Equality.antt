-- ===== src/Prelude/Equality.antt =====
-- Python's `==` on the keys of a dict, as an interface with its instances.
use Prim.Native.Nat.{ℕ}
use Prim.Native.String.{String}
use mathlib.Core.Path.{◌≡◌, refl}
use mathlib.Core.Logic.{◌↔◌, ◌≢◌}
use mathlib.Core.Bool.{Bool, true, false}
use native.Mathlib.Omega.{arith}
use text.Mathlib.Text.{◌==◌ as str_eq}
use text.Mathlib.TextEquality.{eq_iff}
use corshub.Prelude.Tests.{◌==◌, ==_iff}

pub record Eq {ℓ} (A : Type ℓ) : Type ℓ where
  pub test : A → A → Bool
  pub test_iff : (a b : A) → (test a b ≡ true) ↔ (a ≡ b)

abbrev pub nat_test : ℕ → ℕ → Bool
nat_test a b = a == b

instance abbrev pub nat_eq : Eq ℕ
nat_eq = record { test = nat_test; test_iff = ==_iff }

instance abbrev pub string_eq : Eq String
string_eq = record { test = str_eq; test_iff = eq_iff }

module _ {ℓ} {A : Type ℓ} ⦃e : Eq A⦄ where
  abbrev pub same : A → A → Bool
  same a b = e.test a b

  pub same_iff : (a b : A) → (same a b ≡ true) ↔ (a ≡ b)
  same_iff a b = e.test_iff a b

  pub same_refl : (a : A) → same a a ≡ true
  same_refl a = (e.test_iff a a).1 refl

  pub same_ne : (a b : A) → a ≢ b → same a b ≡ false
  same_ne a b h = ground (arith, same_iff a b)
