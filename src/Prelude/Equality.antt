-- ===== src/Prelude/Equality.antt =====
-- Python's `==` on the keys and values that the program compares.
use Prim.Native.Nat.{ℕ}
use Prim.Native.String.{String}
use mathlib.Core.Path.{◌≡◌, refl}
use mathlib.Core.Bool.{Bool, true, false}
use mathlib.Core.Logic.{◌↔◌, ◌≢◌, ◌⊎◌, inl, inr}
use native.Mathlib.Omega.{arith}
use text.Mathlib.Text.{◌==◌ as str_eq}
use text.Mathlib.TextEquality.{eq_iff}
use code_assist_analyzer.Prelude.Tests.{nat_beq, nat_beq_iff, Bool-cases}

-- the method `__eq__` of a type whose equal values are indistinguishable
pub record Eq {ℓ} (Key : Type ℓ) : Type ℓ where
  pub same : Key → Key → Bool
  pub same_iff : (x y : Key) → (same x y ≡ true) ↔ (x ≡ y)

instance abbrev pub string_eq : Eq String
string_eq = record { same_iff = eq_iff; same = str_eq }

module _ {ℓ} {Key : Type ℓ} ⦃e : Eq Key⦄ where
  infix 50 ◌==◌
  abbrev pub ◌==◌ : Key → Key → Bool
  x == y = e.same x y

  pub ==-refl : (k : Key) → (k == k) ≡ true
  ==-refl k = (e.same_iff k k).1 refl

  pub ==-cases : (a b : Key) → ((a ≡ b) × ((a == b) ≡ true)) ⊎ ((a ≢ b) × ((a == b) ≡ false))
  ==-cases a b = elim (Bool-cases (a == b)) [
    | inl h ↦ inl ((e.same_iff a b).0 h, h)
    | inr h ↦ inr (λ p. cc ((e.same_iff a b).1 p), h)
  ]

  pub ==-sym : (a b : Key) → (a == b) ≡ (b == a)
  ==-sym a b = ground (arith, e.same_iff a b, e.same_iff b a)

instance abbrev pub nat_eq : Eq ℕ
nat_eq = record { same_iff = nat_beq_iff; same = nat_beq }
