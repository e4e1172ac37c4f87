-- ===== src/Prelude/Equality.antt =====
-- Equality tests as an interface, with its instances for numbers and texts, and what Python
-- writes with it: `x in xs`, dictionaries with distinct keys.
use Prim.Native.Nat.{ℕ}
use Prim.Native.String.{String}
use mathlib.Core.Path.{◌≡◌, refl}
use mathlib.Core.Logic.{◌↔◌}
use mathlib.Core.Bool.{Bool, true}
use text.Mathlib.Text.{◌==◌ as str_eq}
use text.Mathlib.TextEquality.{eq_iff}
use optaic_trading.Prelude.Tests.{nat_beq, nat_beq_iff}

-- A test for a type, and that it decides equality.
pub record EqTest {ℓ} (A : Type ℓ) : Type ℓ where
  pub same : A → A → Bool
  pub same_iff : (x y : A) → (same x y ≡ true) ↔ (x ≡ y)

instance abbrev pub string_eq : EqTest String
string_eq = record { same = str_eq; same_iff = eq_iff }

infix 50 ◌==◌
abbrev pub ◌==◌ {ℓ} : {A : Type ℓ} ⦃test : EqTest A⦄ → A → A → Bool
◌==◌ ⦃test⦄ x y = test.same x y

instance abbrev pub nat_eq : EqTest ℕ
nat_eq = record { same = nat_beq; same_iff = nat_beq_iff }

pub ==_self {ℓ} : {A : Type ℓ} ⦃test : EqTest A⦄ (x : A) → (x == x) ≡ true
==_self ⦃test⦄ x = (test.same_iff x x).1 refl
