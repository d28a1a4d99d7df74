-- ===== src/Base/Equality.antt =====
-- Equality tests of Python's `==`, as an interface with its law, and its instances.
use Prim.Native.Nat.{ℕ}
use Prim.Native.String.{String}
use mathlib.Core.Path.{◌≡◌, refl}
use mathlib.Core.Logic.{◌↔◌, ◌⊎◌, inl, inr}
use mathlib.Core.Bool.{Bool, true, false}
use text.Mathlib.Text.{◌==◌ as str_eq}
use text.Mathlib.TextEquality.{eq_iff}
use matricxon.Base.Tests.{eqb, eqb_iff}

pub record Eq {ℓ} (A : Type ℓ) : Type ℓ where
  pub beq : A → A → Bool
  pub beq_iff : (x y : A) → (beq x y ≡ true) ↔ (x ≡ y)

abbrev pub holds {ℓ} : {P : Type ℓ} → Dec P → Bool
holds (yes p) = true
holds (no p) = false

pub holds_iff {ℓ} : {P : Type ℓ} (d : Dec P) → (holds d ≡ true) ↔ P
holds_iff (yes p) = (λ _. p, λ _. refl)
holds_iff (no p) = (λ e. cc, λ q. absurd (p q))

-- The test of a type whose equality is decidable.
abbrev pub of_discrete {ℓ} : {A : Type ℓ} → Discrete A → Eq A
of_discrete d = record { beq = λ a b. holds (d a b); beq_iff = λ a b. holds_iff (d a b) }

infix 50 ◌==◌
abbrev pub ◌==◌ {ℓ} : {A : Type ℓ} ⦃e : Eq A⦄ → A → A → Bool
◌==◌ ⦃e⦄ = e.beq

module _ {ℓ} {A : Type ℓ} ⦃e : Eq A⦄ where
  pub beq_self : (a : A) → (a == a) ≡ true
  beq_self a = (e.beq_iff a a).1 refl

  -- To split on an equality test.
  pub beq-cases : (a b : A) → (a ≡ b) ⊎ ((a == b) ≡ false)
  beq-cases a b =
      elim (e.beq a b) as (λ t. t ≡ e.beq a b → (a ≡ b) ⊎ (t ≡ false)) [
        | true ↦ λ h. inl ((e.beq_iff a b).0 (cc))
        | false ↦ λ h. inr refl
      ]
        refl

-- Texts compare by the library's test, numbers by the one of Tests.
instance abbrev pub string_eq : Eq String
string_eq = record { beq_iff = eq_iff; beq = str_eq }

instance abbrev pub nat_eq : Eq ℕ
nat_eq = record { beq_iff = eqb_iff; beq = eqb }

-- Texts, to be used as the keys of dictionaries and in sets.
unfoldable pub string_discrete : Discrete String
string_discrete s t =
    elim (str_eq s t) as (λ b. b ≡ str_eq s t → Dec (s ≡ t)) [
      | true ↦ λ h. yes ((eq_iff s t).0 (cc))
      | false ↦ λ h. no (λ p. cc ((eq_iff s t).1 p))
    ]
      refl
