-- ===== src/Prelude/Result.antt =====
-- Python's exceptions as values, for chains of steps that may raise.
use mathlib.Core.Path.{◌≡◌, refl, subst}
use mathlib.Core.Option.{Option, none, some}
use Prim.Native.Nat.{ℕ, zero, suc}
use mathlib.Core.List.{List, [], ◌∷◌}
use mathlib.Core.Bool.{Bool, true, false}
use humanoid_navigation.Prelude.Tests.{if◌then◌else◌}

-- The classes of the exceptions that the code raises.
pub data Fault : Type 0 where
  value_error : Fault
  key_error : Fault
  index_error : Fault
  overflow_error : Fault
  zero_division_error : Fault

-- What a call that may raise comes to.
pub data Result {ℓ} (A : Type ℓ) : Type ℓ where
  ok : A → Result A
  raised : Fault → Result A

module _ {ℓ} {A : Type ℓ} where
  infixl 5 ◌>>=◌
  abbrev pub ◌>>=◌ {κ} : {C : Type κ} → Result A → (A → Result C) → Result C
  raised fault >>= next = raised fault
  ok value >>= next = next value

  abbrev pub from_option : Fault → Option A → Result A
  from_option fault none = raised fault
  from_option fault (some value) = ok value

  IsRaised : Result A → Type 0
  IsRaised (ok value) = ⊥
  IsRaised (raised fault) = Unit

  pub raised≢ok : {fault : Fault} {value : A} → raised fault ≡ ok value → ⊥
  unfolding IsRaised
  raised≢ok p = subst IsRaised p tt

  abbrev pub is_raised : Result A → Bool
  is_raised (ok value) = false
  is_raised (raised fault) = true

  value_or : A → Result A → A
  value_or other (raised fault) = other
  value_or other (ok value) = value

  pub ok-injective : {x y : A} → ok x ≡ ok y → x ≡ y
  unfolding value_or
  ok-injective {x = x} p = λ i. value_or x (p i)

module _ {ℓ κ} {A : Type ℓ} {C : Type κ} where
  -- The step that came first has returned, and the rest has, from its value.
  pub both_return :
      (first : Result A) (rest : A → Result C) {end : C}
      → first >>= rest ≡ ok end
      → (value : A) × (first ≡ ok value) × (rest value ≡ ok end)
  both_return (raised fault) rest h = absurd (raised≢ok h)
  both_return (ok value) rest h = (value, refl, h)

-- A test that returns has passed.
pub if-eq-ok {ℓ} :
    {A : Type ℓ} (b : Bool) (x : A) (e : Fault) {y : A}
    → (if b then ok x else raised e) ≡ ok y
    → (b ≡ true) × (x ≡ y)
if-eq-ok true x e h = (refl, ok-injective h)
if-eq-ok false x e h = absurd (raised≢ok h)

-- An element by its index; one that is out of range raises.
unfoldable pub nth {ℓ} : {A : Type ℓ} → List A → ℕ → Result A
nth [] n = raised index_error
nth (a ∷ xs) zero = ok a
nth (a ∷ xs) (suc n) = nth xs n
