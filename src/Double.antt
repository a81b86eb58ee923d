-- ===== src/Double.antt =====
-- The floating-point numbers of the program (Python's `float`, an IEEE-754 double), which no file
-- of the repository implements: a type of values with their comparisons and arithmetic, and the
-- documented behaviour of that arithmetic. A value that is no NaN has its place in the order of the
-- doubles as its `rank`; the infinities are at `bottom` and `top`.
pub mod Fixed
use humanoid_navigation.Prelude.Int.{ℤ}
use humanoid_navigation.Prelude.{
  ℕ, ◌^◌, ◌≤◌, ◌≡◌, Bool, true, false, ◌&&◌, not, ltb, leb, ◌==◌, if◌then◌else◌,
}

-- The floating-point type.
pub record Double (F : Type 0) : Type 0 where
  pub is_nan : F → Bool
  pub rank : F → ℕ
  pub bottom : ℕ
  pub top : ℕ
  -- `decimal n k` is the double nearest to n / 10 ^ k.
  pub decimal : ℕ → ℕ → F
  pub neg : F → F
  pub add : F → F → F
  pub sub : F → F → F
  pub mul : F → F → F
  pub div : F → F → F

-- The functions of `math` and the built-in `round` that the nodes call.
pub record LibM (F : Type 0) : Type 0 where
  pub sin : F → F
  pub cos : F → F
  pub atan2 : F → F → F
  pub hypot : F → F → F
  pub sqrt : F → F
  pub degrees : F → F
  -- `round(x, n)`
  pub round : F → ℕ → F
  -- `int(math.floor(x))`
  pub floor : F → ℤ

module _ {F : Type 0} ⦃d : Double F⦄ where
  open d use {is_nan, rank, bottom, top, decimal, neg}

  abbrev pub nought : F
  nought = decimal 0 0

  -- The comparisons are false where either side is NaN.
  abbrev pub both_num : F → F → Bool
  both_num x y = not (is_nan x) && not (is_nan y)

  abbrev pub lt : F → F → Bool
  lt x y = both_num x y && ltb (rank x) (rank y)

  abbrev pub le : F → F → Bool
  le x y = both_num x y && leb (rank x) (rank y)

  abbrev pub eq : F → F → Bool
  eq x y = both_num x y && rank x == rank y

  -- `math.isfinite`
  abbrev pub is_finite : F → Bool
  is_finite x = not (is_nan x) && (ltb bottom (rank x) && ltb (rank x) top)

  -- The built-ins `max(a, b)`, `min(a, b)` and `abs(a)`: the first argument stays unless the second
  -- is strictly beyond it.
  abbrev pub py_max : F → F → F
  py_max a b = if lt a b then b else a

  abbrev pub py_min : F → F → F
  py_min a b = if lt b a then b else a

  abbrev pub py_abs : F → F
  py_abs a = if lt a nought then neg a else a

  abbrev pub IsNum : F → Type 0
  IsNum x = is_nan x ≡ false

  abbrev pub IsFinite : F → Type 0
  IsFinite x = is_finite x ≡ true

  infix 50 ◌≼◌
  abbrev pub ◌≼◌ : F → F → Type 0
  x ≼ y = rank x ≤ rank y

-- What IEEE-754 says of the operations. Rounding is monotone, so an exact bound that is itself a
-- double bounds the rounded result.
pub record IsDouble (F : Type 0) ⦃d : Double F⦄ : Type 0 where
  pub decimal_finite : (n k : ℕ) → n ≤ 10 ^ 6 → IsFinite (d.decimal n k)
  pub decimal_mono : (n m k : ℕ) → n ≤ m → d.decimal n k ≼ d.decimal m k
  pub decimal_zero : (k : ℕ) → d.rank (d.decimal 0 k) ≡ d.rank nought
  pub neg_finite : (x : F) → IsFinite x → IsFinite (d.neg x)
  pub neg_anti : (x y : F) → IsFinite x → IsFinite y → x ≼ y → d.neg y ≼ d.neg x
  pub neg_zero : d.rank (d.neg nought) ≡ d.rank nought
  pub sub_num : (x y : F) → IsFinite x → IsNum y → IsNum (d.sub x y)
  pub add_num : (x y : F) → IsFinite x → IsNum y → IsNum (d.add x y)
  pub sub_le : (x y : F) → IsFinite x → IsNum y → nought ≼ y → d.sub x y ≼ x
  pub le_add : (x y : F) → IsFinite x → IsNum y → nought ≼ y → x ≼ d.add x y
  pub mul_num : (x y : F) → IsFinite x → IsFinite y → IsNum (d.mul x y)
  pub mul_nonneg :
      (x y : F) → IsFinite x → IsFinite y → nought ≼ x → nought ≼ y → nought ≼ d.mul x y
