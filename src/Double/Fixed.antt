-- ===== src/Double/Fixed.antt =====
-- A concrete type of numbers that meets the laws of `IsDouble`: whole multiples of 1 / 10000, with
-- `none` for NaN. The witnesses compute with it.
use native.Mathlib.Nat.{div-le_self, zero-div, div-zero, le-div_iff_mul-le, div-mul-le_self}
use humanoid_navigation.Prelude.{
  ℕ, zero, suc, ◌+◌, ◌-◌, ◌*◌, ◌/◌, ◌^◌, ◌≤◌, refl, Bool, true, false, Option, none, some, arith,
  leb, if◌then◌else◌,
}
use humanoid_navigation.Prelude.Int.{ℤ, pos, pos_part, neg_part, sub_ℕ}
use humanoid_navigation.Double.{Double, LibM, IsDouble, IsFinite, IsNum, ◌≼◌, nought}

abbrev pub Fixed : Type 0
Fixed = Option ℤ

abbrev pub scale : ℕ
scale = 10_000

-- The middle of the ranks, at 0.
abbrev pub middle : ℕ
middle = 10 ^ 15

abbrev fixed_nan : Fixed → Bool
fixed_nan none = true
fixed_nan (some z) = false

abbrev fixed_rank : Fixed → ℕ
fixed_rank none = 0
fixed_rank (some z) = middle + pos_part z - neg_part z

abbrev lift₂ : (ℤ → ℤ → ℤ) → Fixed → Fixed → Fixed
lift₂ f (some a) (some b) = some (f a b)
lift₂ f _ _ = none

abbrev fixed_neg : Fixed → Fixed
fixed_neg none = none
fixed_neg (some z) = some (sub_ℕ (neg_part z) (pos_part z))

abbrev add_ℤ : ℤ → ℤ → ℤ
add_ℤ a b = sub_ℕ (pos_part a + pos_part b) (neg_part a + neg_part b)

abbrev sub_ℤ : ℤ → ℤ → ℤ
sub_ℤ a b = sub_ℕ (pos_part a + neg_part b) (neg_part a + pos_part b)

-- Products and quotients are rounded to the scale.
abbrev mul_ℤ : ℤ → ℤ → ℤ
mul_ℤ a b =
    sub_ℕ ((pos_part a * pos_part b + neg_part a * neg_part b) / scale)
      ((pos_part a * neg_part b + neg_part a * pos_part b) / scale)

abbrev div_ℤ : ℤ → ℤ → ℤ
div_ℤ a b =
    let size = pos_part b + neg_part b in
    sub_ℕ ((if leb (neg_part b) 0 then pos_part a else neg_part a) * scale / size)
      ((if leb (neg_part b) 0 then neg_part a else pos_part a) * scale / size)

abbrev fixed_floor : Fixed → ℤ
fixed_floor none = pos 0
fixed_floor (some z) = sub_ℕ (pos_part z / scale) ((neg_part z + (scale - 1)) / scale)

instance abbrev pub fixed_double : Double Fixed
fixed_double = record {
  is_nan = fixed_nan;
  rank = fixed_rank;
  bottom = 0;
  top = middle + middle;
  decimal = λ n k. some (pos (n * scale / 10 ^ k));
  neg = fixed_neg;
  add = lift₂ add_ℤ;
  sub = lift₂ sub_ℤ;
  mul = lift₂ mul_ℤ;
  div = lift₂ div_ℤ;
}

-- Stand-ins for `math` that the witnesses and tests can evaluate; no law is asked of them.
instance abbrev pub fixed_libm : LibM Fixed
fixed_libm = record {
  sin = λ x. x;
  cos = λ x. some (pos scale);
  atan2 = λ y x. y;
  hypot = lift₂ add_ℤ;
  sqrt = λ x. x;
  degrees = λ x. x;
  round = λ x n. x;
  floor = fixed_floor;
}

quotient_mono : (a b m : ℕ) → a ≤ b → a / m ≤ b / m
quotient_mono a b zero h = omega (arith, div-zero a, div-zero b)
quotient_mono a b (suc m) h =
    (le-div_iff_mul-le (omega arith)).1 (omega (arith, div-mul-le_self a (suc m)))

decimal_small : (n k : ℕ) → n ≤ 10 ^ 6 → n * scale / 10 ^ k ≤ 10 ^ 10
decimal_small n k h = omega (arith, div-le_self (n * scale) (10 ^ k))

decimal-IsFinite : (n k : ℕ) → n ≤ 10 ^ 6 → IsFinite (fixed_double.decimal n k)
decimal-IsFinite n k h = ground (arith, decimal_small n k h)

decimal_mono : (n m k : ℕ) → n ≤ m → fixed_double.decimal n k ≼ fixed_double.decimal m k
decimal_mono n m k h = omega (arith, quotient_mono (n * scale) (m * scale) (10 ^ k) (omega arith))

neg-IsFinite : (x : Fixed) → IsFinite x → IsFinite (fixed_neg x)
neg-IsFinite x h = ground arith

neg_anti : (x y : Fixed) → IsFinite x → IsFinite y → x ≼ y → fixed_neg y ≼ fixed_neg x
neg_anti x y hx hy h = ground arith

sub-IsNum : (x y : Fixed) → IsFinite x → IsNum y → IsNum (fixed_double.sub x y)
sub-IsNum x y hx hy = ground arith

add-IsNum : (x y : Fixed) → IsFinite x → IsNum y → IsNum (fixed_double.add x y)
add-IsNum x y hx hy = ground arith

mul-IsNum : (x y : Fixed) → IsFinite x → IsFinite y → IsNum (fixed_double.mul x y)
mul-IsNum x y hx hy = ground arith

sub_le : (x y : Fixed) → IsFinite x → IsNum y → nought ≼ y → fixed_double.sub x y ≼ x
sub_le x y hx hy h = ground arith

le_add : (x y : Fixed) → IsFinite x → IsNum y → nought ≼ y → x ≼ fixed_double.add x y
le_add x y hx hy h = ground arith

mul_nonneg :
    (x y : Fixed)
    → IsFinite x
    → IsFinite y
    → nought ≼ x
    → nought ≼ y
    → nought ≼ fixed_double.mul x y
mul_nonneg x y hx hy h k = ground arith

pub Fixed-IsDouble : IsDouble Fixed
Fixed-IsDouble = record {
  decimal_finite = decimal-IsFinite;
  decimal_mono = decimal_mono;
  decimal_zero = λ k. omega (arith, zero-div (10 ^ k));
  neg_finite = neg-IsFinite;
  neg_anti = neg_anti;
  neg_zero = refl;
  sub_num = sub-IsNum;
  add_num = add-IsNum;
  sub_le = sub_le;
  le_add = le_add;
  mul_num = mul-IsNum;
  mul_nonneg = mul_nonneg;
}
