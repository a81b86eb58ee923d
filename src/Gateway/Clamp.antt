-- ===== src/Gateway/Clamp.antt =====
-- `_finite_clamp` of host/g1_cmd_vel_bridge.py against the order of the doubles.
use humanoid_navigation.Prelude.{arith}
use humanoid_navigation.Double.{Double, nought, IsNum, IsFinite, ◌≼◌}
use humanoid_navigation.Gateway.Tick.{finite_clamp}

module _ {F : Type 0} ⦃d : Double F⦄ where
  -- Between two finite values a number is finite.
  pub between-IsFinite :
      (x lo hi : F) → IsFinite lo → IsFinite hi → IsNum x → lo ≼ x → x ≼ hi → IsFinite x
  between-IsFinite x lo hi l h n p q = ground arith

  -- A clamp into a proper interval that holds 0 stays in it, whatever the value is, NaN and the
  -- infinities included.
  pub finite_clamp-between :
      (value lo hi : F)
      → IsFinite {F = F} nought
      → IsNum lo
      → IsNum hi
      → lo ≼ nought
      → nought ≼ hi
      → IsNum (finite_clamp value lo hi)
        × (lo ≼ finite_clamp value lo hi)
        × (finite_clamp value lo hi ≼ hi)
  unfolding finite_clamp
  finite_clamp-between value lo hi z l h p q = ground arith

  -- A finite value within [a, b] that is clamped around a middle value of [a, b] stays in [a, b].
  pub finite_clamp-slew :
      (value lo hi mid a b : F)
      → IsFinite value
      → IsNum lo
      → IsNum hi
      → lo ≼ mid
      → mid ≼ hi
      → a ≼ mid
      → mid ≼ b
      → a ≼ value
      → value ≼ b
      → IsNum (finite_clamp value lo hi)
        × (a ≼ finite_clamp value lo hi)
        × (finite_clamp value lo hi ≼ b)
        × (lo ≼ finite_clamp value lo hi)
        × (finite_clamp value lo hi ≼ hi)
  unfolding finite_clamp
  finite_clamp-slew value lo hi mid a b v l h p q am mb av vb = ground arith
