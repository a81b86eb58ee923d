-- ===== src/Gateway/Bounds.antt =====
-- The velocity limits of host/g1_cmd_vel_bridge.py: targets, slew and the velocity of one tick.
use humanoid_navigation.Prelude.{
  ℕ, ◌≤◌, ◌≡◌, Bool-cases, Option-cases, inl, inr, Bool, Option, arith,
}
use humanoid_navigation.Double.{Double, IsDouble, nought, py_min, IsNum, IsFinite, ◌≼◌}
use humanoid_navigation.Gateway.{Command, Twist, max_vx, max_wz, first_max_vx}
use humanoid_navigation.Gateway.Bridge.{Bridge}
use humanoid_navigation.Gateway.Tick.{
  finite_clamp, motion_clock, in_first_motion, time_step, is_enabled, arm_edge, targets, slew,
  velocity,
}
use humanoid_navigation.Gateway.Clamp.{between-IsFinite, finite_clamp-between, finite_clamp-slew}

module _ {F : Type 0} ⦃d : Double F⦄ where
  open d use {neg, decimal, mul, add, sub}

  -- A command within the limits: finite, forward only, and with a bounded turn rate.
  pub record InLimits (c : Command F) : Type 0 where
    pub vx_finite : IsFinite (c.0)
    pub vx_forward : nought ≼ c.0
    pub vx_le : c.0 ≼ max_vx
    pub wz_finite : IsFinite (c.1)
    pub wz_ge : neg max_wz ≼ c.1
    pub wz_le : c.1 ≼ max_wz

  pub finite-IsNum : (x : F) → IsFinite x → IsNum x
  finite-IsNum x h = ground arith

  module _ (laws : IsDouble F) where
    open laws use {
      decimal_finite, decimal_mono, decimal_zero, neg_finite, neg_anti, neg_zero, sub_num, add_num,
      sub_le, le_add, mul_num, mul_nonneg,
    }

    nought-IsFinite : IsFinite {F = F} nought
    nought-IsFinite = decimal_finite 0 0 (omega arith)

    limit-IsFinite : IsFinite {F = F} max_vx
    limit-IsFinite = decimal_finite 20 2 (omega arith)

    nought-le-decimal : (n k : ℕ) → nought {F = F} ≼ decimal n k
    nought-le-decimal n k = omega (arith, decimal_mono 0 n k (omega arith), decimal_zero k)

    neg_limit-le-nought : neg max_wz ≼ nought {F = F}
    neg_limit-le-nought = omega (
      arith,
      neg_zero,
      neg_anti nought max_wz nought-IsFinite limit-IsFinite (nought-le-decimal 20 2),
    )

    -- Standing still is within the limits.
    pub nought-InLimits : InLimits (nought, nought)
    nought-InLimits = record {
      vx_finite = nought-IsFinite;
      vx_forward = omega arith;
      vx_le = nought-le-decimal 20 2;
      wz_finite = nought-IsFinite;
      wz_ge = neg_limit-le-nought;
      wz_le = nought-le-decimal 20 2;
    }

    InLimits-intro :
        (vx wz : F)
        → IsNum vx
        → nought ≼ vx
        → vx ≼ max_vx
        → IsNum wz
        → neg max_wz ≼ wz
        → wz ≼ max_wz
        → InLimits (vx, wz)
    InLimits-intro vx wz nv a b nw p q = record {
      vx_finite = between-IsFinite vx nought max_vx nought-IsFinite limit-IsFinite nv a b;
      vx_forward = a;
      vx_le = b;
      wz_finite =
          between-IsFinite wz (neg max_wz) max_wz (neg_finite max_wz limit-IsFinite) limit-IsFinite
            nw p q;
      wz_ge = p;
      wz_le = q;
    }

    clamp_turn :
        (value : F)
        → IsNum (finite_clamp value (neg max_wz) max_wz)
          × (neg max_wz ≼ finite_clamp value (neg max_wz) max_wz)
          × (finite_clamp value (neg max_wz) max_wz ≼ max_wz)
    clamp_turn value =
        finite_clamp-between value (neg max_wz) max_wz nought-IsFinite
          (finite-IsNum _ (neg_finite max_wz limit-IsFinite)) (finite-IsNum max_vx limit-IsFinite)
          neg_limit-le-nought (nought-le-decimal 20 2)

    clamp_forward :
        (value : F)
        → IsNum (finite_clamp value nought max_vx)
          × (nought ≼ finite_clamp value nought max_vx)
          × (finite_clamp value nought max_vx ≼ max_vx)
    clamp_forward value =
        finite_clamp-between value nought max_vx nought-IsFinite
          (finite-IsNum nought nought-IsFinite) (finite-IsNum max_vx limit-IsFinite) (omega arith)
          (nought-le-decimal 20 2)

    pub targets-InLimits :
        (now : F) (msg : Twist F) (since : Option F) → InLimits (targets now msg since).1
    unfolding targets
    targets-InLimits now msg since =
        let v = clamp_forward msg.linear_x in
        let w = clamp_turn msg.angular_z in
        let w' = clamp_turn (finite_clamp msg.angular_z (neg max_wz) max_wz) in
        let vx : F = finite_clamp msg.linear_x nought max_vx in
        let wz : F = finite_clamp msg.angular_z (neg max_wz) max_wz in
        let clock : Option F = motion_clock now vx wz since in
        elim (Bool-cases (in_first_motion now clock)) [
          | inl first ↦ rw first (
              InLimits-intro (py_min vx first_max_vx) _ (ground arith) (ground arith) (ground arith)
                w'.0 w'.1 w'.2)
          | inr later ↦ rw later (InLimits-intro vx wz v.0 v.1 v.2 w.0 w.1 w.2)
        ]

    -- One component of the slew: the clamped value stays in the band that the last value and the
    -- target share, and within the rate of the last value.
    pub slew_part :
        (value last dt a b : F) (n k : ℕ)
        → n ≤ 100
        → IsFinite dt
        → nought ≼ dt
        → IsFinite last
        → a ≼ last
        → last ≼ b
        → IsFinite value
        → a ≼ value
        → value ≼ b
        → let lo = sub last (mul (decimal n k) dt) in
          let hi = add last (mul (decimal n k) dt) in
          IsNum (finite_clamp value lo hi)
          × (a ≼ finite_clamp value lo hi)
          × (finite_clamp value lo hi ≼ b)
          × (lo ≼ finite_clamp value lo hi)
          × (finite_clamp value lo hi ≼ hi)
    slew_part value last dt a b n k small fin pos lf al lb vf av vb =
        let rate = decimal_finite n k (omega arith) in
        let num = mul_num (decimal n k) dt rate fin in
        let up = mul_nonneg (decimal n k) dt rate fin (nought-le-decimal n k) pos in
        finite_clamp-slew value _ _ last a b vf (sub_num last _ lf num) (add_num last _ lf num)
          (sub_le last _ lf num up) (le_add last _ lf num up) al lb av vb

    slew-InLimits :
        (dt : F) (s : Bridge F) (target : Command F)
        → IsFinite dt
        → nought ≼ dt
        → InLimits (s.last_vx, s.last_wz)
        → InLimits target
        → InLimits (slew dt s target)
    unfolding slew
    slew-InLimits dt s target fin pos old new =
        let v =
          slew_part target.0 s.last_vx dt nought max_vx 10 2 (omega arith) fin pos old.vx_finite
            old.vx_forward old.vx_le new.vx_finite new.vx_forward new.vx_le in
        let w =
          slew_part target.1 s.last_wz dt (neg max_wz) max_wz 20 2 (omega arith) fin pos
            old.wz_finite old.wz_ge old.wz_le new.wz_finite new.wz_ge new.wz_le in
        InLimits-intro _ _ v.0 v.1 v.2 w.0 w.1 w.2

    pub time_step_bounds :
        (now : F) (s : Bridge F) → IsFinite (time_step now s) × (nought ≼ time_step now s)
    unfolding time_step
    time_step_bounds now s =
        ground (arith, nought-IsFinite, decimal_finite 25 2, nought-le-decimal 25 2)

    pub velocity-InLimits :
        (now dt : F) (armed : Bool) (s : Bridge F)
        → IsFinite dt
        → nought ≼ dt
        → InLimits (s.last_vx, s.last_wz)
        → InLimits (velocity now dt armed s).1
    unfolding velocity
    velocity-InLimits now dt armed s fin pos old = elim (Option-cases s.latest) [
      | inl e ↦ rw (e, velocity) nought-InLimits
      | inr (msg, e) ↦ elim (Bool-cases (is_enabled now armed s)) [
        | inl on ↦
            rw (e, velocity)
              (rw on (slew-InLimits dt s _ fin pos old (targets-InLimits now msg s.motion_since)))
        | inr off ↦ rw (e, velocity) (rw off nought-InLimits)
      ]
    ]

    pub arm_edge-last :
        (now : F) (armed : Bool) (s : Bridge F)
        → ((arm_edge now armed s).0.last_vx ≡ s.last_vx)
          × ((arm_edge now armed s).0.last_wz ≡ s.last_wz)
    unfolding arm_edge
    arm_edge-last now armed s = ground arith
