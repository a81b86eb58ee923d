-- ===== src/Gateway/Follow.antt =====
-- `Bridge.tick` of host/g1_cmd_vel_bridge.py on a command that no limit has to change.
use humanoid_navigation.Prelude.{◌≡◌, refl, true, Option, some, arith, Bool-cases, inl, inr}
use humanoid_navigation.Double.{Double, LibM, IsDouble, nought, le, IsNum, IsFinite, ◌≼◌, py_min}
use humanoid_navigation.Gateway.{
  Command, Twist, max_vx, max_wz, first_max_vx, first_max_wz, arm_settle_s, cmd_timeout_s,
}
use humanoid_navigation.Gateway.Bridge.{Bridge}
use humanoid_navigation.Gateway.Tick.{
  finite_clamp, time_step, arm_edge, is_fresh, is_enabled, motion_clock, in_first_motion, targets,
  slew, velocity, tick,
}
use humanoid_navigation.Gateway.Bounds.{InLimits, finite-IsNum, time_step_bounds}
use humanoid_navigation.Gateway.Limits.{last}
use humanoid_navigation.Gateway.Slew.{IsNear}

module _ {F : Type 0} ⦃d : Double F⦄ where
  open d use {rank, add, sub, mul, decimal, neg}

  -- The same number: no NaN, and at the same place in the order.
  pub record IsSame (x y : F) : Type 0 where
    pub finite : IsFinite x
    pub place : rank x ≡ rank y

  clamp-IsSame :
      (value wanted lo hi : F)
      → IsSame value wanted
      → IsNum lo
      → IsNum hi
      → lo ≼ wanted
      → wanted ≼ hi
      → IsSame (finite_clamp value lo hi) wanted
  unfolding finite_clamp
  clamp-IsSame value wanted lo hi same l h p q = record {
    finite = ground (arith, same.finite, same.place);
    place = ground (arith, same.finite, same.place);
  }

  min-IsSame :
      (value wanted hi : F)
      → IsSame value wanted
      → wanted ≼ hi
      → IsNum hi
      → IsSame (py_min value hi) wanted
  min-IsSame value wanted hi same q h = record {
    finite = ground (arith, same.finite, same.place);
    place = ground (arith, same.finite, same.place);
  }

  module _ (laws : IsDouble F) where
    open laws use {decimal_finite, neg_finite, mul_num, sub_num, add_num}

    limit-IsNum : IsNum {F = F} max_vx
    limit-IsNum = finite-IsNum {F = F} max_vx (decimal_finite 20 2 (omega arith))

    nought-IsNum : IsNum {F = F} nought
    nought-IsNum = finite-IsNum {F = F} nought (decimal_finite 0 0 (omega arith))

    neg_limit-IsNum : IsNum {F = F} (neg max_wz)
    neg_limit-IsNum = finite-IsNum {F = F} _ (neg_finite max_wz (decimal_finite 20 2 (omega arith)))

    targets-IsSame :
        (now : F) (msg : Twist F) (since : Option F)
        → InLimits (msg.linear_x, msg.angular_z)
        → IsSame (targets now msg since).1.0 msg.linear_x
          × IsSame (targets now msg since).1.1 msg.angular_z
    unfolding targets
    targets-IsSame now msg since ok =
        let vx : F = finite_clamp msg.linear_x nought max_vx in
        let wz : F = finite_clamp msg.angular_z (neg max_wz) max_wz in
        let v =
          clamp-IsSame msg.linear_x msg.linear_x nought max_vx
            (record { finite = ok.vx_finite; place = refl }) nought-IsNum limit-IsNum ok.vx_forward
            ok.vx_le in
        let w =
          clamp-IsSame msg.angular_z msg.angular_z (neg max_wz) max_wz
            (record { finite = ok.wz_finite; place = refl }) neg_limit-IsNum limit-IsNum ok.wz_ge
            ok.wz_le in
        elim (Bool-cases (in_first_motion now (motion_clock now vx wz since))) [
          | inl first ↦ rw first (
            min-IsSame vx msg.linear_x first_max_vx v ok.vx_le limit-IsNum,
            clamp-IsSame wz msg.angular_z (neg first_max_wz) first_max_wz w neg_limit-IsNum
                limit-IsNum ok.wz_ge ok.wz_le,
          )
          | inr later ↦ rw later (v, w)
        ]

    slew-IsSame :
        (dt : F) (s : Bridge F) (target wanted : Command F)
        → IsFinite dt
        → InLimits (last s)
        → IsNear dt (last s) wanted
        → IsSame target.0 wanted.0
        → IsSame target.1 wanted.1
        → IsSame (slew dt s target).0 wanted.0 × IsSame (slew dt s target).1 wanted.1
    unfolding slew
    slew-IsSame dt s target wanted fin old near v w =
        let dv = mul_num (decimal 10 2) dt (decimal_finite 10 2 (omega arith)) fin in
        let dw = mul_num (decimal 20 2) dt (decimal_finite 20 2 (omega arith)) fin in
        (
          clamp-IsSame target.0 wanted.0 _ _ v (sub_num s.last_vx _ old.vx_finite dv)
              (add_num s.last_vx _ old.vx_finite dv) near.vx_ge near.vx_le,
          clamp-IsSame target.1 wanted.1 _ _ w (sub_num s.last_wz _ old.wz_finite dw)
              (add_num s.last_wz _ old.wz_finite dw) near.wz_ge near.wz_le,
        )

    velocity_on :
        (now dt : F) (s : Bridge F) (msg : Twist F)
        → s.latest ≡ some msg
        → is_enabled now true s ≡ true
        → (velocity now dt true s).1 ≡ slew dt s (targets now msg s.motion_since).1
    unfolding velocity
    velocity_on now dt s msg kept on = ground arith

    enabled_on :
        (now : F) (s : Bridge F) (msg : Twist F)
        → le arm_settle_s (sub now s.armed_since) ≡ true
        → s.latest ≡ some msg
        → le (sub now s.latest_time) cmd_timeout_s ≡ true
        → is_enabled now true s ≡ true
    unfolding is_enabled is_fresh
    enabled_on now s msg settled kept fresh = ground arith

    stays_armed :
        (now : F) (s : Bridge F)
        → s.was_armed ≡ true
        → (arm_edge now true s).0 ≡ record s { was_armed = true }
    unfolding arm_edge
    stays_armed now s on = ground arith

    module _ ⦃m : LibM F⦄ where
      tick_command :
          (now : F) (s : Bridge F)
          → (tick now true s).1.command
            ≡ (velocity now
                (time_step now s)
                true
                (arm_edge now true (record s { last_tick = now })).0).1
      unfolding tick
      tick_command now s = refl

      -- Over floating-point numbers with the laws of `IsDouble`: while the robot has been armed for the
      -- settling time and a message within the limits is fresh, a tick whose last command is within
      -- the limits and within the rates of that message commands the velocities of the message.
      pub tick-IsSame :
          (now : F) (s : Bridge F) (msg : Twist F)
          → s.was_armed ≡ true
          → le arm_settle_s (sub now s.armed_since) ≡ true
          → s.latest ≡ some msg
          → le (sub now s.latest_time) cmd_timeout_s ≡ true
          → InLimits (msg.linear_x, msg.angular_z)
          → InLimits (last s)
          → IsNear (time_step now s) (last s) (msg.linear_x, msg.angular_z)
          → IsSame (tick now true s).1.command.0 msg.linear_x
            × IsSame (tick now true s).1.command.1 msg.angular_z
      tick-IsSame now s msg on settled kept fresh ok old near =
          let next : Bridge F = record s { last_tick = now; was_armed = true } in
          let target = targets-IsSame now msg s.motion_since ok in
          let same =
            slew-IsSame (time_step now s) next (targets now msg s.motion_since).1
              (msg.linear_x, msg.angular_z) (time_step_bounds laws now s).0 old near target.0
              target.1 in
          rw (tick_command now s) (
            rw (stays_armed now (record s { last_tick = now }) on) (
              rw
                (velocity_on now (time_step now s) next msg kept
                  (enabled_on now next msg settled kept fresh))
                same))
