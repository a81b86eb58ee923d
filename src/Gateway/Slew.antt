-- ===== src/Gateway/Slew.antt =====
-- The slew limit of `Bridge.tick` of host/g1_cmd_vel_bridge.py.
use humanoid_navigation.Prelude.{◌≡◌, ◌⊎◌, refl, Bool, arith, Bool-cases, Option-cases, inl, inr}
use humanoid_navigation.Double.{Double, LibM, IsDouble, nought, IsFinite, ◌≼◌}
use humanoid_navigation.Gateway.{Command, max_vx, max_wz, max_dvx_per_s, max_dwz_per_s}
use humanoid_navigation.Gateway.Bridge.{Bridge}
use humanoid_navigation.Gateway.Tick.{time_step, arm_edge, is_enabled, slew, velocity, tick}
use humanoid_navigation.Gateway.Bounds.{
  InLimits, slew_part, targets-InLimits, time_step_bounds, arm_edge-last,
}
use humanoid_navigation.Gateway.Limits.{last}

module _ {F : Type 0} ⦃d : Double F⦄ where
  open d use {mul, add, sub, neg}

  -- Within the rates of the previous command `old`, for a time step.
  pub record IsNear (dt : F) (old new : Command F) : Type 0 where
    pub vx_ge : sub old.0 (mul max_dvx_per_s dt) ≼ new.0
    pub vx_le : new.0 ≼ add old.0 (mul max_dvx_per_s dt)
    pub wz_ge : sub old.1 (mul max_dwz_per_s dt) ≼ new.1
    pub wz_le : new.1 ≼ add old.1 (mul max_dwz_per_s dt)

  module _ (laws : IsDouble F) where
    slew-IsNear :
        (dt : F) (s : Bridge F) (target : Command F)
        → IsFinite dt
        → nought ≼ dt
        → InLimits (last s)
        → InLimits target
        → IsNear dt (last s) (slew dt s target)
    unfolding slew
    slew-IsNear dt s target fin pos old new =
        let v =
          slew_part laws target.0 s.last_vx dt nought max_vx 10 2 (omega arith) fin pos
            old.vx_finite old.vx_forward old.vx_le new.vx_finite new.vx_forward new.vx_le in
        let w =
          slew_part laws target.1 s.last_wz dt (neg max_wz) max_wz 20 2 (omega arith) fin pos
            old.wz_finite old.wz_ge old.wz_le new.wz_finite new.wz_ge new.wz_le in
        record { vx_ge = v.3; vx_le = v.4; wz_ge = w.3; wz_le = w.4 }

    velocity-IsNear :
        (now dt : F) (armed : Bool) (s : Bridge F)
        → IsFinite dt
        → nought ≼ dt
        → InLimits (last s)
        → ((velocity now dt armed s).1 ≡ (nought, nought))
          ⊎ IsNear dt (last s) (velocity now dt armed s).1
    unfolding velocity
    velocity-IsNear now dt armed s fin pos old = elim (Option-cases s.latest) [
      | inl e ↦ rw (e, velocity) (inl refl)
      | inr (msg, e) ↦ elim (Bool-cases (is_enabled now armed s)) [
        | inl on ↦
            rw (e, velocity)
              (rw on (
                inr
                  (slew-IsNear dt s _ fin pos old (targets-InLimits laws now msg s.motion_since))))
        | inr off ↦ rw (e, velocity) (rw off (inl refl))
      ]
    ]

    module _ ⦃m : LibM F⦄ where
      -- Over floating-point numbers with the laws of `IsDouble`: from a command within the
      -- limits, a tick either stops at once or changes each component by at most its rate times
      -- the time step: 0.10 m/s² forward and 0.20 rad/s² in turning.
      pub tick-IsNear :
          (now : F) (armed : Bool) (s : Bridge F)
          → InLimits (last s)
          → ((tick now armed s).1.command ≡ (nought, nought))
            ⊎ IsNear (time_step now s) (last s) (tick now armed s).1.command
      unfolding tick
      tick-IsNear now armed s old =
          let ticked : Bridge F = record s { last_tick = now } in
          let edge = arm_edge-last laws now armed ticked in
          let dt = time_step_bounds laws now s in
          let near =
            velocity-IsNear now (time_step now s) armed (arm_edge now armed ticked).0 dt.0 dt.1
              (rw (edge.0, edge.1) old) in
          rw (edge.0, edge.1) at near
