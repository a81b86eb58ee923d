-- ===== src/Gateway/BadInput.antt =====
-- `Bridge.tick` of host/g1_cmd_vel_bridge.py on a message whose speed is no finite number.
use humanoid_navigation.Prelude.{
  ◌≡◌, ◌⊎◌, Bool, false, Option, none, some, arith, Bool-cases, inl, inr,
}
use humanoid_navigation.Double.{Double, LibM, IsDouble, nought, is_finite, IsFinite, ◌≼◌}
use humanoid_navigation.Gateway.{Command, Twist}
use humanoid_navigation.Gateway.Bridge.{Bridge}
use humanoid_navigation.Gateway.Tick.{
  finite_clamp, time_step, arm_edge, is_enabled, targets, slew, velocity, tick,
}
use humanoid_navigation.Gateway.Bounds.{InLimits, slew_part, time_step_bounds, arm_edge-last}
use humanoid_navigation.Gateway.Limits.{last}

module _ {F : Type 0} ⦃d : Double F⦄ (laws : IsDouble F) where
  open laws use {decimal_finite, decimal_mono, decimal_zero}

  targets_stop :
      (now : F) (msg : Twist F) (since : Option F)
      → is_finite msg.linear_x ≡ false
      → (targets now msg since).1.0 ≡ nought
  unfolding targets finite_clamp
  targets_stop now msg since bad = ground (arith, decimal_mono 0 20 2, decimal_zero 2)

  slew_stops :
      (dt : F) (s : Bridge F) (target : Command F)
      → IsFinite dt
      → nought ≼ dt
      → InLimits (last s)
      → target.0 ≡ nought
      → (slew dt s target).0 ≼ s.last_vx
  unfolding slew
  slew_stops dt s target fin pos old still = rw still (
      (slew_part laws nought s.last_vx dt nought s.last_vx 10 2 (omega arith) fin pos old.vx_finite
        old.vx_forward (omega arith) (decimal_finite 0 0 (omega arith)) (omega arith)
        old.vx_forward).2)

  velocity_slows :
      (now dt : F) (armed : Bool) (s : Bridge F) (msg : Twist F)
      → IsFinite dt
      → nought ≼ dt
      → InLimits (last s)
      → is_finite msg.linear_x ≡ false
      → (s.latest ≡ none) ⊎ (s.latest ≡ some msg)
      → (velocity now dt armed s).1.0 ≼ s.last_vx
  unfolding velocity
  velocity_slows now dt armed s msg fin pos old bad (inl e) = rw (e, velocity) old.vx_forward
  velocity_slows now dt armed s msg fin pos old bad (inr e) =
      elim (Bool-cases (is_enabled now armed s)) [
        | inl on ↦
            rw (e, velocity)
              (rw on (slew_stops dt s _ fin pos old (targets_stop now msg s.motion_since bad)))
        | inr off ↦ rw (e, velocity) (rw off old.vx_forward)
      ]

  arm_edge_latest :
      (now : F) (armed : Bool) (s : Bridge F) (msg : Twist F)
      → s.latest ≡ some msg
      → ((arm_edge now armed s).0.latest ≡ none) ⊎ ((arm_edge now armed s).0.latest ≡ some msg)
  unfolding arm_edge
  arm_edge_latest now armed s msg kept = ground arith

  module _ ⦃m : LibM F⦄ where
    -- Over floating-point numbers with the laws of `IsDouble`: from a command within the limits,
    -- a tick whose message has a forward speed that is NaN or infinite commands no greater
    -- forward speed than before.
    pub tick-slows :
        (now : F) (armed : Bool) (s : Bridge F) (msg : Twist F)
        → s.latest ≡ some msg
        → is_finite msg.linear_x ≡ false
        → InLimits (last s)
        → (tick now armed s).1.command.0 ≼ s.last_vx
    unfolding tick
    tick-slows now armed s msg kept bad old =
        let ticked : Bridge F = record s { last_tick = now } in
        let next : Bridge F = (arm_edge now armed ticked).0 in
        let edge = arm_edge-last laws now armed ticked in
        let dt = time_step_bounds laws now s in
        let slow =
          velocity_slows now (time_step now s) armed next msg dt.0 dt.1 (rw (edge.0, edge.1) old)
            bad (arm_edge_latest now armed ticked msg kept) in
        rw edge.0 at slow
