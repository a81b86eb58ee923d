-- ===== src/Gateway/Tick.antt =====
-- `Bridge.tick` of host/g1_cmd_vel_bridge.py, the control step at 10 Hz: arming, freshness, limits,
-- slew and what is put on the queue and published.
use humanoid_navigation.Prelude.{
  Bool, false, ◌&&◌, ◌||◌, not, Option, none, some, List, [], ◌∷◌, ◌++◌, if◌then◌else◌, eq_bool,
  is_some,
}
use humanoid_navigation.Double.{Double, LibM, nought, lt, le, eq, is_finite, py_max, py_min, py_abs}
use humanoid_navigation.Gateway.{
  Twist, Command, cmd_timeout_s, max_vx, max_wz, max_dvx_per_s, max_dwz_per_s, first_motion_s,
  first_max_vx, first_max_wz, arm_settle_s, max_dt_s,
}
use humanoid_navigation.Gateway.Bridge.{
  Bridge, Log, armed_transition, disarmed_transition, state_summary,
}

-- What a tick sends out: the queue's item, the two publications and the log.
pub record Output (F : Type 0) : Type 0 where
  pub command : Command F
  pub limited : Twist F
  pub armed : Bool
  pub logs : List (Log F)

module _ {F : Type 0} ⦃d : Double F⦄ where
  open d use {decimal, neg, add, sub, mul}

  unfoldable pub finite_clamp : F → F → F → F
  finite_clamp value low high = if is_finite value then py_max low (py_min high value) else nought

  -- The step of the clock, cut to [0, 0.25].
  unfoldable pub time_step : F → Bridge F → F
  time_step now s = py_max nought (py_min max_dt_s (sub now s.last_tick))

  -- The edges of the arm token. Arming forgets every earlier command.
  unfoldable pub arm_edge : F → Bool → Bridge F → Bridge F × List (Log F)
  arm_edge now armed s =
      if armed && not s.was_armed
      then (
        record s { was_armed = armed; armed_since = now; motion_since = none; latest = none },
        armed_transition ∷ [],
      )
      else (
        record s { was_armed = armed },
        if not armed && s.was_armed then disarmed_transition ∷ [] else [],
      )

  unfoldable pub is_fresh : F → Bridge F → Bool
  is_fresh now s = is_some s.latest && le (sub now s.latest_time) cmd_timeout_s

  unfoldable pub is_enabled : F → Bool → Bridge F → Bool
  is_enabled now armed s = armed && (le arm_settle_s (sub now s.armed_since) && is_fresh now s)

  -- The clock of the current motion: started by the first moving command, stopped by a standing one.
  unfoldable pub motion_clock : F → F → F → Option F → Option F
  motion_clock now vx wz since =
      let moving = lt (decimal 1 4) (py_abs vx) || lt (decimal 1 4) (py_abs wz) in
      if moving then (elim since [ none ↦ some now | some t ↦ some t ]) else none

  unfoldable pub in_first_motion : F → Option F → Bool
  in_first_motion now none = false
  in_first_motion now (some t) = lt (sub now t) first_motion_s

  -- The targets of an enabled tick, with the new motion clock.
  unfoldable pub targets : F → Twist F → Option F → Option F × Command F
  targets now msg since =
      let vx = finite_clamp msg.linear_x nought max_vx in
      let wz = finite_clamp msg.angular_z (neg max_wz) max_wz in
      let clock = motion_clock now vx wz since in
      if in_first_motion now clock
      then (clock, (py_min vx first_max_vx, finite_clamp wz (neg first_max_wz) first_max_wz))
      else (clock, (vx, wz))

  -- The slew limits, from the last command and the time step.
  unfoldable pub slew : F → Bridge F → Command F → Command F
  slew dt s target =
      let dv = mul max_dvx_per_s dt in
      let dw = mul max_dwz_per_s dt in
      (
        finite_clamp target.0 (sub s.last_vx dv) (add s.last_vx dv),
        finite_clamp target.1 (sub s.last_wz dw) (add s.last_wz dw),
      )

  -- An enabled tick drives; any other stops at once.
  unfoldable pub velocity : F → F → Bool → Bridge F → Option F × Command F
  velocity now dt armed s = elim s.latest [
    | none ↦ (none, (nought, nought))
    | some msg ↦
        if is_enabled now armed s
        then ((targets now msg s.motion_since).0, slew dt s (targets now msg s.motion_since).1)
        else (none, (nought, nought))
  ]

  unfoldable pub twist_of : Command F → Twist F
  twist_of c = record {
    linear_x = c.0;
    linear_y = nought;
    linear_z = nought;
    angular_x = nought;
    angular_y = nought;
    angular_z = c.1;
  }

  -- `summary != self.last_state`
  unfoldable pub same_summary : Bool × Bool × F × F → Option (Bool × Bool × F × F) → Bool
  same_summary a none = false
  same_summary a (some b) = eq_bool a.0 b.0 && (eq_bool a.1 b.1 && (eq a.2 b.2 && eq a.3 b.3))

  module _ ⦃m : LibM F⦄ where
    open m use {round}

    unfoldable pub tick : F → Bool → Bridge F → Bridge F × Output F
    tick now armed s0 =
        let dt = time_step now s0 in
        let (s, edge) = arm_edge now armed (record s0 { last_tick = now }) in
        let fresh = is_fresh now s in
        let (since, (vx, wz)) = velocity now dt armed s in
        let summary : Bool × Bool × F × F = (armed, fresh, round vx 3, round wz 3) in
        let same = same_summary summary s.last_state in
        (
          record s {
            motion_since = since;
            last_vx = vx;
            last_wz = wz;
            last_state = if same then s.last_state else some summary;
          },
          record {
            command = (vx, wz);
            limited = twist_of (vx, wz);
            armed = armed;
            logs = edge ++ (if same then [] else state_summary armed fresh vx wz ∷ []);
          },
        )
