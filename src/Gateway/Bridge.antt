-- ===== src/Gateway/Bridge.antt =====
-- The state of class `Bridge` of host/g1_cmd_vel_bridge.py and its two subscriptions: the command
-- callback and the passive odometry audit.
use humanoid_navigation.Prelude.{
  Bool, false, Option, none, some, List, [], ◌∷◌, ◌||◌, if◌then◌else◌,
}
use humanoid_navigation.Double.{Double, LibM, nought, lt}
use humanoid_navigation.Gateway.{Twist}

-- What `_append_log` is called with. The text is left out, its values are kept.
pub data Log (F : Type 0) : Type 0 where
  armed_transition : Log F
  disarmed_transition : Log F
  state_summary : Bool → Bool → F → F → Log F
  audit_origin : F → F → F → Log F
  audit : F → F → F → F → F → F → Log F

pub record Bridge (F : Type 0) : Type 0 where
  pub latest : Option (Twist F)
  pub latest_time : F
  pub was_armed : Bool
  pub armed_since : F
  pub motion_since : Option F
  pub last_vx : F
  pub last_wz : F
  pub last_tick : F
  pub last_state : Option (Bool × Bool × F × F)
  pub audit_start : Option (F × F × F)
  pub audit_last_logged_distance : F

-- The fields of `nav_msgs/Odometry` that the audit reads.
pub record Odometry (F : Type 0) : Type 0 where
  pub x : F
  pub y : F
  pub qx : F
  pub qy : F
  pub qz : F
  pub qw : F

module _ {F : Type 0} ⦃d : Double F⦄ where
  open d use {decimal, add, sub, mul}

  -- `__init__`, at the clock's value `now`.
  unfoldable pub init : F → Bridge F
  init now = record {
    latest = none;
    latest_time = nought;
    was_armed = false;
    armed_since = nought;
    motion_since = none;
    last_vx = nought;
    last_wz = nought;
    last_tick = now;
    last_state = none;
    audit_start = none;
    audit_last_logged_distance = nought;
  }

  unfoldable pub on_cmd : F → Twist F → Bridge F → Bridge F
  on_cmd now msg s = record s { latest = some msg; latest_time = now }

  module _ ⦃m : LibM F⦄ where
    open m use {sin, cos, atan2, hypot, degrees}

    unfoldable pub wrap_angle : F → F
    wrap_angle angle = atan2 (sin angle) (cos angle)

    unfoldable pub yaw_of : Odometry F → F
    yaw_of o =
        let two : F = decimal 2 0 in
        atan2 (mul two (add (mul o.qw o.qz) (mul o.qx o.qy)))
          (sub (decimal 1 0) (mul two (add (mul o.qy o.qy) (mul o.qz o.qz))))

    -- The audit after its first message, from the origin (x0, y0, yaw0).
    unfoldable pub audit_from : F × F × F → Odometry F → Bridge F → Bridge F × List (Log F)
    unfolding wrap_angle
    audit_from (x0, y0, yaw0) o s =
        let dx = sub o.x x0 in
        let dy = sub o.y y0 in
        let distance = hypot dx dy in
        let travel_yaw = atan2 dy dx in
        let error = wrap_angle (sub travel_yaw yaw0) in
        if lt distance (decimal 5 2) || lt (sub distance s.audit_last_logged_distance) (decimal 5 2)
        then (s, [])
        else (
          record s { audit_last_logged_distance = distance },
          audit distance dx dy (degrees travel_yaw) (degrees yaw0) (degrees error) ∷ [],
        )

    unfoldable pub on_odom : Odometry F → Bridge F → Bridge F × List (Log F)
    unfolding yaw_of audit_from
    on_odom o s = elim s.audit_start [
      | none ↦ (
        record s { audit_start = some (o.x, o.y, yaw_of o); audit_last_logged_distance = nought },
        audit_origin o.x o.y (degrees (yaw_of o)) ∷ [],
      )
      | some origin ↦ audit_from origin o s
    ]
