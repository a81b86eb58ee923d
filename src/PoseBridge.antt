-- ===== src/PoseBridge.antt =====
-- nav/g1_nav_pose_bridge.py: the planar frame `g1_nav_base` and its odometry, from the pose of the body; and
-- nav/g1_lidar_costmap_relay.py, which restamps scans for the costmap.
pub mod Chain
use humanoid_navigation.Prelude.{
  ℕ, ◌*◌, codes, Bool, true, false, Option, none, some, List, [], ◌∷◌, if◌then◌else◌,
}
use humanoid_navigation.Double.{Double, LibM, nought, lt, le, py_max}
use humanoid_navigation.Navigation.{Frame, Point, Quaternion, Transform, map_frame}
use humanoid_navigation.PointCloud.{PointCloud2}

-- `g1_nav_base`, and `body`
abbrev pub nav_base_frame : Frame
nav_base_frame = codes "g1_nav_base"

abbrev pub body_frame : Frame
body_frame = codes "body"

-- A published pose in the plane, with the reading of the clock in seconds: `last_pose`.
pub record Planar (F : Type 0) : Type 0 where
  pub x : F
  pub y : F
  pub yaw : F
  pub time : F

-- The twist of an odometry message: forward, left and turning.
pub record Velocity (F : Type 0) : Type 0 where
  pub vx : F
  pub vy : F
  pub wz : F

pub record Bridge (F : Type 0) : Type 0 where
  pub last_warning : F
  pub last_pose : Option (Planar F)

-- What a tick reads: the transform, `none` where the lookup raises, and two readings of the clock.
pub record Reading (F : Type 0) : Type 0 where
  pub source : Option (Transform F)
  pub stamp : ℕ
  pub now_s : F

-- The transform and the odometry message of one tick share the stamp, the frames and the pose.
pub record Message (F : Type 0) : Type 0 where
  pub stamp : ℕ
  pub parent : Frame
  pub child : Frame
  pub pose : Transform F
  pub twist : Velocity F

-- What a tick publishes: the pose, where there is one, the readiness, and whether it warns.
pub record Output (F : Type 0) : Type 0 where
  pub message : Option (Message F)
  pub ready : Bool
  pub warned : Bool

module _ {F : Type 0} ⦃d : Double F⦄ where
  open d use {decimal, neg, add, sub, mul, div}

  unfoldable pub init : Bridge F
  init = record { last_warning = nought; last_pose = none }

  -- The body's +X axis in the plane of the map.
  unfoldable pub forward : Quaternion F → F × F
  forward q =
      let two = decimal 2 0 in
      (
        sub (decimal 1 0) (mul two (add (mul q.qy q.qy) (mul q.qz q.qz))),
        mul two (add (mul q.qx q.qy) (mul q.qw q.qz)),
      )

  unfoldable pub no_lookup : Reading F → Bridge F → Bridge F × Output F
  no_lookup r s =
      if lt (decimal 2 0) (sub r.now_s s.last_warning)
      then (
        record s { last_warning = r.now_s },
        record { message = none; ready = false; warned = true },
      )
      else (s, record { message = none; ready = false; warned = false })

  module _ ⦃m : LibM F⦄ where
    open m use {sin, cos, atan2, hypot}

    unfoldable pub velocity : Option (Planar F) → Planar F → Velocity F
    velocity none p = record { vx = nought; vy = nought; wz = nought }
    velocity (some last) p =
        let dt = py_max (sub p.time last.time) (decimal 1 3) in
        let vx_map = div (sub p.x last.x) dt in
        let vy_map = div (sub p.y last.y) dt in
        let turned = sub p.yaw last.yaw in
        record {
          vx = add (mul (cos p.yaw) vx_map) (mul (sin p.yaw) vy_map);
          vy = add (mul (neg (sin p.yaw)) vx_map) (mul (cos p.yaw) vy_map);
          wz = div (atan2 (sin turned) (cos turned)) dt;
        }

    unfoldable pub message_of : ℕ → Planar F → Velocity F → Message F
    message_of stamp p twist =
        let half = mul (decimal 5 1) p.yaw in
        record {
          stamp = stamp;
          parent = map_frame;
          child = nav_base_frame;
          pose = record {
            translation = record { x = p.x; y = p.y; z = nought };
            rotation = record { qx = nought; qy = nought; qz = sin half; qw = cos half };
          };
          twist = twist;
        }

    -- The pose in the plane; `none` where the body stands too steep.
    unfoldable pub planar : Transform F → F → Option (Planar F)
    planar t now_s =
        let f = forward t.rotation in
        if lt (hypot f.0 f.1) (decimal 25 2)
        then none
        else some
            (record { x = t.translation.x; y = t.translation.y; yaw = atan2 f.1 f.0; time = now_s })

    unfoldable pub publish : ℕ → Option (Planar F) → Bridge F → Bridge F × Output F
    publish stamp none s = (s, record { message = none; ready = false; warned = false })
    publish stamp (some p) s = (
      record s { last_pose = some p },
      record {
        message = some (message_of stamp p (velocity s.last_pose p));
        ready = true;
        warned = false;
      },
    )

    unfoldable pub tick : Reading F → Bridge F → Bridge F × Output F
    tick r s = elim r.source [
      | none ↦ no_lookup r s
      | some t ↦ publish r.stamp (planar t r.now_s) s
    ]

    unfoldable pub run : List (Reading F) → Bridge F → List (Output F)
    run [] s = []
    run (r ∷ rs) s = let next = tick r s in let rest = run rs next.0 in next.1 ∷ rest

  -- `cloud_callback` of the lidar relay: the message that is sent, the time of the last log entry, and the
  -- number of points that is logged.
  unfoldable pub relay : ℕ → F → F → PointCloud2 → PointCloud2 × F × Option ℕ
  relay stamp now_s last_log_s msg =
      let sent : PointCloud2 = record msg { stamp = stamp; frame = body_frame } in
      if le (decimal 5 0) (sub now_s last_log_s)
      then (sent, now_s, some (msg.width * msg.height))
      else (sent, last_log_s, none)
