-- ===== src/Localizer/Loading.antt =====
-- src/localizer.py before its first event: the map levelled by its floor, and `LocalizerNode.__init__`.
use humanoid_navigation.Prelude.{
  ℕ, false, Option, none, some, [], ◌∷◌, ltb, length, map, if◌then◌else◌,
}
use humanoid_navigation.Double.{Double, nought, lt, le}
use humanoid_navigation.Navigation.{Frame, Point, Quaternion, Transform}
use humanoid_navigation.Navigation.Geometry.{Matrix}
use humanoid_navigation.GravityOverride.{FloorTools, up, turn_point, rotation_to_align}
use humanoid_navigation.Localizer.{Cloud, Rigid, Numerics, Aligner, Settings}
use humanoid_navigation.Localizer.Node.{
  Kalman, Localizer, masked, prepare, features_of, in_height_range,
}

-- What the constructor calls of `Rotation` and numpy: `from_euler("xyz", ..., degrees=True)`, `as_quat`, and
-- `np.deg2rad`.
pub record Angles (F R : Type 0) : Type 0 where
  pub rot_of_euler_deg : F → F → F → R
  pub quat_of : R → Quaternion F
  pub deg2rad : F → F

-- The parameter `initial_pose`: metres and degrees.
pub record InitialPose (F : Type 0) : Type 0 where
  pub x : F
  pub y : F
  pub z : F
  pub roll : F
  pub pitch : F
  pub yaw : F

pub record TransformStamped (F : Type 0) : Type 0 where
  pub stamp : ℕ
  pub parent : Frame
  pub child : Frame
  pub transform : Transform F

module _ {F R : Type 0} (angles : Angles F R) where
  unfoldable pub hint_to_matrix : InitialPose F → Rigid F R
  hint_to_matrix p = record {
    rot = angles.rot_of_euler_deg p.roll p.pitch p.yaw;
    at = record { x = p.x; y = p.y; z = p.z };
  }

  unfoldable pub matrix_to_ros_tf : Rigid F R → ℕ → Frame → Frame → TransformStamped F
  matrix_to_ros_tf t stamp parent child = record {
    stamp = stamp;
    parent = parent;
    child = child;
    transform = record { translation = t.at; rotation = angles.quat_of t.rot };
  }

module _ {F : Type 0} ⦃d : Double F⦄ ⦃num : Numerics F⦄ where
  open d use {decimal, sub, div, neg}
  open num use {norm3, quantile}

  abbrev flat_floor : Point F × F
  flat_floor = (up, nought)

  module _ ⦃tools : FloorTools F⦄ where
    -- `n / nrm, d / nrm`
    unfoldable pub unit_plane : Point F × F → Point F × F
    unit_plane plane =
        let v : Point F = plane.0 in
        let nrm = norm3 v.x v.y v.z in
        (record { x = div v.x nrm; y = div v.y nrm; z = div v.z nrm }, div plane.1 nrm)

    -- The plane that `segment_plane` finds, with its normal turned upward.
    unfoldable pub upward : Point F × F × ℕ → Point F × F
    upward plane =
        let n : Point F = plane.0 in
        if lt n.z nought
        then (record { x = neg n.x; y = neg n.y; z = neg n.z }, neg plane.1)
        else (n, plane.1)

    unfoldable pub fit_floor_normal : Cloud F → Point F × F
    fit_floor_normal pts =
        if ltb (length pts) 200
        then flat_floor
        else let z_thresh = quantile (map (λ (p : Point F). p.z) pts) (decimal 25 2) in
          let cands = masked (λ p. le p.z z_thresh) pts in
          if ltb (length cands) 200
          then flat_floor
          else unit_plane (upward (tools.segment_plane (decimal 5 2) cands))

    -- The levelled points, the rotation, and the height that was taken off.
    unfoldable pub gravity_align_floor : Cloud F → Cloud F × Matrix F × F
    gravity_align_floor pts =
        let r = rotation_to_align (fit_floor_normal pts).0 up in
        let aligned = map (turn_point r) pts in
        let z_floor = quantile (map (λ (p : Point F). p.z) aligned) (decimal 5 2) in
        (map (λ (p : Point F). record p { z = sub p.z z_floor }) aligned, r, z_floor)

    -- `KalmanScalar.__init__`
    unfoldable pub kalman_init : F → F → F → Kalman F
    kalman_init process_var meas_var x0 = record {
      value = x0;
      variance = decimal 1 0;
      process_var = process_var;
      meas_var = meas_var;
    }

    -- `__init__`, with the points of the map's file; `none` where `map_path` is empty and it exits.
    unfoldable pub boot :
        {R G : Type 0} ⦃aligner : Aligner F R G⦄
        → Settings F
        → Angles F R
        → F
        → F
        → InitialPose F
        → Frame
        → Cloud F
        → Option (Localizer F R G)
    boot ⦃aligner⦄ c angles kf_proc kf_meas pose [] raw_pts = none
    boot ⦃aligner⦄ c angles kf_proc kf_meas pose (letter ∷ path) raw_pts =
        let aligned = (gravity_align_floor raw_pts).0 in
        some (record {
          map_cam = hint_to_matrix angles pose;
          published = hint_to_matrix angles pose;
          filters = record {
            kf_x = kalman_init kf_proc kf_meas pose.x;
            kf_y = kalman_init kf_proc kf_meas pose.y;
            kf_z = kalman_init kf_proc kf_meas pose.z;
            kf_yaw = kalman_init kf_proc kf_meas (angles.deg2rad pose.yaw);
          };
          target = prepare aligner c.voxel_map (masked in_height_range aligned);
          features =
              if c.use_fpfh_ransac
              then some (features_of aligner c.voxel_map (masked in_height_range aligned))
              else none;
          full_map = aligned;
          local_map_centre = none;
          initialized = false;
          latest_cloud = none;
          cam_to_world = none;
          floor_z_world = nought;
          lost_count = 0;
          robot_speed = nought;
          last_odom = none;
          settle_ticks = 0;
          frozen_static_published = false;
          map_published = false;
        })
