-- ===== src/Localizer/Node.antt =====
-- The state of class `LocalizerNode` of src/localizer.py, its subscriptions, the pose filters, and the
-- local map.
use humanoid_navigation.Prelude.{
  ℕ, Bool, ◌&&◌, Option, none, some, [], ◌∷◌, map, ltb, length, if◌then◌else◌,
}
use humanoid_navigation.Double.{Double, lt, le, py_abs}
use humanoid_navigation.Navigation.{Point}
use humanoid_navigation.Localizer.{Cloud, Rigid, Features, Numerics, Rotations, Aligner, Settings}

-- `KalmanScalar`
pub record Kalman (F : Type 0) : Type 0 where
  pub value : F
  pub variance : F
  pub process_var : F
  pub meas_var : F

pub record Filters (F : Type 0) : Type 0 where
  pub kf_x : Kalman F
  pub kf_y : Kalman F
  pub kf_z : Kalman F
  pub kf_yaw : Kalman F

pub record Localizer (F R G : Type 0) : Type 0 where
  pub map_cam : Rigid F R
  pub published : Rigid F R
  pub filters : Filters F
  pub target : G
  -- `_tgt_pcd_o3d` with `_tgt_fpfh`
  pub features : Option (Features F)
  pub full_map : Cloud F
  pub local_map_centre : Option (F × F)
  pub initialized : Bool
  pub latest_cloud : Option (Cloud F)
  pub cam_to_world : Option R
  pub floor_z_world : F
  pub lost_count : ℕ
  pub robot_speed : F
  pub last_odom : Option (Point F × F)
  pub settle_ticks : ℕ
  pub frozen_static_published : Bool
  pub map_published : Bool

abbrev pub settle_ticks_after_lock : ℕ
settle_ticks_after_lock = 10

module _ {F : Type 0} ⦃d : Double F⦄ where
  open d use {decimal, add, sub, mul, div, neg}

  unfoldable pub kalman_reset : F → Kalman F → Kalman F
  kalman_reset x0 k = record k { value = x0; variance = decimal 1 0 }

  unfoldable pub kalman_step : F → Kalman F → Kalman F
  kalman_step z k =
      let p = add k.variance k.process_var in
      let gain = div p (add p k.meas_var) in
      record k {
        value = add k.value (mul gain (sub z k.value));
        variance = mul (sub (decimal 1 0) gain) p;
      }

  -- The points of a cloud that satisfy a mask.
  unfoldable pub masked : (Point F → Bool) → Cloud F → Cloud F
  masked keep [] = []
  masked keep (p ∷ pts) = let rest = masked keep pts in if keep p then p ∷ rest else rest

  -- `(z >= -0.3) & (z <= 5.0)`
  unfoldable pub in_height_range : Point F → Bool
  in_height_range p = le (neg (decimal 3 1)) p.z && le p.z (decimal 5 0)

module _ {F : Type 0} ⦃d : Double F⦄ ⦃num : Numerics F⦄ where
  open d use {decimal, add, sub, div}
  open num use {norm3, modulo}

  -- `_odom_cb`: the speed of the robot from two consecutive positions.
  unfoldable pub speed_of : Option (Point F × F) → Point F → F → F → F
  speed_of none pos t speed = speed
  speed_of (some (q, u)) pos t speed =
      let dt = sub t u in
      if lt (decimal 1 3) dt
      then div (norm3 (sub pos.x q.x) (sub pos.y q.y) (sub pos.z q.z)) dt
      else speed

  unfoldable pub wrap_deg : F → F
  wrap_deg a = sub (modulo (add a (decimal 180 0)) (decimal 360 0)) (decimal 180 0)

module _ {F R G : Type 0} ⦃d : Double F⦄ (aligner : Aligner F R G) where
  open d use {decimal, neg, mul}

  -- `normals[flip] *= -1.0`
  unfoldable pub turn_up : Point F → Point F
  turn_up n =
      let minus_one = neg (decimal 1 0) in
      if lt n.z (decimal 0 0)
      then record { x = mul n.x minus_one; y = mul n.y minus_one; z = mul n.z minus_one }
      else n

  unfoldable pub estimate_normals_safe : Cloud F → F → Cloud F
  estimate_normals_safe pts radius = map turn_up (aligner.estimate_normals radius pts)

  -- The map that scans are aligned with: downsampled, with its kd-trees and normals.
  unfoldable pub prepare : ⦃num : Numerics F⦄ → F → Cloud F → G
  prepare ⦃num⦄ voxel pts =
      let down = num.voxel_downsample voxel pts in
      aligner.index down (estimate_normals_safe down (mul voxel (decimal 25 1)))

  -- The features of a map at its construction.
  unfoldable pub features_of : ⦃num : Numerics F⦄ → F → Cloud F → Features F
  features_of ⦃num⦄ voxel pts =
      let down = num.voxel_downsample voxel pts in
      let normals = estimate_normals_safe down (mul voxel (decimal 25 1)) in
      record {
        points = down;
        normals = normals;
        fpfh = aligner.compute_fpfh (mul voxel (decimal 5 0)) down normals;
      }

module _ {F R : Type 0} ⦃d : Double F⦄ ⦃num : Numerics F⦄ ⦃rots : Rotations F R⦄ where
  open rots use {roll_deg_of, pitch_deg_of}

  -- `_roll_pitch_deg` is at most the limit in both components.
  unfoldable pub good_attitude : Settings F → Rigid F R → Bool
  good_attitude c t =
      le (py_abs (wrap_deg (roll_deg_of t.rot))) c.max_roll_pitch_deg
      && le (py_abs (wrap_deg (pitch_deg_of t.rot))) c.max_roll_pitch_deg

module _ {F R G : Type 0} ⦃d : Double F⦄ where
  open d use {decimal, add, sub, mul, div, neg}

  unfoldable pub cloud_cb : Cloud F → Localizer F R G → Localizer F R G
  cloud_cb pts s = record s { latest_cloud = some pts }

  module _ ⦃num : Numerics F⦄ where
    open num use {norm2, norm3, modulo, voxel_downsample}

    unfoldable pub odom_cb : Point F → F → Localizer F R G → Localizer F R G
    odom_cb pos t s = record s {
      robot_speed = speed_of s.last_odom pos t s.robot_speed;
      last_odom = some (pos, t);
    }

    module _ ⦃rots : Rotations F R⦄ where
      open rots use {yaw_of, roll_deg_of, pitch_deg_of, rot_of_yaw, slerp}

      unfoldable pub seed_kalmans_from : Rigid F R → Localizer F R G → Localizer F R G
      seed_kalmans_from t s = record s {
        filters = record {
          kf_x = kalman_reset t.at.x s.filters.kf_x;
          kf_y = kalman_reset t.at.y s.filters.kf_y;
          kf_z = kalman_reset t.at.z s.filters.kf_z;
          kf_yaw = kalman_reset (yaw_of t.rot) s.filters.kf_yaw;
        };
      }

      -- `_smooth_tf` with Kalman filters; `pi` is `np.pi`.
      unfoldable pub kalman_smooth : F → Rigid F R → Localizer F R G → Localizer F R G
      kalman_smooth pi t s =
          let f = s.filters in
          let two_pi = mul (decimal 2 0) pi in
          let delta = sub (modulo (add (sub (yaw_of t.rot) f.kf_yaw.value) pi) two_pi) pi in
          let next : Filters F = record {
            kf_x = kalman_step t.at.x f.kf_x;
            kf_y = kalman_step t.at.y f.kf_y;
            kf_z = kalman_step t.at.z f.kf_z;
            kf_yaw = kalman_step (add f.kf_yaw.value delta) f.kf_yaw;
          } in
          record s {
            filters = next;
            published = record {
              rot = rot_of_yaw next.kf_yaw.value;
              at = record { x = next.kf_x.value; y = next.kf_y.value; z = next.kf_z.value };
            };
          }

      -- `_smooth_tf` by exponential smoothing; the height is taken as it is.
      unfoldable pub ema_smooth : Rigid F R → Localizer F R G → Localizer F R G
      ema_smooth t s =
          let alpha = decimal 3 1 in
          let blend : F → F → F =
            λ (new : F) (old : F). add (mul alpha new) (mul (sub (decimal 1 0) alpha) old) in
          record s {
            published = record {
              rot = slerp s.published.rot t.rot alpha;
              at = record {
                x = blend t.at.x s.published.at.x;
                y = blend t.at.y s.published.at.y;
                z = t.at.z;
              };
            };
          }

      unfoldable pub smooth_tf : Settings F → F → Rigid F R → Localizer F R G → Localizer F R G
      smooth_tf c pi t s = if c.use_kalman then kalman_smooth pi t s else ema_smooth t s

      -- `_with_floor_z`
      unfoldable pub with_floor_z : Rigid F R → Localizer F R G → Rigid F R
      with_floor_z t s = record t {
        at = record { x = t.at.x; y = t.at.y; z = neg s.floor_z_world };
      }

      -- `_rebuild_local_map`; the features stay.
      unfoldable pub rebuild_local_map :
          ⦃aligner : Aligner F R G⦄ → Settings F → F → F → Localizer F R G → Localizer F R G
      rebuild_local_map ⦃aligner⦄ c x y s =
          let subset =
            masked (λ p. lt (norm2 (sub p.x x) (sub p.y y)) c.local_map_radius) s.full_map in
          if ltb (length subset) 200 then s else record s {
            target = prepare aligner c.voxel_map (masked in_height_range subset);
            local_map_centre = some (x, y);
          }
