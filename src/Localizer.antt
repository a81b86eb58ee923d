-- ===== src/Localizer.antt =====
-- src/localizer.py: the node that aligns Fast-LIO's scans with a prebuilt map. Poses, clouds, the
-- node's parameters, and what numpy, scipy and Open3D do for it.
pub mod Icp
pub mod Search
pub mod Node
pub mod Tracking
pub mod Gate
pub mod Best
pub mod Whole
pub mod Frozen
pub mod Stable
pub mod Attitude
pub mod Loading
pub mod Start
pub mod Cache
pub mod Messages
pub mod Timed
pub mod Stamps
pub mod Wire
use humanoid_navigation.Prelude.{ℕ, Bool, List, map}
use humanoid_navigation.Double.{Double}
use humanoid_navigation.Navigation.{Point}

abbrev pub Cloud : Type 0 → Type 0
Cloud F = List (Point F)

-- A 4×4 transform: a rotation and a translation.
pub record Rigid (F R : Type 0) : Type 0 where
  pub rot : R
  pub at : Point F

-- The result of an alignment: the transform, its fitness and its rmse.
pub record Match (F R : Type 0) : Type 0 where
  pub pose : Rigid F R
  pub fitness : F
  pub rmse : F

-- What the node calls of numpy, and of Open3D on a cloud.
pub record Numerics (F : Type 0) : Type 0 where
  pub inf : F
  pub norm2 : F → F → F
  pub norm3 : F → F → F → F
  pub quantile : List F → F → F
  pub centroid : Cloud F → Point F
  -- Python's `%` on floats
  pub modulo : F → F → F
  pub voxel_downsample : F → Cloud F → Cloud F

-- What it calls of `scipy.spatial.transform.Rotation`: the components of `as_euler("xyz")`, the
-- constructors, and the product.
pub record Rotations (F R : Type 0) : Type 0 where
  pub yaw_of : R → F
  pub roll_deg_of : R → F
  pub pitch_deg_of : R → F
  pub rot_of_yaw : F → R
  pub rot_of_yaw_deg : ℕ → R
  pub slerp : R → R → F → R
  pub rot_mul : R → R → R
  -- the rotation that keeps the upper left 2×2 block
  pub flat : R → R
  pub rotate : R → Point F → Point F

-- Points with their normals and FPFH descriptors.
pub record Features (F : Type 0) : Type 0 where
  pub points : Cloud F
  pub normals : Cloud F
  pub fpfh : List (List F)

-- What it calls for alignment. `G` is the type of a map that is prepared for it: its points, kd-trees
-- and normals.
pub record Aligner (F R G : Type 0) : Type 0 where
  -- `cKDTree.query`: the distance of each point to the map
  pub distances : G → Cloud F → List F
  -- the same in the xy plane
  pub distances_2d : G → Cloud F → List F
  -- `estimate_normals` with a search radius, and the kd-trees of a map over its points and normals
  pub estimate_normals : F → Cloud F → Cloud F
  pub index : Cloud F → Cloud F → G
  -- a coarser copy of a map
  pub coarsen : F → G → G
  pub target_size : G → ℕ
  -- the increment that least squares over the matched pairs gives: with full SVD, in the plane, and
  -- point-to-plane over yaw and xy
  pub increment_3d : G → Cloud F → F → Rigid F R
  pub increment_2d : G → Cloud F → F → Rigid F R
  pub increment_plane : G → Cloud F → F → Rigid F R
  -- `compute_fpfh_feature`, by a search radius, of points with normals
  pub compute_fpfh : F → Cloud F → Cloud F → List (List F)
  -- `registration_ransac_based_on_feature_matching` from a source to a target, with its distance threshold
  pub feature_matching : Features F → Features F → F → Match F R

-- The node's parameters.
pub record Settings (F : Type 0) : Type 0 where
  pub icp_max_dist : F
  pub min_fitness : F
  pub min_fitness_reloc : F
  pub max_dpose_per_tick : F
  pub max_rmse : F
  pub relocalize_after_n_losses : ℕ
  pub max_ceiling_above_floor : F
  pub use_3d_icp : Bool
  pub use_kalman : Bool
  pub use_fpfh_ransac : Bool
  pub dis_updatemap : F
  pub local_map_radius : F
  pub confidence_th : F
  pub max_roll_pitch_deg : F
  pub max_init_dist_from_hint : F
  pub max_recovery_drift_from_prior : F
  pub use_multi_scale_icp : Bool
  pub multi_scale_voxels : List F
  pub track_voxels : List F
  pub max_map_drift_rate : F
  pub drift_rate_speed_gain : F
  pub jump_fitness_margin : F
  pub loc_period : F
  pub freeze_after_init : Bool
  pub voxel_map : F
  pub voxel_scan : F
  pub init_x : F
  pub init_y : F

module _ {F R : Type 0} ⦃d : Double F⦄ where
  open d use {add, sub}

  -- `np.linalg.norm(a[:2, 3] - b[:2, 3])`
  unfoldable pub planar_distance : ⦃num : Numerics F⦄ → Rigid F R → Rigid F R → F
  planar_distance ⦃num⦄ a b = num.norm2 (sub a.at.x b.at.x) (sub a.at.y b.at.y)

  module _ ⦃rots : Rotations F R⦄ where
    open rots use {rotate, rot_mul}

    -- `T` applied to one point, and `_transform_pts`.
    unfoldable pub apply : Rigid F R → Point F → Point F
    apply t p =
        let q = rotate t.rot p in
        record { x = add q.x t.at.x; y = add q.y t.at.y; z = add q.z t.at.z }

    unfoldable pub transform_pts : Rigid F R → Cloud F → Cloud F
    transform_pts t pts = map (apply t) pts

    -- `dT @ T`
    unfoldable pub compose : Rigid F R → Rigid F R → Rigid F R
    compose dt t = record { rot = rot_mul dt.rot t.rot; at = apply dt t.at }
