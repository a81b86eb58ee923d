-- ===== src/Localizer/Search.antt =====
-- The search over yaw seeds of src/localizer.py: `global_icp`, its planar and point-to-plane variants,
-- and the dispatch of `_run_global_icp` and `_run_track_icp`.
use humanoid_navigation.Prelude.{
  ℕ, zero, suc, ◌+◌, Bool, true, ◌&&◌, not, List, [], ◌∷◌, map, if◌then◌else◌, Option, none, some,
}
use humanoid_navigation.Double.{Double, LibM, lt, py_max}
use humanoid_navigation.Localizer.{
  Cloud, Rigid, Match, Features, Numerics, Rotations, Aligner, Settings, transform_pts, compose,
  planar_distance,
}
use humanoid_navigation.Localizer.Node.{estimate_normals_safe}
use humanoid_navigation.Localizer.Icp.{icp, icp_2d, icp_point_to_plane, multi_scale}

-- `range(0, 360, 5)`
unfoldable pub yaws_from : ℕ → ℕ → List ℕ
yaws_from zero deg = []
yaws_from (suc n) deg = deg ∷ yaws_from n (deg + 5)

unfoldable pub yaw_seeds : List ℕ
unfolding yaws_from
yaw_seeds = yaws_from 72 0

abbrev pub anywhere : {F R : Type 0} → Match F R → Bool
anywhere m = true

module _ {F : Type 0} ⦃d : Double F⦄ where
  -- `max(voxels)`, over a list that is not empty.
  unfoldable pub coarsest : F → List F → F
  coarsest v [] = v
  coarsest v (w ∷ voxels) = coarsest (py_max v w) voxels

module _ {F R : Type 0} ⦃d : Double F⦄ where
  open d use {decimal, neg, sub}

  -- The loop over the candidates: the first of the greatest fitness stays; a candidate that the test
  -- refuses is passed over.
  unfoldable pub best_of : (Match F R → Bool) → List (Match F R) → Match F R → Match F R
  best_of allowed [] best = best
  best_of allowed (m ∷ ms) best =
      best_of allowed ms (if allowed m && lt best.fitness m.fitness then m else best)

  module _ ⦃num : Numerics F⦄ where
    open num use {inf, centroid}

    -- The start of the loop: the hint with fitness -1.
    unfoldable pub unmatched : Rigid F R → Match F R
    unmatched hint = record { pose = hint; fitness = neg (decimal 1 0); rmse = inf }

    -- `norm(T[:2, 3] - hint[:2, 3]) > limit` refuses.
    abbrev pub near_hint : Rigid F R → F → Match F R → Bool
    near_hint hint limit m = not (lt limit (planar_distance m.pose hint))

    module _ ⦃rots : Rotations F R⦄ where
      open rots use {rotate, rot_of_yaw_deg, flat}

      -- The rotation by one seed about the centre of the scan, before the hint.
      unfoldable pub seeded : Cloud F → Rigid F R → ℕ → Rigid F R
      seeded pts hint deg =
          let centre = centroid (transform_pts hint pts) in
          let turn = rot_of_yaw_deg deg in
          let turned = rotate turn centre in
          compose
            (record {
              rot = turn;
              at = record {
                x = sub centre.x turned.x;
                y = sub centre.y turned.y;
                z = sub centre.z turned.z;
              };
            })
            hint

      -- A seed in the plane: the height of the hint is kept.
      unfoldable pub seeded_2d : Cloud F → Rigid F R → ℕ → Rigid F R
      seeded_2d pts hint deg =
          let s = seeded pts (record hint { rot = flat hint.rot }) deg in
          record s { at = record { x = s.at.x; y = s.at.y; z = hint.at.z } }

module _ {F R G : Type 0} ⦃d : Double F⦄ (aligner : Aligner F R G) where
  open d use {decimal, mul}

  unfoldable pub fpfh_ransac_global : Cloud F → Cloud F → Features F → F → F → Match F R
  fpfh_ransac_global src_pts src_normals tgt feature_radius distance_threshold =
      aligner.feature_matching
        (record {
          points = src_pts;
          normals = src_normals;
          fpfh = aligner.compute_fpfh feature_radius src_pts src_normals;
        })
        tgt distance_threshold

  -- The match of the features of a scan with those of the map, as `_run_global_icp` asks for it.
  unfoldable pub match_features : Settings F → Features F → Cloud F → Match F R
  match_features c tgt scan =
      fpfh_ransac_global scan (estimate_normals_safe aligner scan (mul c.voxel_scan (decimal 25 1)))
        tgt (mul c.voxel_map (decimal 5 0)) (mul c.icp_max_dist (decimal 15 1))

module _ {F R G : Type 0} ⦃d : Double F⦄ ⦃lib : LibM F⦄ ⦃num : Numerics F⦄ ⦃rots : Rotations F R⦄
    ⦃aligner : Aligner F R G⦄ where
  open d use {decimal, mul}
  open num use {voxel_downsample}
  open aligner use {coarsen}

  unfoldable pub global_icp : G → Cloud F → Rigid F R → F → Match F R
  global_icp target pts hint max_dist =
      best_of anywhere (map (λ deg. icp target pts (seeded pts hint deg) max_dist 30) yaw_seeds)
        (unmatched hint)

  unfoldable pub global_icp_2d : G → Cloud F → Rigid F R → F → Match F R
  global_icp_2d target pts hint max_dist =
      best_of anywhere
        (map (λ deg. icp_2d target pts (seeded_2d pts hint deg) max_dist 30) yaw_seeds)
        (unmatched hint)

  unfoldable pub global_icp_point_to_plane : G → Cloud F → Rigid F R → F → F → Match F R
  global_icp_point_to_plane target pts hint max_dist max_drift =
      best_of (near_hint hint max_drift)
        (map (λ deg. icp_point_to_plane target pts (seeded pts hint deg) max_dist 30) yaw_seeds)
        (unmatched hint)

  -- The coarse search of `_run_global_icp`: the seeds at the coarsest voxel only.
  unfoldable pub coarse_search : Settings F → G → Cloud F → Rigid F R → F → Match F R
  coarse_search c target pts hint coarse_v =
      let src = voxel_downsample coarse_v pts in
      let coarse = coarsen coarse_v target in
      best_of (near_hint hint c.max_init_dist_from_hint)
        (map
          (λ deg.
            icp_point_to_plane coarse src (seeded pts hint deg) (mul coarse_v (decimal 25 1)) 15)
          yaw_seeds)
        (unmatched hint)

  -- `max` of an empty list of voxels raises; the parameter has three.
  unfoldable pub multi_scale_search : Settings F → G → Cloud F → Rigid F R → List F → Match F R
  multi_scale_search c target pts hint [] = unmatched hint
  multi_scale_search c target pts hint (v ∷ voxels) =
      multi_scale target pts (v ∷ voxels) (coarse_search c target pts hint (coarsest v voxels)).pose

  -- `_run_global_icp` in three dimensions, by the features of the map if they are there and wanted: the
  -- features are matched first, and the target is what the match is refined on.
  unfoldable pub search_3d : Settings F → Option (Features F) → G → Cloud F → Rigid F R → Match F R
  search_3d c none target scan hint =
      if c.use_multi_scale_icp
      then multi_scale_search c target scan hint c.multi_scale_voxels
      else global_icp_point_to_plane target scan hint c.icp_max_dist c.max_init_dist_from_hint
  search_3d c (some tgt) target scan hint =
      icp_point_to_plane target scan (match_features aligner c tgt scan).pose c.icp_max_dist 30

  -- `_run_global_icp`
  unfoldable pub run_global_icp :
      Settings F → Option (Features F) → G → Cloud F → Rigid F R → Match F R
  run_global_icp c features target scan hint =
      if not c.use_3d_icp
      then global_icp_2d target scan hint c.icp_max_dist
      else search_3d c (if c.use_fpfh_ransac then features else none) target scan hint

  -- `_run_track_icp`
  unfoldable pub run_track_icp : Settings F → G → Cloud F → Rigid F R → Match F R
  run_track_icp c target scan init =
      if not c.use_3d_icp
      then icp_2d target scan init c.icp_max_dist 30
      else if c.use_multi_scale_icp
      then multi_scale target scan c.track_voxels init
      else icp_point_to_plane target scan init c.icp_max_dist 30
