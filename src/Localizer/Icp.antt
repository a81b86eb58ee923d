-- ===== src/Localizer/Icp.antt =====
-- The alignment loops of src/localizer.py: three variants of ICP, the evaluation of a pose, and the
-- cascade from coarse to fine voxels.
use humanoid_navigation.Prelude.{ℕ, zero, suc, ◌+◌, ◌||◌, List, [], ◌∷◌, ltb, length, if◌then◌else◌}
use humanoid_navigation.Double.{Double, LibM, nought, lt, le}
use humanoid_navigation.Localizer.{
  Cloud, Rigid, Match, Numerics, Rotations, Aligner, transform_pts, compose,
}

module _ {F : Type 0} ⦃d : Double F⦄ where
  open d use {decimal, add, mul, div}

  -- `(dists < max_dist).sum()`
  unfoldable pub inliers : F → List F → ℕ
  inliers limit [] = 0
  inliers limit (x ∷ dists) =
      let rest = inliers limit dists in if lt x limit then rest + 1 else rest

  -- The sum of the squares of the distances below the limit.
  unfoldable pub squares : F → List F → F
  squares limit [] = nought
  squares limit (x ∷ dists) =
      let rest = squares limit dists in if lt x limit then add (mul x x) rest else rest

  -- `float(mask.sum()) / max(len(pts), 1)`
  unfoldable pub fitness_of : F → List F → ℕ → F
  fitness_of limit dists n =
      div (decimal (inliers limit dists) 0) (decimal (if ltb n 1 then 1 else n) 0)

  module _ ⦃lib : LibM F⦄ ⦃num : Numerics F⦄ where
    open lib use {sqrt}
    open num use {inf}

    unfoldable pub rmse_of : F → List F → F
    rmse_of limit dists =
        if ltb 0 (inliers limit dists)
        then sqrt (div (squares limit dists) (decimal (inliers limit dists) 0))
        else inf

-- `_project_yaw_only`
unfoldable pub project_yaw_only : {F R : Type 0} ⦃rots : Rotations F R⦄ → Rigid F R → Rigid F R
project_yaw_only ⦃rots⦄ t = record t { rot = rots.rot_of_yaw (rots.yaw_of t.rot) }

module _ {F R : Type 0} ⦃d : Double F⦄ ⦃lib : LibM F⦄ ⦃num : Numerics F⦄
    ⦃rots : Rotations F R⦄ where
  -- The three lines that close every ICP: the fitness and rmse of the final transform.
  unfoldable pub evaluate : (Cloud F → List F) → Cloud F → F → Rigid F R → Match F R
  evaluate query pts max_dist t =
      let dists = query (transform_pts t pts) in
      record {
        pose = t;
        fitness = fitness_of max_dist dists (length pts);
        rmse = rmse_of max_dist dists;
      }

  -- The loop of every ICP, over the iterations left; fewer than 20 matched points end it.
  unfoldable pub icp_loop :
      (Cloud F → List F) → (Cloud F → F → Rigid F R) → Cloud F → F → ℕ → Rigid F R → Rigid F R
  icp_loop query increment pts max_dist zero t = t
  icp_loop query increment pts max_dist (suc k) t =
      let moved = transform_pts t pts in
      let next = icp_loop query increment pts max_dist k (compose (increment moved max_dist) t) in
      if ltb (inliers max_dist (query moved)) 20 then t else next

module _ {F R G : Type 0} ⦃d : Double F⦄ ⦃lib : LibM F⦄ ⦃num : Numerics F⦄ ⦃rots : Rotations F R⦄
    ⦃aligner : Aligner F R G⦄ where
  open d use {decimal, div, neg, mul}
  open num use {inf, voxel_downsample}
  open rots use {flat}
  open aligner use {
    distances, distances_2d, increment_3d, increment_2d, increment_plane, coarsen, target_size,
  }

  unfoldable pub icp : G → Cloud F → Rigid F R → F → ℕ → Match F R
  icp target pts init max_dist iterations =
      evaluate (distances target) pts max_dist
        (icp_loop (distances target) (increment_3d target) pts max_dist iterations init)

  -- `icp_2d`: the z translation is kept from the start.
  unfoldable pub icp_2d : G → Cloud F → Rigid F R → F → ℕ → Match F R
  icp_2d target pts init max_dist iterations =
      let start : Rigid F R = record init { rot = flat init.rot } in
      let m =
        evaluate (distances_2d target) pts max_dist
          (icp_loop (distances_2d target) (increment_2d target) pts max_dist iterations start) in
      record m {
        pose = record {
          rot = m.pose.rot;
          at = record { x = m.pose.at.x; y = m.pose.at.y; z = init.at.z };
        };
      }

  unfoldable pub icp_point_to_plane : G → Cloud F → Rigid F R → F → ℕ → Match F R
  icp_point_to_plane target pts init max_dist iterations =
      evaluate (distances target) pts max_dist (
        icp_loop (distances target) (increment_plane target) pts max_dist iterations
          (project_yaw_only init))

  -- The loop over the voxel sizes, from the match so far. A size that is not positive, or that leaves
  -- fewer than 20 points on either side, is passed over.
  unfoldable pub cascade : G → Cloud F → List F → Match F R → Match F R
  cascade target pts [] m = m
  cascade target pts (v ∷ voxels) m =
      let src = voxel_downsample v pts in
      let coarse = coarsen v target in
      let refined = icp_point_to_plane coarse src m.pose (mul v (decimal 25 1)) 15 in
      cascade target pts voxels
        (if le v nought || (ltb (target_size coarse) 20 || ltb (length src) 20) then m else refined)

  -- `multi_scale_icp_point_to_plane`
  unfoldable pub multi_scale : G → Cloud F → List F → Rigid F R → Match F R
  multi_scale target pts voxels init =
      cascade target pts voxels (record { pose = init; fitness = neg (decimal 1 0); rmse = inf })
