-- ===== src/Localizer/Whole.antt =====
-- `_run_global_icp` of src/localizer.py: the search over the whole map that the parameters choose.
use mathlib.Core.Path.{subst}
use humanoid_navigation.Prelude.{
  not, if_split, Bool, ◌≡◌, refl, true, false, Option, none, some, ◌⊎◌, inl, inr, sym,
  if◌then◌else◌, List, ◌∷◌, map, arith,
}
use humanoid_navigation.Double.{Double, LibM}
use humanoid_navigation.Localizer.{
  Cloud, Rigid, Match, Features, Numerics, Rotations, Aligner, Settings,
}
use humanoid_navigation.Localizer.Icp.{icp_2d, icp_point_to_plane, multi_scale}
use humanoid_navigation.Localizer.Search.{
  yaw_seeds, anywhere, coarsest, seeded_2d, match_features, search_3d, global_icp_2d, coarse_search,
  multi_scale_search, run_global_icp, unmatched, near_hint, seeded, global_icp_point_to_plane,
}
use humanoid_navigation.Localizer.Best.{IsBest, best_of-IsBest}

module _ {F R G : Type 0} ⦃d : Double F⦄ ⦃lib : LibM F⦄ ⦃num : Numerics F⦄ ⦃rots : Rotations F R⦄
    ⦃aligner : Aligner F R G⦄ (c : Settings F) (features : Option (Features F)) (target : G)
    (scan : Cloud F) (hint : Rigid F R) where
  -- What the search over the whole map returns, by the parameters that choose it.
  pub data Found (voxels : List F) : Match F R → Type 0 where
    planar :
        {m : Match F R}
        → c.use_3d_icp ≡ false
        → IsBest anywhere
            (map (λ deg. icp_2d target scan (seeded_2d scan hint deg) c.icp_max_dist 30) yaw_seeds)
            (unmatched hint)
            m
        → Found voxels m
    featured :
        c.use_3d_icp ≡ true
        → c.use_fpfh_ransac ≡ true
        → (tgt : Features F) → features ≡ some tgt
        → Found voxels (
            icp_point_to_plane target scan
              (match_features aligner c tgt scan).pose
              c.icp_max_dist
              30)
    scaled :
        c.use_3d_icp ≡ true
        → (c.use_fpfh_ransac ≡ false) ⊎ (features ≡ none)
        → c.use_multi_scale_icp ≡ true
        → (v : F) (finer : List F) (coarse : Match F R) → voxels ≡ v ∷ finer
        → IsBest
            (near_hint hint c.max_init_dist_from_hint)
            (map
              (λ deg.
                icp_point_to_plane
                  (aligner.coarsen (coarsest v finer) target)
                  (num.voxel_downsample (coarsest v finer) scan)
                  (seeded scan hint deg)
                  (d.mul (coarsest v finer) (d.decimal 25 1))
                  15)
              yaw_seeds)
            (unmatched hint)
            coarse
        → Found voxels (multi_scale target scan voxels coarse.pose)
    plain :
        {m : Match F R}
        → c.use_3d_icp ≡ true
        → (c.use_fpfh_ransac ≡ false) ⊎ (features ≡ none)
        → c.use_multi_scale_icp ≡ false
        → IsBest
            (near_hint hint c.max_init_dist_from_hint)
            (map
              (λ deg. icp_point_to_plane target scan (seeded scan hint deg) c.icp_max_dist 30)
              yaw_seeds)
            (unmatched hint)
            m
        → Found voxels m

  multi_scale_search-Found :
      (v : F) (finer : List F)
      → c.use_3d_icp ≡ true
      → (c.use_fpfh_ransac ≡ false) ⊎ (features ≡ none)
      → c.use_multi_scale_icp ≡ true
      → Found (v ∷ finer) (multi_scale_search c target scan hint (v ∷ finer))
  unfolding multi_scale_search coarse_search
  multi_scale_search-Found v finer solid bare scales =
      scaled solid bare scales v finer _ refl (best_of-IsBest _ _ _)

  -- Without features, by both of the remaining tests.
  bare-Found :
      (v : F) (finer : List F)
      → c.multi_scale_voxels ≡ v ∷ finer
      → c.use_3d_icp ≡ true
      → (c.use_fpfh_ransac ≡ false) ⊎ (features ≡ none)
      → Found c.multi_scale_voxels (search_3d c none target scan hint)
  unfolding search_3d global_icp_point_to_plane
  bare-Found v finer sizes solid bare =
      if_split (Found c.multi_scale_voxels) c.use_multi_scale_icp _ _
        (λ on.
          subst (λ vs. Found vs (multi_scale_search c target scan hint vs)) (sym sizes)
            (multi_scale_search-Found v finer solid bare on))
        (λ off. plain solid bare off (best_of-IsBest _ _ _))

  search_3d-Found :
      (v : F) (finer : List F)
      → c.multi_scale_voxels ≡ v ∷ finer
      → c.use_3d_icp ≡ true
      → (on : Bool) → c.use_fpfh_ransac ≡ on
      → (found : Option (Features F)) → features ≡ found
      → Found c.multi_scale_voxels (search_3d c (if on then found else none) target scan hint)
  unfolding search_3d
  search_3d-Found v finer sizes solid false off found same =
      bare-Found v finer sizes solid (inl off)
  search_3d-Found v finer sizes solid true on none same = bare-Found v finer sizes solid (inr same)
  search_3d-Found v finer sizes solid true on (some tgt) same = featured solid on tgt same

  -- For the voxel sizes of the parameters, of which there is one at least: the search takes the first of
  -- the planar one, the one from the features of the map, the one over the voxel sizes and the plain
  -- one that the parameters ask for; that from features only if the map has them. It matches the
  -- scan with the features, and refines the match on the target. A search over the yaw seeds
  -- returns, or hands to the refinement over the voxel sizes, the hint itself, or an alignment from a
  -- seed that is within the limit from the hint (any, in the planar search); and no such alignment
  -- has a greater fitness.
  pub run_global_icp-Found :
      (v : F) (finer : List F)
      → c.multi_scale_voxels ≡ v ∷ finer
      → Found c.multi_scale_voxels (run_global_icp c features target scan hint)
  unfolding run_global_icp global_icp_2d
  run_global_icp-Found v finer sizes =
      if_split (Found c.multi_scale_voxels) (not c.use_3d_icp) _ _
        (λ flat. planar (ground (arith, flat)) (best_of-IsBest _ _ _))
        (λ solid.
          search_3d-Found v finer sizes (ground (arith, solid)) c.use_fpfh_ransac refl features
            refl)
