-- ===== src/Localizer/Cache.antt =====
-- The local map of src/localizer.py: what scans are aligned with, as a part of the whole map.
use mathlib.Core.Path.{subst}
use humanoid_navigation.Prelude.{
  ◌-◌, ◌+◌, ◌≡◌, ◌≤◌, ◌⊎◌, inl, inr, refl, sym, none, some, List, [], ◌∷◌, ltb, leb, length,
  if_split, arith, if◌then◌else◌,
}
use humanoid_navigation.Double.{Double, LibM, lt, le}
use humanoid_navigation.Navigation.{Frame}
use humanoid_navigation.Localizer.{Cloud, Rigid, Match, Numerics, Rotations, Aligner, Settings}
use humanoid_navigation.Localizer.Search.{run_global_icp, run_track_icp}
use humanoid_navigation.Localizer.Node.{
  Localizer, masked, in_height_range, prepare, features_of, kalman_smooth, ema_smooth, smooth_tf,
  seed_kalmans_from, with_floor_z, rebuild_local_map, cloud_cb, odom_cb,
}
use humanoid_navigation.Localizer.Tracking.{
  needs_rebuild, prepare_scan, lock, first_ok, first_with, first_localize, accepts, accept,
  recovers, reject, track_with, track, localize_scan,
}
use humanoid_navigation.Localizer.Frozen.{Event, run}
use humanoid_navigation.Localizer.Loading.{Angles, InitialPose, gravity_align_floor, boot}
use humanoid_navigation.GravityOverride.{FloorTools}
use mathlib.Core.Option.{some-injective, some-ne-none}
use humanoid_navigation.Localizer.Stable.{IsStable, run_preserves}

module _ {F : Type 0} ⦃d : Double F⦄ ⦃num : Numerics F⦄ (c : Settings F) (whole : Cloud F) where
  -- The points of the map within the radius of a place.
  abbrev pub around : F → F → Cloud F
  around x y = masked (λ p. lt (num.norm2 (d.sub p.x x) (d.sub p.y y)) c.local_map_radius) whole

  -- Without a centre scans are aligned with the whole map, and else with the part around the centre, of 200
  -- points or more; both less the points out of the range of heights. The features are those of the
  -- whole map in either case.
  pub record IsCurrent {R G : Type 0} ⦃aligner : Aligner F R G⦄ (s : Localizer F R G) : Type 0 where
    pub full : s.full_map ≡ whole
    pub described : s.features ≡ (
        if c.use_fpfh_ransac
        then some (features_of aligner c.voxel_map (masked in_height_range whole))
        else none)
    pub cache :
        ((s.local_map_centre ≡ none)
          × (s.target ≡ prepare aligner c.voxel_map (masked in_height_range whole)))
        ⊎ ((x : F) × (y : F) × (s.local_map_centre ≡ some (x, y))
            × (200 ≤ length (around x y))
            × (s.target ≡ prepare aligner c.voxel_map (masked in_height_range (around x y))))

module _ {F R G : Type 0} ⦃d : Double F⦄ ⦃lib : LibM F⦄ ⦃num : Numerics F⦄ ⦃rots : Rotations F R⦄
    ⦃aligner : Aligner F R G⦄ (c : Settings F) (pi : F) (whole : Cloud F) where
  abbrev P : Localizer F R G → Type 0
  P s = IsCurrent c whole s

  rebuild-IsCurrent : (x y : F) (s : Localizer F R G) → P s → P (rebuild_local_map c x y s)
  unfolding rebuild_local_map
  rebuild-IsCurrent x y s h = of_map s.full_map h.full
    where
      of_map :
          (m : Cloud F)
          → m ≡ whole
          → P (
              let subset =
                masked (λ p. lt (num.norm2 (d.sub p.x x) (d.sub p.y y)) c.local_map_radius) m in
              if ltb (length subset) 200 then s else record s {
                target = prepare aligner c.voxel_map (masked in_height_range subset);
                local_map_centre = some (x, y);
              })
      of_map m e =
          subst
            (λ (t : Cloud F). P (
              let subset =
                masked (λ p. lt (num.norm2 (d.sub p.x x) (d.sub p.y y)) c.local_map_radius) t in
              if ltb (length subset) 200 then s else record s {
                target = prepare aligner c.voxel_map (masked in_height_range subset);
                local_map_centre = some (x, y);
              }))
            (sym e)
            (if_split P (ltb (length (around c whole x y)) 200) _ _ (λ few. h)
              (λ enough. record {
                full = h.full;
                described = h.described;
                cache = inr (x, y, refl, ground (arith, enough), refl);
              }))

  lock-IsCurrent : (t : Rigid F R) (s : Localizer F R G) → P s → P (lock c pi t s)
  unfolding lock seed_kalmans_from
  lock-IsCurrent t s h =
      rebuild-IsCurrent _ _ _ (record { full = h.full; described = h.described; cache = h.cache })

  smooth-IsCurrent : (t : Rigid F R) (s : Localizer F R G) → P s → P (smooth_tf c pi t s)
  unfolding smooth_tf kalman_smooth ema_smooth
  smooth-IsCurrent t s h =
      if_split P c.use_kalman _ _
        (λ on. record { full = h.full; described = h.described; cache = h.cache })
        (λ off. record { full = h.full; described = h.described; cache = h.cache })

  counted : (s : Localizer F R G) → P s → P (record s { lost_count = 0 })
  counted s h = record { full = h.full; described = h.described; cache = h.cache }

  accept-IsCurrent : (m : Match F R) (s : Localizer F R G) → P s → P (accept c pi m s)
  unfolding accept
  accept-IsCurrent m s h =
      let t_pub = with_floor_z m.pose s in
      let moved : Localizer F R G = record s { map_cam = m.pose } in
      let h₁ : P moved = record { full = h.full; described = h.described; cache = h.cache } in
      let h₂ : P (if le c.confidence_th m.fitness then smooth_tf c pi t_pub moved else moved) =
        if_split P (le c.confidence_th m.fitness) _ _ (λ sure. smooth-IsCurrent t_pub moved h₁)
          (λ weak. h₁) in
      let h₃ = counted _ h₂ in
      if_split P (needs_rebuild c t_pub.at.x t_pub.at.y _) _ _ (λ far. rebuild-IsCurrent _ _ _ h₃)
        (λ near. h₃)

  reject-IsCurrent : (scan : Cloud F) (s : Localizer F R G) → P s → P (reject c pi scan s)
  unfolding reject
  reject-IsCurrent scan s h =
      let lost : Localizer F R G = record s { lost_count = s.lost_count + 1 } in
      let h₁ : P lost = record { full = h.full; described = h.described; cache = h.cache } in
      let m = run_global_icp c s.features s.target scan s.map_cam in
      if_split P (leb c.relocalize_after_n_losses lost.lost_count) _ _
        (λ due.
          if_split P (recovers c pi m s) _ _
            (λ found.
              lock-IsCurrent m.pose (record lost { lost_count = 0 })
                (record { full = h.full; described = h.described; cache = h.cache }))
            (λ weak. h₁))
        (λ early. h₁)

  track-IsCurrent : (scan : Cloud F) (s : Localizer F R G) → P s → P (track c pi scan s)
  unfolding track track_with
  track-IsCurrent scan s h =
      let m = run_track_icp c s.target scan s.map_cam in
      let settled : Localizer F R G = record s { settle_ticks = s.settle_ticks - 1 } in
      let h₁ : P settled = record { full = h.full; described = h.described; cache = h.cache } in
      if_split P (accepts c pi scan m s) _ _ (λ fits. accept-IsCurrent m settled h₁)
        (λ refused. reject-IsCurrent scan settled h₁)

  first-IsCurrent : (scan : Cloud F) (s : Localizer F R G) → P s → P (first_localize c pi scan s)
  unfolding first_localize first_with
  first-IsCurrent scan s h =
      let m = run_global_icp c s.features s.target scan s.map_cam in
      if_split P (first_ok c m) _ _
        (λ fits.
          lock-IsCurrent m.pose _
            (record { full = h.full; described = h.described; cache = h.cache }))
        (λ weak. record { full = h.full; described = h.described; cache = h.cache })

  scan-IsCurrent :
      (r : R) (cloud : Cloud F) (s : Localizer F R G) → P s → P (localize_scan c pi r cloud s)
  unfolding localize_scan
  scan-IsCurrent r cloud s h =
      if_split P (ltb (length cloud) 200) _ _ (λ short. h)
        (λ long.
          if_split P s.initialized _ _ (λ ready. track-IsCurrent (prepare_scan c r cloud) s h)
            (λ fresh. first-IsCurrent (prepare_scan c r cloud) s h))

  stable : IsStable c pi P
  unfolding cloud_cb odom_cb
  stable = record {
    scan_closed = scan-IsCurrent;
    sent_closed = λ s h. record { full = h.full; described = h.described; cache = h.cache };
    map_closed = λ s h. record { full = h.full; described = h.described; cache = h.cache };
    turn_closed = λ r s h. record { full = h.full; described = h.described; cache = h.cache };
    cloud_closed = λ pts s h. record { full = h.full; described = h.described; cache = h.cache };
    odom_closed = λ pos t s h. record { full = h.full; described = h.described; cache = h.cache };
  }

module _ {F R G : Type 0} ⦃d : Double F⦄ ⦃lib : LibM F⦄ ⦃num : Numerics F⦄ ⦃rots : Rotations F R⦄
    ⦃aligner : Aligner F R G⦄ ⦃tools : FloorTools F⦄ (c : Settings F) (pi : F) where
  boot-IsCurrent :
      (angles : Angles F R) (kf_proc kf_meas : F) (pose : InitialPose F) (path : Frame)
      (raw_pts : Cloud F) (start : Localizer F R G)
      → boot c angles kf_proc kf_meas pose path raw_pts ≡ some start
      → IsCurrent c (gravity_align_floor raw_pts).0 start
  unfolding boot
  boot-IsCurrent angles kf_proc kf_meas pose [] raw_pts start h = absurd (some-ne-none _ (sym h))
  boot-IsCurrent angles kf_proc kf_meas pose (letter ∷ path) raw_pts start h =
      subst (IsCurrent c (gravity_align_floor raw_pts).0) (some-injective _ _ h)
        (record { full = refl; described = refl; cache = inl (refl, refl) })

  -- From the construction of the node, over any scans, odometry messages and ticks: the whole map stays the
  -- levelled one, and what scans are aligned with is the map that was prepared of its points within the
  -- range of heights: of all of them while there is no centre, and else of those within the radius of the
  -- stored centre, around which the map has 200 points or more. So the local map is never that of
  -- another centre. The features that a search matches, if the parameters ask for them, stay those of
  -- the whole levelled map within the range of heights, also after the local map is rebuilt.
  pub run-IsCurrent :
      (angles : Angles F R) (kf_proc kf_meas : F) (pose : InitialPose F) (path : Frame)
      (raw_pts : Cloud F) (start : Localizer F R G) (es : List (Event F R))
      → boot c angles kf_proc kf_meas pose path raw_pts ≡ some start
      → IsCurrent c (gravity_align_floor raw_pts).0 (run c pi es start).0
  run-IsCurrent angles kf_proc kf_meas pose path raw_pts start es h =
      run_preserves c pi (IsCurrent c (gravity_align_floor raw_pts).0)
        (stable c pi (gravity_align_floor raw_pts).0) es start
        (boot-IsCurrent angles kf_proc kf_meas pose path raw_pts start h)
