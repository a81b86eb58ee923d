-- ===== src/Localizer/Start.antt =====
-- The node of src/localizer.py from its start to its first lock, and its floor fit beside that of
-- src/ransac_gravity_override.py.
use humanoid_navigation.Prelude.{
  ◌+◌, ◌-◌, ◌≡◌, ◌⊎◌, inl, inr, refl, sym, ap, ◌∙◌, Bool, true, false, ◌||◌, some, List, [], ◌∷◌,
  map, ltb, leb, length, if◌then◌else◌, arith, if_split,
}
use mathlib.Core.Option.{some-injective, some-ne-none}
use mathlib.Core.Bool.{false≢true}
use humanoid_navigation.Double.{Double, LibM, lt, le}
use humanoid_navigation.Navigation.{Frame, Point}
use humanoid_navigation.Localizer.{Cloud, Rigid, Match, Numerics, Rotations, Aligner, Settings}
use humanoid_navigation.Localizer.Search.{run_global_icp, run_track_icp}
use humanoid_navigation.Localizer.Node.{
  Localizer, kalman_smooth, ema_smooth, smooth_tf, seed_kalmans_from, rebuild_local_map, cloud_cb,
  odom_cb, with_floor_z,
}
use humanoid_navigation.Localizer.Tracking.{
  prepare_scan, first_ok, lock, first_with, first_localize, accepts, accept, recovers, reject,
  track_with, track, localize_scan, needs_rebuild,
}
use humanoid_navigation.Localizer.Frozen.{Event, run}
use humanoid_navigation.Localizer.Stable.{IsStable, run_preserves}
use humanoid_navigation.Localizer.Loading.{
  Angles, InitialPose, hint_to_matrix, gravity_align_floor, fit_floor_normal, unit_plane, upward,
  boot,
}
use humanoid_navigation.GravityOverride.{FloorTools, Fit, no_fit, candidates}
use humanoid_navigation.GravityOverride as Override

pair_if :
    {A B : Type 0} (b : Bool) (u v : A) (x y : B)
    → ◌≡◌ {A = A × B} (if b then (u, x) else (v, y)) (if b then u else v, if b then x else y)
pair_if true u v x y = refl
pair_if false u v x y = refl

-- Two early returns, and one return under both tests.
same_fit :
    {F : Type 0} (a b : Bool) (level found : Point F × F) (level_fit found_fit : Fit F)
    → level ≡ (level_fit.normal, level_fit.offset)
    → found ≡ (found_fit.normal, found_fit.offset)
    → (if a then level else if b then level else found) ≡ (
      (if a || b then level_fit else found_fit).normal,
      (if a || b then level_fit else found_fit).offset,
    )
same_fit true b level found level_fit found_fit p q = p
same_fit false true level found level_fit found_fit p q = p
same_fit false false level found level_fit found_fit p q = q

module _ {F : Type 0} ⦃d : Double F⦄ ⦃num : Numerics F⦄ ⦃tools : FloorTools F⦄ where
  -- Both nodes fit the same floor: the localizer, which levels the map, finds the normal and the offset that
  -- the other finds, for every cloud and whatever `segment_plane` returns.
  fit_floor_normal_agrees :
      (pts : Cloud F)
      → let fit : Fit F = Override.fit_floor_normal pts in
        fit_floor_normal pts ≡ (fit.normal, fit.offset)
  unfolding fit_floor_normal Override.fit_floor_normal unit_plane upward candidates no_fit
  fit_floor_normal_agrees pts =
      let cands = candidates pts in
      let plane = tools.segment_plane (d.decimal 5 2) cands in
      same_fit (ltb (length pts) 200) (ltb (length cands) 200) _ _ no_fit _ refl
        (ap unit_plane (pair_if (lt plane.0.z (d.decimal 0 0)) _ plane.0 (d.neg plane.1) plane.1))

module _ {F R G : Type 0} ⦃d : Double F⦄ ⦃lib : LibM F⦄ ⦃num : Numerics F⦄ ⦃rots : Rotations F R⦄
    ⦃aligner : Aligner F R G⦄ (c : Settings F) (pi : F) where
  rebuild-initialized :
      (x y : F) (s : Localizer F R G) → (rebuild_local_map c x y s).initialized ≡ s.initialized
  unfolding rebuild_local_map
  rebuild-initialized x y s = ground arith

  smooth-initialized :
      (t : Rigid F R) (s : Localizer F R G) → (smooth_tf c pi t s).initialized ≡ s.initialized
  unfolding smooth_tf kalman_smooth ema_smooth
  smooth-initialized t s = ground arith

  lock-initialized :
      (t : Rigid F R) (s : Localizer F R G) → (lock c pi t s).initialized ≡ s.initialized
  unfolding lock seed_kalmans_from
  lock-initialized t s = rebuild-initialized _ _ _

  -- A state that is initialized just if another is.
  record AsReady (s t : Localizer F R G) : Type 0 where
    pub same : t.initialized ≡ s.initialized

  accept-AsReady : (m : Match F R) (s : Localizer F R G) → AsReady s (accept c pi m s)
  unfolding accept
  accept-AsReady m s =
      let t_pub = with_floor_z m.pose s in
      let moved : Localizer F R G = record s { map_cam = m.pose } in
      let smoothed : Localizer F R G =
        if le c.confidence_th m.fitness then smooth_tf c pi t_pub moved else moved in
      let level : AsReady s smoothed =
        if_split (AsReady s) (le c.confidence_th m.fitness) _ _
          (λ sure. record { same = smooth-initialized t_pub moved })
          (λ unsure. record { same = refl }) in
      if_split (AsReady s) (needs_rebuild c t_pub.at.x t_pub.at.y smoothed.local_map_centre) _ _
        (λ far. record {
          same =
              rebuild-initialized t_pub.at.x t_pub.at.y (record smoothed { lost_count = 0 })
              ∙ level.same;
        })
        (λ near. record { same = level.same })

  reject-AsReady : (scan : Cloud F) (s : Localizer F R G) → AsReady s (reject c pi scan s)
  unfolding reject
  reject-AsReady scan s =
      let m = run_global_icp c s.features s.target scan s.map_cam in
      let lost : Localizer F R G = record s { lost_count = s.lost_count + 1 } in
      if_split (AsReady s) (leb c.relocalize_after_n_losses lost.lost_count) _ _
        (λ due.
          if_split (AsReady s) (recovers c pi m s) _ _
            (λ found. record { same = lock-initialized m.pose (record lost { lost_count = 0 }) })
            (λ weak. record { same = refl }))
        (λ early. record { same = refl })

  track-AsReady : (scan : Cloud F) (s : Localizer F R G) → AsReady s (track c pi scan s)
  unfolding track track_with
  track-AsReady scan s =
      let m = run_track_icp c s.target scan s.map_cam in
      let settled : Localizer F R G = record s { settle_ticks = s.settle_ticks - 1 } in
      if_split (AsReady s) (accepts c pi scan m s) _ _
        (λ fits. record { same = (accept-AsReady m settled).same })
        (λ refused. record { same = (reject-AsReady scan settled).same })

  -- Before its first lock a node searches where it began: from the same pose, over the same map and
  -- its features, with the filters unused and no local map.
  abbrev pub Searches : Localizer F R G → Localizer F R G → Type 0
  Searches start s =
      (s.initialized ≡ false)
      × (s.map_cam ≡ start.map_cam)
      × (s.target ≡ start.target)
      × (s.features ≡ start.features)
      × (s.filters ≡ start.filters)
      × (s.local_map_centre ≡ start.local_map_centre)

  module _ (start : Localizer F R G) where
    abbrev pub HasStarted : Localizer F R G → Type 0
    HasStarted s = (s.initialized ≡ true) ⊎ Searches start s

    first-HasStarted :
        (scan : Cloud F) (s : Localizer F R G)
        → Searches start s
        → HasStarted (first_localize c pi scan s)
    unfolding first_localize first_with
    first-HasStarted scan s h =
        let m = run_global_icp c s.features s.target scan s.map_cam in
        let measured : Localizer F R G = record s {
          floor_z_world = num.quantile (map (λ (p : Point F). p.z) scan) (d.decimal 5 2);
        } in
        if_split HasStarted (first_ok c m) _ _
          (λ fits. inl (lock-initialized m.pose (record measured { initialized = true })))
          (λ weak. inr h)

    scan-HasStarted :
        (r : R) (cloud : Cloud F) (s : Localizer F R G)
        → HasStarted s
        → HasStarted (localize_scan c pi r cloud s)
    unfolding localize_scan
    scan-HasStarted r cloud s h =
        if_split HasStarted (ltb (length cloud) 200) _ _ (λ short. h)
          (λ long.
            if_split HasStarted s.initialized _ _
              (λ ready. inl ((track-AsReady (prepare_scan c r cloud) s).same ∙ ready))
              (λ fresh. elim h [
                | inl ready ↦ absurd (false≢true (sym fresh ∙ ready))
                | inr searching ↦ first-HasStarted (prepare_scan c r cloud) s searching
              ]))

    stable : IsStable c pi HasStarted
    unfolding cloud_cb odom_cb
    stable = record {
      scan_closed = scan-HasStarted;
      sent_closed = λ s h. h;
      map_closed = λ s h. h;
      turn_closed = λ r s h. h;
      cloud_closed = λ pts s h. h;
      odom_closed = λ pos t s h. h;
    }

  boot_parts :
      ⦃tools : FloorTools F⦄ (angles : Angles F R) (kf_proc kf_meas : F) (pose : InitialPose F)
      (path : Frame) (raw_pts : Cloud F) (start : Localizer F R G)
      → boot c angles kf_proc kf_meas pose path raw_pts ≡ some start
      → (start.initialized ≡ false)
        × (start.map_cam ≡ hint_to_matrix angles pose)
        × (start.full_map ≡ (gravity_align_floor raw_pts).0)
  unfolding boot
  boot_parts angles kf_proc kf_meas pose [] raw_pts start h = absurd (some-ne-none _ (sym h))
  boot_parts angles kf_proc kf_meas pose (letter ∷ path) raw_pts start h =
      let e = sym (some-injective _ _ h) in
      (
        ap (λ (t : Localizer F R G). t.initialized) e,
        ap (λ (t : Localizer F R G). t.map_cam) e,
        ap (λ (t : Localizer F R G). t.full_map) e,
      )

  -- A node that has been constructed begins at the hint of its parameters, with the levelled map. Whatever
  -- scans, odometry messages and ticks follow, it is initialized, or it still searches as it began: from
  -- the hint, over the whole map, with unused filters.
  pub run-HasStarted :
      ⦃tools : FloorTools F⦄ (angles : Angles F R) (kf_proc kf_meas : F) (pose : InitialPose F)
      (path : Frame) (raw_pts : Cloud F) (start : Localizer F R G) (es : List (Event F R))
      → boot c angles kf_proc kf_meas pose path raw_pts ≡ some start
      → (start.map_cam ≡ hint_to_matrix angles pose)
        × (start.full_map ≡ (gravity_align_floor raw_pts).0)
        × HasStarted start (run c pi es start).0
  run-HasStarted angles kf_proc kf_meas pose path raw_pts start es h =
      let (fresh, hint, level) = boot_parts angles kf_proc kf_meas pose path raw_pts start h in
      (
        hint,
        level,
        run_preserves c pi (HasStarted start) (stable start) es start
            (inr (fresh, refl, refl, refl, refl, refl)),
      )
