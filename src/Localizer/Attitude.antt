-- ===== src/Localizer/Attitude.antt =====
-- src/localizer.py: the distance and the attitude of the poses that a tick moves to.
use humanoid_navigation.Prelude.{
  ◌+◌, ◌≤◌, ◌≡◌, ◌⊎◌, inl, inr, sym, ap, ◌∙◌, true, false, List, arith, map, ltb, length, if_split,
}
use mathlib.Core.Bool.{false≢true}
use humanoid_navigation.Double.{Double, LibM, le}
use humanoid_navigation.Navigation.{Point}
use humanoid_navigation.Localizer.{
  Cloud, Match, Numerics, Rotations, Aligner, Settings, planar_distance,
}
use humanoid_navigation.Localizer.Search.{run_global_icp, run_track_icp}
use humanoid_navigation.Localizer.Node.{Localizer, good_attitude, cloud_cb, odom_cb}
use humanoid_navigation.Localizer.Tracking.{
  prepare_scan, first_ok, first_localize, accepts, recovers, track, localize_scan,
}
use humanoid_navigation.Localizer.Gate.{
  accepted, kept, recovered, track_with-Outcome, first_with-gated,
}
use humanoid_navigation.Localizer.Frozen.{Event, run}
use humanoid_navigation.Localizer.Stable.{IsStable, run_preserves}

module _ {F R : Type 0} ⦃d : Double F⦄ ⦃num : Numerics F⦄ ⦃rots : Rotations F R⦄
    (c : Settings F) where
  first_ok-good_attitude : (m : Match F R) → first_ok c m ≡ true → good_attitude c m.pose ≡ true
  unfolding first_ok
  first_ok-good_attitude m fits = ground arith

module _ {F R G : Type 0} ⦃d : Double F⦄ ⦃lib : LibM F⦄ ⦃num : Numerics F⦄ ⦃rots : Rotations F R⦄
    ⦃aligner : Aligner F R G⦄ (c : Settings F) (pi : F) where
  accepts-gates :
      (scan : Cloud F) (m : Match F R) (s : Localizer F R G)
      → accepts c pi scan m s ≡ true
      → (good_attitude c m.pose ≡ true)
        × (le (planar_distance m.pose s.map_cam) c.max_dpose_per_tick ≡ true)
  unfolding accepts
  accepts-gates scan m s fits = ground arith

  recovers-gates :
      (g : Match F R) (s : Localizer F R G)
      → recovers c pi g s ≡ true
      → (good_attitude c g.pose ≡ true)
        × (le (planar_distance g.pose s.map_cam) c.max_recovery_drift_from_prior ≡ true)
  unfolding recovers
  recovers-gates g s found = ground arith

  -- How far a tick of tracking may move the pose, and on which ground.
  pub data MovesWithin (scan : Cloud F) (s next : Localizer F R G) : Type 0 where
    stays : next.map_cam ≡ s.map_cam → MovesWithin scan s next
    follows :
        next.map_cam ≡ (run_track_icp c s.target scan s.map_cam).pose
        → good_attitude c next.map_cam ≡ true
        → le (planar_distance next.map_cam s.map_cam) c.max_dpose_per_tick ≡ true
        → MovesWithin scan s next
    recovers_far :
        accepts c pi scan (run_track_icp c s.target scan s.map_cam) s ≡ false
        → c.relocalize_after_n_losses ≤ s.lost_count + 1
        → next.map_cam ≡ (run_global_icp c s.features s.target scan s.map_cam).pose
        → next.lost_count ≡ 0
        → good_attitude c next.map_cam ≡ true
        → le (planar_distance next.map_cam s.map_cam) c.max_recovery_drift_from_prior ≡ true
        → MovesWithin scan s next

  -- A tick of tracking keeps the pose; or it moves it to the match of this tick, in the plane by no
  -- more than the ceiling for one tick; or, only if that match is refused and enough losses have come
  -- together, it moves it to the global match, by no more than the limit for a recovery. A pose that
  -- it moves to has roll and pitch within the limit.
  pub track-within : (scan : Cloud F) (s : Localizer F R G) → MovesWithin scan s (track c pi scan s)
  unfolding track
  track-within scan s =
      let m : Match F R = run_track_icp c s.target scan s.map_cam in
      elim (track_with-Outcome c pi scan m s) [
        | accepted fits pose zero calm ↦
            let g = accepts-gates scan m s fits in
            follows pose (ap (good_attitude c) pose ∙ g.0)
              (ap (λ t. le (planar_distance t s.map_cam) c.max_dpose_per_tick) pose ∙ g.1)
        | kept refused early pose still count ↦ stays pose
        | recovered found same refused due good locked zero ↦
            let g = recovers-gates found s good in
            recovers_far refused due (locked.pose ∙ ap (λ (t : Match F R). t.pose) same) zero
              (ap (good_attitude c) locked.pose ∙ g.0)
              (ap (λ t. le (planar_distance t s.map_cam) c.max_recovery_drift_from_prior)
                  locked.pose
                ∙ g.1)
      ]

  track-good_attitude :
      (scan : Cloud F) (s : Localizer F R G)
      → good_attitude c s.map_cam ≡ true
      → good_attitude c (track c pi scan s).map_cam ≡ true
  track-good_attitude scan s good = elim (track-within scan s) [
    | stays same ↦ ap (good_attitude c) same ∙ good
    | follows pose fine near ↦ fine
    | recovers_far refused due pose zero fine near ↦ fine
  ]

  -- Before a first lock nothing is said of the pose.
  abbrev pub IsUpright : Localizer F R G → Type 0
  IsUpright s = (s.initialized ≡ false) ⊎ (good_attitude c s.map_cam ≡ true)

  first-IsUpright :
      (scan : Cloud F) (s : Localizer F R G)
      → s.initialized ≡ false
      → IsUpright (first_localize c pi scan s)
  unfolding first_localize
  first-IsUpright scan s fresh =
      let m : Match F R = run_global_icp c s.features s.target scan s.map_cam in
      let measured : Localizer F R G = record s {
        floor_z_world = num.quantile (map (λ (p : Point F). p.z) scan) (d.decimal 5 2);
      } in
      elim (first_with-gated c pi m measured fresh) [
        | inl (ready, fits, locked) ↦
            inr (ap (good_attitude c) locked.pose ∙ first_ok-good_attitude c m fits)
        | inr (fresh', weak, same, shown) ↦ inl fresh'
      ]

  scan-IsUpright :
      (r : R) (cloud : Cloud F) (s : Localizer F R G)
      → IsUpright s
      → IsUpright (localize_scan c pi r cloud s)
  unfolding localize_scan
  scan-IsUpright r cloud s h =
      if_split IsUpright (ltb (length cloud) 200) _ _ (λ short. h)
        (λ long.
          if_split IsUpright s.initialized _ _
            (λ ready. inr (
              track-good_attitude (prepare_scan c r cloud) s
                (elim h [ inl fresh ↦ absurd (false≢true (sym fresh ∙ ready)) | inr good ↦ good ])))
            (λ fresh. first-IsUpright (prepare_scan c r cloud) s fresh))

  stable : IsStable c pi IsUpright
  unfolding cloud_cb odom_cb
  stable = record {
    scan_closed = scan-IsUpright;
    sent_closed = λ s h. h;
    map_closed = λ s h. h;
    turn_closed = λ r s h. h;
    cloud_closed = λ pts s h. h;
    odom_closed = λ pos t s h. h;
  }

  -- Over any sequence of scans, odometry messages and timer ticks, from a node without a pose, the
  -- pose of the node has roll and pitch within the limit whenever the node is initialized.
  pub run-IsUpright :
      (es : List (Event F R)) (s : Localizer F R G)
      → s.initialized ≡ false
      → IsUpright (run c pi es s).0
  run-IsUpright es s fresh = run_preserves c pi IsUpright stable es s (inl fresh)
