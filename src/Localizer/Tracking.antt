-- ===== src/Localizer/Tracking.antt =====
-- `_first_localize`, `_track` and `_localize` of src/localizer.py: the timer of the node. Each returns
-- the new state; what it publishes is told by `Publication`.
use humanoid_navigation.Prelude.{
  ◌+◌, ◌-◌, Bool, true, ◌&&◌, ◌||◌, not, Option, none, some, map, ltb, leb, length, if◌then◌else◌,
}
use humanoid_navigation.Double.{Double, LibM, lt, le}
use humanoid_navigation.Navigation.{Point}
use humanoid_navigation.Localizer.{
  Cloud, Rigid, Match, Numerics, Rotations, Aligner, Settings, planar_distance, transform_pts,
}
use humanoid_navigation.Localizer.Icp.{fitness_of}
use humanoid_navigation.Localizer.Search.{run_global_icp, run_track_icp}
use humanoid_navigation.Localizer.Node.{
  Localizer, settle_ticks_after_lock, masked, seed_kalmans_from, smooth_tf, good_attitude,
  with_floor_z, rebuild_local_map,
}

-- What a timer tick publishes besides the clouds for display.
pub data Publication (F R : Type 0) : Type 0 where
  nothing : Publication F R
  transform : Rigid F R → Publication F R
  static_transform : Rigid F R → Publication F R

abbrev pub or_else : {R : Type 0} → Option R → Option R → Option R
or_else none found = found
or_else (some r) found = some r

module _ {F : Type 0} ⦃d : Double F⦄ ⦃num : Numerics F⦄ (c : Settings F) where
  open d use {sub}
  open num use {norm2}

  -- The local map is rebuilt without a centre, or past `dis_updatemap` from it.
  unfoldable pub needs_rebuild : F → F → Option (F × F) → Bool
  needs_rebuild x y none = true
  needs_rebuild x y (some (cx, cy)) = lt c.dis_updatemap (norm2 (sub x cx) (sub y cy))

module _ {F R : Type 0} ⦃d : Double F⦄ ⦃num : Numerics F⦄ ⦃rots : Rotations F R⦄
    (c : Settings F) where
  open d use {decimal, add, sub}
  open num use {norm2, quantile, voxel_downsample}
  open rots use {rotate}

  unfoldable pub first_ok : Match F R → Bool
  first_ok m =
      le c.min_fitness_reloc m.fitness
      && (good_attitude c m.pose
          && le (norm2 (sub m.pose.at.x c.init_x) (sub m.pose.at.y c.init_y))
              c.max_init_dist_from_hint)

  -- The scan in the world frame, without the points above the ceiling.
  unfoldable pub below_ceiling : R → Cloud F → Cloud F
  below_ceiling r cloud =
      let pts = map (rotate r) cloud in
      let floor = quantile (map (λ (p : Point F). p.z) pts) (decimal 5 2) in
      masked (λ p. le p.z (add floor c.max_ceiling_above_floor)) pts

  -- The same, downsampled for the alignment.
  unfoldable pub prepare_scan : R → Cloud F → Cloud F
  prepare_scan r cloud = voxel_downsample c.voxel_scan (below_ceiling r cloud)

module _ {F R G : Type 0} ⦃d : Double F⦄ ⦃lib : LibM F⦄ ⦃num : Numerics F⦄ ⦃rots : Rotations F R⦄
    ⦃aligner : Aligner F R G⦄ (c : Settings F) (pi : F) where
  open d use {decimal, add, sub, mul}
  open num use {quantile}

  -- `_eval_fitness`
  unfoldable pub eval_fitness : Cloud F → Rigid F R → Localizer F R G → F
  eval_fitness scan t s =
      fitness_of c.icp_max_dist (aligner.distances s.target (transform_pts t scan)) (length scan)

  -- The pose is taken as a new lock: filters, published pose, grace period and local map.
  unfoldable pub lock : Rigid F R → Localizer F R G → Localizer F R G
  lock t s =
      let t_pub = with_floor_z t s in
      let seeded = seed_kalmans_from t_pub (record s { map_cam = t }) in
      rebuild_local_map c t_pub.at.x t_pub.at.y
        (record seeded { published = t_pub; settle_ticks = settle_ticks_after_lock })

  -- `_first_localize`, with the result of the global search over the state whose floor is measured.
  unfoldable pub first_with : Match F R → Localizer F R G → Localizer F R G
  first_with m s =
      if first_ok c m
      then lock m.pose (record s { initialized = true })
      else record s { published = with_floor_z m.pose s }

  unfoldable pub first_localize : Cloud F → Localizer F R G → Localizer F R G
  first_localize scan s =
      let measured = record s {
        floor_z_world = quantile (map (λ (p : Point F). p.z) scan) (decimal 5 2);
      } in
      first_with (run_global_icp c s.features s.target scan s.map_cam) measured

  -- The budget of this tick: the loose ceiling while the pose settles, else the drift budget.
  unfoldable pub effective_budget : Localizer F R G → F
  effective_budget s =
      if ltb 0 s.settle_ticks
      then c.max_dpose_per_tick
      else mul (add c.max_map_drift_rate (mul s.robot_speed c.drift_rate_speed_gain)) c.loc_period

  unfoldable pub within_drift : Match F R → Localizer F R G → Bool
  within_drift m s = le (planar_distance m.pose s.map_cam) (effective_budget s)

  -- A jump past the budget must beat the prior pose by the margin.
  unfoldable pub justified : Cloud F → Match F R → Localizer F R G → Bool
  justified scan m s =
      not (within_drift m s)
      && (le (planar_distance m.pose s.map_cam) c.max_dpose_per_tick
          && le (add (eval_fitness scan s.map_cam s) c.jump_fitness_margin) m.fitness)

  unfoldable pub accepts : Cloud F → Match F R → Localizer F R G → Bool
  accepts scan m s =
      le c.min_fitness m.fitness
      && (le m.rmse c.max_rmse
          && (le (planar_distance m.pose s.map_cam) c.max_dpose_per_tick
              && ((within_drift m s || justified scan m s) && good_attitude c m.pose)))

  unfoldable pub accept : Match F R → Localizer F R G → Localizer F R G
  accept m s =
      let t_pub = with_floor_z m.pose s in
      let moved = record s { map_cam = m.pose } in
      let smoothed = if le c.confidence_th m.fitness then smooth_tf c pi t_pub moved else moved in
      let kept = record smoothed { lost_count = 0 } in
      if needs_rebuild c t_pub.at.x t_pub.at.y kept.local_map_centre
      then rebuild_local_map c t_pub.at.x t_pub.at.y kept
      else kept

  unfoldable pub recovers : Match F R → Localizer F R G → Bool
  recovers m s =
      le c.min_fitness_reloc m.fitness
      && (le m.rmse c.max_rmse
          && (good_attitude c m.pose
              && le (planar_distance m.pose s.map_cam) c.max_recovery_drift_from_prior))

  -- A rejected tick: the loss is counted, and after enough losses a global search may lock again.
  unfoldable pub reject : Cloud F → Localizer F R G → Localizer F R G
  reject scan s =
      let lost = record s { lost_count = s.lost_count + 1 } in
      if leb c.relocalize_after_n_losses lost.lost_count
      then (let m = run_global_icp c s.features s.target scan s.map_cam in
          if recovers m s then lock m.pose (record lost { lost_count = 0 }) else lost)
      else lost

  -- `_track`, with the result of the tracking alignment.
  unfoldable pub track_with : Cloud F → Match F R → Localizer F R G → Localizer F R G
  track_with scan m s =
      let settled = record s { settle_ticks = s.settle_ticks - 1 } in
      if accepts scan m s then accept m settled else reject scan settled

  unfoldable pub track : Cloud F → Localizer F R G → Localizer F R G
  track scan s = track_with scan (run_track_icp c s.target scan s.map_cam) s

  unfoldable pub localize_scan : R → Cloud F → Localizer F R G → Localizer F R G
  localize_scan r cloud s =
      if ltb (length cloud) 200
      then s
      else if s.initialized
      then track (prepare_scan c r cloud) s
      else first_localize (prepare_scan c r cloud) s

  -- `_localize`, with the gravity transform as the buffer has it at this tick.
  unfoldable pub localize : Option R → Localizer F R G → Localizer F R G × Publication F R
  localize gravity s =
      if c.freeze_after_init && s.initialized
      then (if s.frozen_static_published
          then (s, nothing)
          else (record s { frozen_static_published = true }, static_transform s.published))
      else (elim (or_else s.cam_to_world gravity) [
        | none ↦ (record s { map_published = true }, nothing)
        | some r ↦ (elim s.latest_cloud [
          | none ↦ (record s { map_published = true; cam_to_world = some r }, nothing)
          | some cloud ↦
              let ready = record s { map_published = true; cam_to_world = some r } in
              let next = localize_scan r cloud ready in
              (next, if ltb (length cloud) 200 then nothing else transform next.published)
        ])
      ])
