-- ===== src/Localizer/Gate.antt =====
-- What a tick of src/localizer.py may do to the pose: the gates of `_track` and `_first_localize`.
use humanoid_navigation.Prelude.{
  ℕ, ◌+◌, ◌-◌, ◌≤◌, ◌<◌, ◌≡◌, ◌⊎◌, refl, sym, ap, ◌∙◌, if◌then◌else◌, Bool, true, false, arith, leb,
  inl, inr, Bool-cases,
}
use humanoid_navigation.Double.{Double, LibM, le}
use humanoid_navigation.Localizer.{Cloud, Rigid, Match, Numerics, Rotations, Aligner, Settings}
use humanoid_navigation.Localizer.Search.{run_global_icp}
use humanoid_navigation.Localizer.Node.{
  Localizer, settle_ticks_after_lock, seed_kalmans_from, kalman_smooth, ema_smooth, smooth_tf,
  with_floor_z, rebuild_local_map,
}
use humanoid_navigation.Localizer.Tracking.{
  lock, first_ok, first_with, accepts, needs_rebuild, accept, recovers, reject, track_with,
}

leb-order : (n k : ℕ) → leb n k ≡ true → n ≤ k
leb-order n k due = ground arith

leb-misses : (n k : ℕ) → leb n k ≡ false → k < n
leb-misses n k early = ground arith

module _ {F R G : Type 0} ⦃d : Double F⦄ where
  open d use {neg}

  -- A lock on a pose.
  pub record IsLocked (t : Rigid F R) (floor : F) (s : Localizer F R G) : Type 0 where
    pub pose : s.map_cam ≡ t
    pub published_rot : s.published.rot ≡ t.rot
    pub published_x : s.published.at.x ≡ t.at.x
    pub published_y : s.published.at.y ≡ t.at.y
    pub on_floor : s.published.at.z ≡ neg floor
    pub grace : s.settle_ticks ≡ settle_ticks_after_lock

module _ {F R G : Type 0} ⦃d : Double F⦄ ⦃lib : LibM F⦄ ⦃num : Numerics F⦄ ⦃rots : Rotations F R⦄
    ⦃aligner : Aligner F R G⦄ (c : Settings F) (pi : F) where
  open d use {add, neg}

  rebuild-keeps :
      (x y : F) (s : Localizer F R G)
      → let t = rebuild_local_map c x y s in
        (t.map_cam ≡ s.map_cam)
        × (t.published ≡ s.published)
        × (t.lost_count ≡ s.lost_count)
        × (t.settle_ticks ≡ s.settle_ticks)
        × (t.initialized ≡ s.initialized)
  unfolding rebuild_local_map
  rebuild-keeps x y s = ground arith

  smooth-keeps :
      (t : Rigid F R) (s : Localizer F R G)
      → ((smooth_tf c pi t s).map_cam ≡ s.map_cam)
        × ((smooth_tf c pi t s).settle_ticks ≡ s.settle_ticks)
  unfolding smooth_tf kalman_smooth ema_smooth
  smooth-keeps t s = ground arith

  lock-IsLocked :
      (t : Rigid F R) (s : Localizer F R G)
      → IsLocked t s.floor_z_world (lock c pi t s)
        × ((lock c pi t s).lost_count ≡ s.lost_count)
        × ((lock c pi t s).initialized ≡ s.initialized)
  unfolding lock with_floor_z seed_kalmans_from
  lock-IsLocked t s =
      let pub_pose : Rigid F R = with_floor_z t s in
      let seeded : Localizer F R G = seed_kalmans_from pub_pose (record s { map_cam = t }) in
      let ready : Localizer F R G = record seeded {
        published = pub_pose;
        settle_ticks = settle_ticks_after_lock;
      } in
      let k = rebuild-keeps pub_pose.at.x pub_pose.at.y ready in
      (
        record {
          pose = k.0;
          published_rot = ap (λ p. p.rot) k.1;
          published_x = ap (λ p. p.at.x) k.1;
          published_y = ap (λ p. p.at.y) k.1;
          on_floor = ap (λ p. p.at.z) k.1;
          grace = k.3;
        },
        k.2,
        k.4,
      )

  -- The state before the pose is decided on: one tick of the grace period is used up.
  abbrev pub spent : Localizer F R G → Localizer F R G
  spent s = record s { settle_ticks = s.settle_ticks - 1 }

  smoothed-keeps :
      (confident : Bool) (t : Rigid F R) (s : Localizer F R G)
      → let next = if confident then smooth_tf c pi t s else s in
        (next.map_cam ≡ s.map_cam)
        × (next.settle_ticks ≡ s.settle_ticks)
        × ((confident ≡ true) ⊎ (next.published ≡ s.published))
  smoothed-keeps true t s = ((smooth-keeps t s).0, (smooth-keeps t s).1, inl refl)
  smoothed-keeps false t s = (refl, refl, inr refl)

  rebuilt-keeps :
      (due : Bool) (x y : F) (s : Localizer F R G)
      → let next = if due then rebuild_local_map c x y s else s in
        (next.map_cam ≡ s.map_cam)
        × (next.published ≡ s.published)
        × (next.lost_count ≡ s.lost_count)
        × (next.settle_ticks ≡ s.settle_ticks)
  rebuilt-keeps true x y s = let k = rebuild-keeps x y s in (k.0, k.1, k.2, k.3)
  rebuilt-keeps false x y s = (refl, refl, refl, refl)

  accept-pose :
      (m : Match F R) (s : Localizer F R G)
      → ((accept c pi m s).map_cam ≡ m.pose)
        × ((accept c pi m s).lost_count ≡ 0)
        × ((accept c pi m s).settle_ticks ≡ s.settle_ticks)
        × ((le c.confidence_th m.fitness ≡ true) ⊎ ((accept c pi m s).published ≡ s.published))
  unfolding accept
  accept-pose m s =
      let t : Rigid F R = with_floor_z m.pose s in
      let moved : Localizer F R G = record s { map_cam = m.pose } in
      let confident = le c.confidence_th m.fitness in
      let smoothed : Localizer F R G = if confident then smooth_tf c pi t moved else moved in
      let kept : Localizer F R G = record smoothed { lost_count = 0 } in
      let a = smoothed-keeps confident t moved in
      let b =
        rebuilt-keeps (needs_rebuild c t.at.x t.at.y kept.local_map_centre) t.at.x t.at.y kept in
      (b.0 ∙ a.0, b.2, b.3 ∙ a.1, elim a.2 [ inl high ↦ inl high | inr same ↦ inr (b.1 ∙ same) ])

  -- The three outcomes of a tracking tick.
  pub data Outcome (scan : Cloud F) (m : Match F R) (s next : Localizer F R G) : Type 0 where
    accepted :
        accepts c pi scan m s ≡ true
        → next.map_cam ≡ m.pose
        → next.lost_count ≡ 0
        → (le c.confidence_th m.fitness ≡ true) ⊎ (next.published ≡ s.published)
        → Outcome scan m s next
    kept :
        accepts c pi scan m s ≡ false
        → (s.lost_count + 1 < c.relocalize_after_n_losses)
          ⊎ (recovers c pi (run_global_icp c s.features s.target scan s.map_cam) s ≡ false)
        → next.map_cam ≡ s.map_cam
        → next.published ≡ s.published
        → next.lost_count ≡ s.lost_count + 1
        → Outcome scan m s next
    recovered :
        (g : Match F R)
        → g ≡ run_global_icp c s.features s.target scan s.map_cam
        → accepts c pi scan m s ≡ false
        → c.relocalize_after_n_losses ≤ s.lost_count + 1
        → recovers c pi g s ≡ true
        → IsLocked g.pose s.floor_z_world next
        → next.lost_count ≡ 0
        → Outcome scan m s next

  recovers-spent :
      (g : Match F R) (s : Localizer F R G) → recovers c pi g (spent s) ≡ recovers c pi g s
  unfolding recovers
  recovers-spent g s = refl

  reject-Outcome :
      (scan : Cloud F) (m : Match F R) (s : Localizer F R G)
      → accepts c pi scan m s ≡ false
      → Outcome scan m s (reject c pi scan (spent s))
  unfolding reject
  reject-Outcome scan m s refused =
      let g : Match F R = run_global_icp c s.features s.target scan s.map_cam in
      elim (Bool-cases (leb c.relocalize_after_n_losses (s.lost_count + 1))) [
        | inl due ↦ elim (Bool-cases (recovers c pi g (spent s))) [
          | inl found ↦
              let k = lock-IsLocked g.pose (record (spent s) { lost_count = 0 }) in
              rw due (
                rw found (
                  recovered g refl refused
                    (leb-order c.relocalize_after_n_losses (s.lost_count + 1) due)
                    (sym (recovers-spent g s) ∙ found) k.0 k.1))
          | inr lost ↦
              rw due (rw lost (kept refused (inr (sym (recovers-spent g s) ∙ lost)) refl refl refl))
        ]
        | inr early ↦ rw early (
            kept refused (inl (leb-misses c.relocalize_after_n_losses (s.lost_count + 1) early))
              refl refl refl)
      ]

  -- A tracking tick has one of three outcomes. It takes the new match if all gates of `_track` pass,
  -- and then publishes a new pose only on high confidence. If a gate fails, enough losses have come
  -- together and the global match passes all gates of the recovery, that match is locked, on the
  -- measured floor and with a new grace period. It keeps both poses and counts the loss only if a
  -- gate fails, and the losses are too few or the global match fails a gate of the recovery.
  pub track_with-Outcome :
      (scan : Cloud F) (m : Match F R) (s : Localizer F R G)
      → Outcome scan m s (track_with c pi scan m s)
  unfolding track_with
  track_with-Outcome scan m s = elim (Bool-cases (accepts c pi scan m s)) [
    | inl fits ↦ let a = accept-pose m (spent s) in rw fits (accepted fits a.0 a.1 a.3)
    | inr refused ↦ rw refused (reject-Outcome scan m s refused)
  ]

  -- A first localisation marks the node as initialized, and locks its pose, exactly if the match passes
  -- the three gates of `_first_localize`. A weak match keeps the pose of the node and the flag, and is
  -- yet published, moved to the measured floor.
  pub first_with-gated :
      (m : Match F R) (s : Localizer F R G)
      → s.initialized ≡ false
      → (((first_with c pi m s).initialized ≡ true)
          × (first_ok c m ≡ true)
          × IsLocked m.pose s.floor_z_world (first_with c pi m s))
        ⊎ (((first_with c pi m s).initialized ≡ false)
            × (first_ok c m ≡ false)
            × ((first_with c pi m s).map_cam ≡ s.map_cam)
            × ((first_with c pi m s).published ≡ with_floor_z m.pose s))
  unfolding first_with
  first_with-gated m s fresh = elim (Bool-cases (first_ok c m)) [
    | inl fits ↦
        let k = lock-IsLocked m.pose (record s { initialized = true }) in
        rw fits (inl (k.2, refl, k.0))
    | inr weak ↦ rw weak (inr (fresh, refl, refl, refl))
  ]
