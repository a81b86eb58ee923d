-- ===== src/Localizer/Stable.antt =====
-- What the parts of the node of src/localizer.py keep, kept over any events.
use humanoid_navigation.Prelude.{true, ◌&&◌, Option, some, List, [], ◌∷◌, if_split, option_split}
use humanoid_navigation.Double.{Double, LibM}
use humanoid_navigation.Navigation.{Point}
use humanoid_navigation.Localizer.{Cloud, Numerics, Rotations, Aligner, Settings}
use humanoid_navigation.Localizer.Node.{Localizer, cloud_cb, odom_cb}
use humanoid_navigation.Localizer.Tracking.{Publication, or_else, localize_scan, localize}
use humanoid_navigation.Localizer.Frozen.{Event, scanned, moved, ticked, handle, run}

module _ {F R G : Type 0} ⦃d : Double F⦄ ⦃lib : LibM F⦄ ⦃num : Numerics F⦄ ⦃rots : Rotations F R⦄
    ⦃aligner : Aligner F R G⦄ (c : Settings F) (pi : F) (P : Localizer F R G → Type 0) where
  -- A predicate that is closed under the callbacks and the parts of a tick.
  pub record IsStable : Type 0 where
    pub scan_closed :
        (r : R) (cloud : Cloud F) (s : Localizer F R G) → P s → P (localize_scan c pi r cloud s)
    pub sent_closed : (s : Localizer F R G) → P s → P (record s { frozen_static_published = true })
    pub map_closed : (s : Localizer F R G) → P s → P (record s { map_published = true })
    pub turn_closed :
        (r : R) (s : Localizer F R G)
        → P s
        → P (record s { map_published = true; cam_to_world = some r })
    pub cloud_closed : (pts : Cloud F) (s : Localizer F R G) → P s → P (cloud_cb pts s)
    pub odom_closed : (pos : Point F) (t : F) (s : Localizer F R G) → P s → P (odom_cb pos t s)

  abbrev After : Localizer F R G × Publication F R → Type 0
  After q = P q.0

  module _ (stable : IsStable) where
    localize_preserves :
        (gravity : Option R) (s : Localizer F R G) → P s → P (localize c pi gravity s).0
    unfolding localize
    localize_preserves gravity s h =
        if_split After (c.freeze_after_init && s.initialized) _ _
          (λ frozen.
            if_split After s.frozen_static_published _ _ (λ sent. h)
              (λ unsent. stable.sent_closed s h))
          (λ live.
            option_split After (or_else s.cam_to_world gravity) _ _ (stable.map_closed s h) (λ r.
              option_split After s.latest_cloud _ _ (stable.turn_closed r s h) (λ cloud.
                stable.scan_closed r cloud
                  (record s { map_published = true; cam_to_world = some r })
                  (stable.turn_closed r s h))))

    handle_preserves : (e : Event F R) (s : Localizer F R G) → P s → P (handle c pi e s).0
    unfolding handle
    handle_preserves (scanned pts) s h = stable.cloud_closed pts s h
    handle_preserves (moved pos t) s h = stable.odom_closed pos t s h
    handle_preserves (ticked gravity) s h = localize_preserves gravity s h

    pub run_preserves : (es : List (Event F R)) (s : Localizer F R G) → P s → P (run c pi es s).0
    unfolding run
    run_preserves [] s h = h
    run_preserves (e ∷ es) s h = run_preserves es (handle c pi e s).0 (handle_preserves e s h)
