-- ===== src/Localizer/Frozen.antt =====
-- The frozen mode of src/localizer.py: the events of the node, in any order, once it has a pose.
use humanoid_navigation.Prelude.{
  ◌≡◌, refl, sym, ap, ◌∙◌, inl, inr, Bool-cases, Bool, true, false, Option, List, [], ◌∷◌, arith,
}
use mathlib.Core.Bool.{false≢true}
use humanoid_navigation.Double.{Double, LibM}
use humanoid_navigation.Navigation.{Point}
use humanoid_navigation.Localizer.{Cloud, Rigid, Numerics, Rotations, Aligner, Settings}
use humanoid_navigation.Localizer.Node.{Localizer, cloud_cb, odom_cb}
use humanoid_navigation.Localizer.Tracking.{Publication, nothing, static_transform, localize}

-- What the executor hands to the node: a scan, an odometry message, or a timer tick with the gravity
-- transform as the buffer has it.
pub data Event (F R : Type 0) : Type 0 where
  scanned : Cloud F → Event F R
  moved : Point F → F → Event F R
  ticked : Option R → Event F R

module _ {F R : Type 0} where
  -- What a frozen node publishes: nothing until the first tick, then the pose once.
  unfoldable pub promised : Rigid F R → Bool → List (Event F R) → List (Publication F R)
  promised pose done [] = []
  promised pose done (scanned pts ∷ es) = nothing ∷ promised pose done es
  promised pose done (moved pos t ∷ es) = nothing ∷ promised pose done es
  promised pose true (ticked gravity ∷ es) = nothing ∷ promised pose true es
  promised pose false (ticked gravity ∷ es) = static_transform pose ∷ promised pose true es

  promised-done :
      (done : Bool) (pose : Rigid F R) (gravity : Option R) (es : List (Event F R))
      → done ≡ true
      → promised pose done (ticked gravity ∷ es) ≡ nothing ∷ promised pose done es
  unfolding promised
  promised-done true pose gravity es sent = refl
  promised-done false pose gravity es sent = absurd (false≢true sent)

  promised-fresh :
      (done : Bool) (pose : Rigid F R) (gravity : Option R) (es : List (Event F R))
      → done ≡ false
      → promised pose done (ticked gravity ∷ es) ≡ static_transform pose ∷ promised pose true es
  unfolding promised
  promised-fresh true pose gravity es fresh = absurd (false≢true (sym fresh))
  promised-fresh false pose gravity es fresh = refl

module _ {F R G : Type 0} ⦃d : Double F⦄ ⦃lib : LibM F⦄ ⦃num : Numerics F⦄ ⦃rots : Rotations F R⦄
    ⦃aligner : Aligner F R G⦄ (c : Settings F) (pi : F) where
  unfoldable pub handle : Event F R → Localizer F R G → Localizer F R G × Publication F R
  handle (scanned pts) s = (cloud_cb pts s, nothing)
  handle (moved pos t) s = (odom_cb pos t s, nothing)
  handle (ticked gravity) s = localize c pi gravity s

  -- The state after the events, and what was published at each.
  unfoldable pub run : List (Event F R) → Localizer F R G → Localizer F R G × List (Publication F R)
  run [] s = (s, [])
  run (e ∷ es) s = let next = handle e s in let rest = run es next.0 in (rest.0, next.1 ∷ rest.1)

  localize-again :
      (gravity : Option R) (s : Localizer F R G)
      → c.freeze_after_init ≡ true
      → s.initialized ≡ true
      → s.frozen_static_published ≡ true
      → localize c pi gravity s ≡ (s, nothing)
  unfolding localize
  localize-again gravity s freeze ready done = ground arith

  localize-first :
      (gravity : Option R) (s : Localizer F R G)
      → c.freeze_after_init ≡ true
      → s.initialized ≡ true
      → s.frozen_static_published ≡ false
      → localize c pi gravity s
        ≡ (record s { frozen_static_published = true }, static_transform s.published)
  unfolding localize
  localize-first gravity s freeze ready fresh = ground arith

  -- In frozen mode an initialized node never moves its pose again, whatever events come in whatever
  -- order, and it publishes exactly one transform: the published pose as a static transform, at the
  -- first tick, unless that has been sent before.
  pub frozen_run :
      (es : List (Event F R)) (s : Localizer F R G)
      → c.freeze_after_init ≡ true
      → s.initialized ≡ true
      → ((run es s).1 ≡ promised s.published s.frozen_static_published es)
        × ((run es s).0.map_cam ≡ s.map_cam)
        × ((run es s).0.published ≡ s.published)
        × ((run es s).0.initialized ≡ true)
  unfolding run promised handle localize cloud_cb odom_cb
  frozen_run [] s freeze ready = (refl, refl, refl, ready)
  frozen_run (scanned pts ∷ es) s freeze ready =
      let k = frozen_run es (cloud_cb pts s) freeze ready in
      (ap (λ ps. nothing ∷ ps) k.0, k.1, k.2, k.3)
  frozen_run (moved pos t ∷ es) s freeze ready =
      let k = frozen_run es (odom_cb pos t s) freeze ready in
      (ap (λ ps. nothing ∷ ps) k.0, k.1, k.2, k.3)
  frozen_run (ticked gravity ∷ es) s freeze ready = elim (Bool-cases s.frozen_static_published) [
    | inl done ↦
        let k = frozen_run es s freeze ready in
        let p = promised-done s.frozen_static_published s.published gravity es done in
        rw (localize-again gravity s freeze ready done)
          (ap (λ ps. nothing ∷ ps) k.0 ∙ sym p, k.1, k.2, k.3)
    | inr fresh ↦
        let sent : Localizer F R G = record s { frozen_static_published = true } in
        let k = frozen_run es sent freeze ready in
        let p = promised-fresh s.frozen_static_published s.published gravity es fresh in
        rw (localize-first gravity s freeze ready fresh)
          (ap (λ ps. static_transform s.published ∷ ps) k.0 ∙ sym p, k.1, k.2, k.3)
  ]
