-- ===== src/GravityOverride/Checked.antt =====
-- What src/ransac_gravity_override.py sends, over a sequence of clouds.
use humanoid_navigation.Prelude.{
  arith, ◌≡◌, inl, inr, refl, ◌∙◌, sym, true, false, List, [], ◌∷◌, ◌++◌,
}
use mathlib.Core.Bool.{false≢true}
use humanoid_navigation.Double.{Double}
use humanoid_navigation.Navigation.{Transform}
use humanoid_navigation.Navigation.Geometry.{Matrix}
use humanoid_navigation.Localizer.{Numerics}
use humanoid_navigation.GravityOverride.{FloorTools, fit_floor_normal}
use humanoid_navigation.GravityOverride.Outcome.{
  Passes, activated, compute-cases, on_cloud-cases, ready, forward,
}
use humanoid_navigation.GravityOverride.Node.{
  Message, Effect, relay, static_transform, shut_down, exit_starved, Settings, Override, init,
  retry, pool, relabelled, world_points, transform_of, compute, run,
}

module _ {F : Type 0} ⦃d : Double F⦄ where
  -- Only clouds in the output frame follow.
  pub IsRelay : Settings F → List (Effect F) → Type 0
  IsRelay c [] = Unit
  IsRelay c (relay msg ∷ es) = (msg.frame ≡ c.output_frame) × IsRelay c es
  IsRelay c (_ ∷ es) = ⊥

  module _ ⦃num : Numerics F⦄ ⦃tools : FloorTools F⦄ where
    -- The transform of a pool whose fit passed the gates.
    pub record IsChecked (c : Settings F) (t : Transform F) : Type 0 where
      pub source : Override F
      pub passes : Passes c source
      pub computed : t ≡ transform_of (fit_floor_normal (world_points source)) source

    -- No cloud comes before a transform, and after it nothing but clouds in the output frame.
    pub IsOrdered : Settings F → List (Effect F) → Type 0
    unfolding IsRelay
    IsOrdered c [] = Unit
    IsOrdered c (relay msg ∷ es) = ⊥
    IsOrdered c (static_transform t ∷ es) = IsChecked c t × IsRelay c es
    IsOrdered c (shut_down ∷ es) = IsOrdered c es
    IsOrdered c (exit_starved ∷ es) = IsOrdered c es

    active-IsRelay :
        (c : Settings F) (msgs : List (Message F)) (s : Override F)
        → s.active ≡ true
        → IsRelay c (run c msgs s).1
    unfolding run IsRelay relabelled
    active-IsRelay c [] s on = tt
    active-IsRelay c (msg ∷ msgs) s on = elim (on_cloud-cases c msg s) [
      | inl (_, e) ↦ rw e (refl, active-IsRelay c msgs s on)
      | inr (inl (off, e)) ↦ absurd (false≢true (sym off ∙ on))
      | inr (inr (inl (off, more, e))) ↦ absurd (false≢true (sym off ∙ on))
      | inr (inr (inr (off, going, e))) ↦ absurd (false≢true (sym off ∙ on))
    ]

    forward-nil :
        (c : Settings F) (msg : Message F) (s : Override F)
        → s.active ≡ false
        → forward c msg s ≡ []
    forward-nil c msg s off = ground arith

    fit-IsOrdered :
        (c : Settings F) (msg : Message F) (msgs : List (Message F)) (s : Override F)
        → s.active ≡ false
        → ((t : Override F) → t.active ≡ false → IsOrdered c (run c msgs t).1)
        → IsOrdered c
            (((compute c s).1 ++ forward c msg (compute c s).0) ++ (run c msgs (compute c s).0).1)
    unfolding IsOrdered IsRelay relabelled retry
    fit-IsOrdered c msg msgs s off later = elim (compute-cases c s) [
      | inl starved ↦ rw starved (rw (forward-nil c msg s off) (later s off))
      | inr (inl refused) ↦ rw refused (rw (forward-nil c msg (retry s) off) (later (retry s) off))
      | inr (inr (inl measured)) ↦ rw measured (rw (forward-nil c msg s off) (later s off))
      | inr (inr (inr (passes, live))) ↦ rw live (
        record { source = s; passes = passes; computed = refl },
        (refl, active-IsRelay c msgs (activated s) refl),
      )
    ]

    idle-IsOrdered :
        (c : Settings F) (msgs : List (Message F)) (s : Override F)
        → s.active ≡ false
        → IsOrdered c (run c msgs s).1
    unfolding run IsOrdered pool
    idle-IsOrdered c [] s off = tt
    idle-IsOrdered c (msg ∷ msgs) s off = elim (on_cloud-cases c msg s) [
      | inl (on, e) ↦ absurd (false≢true (sym off ∙ on))
      | inr (inl (_, e)) ↦ rw e (idle-IsOrdered c msgs s off)
      | inr (inr (inl (_, more, e))) ↦ rw e (idle-IsOrdered c msgs (pool msg.points s) off)
      | inr (inr (inr (_, going, e))) ↦
          rw e
            (fit-IsOrdered c msg msgs (ready msg s) off (λ t still. idle-IsOrdered c msgs t still))
    ]

    -- From start to end, over any sequence of clouds: no cloud is relayed before the transform is
    -- sent, at most one transform is sent, its fit had 200 candidates or more, an inlier ratio not
    -- below the limit and a correction not above the limit, and after it nothing is sent but the
    -- clouds, relabelled to the output frame.
    pub run-IsOrdered :
        (c : Settings F) (imu : Matrix F) (msgs : List (Message F))
        → IsOrdered c (run c msgs (init c imu)).1
    unfolding init
    run-IsOrdered c imu msgs = idle-IsOrdered c msgs (init c imu) refl
