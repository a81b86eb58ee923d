-- ===== src/PoseBridge/Chain.antt =====
-- The messages of nav/g1_nav_pose_bridge.py over a sequence of ticks.
use humanoid_navigation.Prelude.{
  ℕ, ◌≡◌, ◌⊎◌, refl, sym, Bool, true, false, Option, none, some, List, [], ◌∷◌, if_split, inl, inr,
}
use mathlib.Core.Path.{subst}
use humanoid_navigation.Double.{Double, LibM, lt}
use humanoid_navigation.Navigation.{Transform}
use humanoid_navigation.PoseBridge.{
  Planar, Bridge, Reading, Output, init, no_lookup, velocity, message_of, planar, publish, tick,
  run,
}

module _ {F : Type 0} ⦃d : Double F⦄ ⦃m : LibM F⦄ where
  -- The pose in the plane that a tick sees.
  abbrev pub seen : Reading F → Option (Planar F)
  seen r = elim r.source [ none ↦ none | some t ↦ planar t r.now_s ]

  -- What the ticks publish after the last published pose: silence keeps that pose, and a message is made of
  -- the pose of its tick and of the velocity since the last one.
  pub data IsChain : Option (Planar F) → List (Reading F) → List (Output F) → Type 0 where
    done : {last : Option (Planar F)} → IsChain last [] []
    silent :
        {last : Option (Planar F)} {r : Reading F} {rs : List (Reading F)} {outs : List (Output F)}
        (warned : Bool)
        → seen r ≡ none
        → IsChain last rs outs
        → IsChain last (r ∷ rs) (record { message = none; ready = false; warned = warned } ∷ outs)
    sends :
        {last : Option (Planar F)} {r : Reading F} {rs : List (Reading F)} {outs : List (Output F)}
        (p : Planar F)
        → seen r ≡ some p
        → IsChain (some p) rs outs
        → IsChain last (r ∷ rs) (
            record {
              message = some (message_of r.stamp p (velocity last p));
              ready = true;
              warned = false;
            }
            ∷ outs)

  abbrev silence : Bool → Output F
  silence warned = record { message = none; ready = false; warned = warned }

  abbrev message_after : Option (Planar F) → ℕ → Planar F → Output F
  message_after last stamp p = record {
    message = some (message_of stamp p (velocity last p));
    ready = true;
    warned = false;
  }

  -- The two ends of a tick, from what it sees.
  Ends : ℕ → Option (Planar F) → Bridge F → Bridge F × Output F → Type 0
  Ends stamp found s next =
      ((found ≡ none)
        × (warned : Bool) × (next.0.last_pose ≡ s.last_pose)
        × (next.1 ≡ silence warned))
      ⊎ ((p : Planar F) × (found ≡ some p)
          × (next.0.last_pose ≡ some p)
          × (next.1 ≡ message_after s.last_pose stamp p))

  no_lookup-Ends : (r : Reading F) (s : Bridge F) → Ends r.stamp none s (no_lookup r s)
  unfolding no_lookup Ends
  no_lookup-Ends r s =
      if_split (λ (next : Bridge F × Output F). Ends r.stamp none s next)
        (lt (d.decimal 2 0) (d.sub r.now_s s.last_warning)) _ _
        (λ late. inl (refl, true, refl, refl)) (λ soon. inl (refl, false, refl, refl))

  publish-Ends :
      (stamp : ℕ) (found : Option (Planar F)) (s : Bridge F)
      → Ends stamp found s (publish stamp found s)
  unfolding publish Ends
  publish-Ends stamp none s = inl (refl, false, refl, refl)
  publish-Ends stamp (some p) s = inr (p, refl, refl, refl)

  reading-Ends :
      (source : Option (Transform F)) (stamp : ℕ) (now_s : F) (s : Bridge F)
      → let r : Reading F = record { source = source; stamp = stamp; now_s = now_s } in
        Ends stamp (seen r) s (tick r s)
  unfolding tick
  reading-Ends none stamp now_s s =
      no_lookup-Ends (record { source = none; stamp = stamp; now_s = now_s }) s
  reading-Ends (some t) stamp now_s s = publish-Ends stamp (planar t now_s) s

  chain : (rs : List (Reading F)) (s : Bridge F) → IsChain s.last_pose rs (run rs s)
  unfolding run Ends
  chain [] s = done
  chain (r ∷ rs) s =
      let rest = chain rs (tick r s).0 in
      elim (reading-Ends r.source r.stamp r.now_s s) [
        | inl (blind, warned, kept, out) ↦
            subst (λ (o : Output F). IsChain s.last_pose (r ∷ rs) (o ∷ run rs (tick r s).0))
              (sym out)
              (silent warned blind
                (subst (λ (l : Option (Planar F)). IsChain l rs (run rs (tick r s).0)) kept rest))
        | inr (p, found, new, out) ↦
            subst (λ (o : Output F). IsChain s.last_pose (r ∷ rs) (o ∷ run rs (tick r s).0))
              (sym out)
              (sends p found
                (subst (λ (l : Option (Planar F)). IsChain l rs (run rs (tick r s).0)) new rest))
      ]

  -- Over any lookups and readings of the clock, from a node that has just started: a tick says ready just if
  -- it publishes a pose, which it does just if it sees one that is not too steep; and the velocity in each
  -- message is the one since the last pose that was published, however many ticks were silent in between, or
  -- zero in the first.
  pub run-IsChain : (rs : List (Reading F)) → IsChain none rs (run rs init)
  unfolding init
  run-IsChain rs = chain rs init
