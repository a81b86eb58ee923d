-- ===== src/Localizer/Best.antt =====
-- The loop over the yaw seeds of src/localizer.py: which candidate it returns.
use humanoid_navigation.Prelude.{
  In, ◌≡◌, ◌⊎◌, inl, inr, refl, Bool, true, false, ◌&&◌, List, [], ◌∷◌, map, arith, All, Bool-cases,
  if◌then◌else◌,
}
use humanoid_navigation.Double.{Double, LibM, lt}
use humanoid_navigation.Localizer.{Cloud, Rigid, Match, Numerics, Rotations, Aligner}
use humanoid_navigation.Localizer.Icp.{icp_point_to_plane}
use humanoid_navigation.Localizer.Search.{
  yaw_seeds, best_of, unmatched, near_hint, seeded, global_icp_point_to_plane,
}

not_both : (b e : Bool) → (b ≡ false) ⊎ (e ≡ false) → (b && e) ≡ false
not_both b e h = ground arith

module _ {F : Type 0} ⦃d : Double F⦄ where
  better-lt : (x y z : F) (b : Bool) → lt x z ≡ false → lt (if b && lt x y then y else x) z ≡ false
  better-lt x y z b h = ground arith

  better_irrefl : (x y : F) (b : Bool) → (b ≡ false) ⊎ (lt (if b && lt x y then y else x) y ≡ false)
  better_irrefl x y true = inr (ground arith)
  better_irrefl x y false = inl refl

module _ {F R : Type 0} ⦃d : Double F⦄ where
  -- No fitness of a candidate that the test allows is above the fitness of the result.
  pub IsMaximal : (Match F R → Bool) → List (Match F R) → Match F R → Type 0
  IsMaximal allowed ms best = All (λ m. (allowed m && lt best.fitness m.fitness) ≡ false) ms

  pick-fitness :
      (b : Bool) (m best : Match F R)
      → (if b then m else best).fitness ≡ (if b then m.fitness else best.fitness)
  pick-fitness true m best = refl
  pick-fitness false m best = refl

  best_of-keeps :
      (allowed : Match F R → Bool) (ms : List (Match F R)) (best : Match F R) (x : F)
      → lt best.fitness x ≡ false
      → lt (best_of allowed ms best).fitness x ≡ false
  unfolding best_of
  best_of-keeps allowed [] best x h = h
  best_of-keeps allowed (m ∷ ms) best x h =
      let b = allowed m && lt best.fitness m.fitness in
      best_of-keeps allowed ms (if b then m else best) x
        (rw (pick-fitness b m best) (better-lt best.fitness m.fitness x (allowed m) h))

  best_of-IsMaximal :
      (allowed : Match F R → Bool) (ms : List (Match F R)) (best : Match F R)
      → IsMaximal allowed ms (best_of allowed ms best)
  unfolding best_of IsMaximal
  best_of-IsMaximal allowed [] best = tt
  best_of-IsMaximal allowed (m ∷ ms) best =
      let b = allowed m && lt best.fitness m.fitness in
      (
        not_both (allowed m) _ (elim (better_irrefl best.fitness m.fitness (allowed m)) [
          | inl refused ↦ inl refused
          | inr above ↦ inr (
              best_of-keeps allowed ms (if b then m else best) m.fitness
                (rw (pick-fitness b m best) above))
        ]),
        best_of-IsMaximal allowed ms (if b then m else best),
      )

  best_of-allowed :
      (allowed : Match F R → Bool) (ms : List (Match F R)) (best start : Match F R)
      → (best ≡ start) ⊎ (allowed best ≡ true)
      → (best_of allowed ms best ≡ start) ⊎ (allowed (best_of allowed ms best) ≡ true)
  unfolding best_of
  best_of-allowed allowed [] best start h = h
  best_of-allowed allowed (m ∷ ms) best start h = elim (Bool-cases (allowed m)) [
    | inl ok ↦ elim (Bool-cases (lt best.fitness m.fitness)) [
      | inl above ↦ rw ok (rw above (best_of-allowed allowed ms m start (inr ok)))
      | inr below ↦ rw ok (rw below (best_of-allowed allowed ms best start h))
    ]
    | inr refused ↦ rw refused (best_of-allowed allowed ms best start h)
  ]

  -- The result is the start, or a candidate that the test allows, and no such candidate is above it.
  pub record IsBest (allowed : Match F R → Bool) (ms : List (Match F R)) (start best : Match F R)
      : Type 0 where
    pub chosen : (best ≡ start) ⊎ ((allowed best ≡ true) × In best ms)
    pub maximal : IsMaximal allowed ms best

  best_of-chosen :
      (allowed : Match F R → Bool) (all ms : List (Match F R)) (best start : Match F R)
      → ((m : Match F R) → In m ms → In m all)
      → (best ≡ start) ⊎ ((allowed best ≡ true) × In best all)
      → (best_of allowed ms best ≡ start)
        ⊎ ((allowed (best_of allowed ms best) ≡ true) × In (best_of allowed ms best) all)
  unfolding best_of
  best_of-chosen allowed all [] best start sub h = h
  best_of-chosen allowed all (m ∷ ms) best start sub h = elim (Bool-cases (allowed m)) [
    | inl ok ↦ elim (Bool-cases (lt best.fitness m.fitness)) [
      | inl above ↦ rw ok (
          rw above (
            best_of-chosen allowed all ms m start (λ a later. sub a (inr later))
              (inr (ok, sub m (inl refl)))))
      | inr below ↦
          rw ok
            (rw below (best_of-chosen allowed all ms best start (λ a later. sub a (inr later)) h))
    ]
    | inr refused ↦
        rw refused (best_of-chosen allowed all ms best start (λ a later. sub a (inr later)) h)
  ]

  pub best_of-IsBest :
      (allowed : Match F R → Bool) (ms : List (Match F R)) (start : Match F R)
      → IsBest allowed ms start (best_of allowed ms start)
  best_of-IsBest allowed ms start = record {
    chosen = best_of-chosen allowed ms ms start start (λ a h. h) (inl refl);
    maximal = best_of-IsMaximal allowed ms start;
  }

module _ {F R G : Type 0} ⦃d : Double F⦄ ⦃lib : LibM F⦄ ⦃num : Numerics F⦄ ⦃rots : Rotations F R⦄
    ⦃aligner : Aligner F R G⦄ where
  -- The result of the point-to-plane search over the yaw seeds is no further in the plane from the hint than
  -- the limit, or it is the hint itself with fitness -1; and no alignment from a seed that ends within
  -- the limit has a greater fitness.
  pub global_icp_point_to_plane-best :
      (target : G) (pts : Cloud F) (hint : Rigid F R) (max_dist max_drift : F)
      → let m = global_icp_point_to_plane target pts hint max_dist max_drift in
        ((m ≡ unmatched hint) ⊎ (near_hint hint max_drift m ≡ true))
        × IsMaximal
            (near_hint hint max_drift)
            (map (λ deg. icp_point_to_plane target pts (seeded pts hint deg) max_dist 30) yaw_seeds)
            m
  unfolding global_icp_point_to_plane
  global_icp_point_to_plane-best target pts hint max_dist max_drift =
      let ms =
        map (λ deg. icp_point_to_plane target pts (seeded pts hint deg) max_dist 30) yaw_seeds in
      (
        best_of-allowed (near_hint hint max_drift) ms (unmatched hint) (unmatched hint) (inl refl),
        best_of-IsMaximal (near_hint hint max_drift) ms (unmatched hint),
      )
