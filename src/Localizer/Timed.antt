-- ===== src/Localizer/Timed.antt =====
-- The stamps and frames of the parts of what a tick of src/localizer.py sends.
use humanoid_navigation.Prelude.{
  ℕ, ◌≡◌, ◌⊎◌, inl, inr, refl, sym, ◌∙◌, Bool, true, false, Option, none, some, List, [], ◌∷◌, ltb,
  length, if_split, All,
}
use mathlib.Core.Option.{some-ne-none, none-ne-some}
use humanoid_navigation.Double.{Double}
use humanoid_navigation.Bytes.{Single, Convert}
use humanoid_navigation.PointCloud.{xyz_to_pc2}
use humanoid_navigation.Localizer.{Cloud, Numerics, Rotations, Settings}
use humanoid_navigation.Localizer.Tracking.{
  Publication, nothing, transform, static_transform, below_ceiling,
}
use humanoid_navigation.Localizer.Loading.{Angles, matrix_to_ros_tf}
use humanoid_navigation.Localizer.Messages.{
  Outfit, Sent, map_cloud, filtered_scan, dynamic_tf, static_tf, stamp_of, filtered, scan_part,
  map_part, tf_part,
}

module _ {F : Type 0} (outfit : Outfit F) where
  -- What a message of a tick carries, from the stamp of the latest scan and the clock: a dynamic transform
  -- and a filtered scan the stamp of the scan, a static transform the clock's, and the cloud of the map
  -- either.
  pub Timed : Option ℕ → ℕ → Sent F → Type 0
  Timed latest now (map_cloud m) = (m.stamp ≡ stamp_of latest now) × (m.frame ≡ outfit.map_frame)
  Timed latest now (filtered_scan m) = (latest ≡ some m.stamp) × (m.frame ≡ outfit.odom_frame)
  Timed latest now (dynamic_tf t) =
      (latest ≡ some t.stamp) × (t.parent ≡ outfit.map_frame) × (t.child ≡ outfit.odom_frame)
  Timed latest now (static_tf t) =
      (t.stamp ≡ now) × (t.parent ≡ outfit.map_frame) × (t.child ≡ outfit.odom_frame)

stamp_of-some :
    (latest : Option ℕ) (stamp now : ℕ) → latest ≡ some stamp → latest ≡ some (stamp_of latest now)
stamp_of-some none stamp now e = absurd (none-ne-some stamp e)
stamp_of-some (some s) stamp now e = refl

module _ {F S : Type 0} ⦃d : Double F⦄ ⦃single : Single S⦄ (conv : Convert F S) (outfit : Outfit F)
    (latest : Option ℕ) (now : ℕ) where
  pub map_part-Timed :
      (sent : Bool) → All (Timed outfit latest now) (map_part conv outfit latest now sent)
  unfolding map_part Timed xyz_to_pc2
  map_part-Timed true = tt
  map_part-Timed false = ((refl, refl), tt)

  module _ {R : Type 0} ⦃num : Numerics F⦄ ⦃rots : Rotations F R⦄ (c : Settings F) where
    filtered-Timed :
        (r : R) (cloud : Cloud F)
        → latest ≡ some (stamp_of latest now)
        → All (Timed outfit latest now) (filtered conv c outfit latest now r cloud)
    unfolding filtered Timed xyz_to_pc2
    filtered-Timed r cloud e = shown (below_ceiling c r cloud)
      where
        shown :
            (low : Cloud F)
            → All (Timed outfit latest now) (elim low [
              | [] ↦ []
              | p ∷ pts ↦
                  filtered_scan (xyz_to_pc2 conv (p ∷ pts) outfit.odom_frame (stamp_of latest now))
                  ∷ []
            ])
        shown [] = tt
        shown (p ∷ pts) = ((e, refl), tt)

    pub scan_part-Timed :
        (gravity : Option R) (o : Option (Cloud F))
        → (o ≡ none) ⊎ ((stamp : ℕ) × (latest ≡ some stamp))
        → All (Timed outfit latest now) (scan_part conv c outfit latest now gravity o)
    unfolding scan_part
    scan_part-Timed none none h = tt
    scan_part-Timed none (some cloud) h = tt
    scan_part-Timed (some r) none h = tt
    scan_part-Timed (some r) (some cloud) (inl no_cloud) = absurd (some-ne-none cloud no_cloud)
    scan_part-Timed (some r) (some cloud) (inr (stamp, e)) =
        if_split (λ (out : List (Sent F)). All (Timed outfit latest now) out)
          (ltb (length cloud) 200) _ _ (λ short. tt)
          (λ long. filtered-Timed r cloud (stamp_of-some latest stamp now e))

module _ {F R : Type 0} where
  -- A dynamic transform with a cloud; anything else.
  unfoldable pub Carries : Option (Cloud F) → Publication F R → Type 0
  Carries o nothing = Unit
  Carries o (static_transform t) = Unit
  Carries o (transform t) = (cloud : Cloud F) × (o ≡ some cloud)

  pub tf_part-Timed :
      (angles : Angles F R) (outfit : Outfit F) (latest : Option ℕ) (now : ℕ) (o : Option (Cloud F))
      (sent : Publication F R)
      → (o ≡ none) ⊎ ((stamp : ℕ) × (latest ≡ some stamp))
      → Carries o sent
      → All (Timed outfit latest now) (tf_part angles outfit latest now sent)
  unfolding tf_part Timed Carries matrix_to_ros_tf
  tf_part-Timed angles outfit latest now o nothing h k = tt
  tf_part-Timed angles outfit latest now o (static_transform t) h k = ((refl, refl, refl), tt)
  tf_part-Timed angles outfit latest now o (transform t) (inl no_cloud) (cloud, has) =
      absurd (some-ne-none cloud (sym has ∙ no_cloud))
  tf_part-Timed angles outfit latest now o (transform t) (inr (stamp, e)) k =
      ((stamp_of-some latest stamp now e, refl, refl), tt)
