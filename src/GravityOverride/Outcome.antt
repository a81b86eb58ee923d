-- ===== src/GravityOverride/Outcome.antt =====
-- The branches of `_compute` and `_on_cloud` of src/ransac_gravity_override.py, as equations.
use humanoid_navigation.Prelude.{
  ◌≡◌, ◌⊎◌, inl, inr, refl, true, false, not, List, [], ◌∷◌, ◌++◌, arith, Bool-cases, if◌then◌else◌,
}
use humanoid_navigation.Double.{Double, lt}
use humanoid_navigation.Localizer.{Numerics}
use humanoid_navigation.GravityOverride.{FloorTools, fit_floor_normal}
use humanoid_navigation.GravityOverride.Node.{
  Message, Effect, relay, static_transform, shut_down, exit_starved, Settings, Override, retry,
  relabelled, world_points, is_starved, transform_of, compute, pool, is_full, on_cloud,
}

module _ {F : Type 0} ⦃d : Double F⦄ ⦃num : Numerics F⦄ ⦃tools : FloorTools F⦄ where
  -- The fit of the pooled points passes the three gates of `_compute`.
  pub record Passes (c : Settings F) (s : Override F) : Type 0 where
    pub fed : is_starved (world_points s) ≡ false
    pub supported : lt (fit_floor_normal (world_points s)).ratio c.min_inlier_ratio ≡ false
    pub small :
        lt c.max_correction_deg (tools.angle_deg (fit_floor_normal (world_points s)).normal.z)
        ≡ false

  abbrev pub activated : Override F → Override F
  activated s = record s { active = true; scans = [] }

  abbrev pub correction : Override F → Effect F
  correction s = static_transform (transform_of (fit_floor_normal (world_points s)) s)

  pub compute-cases :
      (c : Settings F) (s : Override F)
      → (compute c s ≡ (s, shut_down ∷ exit_starved ∷ []))
        ⊎ (compute c s ≡ (retry s, []))
        ⊎ (compute c s ≡ (s, shut_down ∷ []))
        ⊎ (Passes c s × (compute c s ≡ (activated s, correction s ∷ [])))
  unfolding compute
  compute-cases c s =
      let fit = fit_floor_normal (world_points s) in
      elim (Bool-cases (is_starved (world_points s))) [
        | inl starved ↦ rw starved (inl refl)
        | inr fed ↦ elim (Bool-cases (lt fit.ratio c.min_inlier_ratio)) [
          | inl poor ↦ rw fed (rw poor (inr (inl refl)))
          | inr supported ↦
              elim (Bool-cases (lt c.max_correction_deg (tools.angle_deg fit.normal.z))) [
                | inl large ↦ rw fed (rw supported (rw large (inr (inl refl))))
                | inr small ↦ elim (Bool-cases (not c.publish)) [
                  | inl dry ↦ rw fed (rw supported (rw small (rw dry (inr (inr (inl refl))))))
                  | inr live ↦ rw fed (
                      rw supported (
                        rw small (
                          rw live (
                            inr (
                              inr (
                                inr (
                                  record { fed = fed; supported = supported; small = small },
                                  refl,
                                )))))))
                ]
              ]
        ]
      ]

  -- The state that goes into the fit.
  abbrev pub ready : Message F → Override F → Override F
  ready msg s = record (pool msg.points s) { done = true }

  abbrev pub forward : Settings F → Message F → Override F → List (Effect F)
  forward c msg s = if s.active then relay (relabelled c msg) ∷ [] else []

  on_cloud-active :
      (c : Settings F) (msg : Message F) (s : Override F)
      → s.active ≡ true
      → on_cloud c msg s ≡ (s, relay (relabelled c msg) ∷ [])
  unfolding on_cloud
  on_cloud-active c msg s on = ground arith

  on_cloud-done :
      (c : Settings F) (msg : Message F) (s : Override F)
      → s.active ≡ false
      → s.done ≡ true
      → on_cloud c msg s ≡ (s, [])
  unfolding on_cloud
  on_cloud-done c msg s off done = ground arith

  pub on_cloud-waits :
      (c : Settings F) (msg : Message F) (s : Override F)
      → s.active ≡ false
      → s.done ≡ false
      → is_full (pool msg.points s) ≡ false
      → on_cloud c msg s ≡ (pool msg.points s, [])
  unfolding on_cloud
  on_cloud-waits c msg s off going more = ground arith

  pub on_cloud-fits :
      (c : Settings F) (msg : Message F) (s : Override F)
      → s.active ≡ false
      → s.done ≡ false
      → is_full (pool msg.points s) ≡ true
      → on_cloud c msg s ≡ (
        (compute c (ready msg s)).0,
        (compute c (ready msg s)).1 ++ forward c msg (compute c (ready msg s)).0,
      )
  unfolding on_cloud
  on_cloud-fits c msg s off going full = ground arith

  pub on_cloud-cases :
      (c : Settings F) (msg : Message F) (s : Override F)
      → ((s.active ≡ true) × (on_cloud c msg s ≡ (s, relay (relabelled c msg) ∷ [])))
        ⊎ ((s.active ≡ false) × (on_cloud c msg s ≡ (s, [])))
        ⊎ ((s.active ≡ false)
            × (is_full (pool msg.points s) ≡ false)
            × (on_cloud c msg s ≡ (pool msg.points s, [])))
        ⊎ ((s.active ≡ false)
            × (s.done ≡ false)
            × (on_cloud c msg s ≡ (
              (compute c (ready msg s)).0,
              (compute c (ready msg s)).1 ++ forward c msg (compute c (ready msg s)).0,
            )))
  on_cloud-cases c msg s = elim (Bool-cases s.active) [
    | inl on ↦ inl (on, on_cloud-active c msg s on)
    | inr off ↦ elim (Bool-cases s.done) [
      | inl done ↦ inr (inl (off, on_cloud-done c msg s off done))
      | inr going ↦ elim (Bool-cases (is_full (pool msg.points s))) [
        | inl full ↦ inr (inr (inr (off, going, on_cloud-fits c msg s off going full)))
        | inr more ↦ inr (inr (inl (off, more, on_cloud-waits c msg s off going more)))
      ]
    ]
  ]
