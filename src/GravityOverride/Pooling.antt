-- ===== src/GravityOverride/Pooling.antt =====
-- The pool of src/ransac_gravity_override.py, over a sequence of clouds.
use humanoid_navigation.Prelude.{
  ◌+◌, ◌≤◌, ◌<◌, ◌≡◌, ◌⊎◌, inl, inr, refl, true, false, List, [], ◌∷◌, length, length-append, arith,
}
use humanoid_navigation.Double.{Double}
use humanoid_navigation.Navigation.Geometry.{Matrix}
use humanoid_navigation.Localizer.{Cloud, Numerics}
use humanoid_navigation.GravityOverride.{FloorTools}
use humanoid_navigation.GravityOverride.Outcome.{compute-cases, on_cloud-cases, ready, activated}
use humanoid_navigation.GravityOverride.Node.{
  Message, Settings, Override, min_points_floor, max_scans, total, pooled, init, retry, pool,
  compute, is_full, on_cloud, run,
}

module _ {A : Type 0} where
  length-pooled :
      (pts : List A) (scans : List (List A)) → length (pooled pts scans) ≤ length scans + 1
  unfolding pooled
  length-pooled [] scans = omega arith
  length-pooled (p ∷ pts) scans = omega (arith, length-append scans ((p ∷ pts) ∷ []))

module _ {F : Type 0} where
  pub record Bounded (s : Override F) : Type 0 where
    pub room : (s.done ≡ true) ⊎ ((total s.scans < s.enough) × (s.n_seen < max_scans))
    pub scans_le : length s.scans ≤ s.n_seen
    pub seen_le : s.n_seen ≤ max_scans
    pub enough_ge : min_points_floor ≤ s.enough

  module _ ⦃d : Double F⦄ where
    init-Bounded : (c : Settings F) (imu : Matrix F) → Bounded (init c imu)
    unfolding init total
    init-Bounded c imu = record {
      room = inr (ground arith, omega arith);
      scans_le = omega arith;
      seen_le = omega arith;
      enough_ge = ground arith;
    }

    module _ ⦃num : Numerics F⦄ ⦃tools : FloorTools F⦄ where
      -- A state whose pool may be full, before its fit.
      record Filled (s : Override F) : Type 0 where
        pub closed : s.done ≡ true
        pub few : length s.scans ≤ s.n_seen
        pub seen : s.n_seen ≤ max_scans
        pub ample : min_points_floor ≤ s.enough

      Filled-Bounded : (s : Override F) → Filled s → Bounded s
      Filled-Bounded s h = record {
        room = inl h.closed;
        scans_le = h.few;
        seen_le = h.seen;
        enough_ge = h.ample;
      }

      retry-Bounded : (s : Override F) → Filled s → Bounded (retry s)
      unfolding retry total
      retry-Bounded s h = record {
        room = inr (omega (arith, h.ample), omega arith);
        scans_le = omega arith;
        seen_le = omega arith;
        enough_ge = h.ample;
      }

      activated-Bounded : (s : Override F) → Filled s → Bounded (activated s)
      activated-Bounded s h = record {
        room = inl h.closed;
        scans_le = omega arith;
        seen_le = h.seen;
        enough_ge = h.ample;
      }

      compute-Bounded : (c : Settings F) (s : Override F) → Filled s → Bounded (compute c s).0
      compute-Bounded c s h = elim (compute-cases c s) [
        | inl starved ↦ rw starved (Filled-Bounded s h)
        | inr (inl refused) ↦ rw refused (retry-Bounded s h)
        | inr (inr (inl measured)) ↦ rw measured (Filled-Bounded s h)
        | inr (inr (inr (passes, live))) ↦ rw live (activated-Bounded s h)
      ]

      pool-few :
          (pts : Cloud F) (s : Override F)
          → Bounded s
          → length (pool pts s).scans ≤ (pool pts s).n_seen
      unfolding pool
      pool-few pts s h = omega (arith, length-pooled pts s.scans, h.scans_le)

      pool-Bounded :
          (pts : Cloud F) (s : Override F)
          → Bounded s
          → is_full (pool pts s) ≡ false
          → Bounded (pool pts s)
      unfolding pool is_full
      pool-Bounded pts s h more = record {
        room = inr (ground arith);
        scans_le = pool-few pts s h;
        seen_le = ground arith;
        enough_ge = h.enough_ge;
      }

      ready-Filled :
          (msg : Message F) (s : Override F) → s.done ≡ false → Bounded s → Filled (ready msg s)
      unfolding pool
      ready-Filled msg s going h = record {
        closed = refl;
        few = pool-few msg.points s h;
        seen = ground (arith, h.room);
        ample = h.enough_ge;
      }

      on_cloud-Bounded :
          (c : Settings F) (msg : Message F) (s : Override F)
          → Bounded s
          → Bounded (on_cloud c msg s).0
      on_cloud-Bounded c msg s h = elim (on_cloud-cases c msg s) [
        | inl (on, e) ↦ rw e h
        | inr (inl (off, e)) ↦ rw e h
        | inr (inr (inl (off, more, e))) ↦ rw e (pool-Bounded msg.points s h more)
        | inr (inr (inr (off, going, e))) ↦
            rw e (compute-Bounded c (ready msg s) (ready-Filled msg s going h))
      ]

      run-keeps :
          (c : Settings F) (msgs : List (Message F)) (s : Override F)
          → Bounded s
          → Bounded (run c msgs s).0
      unfolding run
      run-keeps c [] s h = h
      run-keeps c (msg ∷ msgs) s h =
          run-keeps c msgs (on_cloud c msg s).0 (on_cloud-Bounded c msg s h)

      -- After any sequence of clouds the pool holds at most as many scans as were seen since the last
      -- reset, and at most 60 were seen; while no fit is under way or done, fewer than 60 were seen
      -- and fewer points are pooled than the limit asks for, which is at least 2500. So a fit is tried
      -- at the latest on the 60th cloud after a reset.
      pub run-Bounded :
          (c : Settings F) (imu : Matrix F) (msgs : List (Message F))
          → Bounded (run c msgs (init c imu)).0
      run-Bounded c imu msgs = run-keeps c msgs (init c imu) (init-Bounded c imu)
