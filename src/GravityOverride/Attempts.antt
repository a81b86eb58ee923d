-- ===== src/GravityOverride/Attempts.antt =====
-- When src/ransac_gravity_override.py tries a fit, over a sequence of clouds.
use humanoid_navigation.Prelude.{
  ◌+◌, ◌≤◌, ◌<◌, ◌≡◌, inl, inr, refl, ap, true, false, List, [], ◌∷◌, ◌++◌, length, arith,
  Bool-cases,
}
use humanoid_navigation.Double.{Double}
use humanoid_navigation.Localizer.{Cloud, Numerics}
use humanoid_navigation.GravityOverride.{FloorTools}
use humanoid_navigation.GravityOverride.Outcome.{on_cloud-waits, on_cloud-fits, ready, forward}
use humanoid_navigation.GravityOverride.Node.{
  Message, Settings, Override, max_scans, pool, compute, is_full, on_cloud, run,
}

module _ {F : Type 0} where
  -- A pool that waits for more scans.
  pub record IsOpen (s : Override F) : Type 0 where
    pub idle : s.active ≡ false
    pub undone : s.done ≡ false

  module _ ⦃d : Double F⦄ ⦃num : Numerics F⦄ ⦃tools : FloorTools F⦄ where
    pool-IsOpen : (pts : Cloud F) (s : Override F) → IsOpen s → IsOpen (pool pts s)
    unfolding pool
    pool-IsOpen pts s h = record { idle = h.idle; undone = h.undone }

    more_left :
        (pts : Cloud F) (s : Override F)
        → is_full (pool pts s) ≡ false
        → (pool pts s).n_seen < max_scans
    unfolding pool is_full
    more_left pts s more = ground arith

    n_seen-pool : (pts : Cloud F) (s : Override F) → (pool pts s).n_seen ≡ s.n_seen + 1
    unfolding pool
    n_seen-pool pts s = refl

    -- One of the clouds fills the pool: those before it are only pooled, and its call gives the pool to
    -- the fit.
    pub record Tries (c : Settings F) (msgs : List (Message F)) (s : Override F) : Type 0 where
      pub before : List (Message F)
      pub msg : Message F
      pub after : List (Message F)
      pub splits : msgs ≡ before ++ (msg ∷ after)
      pub quiet : (run c before s).1 ≡ []
      pub fits :
          let t = (run c before s).0 in
          on_cloud c msg t ≡ (
            (compute c (ready msg t)).0,
            (compute c (ready msg t)).1 ++ forward c msg (compute c (ready msg t)).0,
          )

    Tries-here :
        (c : Settings F) (msg : Message F) (msgs : List (Message F)) (s : Override F)
        → IsOpen s
        → is_full (pool msg.points s) ≡ true
        → Tries c (msg ∷ msgs) s
    unfolding run
    Tries-here c msg msgs s h full = record {
      before = [];
      msg = msg;
      after = msgs;
      splits = refl;
      quiet = refl;
      fits = on_cloud-fits c msg s h.idle h.undone full;
    }

    Tries-later :
        (c : Settings F) (msg : Message F) (msgs : List (Message F)) (s : Override F)
        → on_cloud c msg s ≡ (pool msg.points s, [])
        → Tries c msgs (pool msg.points s)
        → Tries c (msg ∷ msgs) s
    unfolding run
    Tries-later c msg msgs s waits h = record {
      before = msg ∷ h.before;
      msg = h.msg;
      after = h.after;
      splits = ap (λ ms. msg ∷ ms) h.splits;
      quiet = rw waits h.quiet;
      fits = rw waits h.fits;
    }

    -- An open pool that has seen fewer than 60 clouds is given to the fit within the clouds that bring
    -- their number to 60, and nothing is sent before that.
    pub run-Tries :
        (c : Settings F) (msgs : List (Message F)) (s : Override F)
        → IsOpen s
        → s.n_seen < max_scans
        → max_scans ≤ s.n_seen + length msgs
        → Tries c msgs s
    run-Tries c [] s h few enough = absurd (omega arith)
    run-Tries c (msg ∷ msgs) s h few enough = elim (Bool-cases (is_full (pool msg.points s))) [
      | inl full ↦ Tries-here c msg msgs s h full
      | inr more ↦ Tries-later c msg msgs s (on_cloud-waits c msg s h.idle h.undone more) (
          run-Tries c msgs (pool msg.points s) (pool-IsOpen msg.points s h)
            (more_left msg.points s more) (omega (arith, n_seen-pool msg.points s)))
    ]
