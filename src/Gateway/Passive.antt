-- ===== src/Gateway/Passive.antt =====
-- host/g1_cmd_vel_bridge.py: the odometry audit is passive.
use humanoid_navigation.Prelude.{
  ◌≡◌, refl, sym, ap, ◌∙◌, Bool, false, ◌&&◌, not, Option, none, some, List, [], ◌∷◌, Bool-cases,
  inl, inr, if_split,
}
use humanoid_navigation.Double.{Double, LibM, nought}
use humanoid_navigation.Gateway.{put_latest}
use humanoid_navigation.Gateway.Bridge.{Bridge, Odometry, Log, on_cmd, on_odom, audit_from, yaw_of}
use humanoid_navigation.Gateway.Tick.{
  tick, arm_edge, time_step, is_fresh, velocity, is_enabled, slew,
}
use humanoid_navigation.Gateway.System.{
  System, Event, command, odometry, timer, work, shutdown, terminate, spin, on_timer, on_work, step,
  run,
}

module _ {F : Type 0} ⦃d : Double F⦄ where
  -- The bridge without what the audit has noted.
  abbrev pub unaudited : Bridge F → Bridge F
  unaudited b = record b { audit_start = none; audit_last_logged_distance = nought }

  abbrev pub forget : System F → System F
  forget s = record s { bridge = unaudited s.bridge }

  -- The events less the odometry.
  abbrev pub without_odometry : List (Event F) → List (Event F)
  without_odometry [] = []
  without_odometry (odometry o ∷ es) = without_odometry es
  without_odometry (e ∷ es) = e ∷ without_odometry es

  module _ ⦃m : LibM F⦄ where
    on_odom-unaudited : (o : Odometry F) (b : Bridge F) → unaudited (on_odom o b).0 ≡ unaudited b
    unfolding on_odom audit_from
    on_odom-unaudited o b = of_start b.audit_start
      where
        Same : Bridge F × List (Log F) → Type 0
        Same t = unaudited t.0 ≡ unaudited b

        of_start :
            (start : Option (F × F × F))
            → Same (elim start [
              | none ↦ (
                record b {
                  audit_start = some (o.x, o.y, yaw_of o);
                  audit_last_logged_distance = nought;
                },
                Log.audit_origin o.x o.y (m.degrees (yaw_of o)) ∷ [],
              )
              | some origin ↦ audit_from origin o b
            ])
        of_start none = refl
        of_start (some origin) = if_split Same _ _ _ (λ near. refl) (λ far. refl)

    tick-unaudited :
        (now : F) (armed : Bool) (b : Bridge F)
        → (unaudited (tick now armed b).0 ≡ unaudited (tick now armed (unaudited b)).0)
          × ((tick now armed b).1 ≡ (tick now armed (unaudited b)).1)
    unfolding tick arm_edge time_step is_fresh velocity is_enabled slew
    tick-unaudited now armed b = elim (Bool-cases (armed && not b.was_armed)) [
      | inl arms ↦ rw arms (refl, refl)
      | inr stays ↦ rw stays (refl, refl)
    ]

    step-odometry : (o : Odometry F) (s : System F) → forget (step s (odometry o)) ≡ forget s
    unfolding step spin
    step-odometry o s =
        if_split (λ (t : System F). forget t ≡ forget s) s.stop _ _ (λ over. refl)
          (λ on. ap (λ b. record s { bridge = b }) (on_odom-unaudited o s.bridge))

    step-forget : (s : System F) (e : Event F) → forget (step s e) ≡ forget (step (forget s) e)
    unfolding step spin on_timer on_work on_cmd
    step-forget s (odometry o) = step-odometry o s ∙ sym (step-odometry o (forget s))
    step-forget s (command now msg) = elim (Bool-cases s.stop) [
      | inl e ↦ rw e refl
      | inr e ↦ rw e refl
    ]
    step-forget s (timer now armed) = elim (Bool-cases s.stop) [
      | inl e ↦ rw e refl
      | inr e ↦
          let (bridge, out) = tick-unaudited now armed s.bridge in
          rw e (λ i. record (forget s) {
            bridge = bridge i;
            queue = put_latest s.queue ((out i).command);
            stop = false;
          })
    ]
    step-forget s (work rx check code) = refl
    step-forget s shutdown = refl
    step-forget s terminate = elim (Bool-cases s.stop) [ inl e ↦ rw e refl | inr e ↦ rw e refl ]

    step_same :
        (s t : System F) (e : Event F) → forget s ≡ forget t → forget (step s e) ≡ forget (step t e)
    step_same s t e same =
        step-forget s e ∙ ap (λ u. forget (step u e)) same ∙ sym (step-forget t e)

    run_same :
        (es : List (Event F)) (s t : System F)
        → forget s ≡ forget t
        → forget (run s es) ≡ forget (run t (without_odometry es))
    unfolding run
    run_same [] s t same = same
    run_same (odometry o ∷ es) s t same =
        run_same es (step s (odometry o)) t (step-odometry o s ∙ same)
    run_same (command now msg ∷ es) s t same =
        run_same es _ _ (step_same s t (command now msg) same)
    run_same (timer now armed ∷ es) s t same =
        run_same es _ _ (step_same s t (timer now armed) same)
    run_same (work rx check code ∷ es) s t same =
        run_same es _ _ (step_same s t (work rx check code) same)
    run_same (shutdown ∷ es) s t same = run_same es _ _ (step_same s t shutdown same)
    run_same (terminate ∷ es) s t same = run_same es _ _ (step_same s t terminate same)

    -- The audit of the odometry is passive: in any interleaving, both processes come to the same state without
    -- the odometry messages as with them, but for what the audit has noted. So they make the same calls of
    -- `SetVelocity`.
    pub run-without_odometry :
        (s : System F) (es : List (Event F))
        → forget (run s es) ≡ forget (run s (without_odometry es))
    run-without_odometry s es = run_same es s s refl
