-- ===== src/Gateway/Refinement.antt =====
-- host/g1_cmd_vel_bridge.py against the rules of Gateway/Governor.
use humanoid_navigation.Prelude.{
  ◌≤◌, ◌≡◌, inl, inr, refl, ap, Bool, true, false, List, [], ◌∷◌, length, arith, if◌then◌else◌,
}
use humanoid_navigation.Double.{Double, LibM, IsDouble, ◌≼◌}
use humanoid_navigation.Gateway.{Command, max_dt_s}
use humanoid_navigation.Gateway.Bridge.{Bridge, init, on_cmd}
use humanoid_navigation.Gateway.Tick.{time_step, tick}
use humanoid_navigation.Gateway.System.{
  System, Event, command, odometry, timer, work, shutdown, terminate, boot, spin, on_timer, on_work,
  step, run,
}
use humanoid_navigation.Gateway.Bounds.{InLimits, time_step_bounds, nought-InLimits}
use humanoid_navigation.Gateway.Limits.{
  last, put_latest_lem, drain-nil, tick-InLimits, on_odom-last,
}
use humanoid_navigation.Gateway.Slew.{tick-IsNear}
use humanoid_navigation.Gateway.Governor.{
  still, IsReachable, halted, slewed, post, stop, kill, Moves, here, Moves-trans,
}
use humanoid_navigation.Gateway.View.{head_of, view, lands, one_move, taken, work_moves}

module _ {F : Type 0} ⦃d : Double F⦄ ⦃m : LibM F⦄ (laws : IsDouble F) where
  -- The queue holds one command at most, and the last command is within the limits.
  record IsTidy (s : System F) : Type 0 where
    pub short : length s.queue ≤ 1
    pub limits : InLimits (last s.bridge)

  time_step-le : (now : F) (s : Bridge F) → time_step now s ≼ max_dt_s
  unfolding time_step
  time_step-le now s = ground (arith, laws.decimal_mono 0 25 2, laws.decimal_zero 2)

  timer_moves :
      (now : F) (armed : Bool) (s : System F)
      → IsTidy s
      → s.stop ≡ false
      → Moves (view s) (view (on_timer now armed s))
  unfolding on_timer
  timer_moves now armed s h going =
      let c : Command F = (tick now armed s.bridge).1.command in
      let (ok, same, _) = tick-InLimits laws now armed s.bridge h.limits in
      let reach : IsReachable (last s.bridge) c =
        elim (tick-IsNear laws now armed s.bridge h.limits) [
          | inl zero ↦ halted zero
          | inr near ↦
              let dt = time_step_bounds laws now s.bridge in
              slewed (time_step now s.bridge) dt.0 dt.1 (time_step-le now s.bridge) near
        ] in
      lands (λ i. record (view s) { speed = same i; slot = head_of (put_latest_lem s.queue c i) })
        (one_move (post c going ok reach))

  boot-IsTidy : (ros sdk : F) → IsTidy (boot ros sdk)
  unfolding boot init
  boot-IsTidy ros sdk = record { short = omega arith; limits = nought-InLimits laws }

  spin-IsTidy : (s t : System F) → IsTidy s → IsTidy t → IsTidy (spin s t)
  unfolding spin
  spin-IsTidy s t h k = ground arith

  drained_short : (a b : Bool) (q : List (Command F)) → length q ≤ 1 → length (taken a b q) ≤ 1
  unfolding taken
  drained_short a b q h = ground (arith, ap length (drain-nil q), h)

  step-IsTidy : (s : System F) (e : Event F) → IsTidy s → IsTidy (step s e)
  unfolding step on_cmd on_timer on_work taken
  step-IsTidy s (command now msg) h =
      spin-IsTidy s _ h (record { short = h.short; limits = h.limits })
  step-IsTidy s (odometry o) h =
      spin-IsTidy s _ h
        (record { short = h.short; limits = rw (on_odom-last laws o s.bridge) h.limits })
  step-IsTidy s (timer now armed) h =
      let (ok, same, _) = tick-InLimits laws now armed s.bridge h.limits in
      spin-IsTidy s _ h (record {
        short =
            omega (arith, ap length (put_latest_lem s.queue (tick now armed s.bridge).1.command));
        limits = rw same ok;
      })
  step-IsTidy s (work rx check code) h = record {
    short = drained_short s.worker.running s.stop s.queue h.short;
    limits = h.limits;
  }
  step-IsTidy s shutdown h = record {
    short = omega (arith, ap length (put_latest_lem s.queue still));
    limits = h.limits;
  }
  step-IsTidy s terminate h = ground arith

  spin_moves :
      (s t : System F)
      → (s.stop ≡ false → Moves (view s) (view t))
      → Moves (view s) (view (spin s t))
  unfolding spin
  spin_moves s t p = branch s.stop t p
    where
      branch :
          (ended : Bool) (t : System F)
          → (ended ≡ false → Moves (view s) (view t))
          → Moves (view s) (view (if ended then s else t))
      branch true t p = here
      branch false t p = p refl

  kill_moves : (s : System F) → Moves (view s) (view (step s terminate))
  unfolding step
  kill_moves s = branch s.stop (λ ended. ended)
    where
      branch :
          (ended : Bool)
          → (ended ≡ true → s.stop ≡ true)
          → Moves (view s) (
              view
                (if ended then record s { worker = record (s.worker) { running = false } } else s))
      branch true h = one_move (kill (h refl))
      branch false h = here

  step_moves : (s : System F) (e : Event F) → IsTidy s → Moves (view s) (view (step s e))
  unfolding step on_cmd
  step_moves s (command now msg) h = spin_moves s _ (λ going. here)
  step_moves s (odometry o) h =
      spin_moves s _
        (λ going. lands (λ i. record (view s) { speed = on_odom-last laws o s.bridge i }) here)
  step_moves s (timer now armed) h = spin_moves s _ (timer_moves now armed s h)
  step_moves s (work rx check code) h = work_moves rx check code s h.short
  step_moves s shutdown h =
      lands
        (λ i. record (view s) { slot = head_of (put_latest_lem s.queue still i); stopping = true })
        (one_move stop)
  step_moves s terminate h = kill_moves s

  moves : (s : System F) (es : List (Event F)) → IsTidy s → Moves (view s) (view (run s es))
  unfolding run
  moves s [] h = here
  moves s (e ∷ es) h = Moves-trans (step_moves s e h) (moves (step s e) es (step-IsTidy s e h))

  -- Over floating-point numbers with the laws of `IsDouble`: whatever the order of messages, ticks, turns of
  -- the worker, failures of the SDK, shutdown and termination, what both processes do is a sequence of the
  -- moves of `Move`. So a command is put into the one slot only while the gateway is not stopping, within the
  -- limits, and only if it is zero or reached from the last one within a time step of at most 0.25 s; each
  -- call of the SDK is the command in the slot or zero; a worker that ends by itself makes five calls with
  -- zero first; and no worker starts again.
  pub run-Moves :
      (ros sdk : F) (es : List (Event F))
      → Moves (view (boot ros sdk)) (view (run (boot ros sdk) es))
  run-Moves ros sdk es = moves (boot ros sdk) es (boot-IsTidy ros sdk)
