-- ===== src/Gateway/Limits.antt =====
-- host/g1_cmd_vel_bridge.py: the limits, from one tick to the calls of the SDK in the interleavings of
-- the two processes.
use humanoid_navigation.Prelude.{
  ℕ, ◌≡◌, refl, Bool, Option, none, some, List, [], ◌∷◌, arith, All, All-append,
}
use humanoid_navigation.Double.{Double, LibM, IsDouble, nought}
use humanoid_navigation.Gateway.{Command, sdk_command_duration_s, drain, put_nowait, put_latest}
use humanoid_navigation.Gateway.Bridge.{Bridge, Odometry, init, on_cmd, audit_from, on_odom}
use humanoid_navigation.Gateway.Tick.{time_step, arm_edge, twist_of, tick}
use humanoid_navigation.Gateway.Worker.{
  Worker, Call, newest, receive, expire, call_of, final_calls, conclude, turn,
}
use humanoid_navigation.Gateway.System.{
  System, Event, command, odometry, timer, work, shutdown, terminate, boot, spin, on_timer, on_work,
  step, run,
}
use humanoid_navigation.Gateway.Bounds.{
  InLimits, nought-InLimits, time_step_bounds, velocity-InLimits, arm_edge-last,
}

module _ {A : Type 0} where
  pub drain-nil : (q : List A) → drain q ≡ []
  unfolding drain
  drain-nil [] = refl
  drain-nil (x ∷ q) = drain-nil q

  -- `_put_latest` leaves exactly the new item on the queue, whatever was on it: nothing is queued
  -- behind an older command, and the item is never dropped for want of room.
  pub put_latest_lem : (q : List A) (item : A) → put_latest q item ≡ item ∷ []
  unfolding put_latest put_nowait
  put_latest_lem q item = rw (drain-nil q)

module _ {F : Type 0} ⦃d : Double F⦄ where
  -- A call of the SDK within the limits: no lateral motion, and the fixed short duration.
  pub record IsSafe (c : Call F) : Type 0 where
    pub limited : InLimits (c.vx, c.wz)
    pub straight : c.vy ≡ nought
    pub brief : c.duration ≡ sdk_command_duration_s

  abbrev pub last : Bridge F → Command F
  last s = (s.last_vx, s.last_wz)

  module _ ⦃m : LibM F⦄ (laws : IsDouble F) where
    pub tick-InLimits :
        (now : F) (armed : Bool) (s : Bridge F)
        → InLimits (last s)
        → InLimits (tick now armed s).1.command
          × (last (tick now armed s).0 ≡ (tick now armed s).1.command)
          × ((tick now armed s).1.limited ≡ twist_of (tick now armed s).1.command)
    unfolding tick
    tick-InLimits now armed s old =
        let ticked : Bridge F = record s { last_tick = now } in
        let edge = arm_edge-last laws now armed ticked in
        let dt = time_step_bounds laws now s in
        (
          velocity-InLimits laws now (time_step now s) armed (arm_edge now armed ticked).0 dt.0 dt.1
              (rw (edge.0, edge.1) old),
          refl,
          refl,
        )

    newest-InLimits :
        (c : Command F) (q : List (Command F)) → InLimits c → All InLimits q → InLimits (newest c q)
    unfolding newest
    newest-InLimits c [] h hs = h
    newest-InLimits c (x ∷ q) h hs = newest-InLimits x q hs.0 hs.1

    receive-InLimits :
        (rx : F) (q : List (Command F)) (w : Worker F)
        → All InLimits q
        → InLimits (receive rx q w).velocity
    unfolding receive
    receive-InLimits rx [] w h = nought-InLimits laws
    receive-InLimits rx (x ∷ q) w h = newest-InLimits x q h.0 h.1

    expire-InLimits :
        (check : F) (w : Worker F) → InLimits w.velocity → InLimits (expire check w).velocity
    unfolding expire
    expire-InLimits check w h = ground (arith, nought-InLimits laws)

    call_of-IsSafe : (c : Command F) → InLimits c → IsSafe (call_of c)
    unfolding call_of
    call_of-IsSafe c h = record { limited = h; straight = refl; brief = refl }

    final_calls-IsSafe : All IsSafe final_calls
    unfolding final_calls
    final_calls-IsSafe =
        let zero = call_of-IsSafe (nought, nought) (nought-InLimits laws) in
        (zero, (zero, (zero, (zero, (zero, tt)))))

    conclude-IsSafe :
        (code : Option ℕ) (w : Worker F) → InLimits w.velocity → All IsSafe (conclude code w).1
    unfolding conclude
    conclude-IsSafe none w h = (call_of-IsSafe w.velocity h, final_calls-IsSafe)
    conclude-IsSafe (some code) w h = ground (arith, call_of-IsSafe w.velocity h)

    turn-IsSafe :
        (stop : Bool) (q : List (Command F)) (rx check : F) (code : Option ℕ) (w : Worker F)
        → All InLimits q
        → All IsSafe (turn stop q rx check code w).1
    unfolding turn
    turn-IsSafe stop q rx check code w h = ground (
      arith,
      final_calls-IsSafe,
      conclude-IsSafe code (expire check (receive rx q w))
          (expire-InLimits check (receive rx q w) (receive-InLimits rx q w h)),
    )

    record Inv (s : System F) : Type 0 where
      pub bridge_limits : InLimits (last s.bridge)
      pub queue_limits : All InLimits s.queue
      pub sent_safe : All IsSafe s.sent

    boot-Inv : (ros sdk : F) → Inv (boot ros sdk)
    unfolding boot init
    boot-Inv ros sdk = record {
      bridge_limits = nought-InLimits laws;
      queue_limits = tt;
      sent_safe = tt;
    }

    pub on_odom-last : (o : Odometry F) (s : Bridge F) → last (on_odom o s).0 ≡ last s
    unfolding on_odom audit_from
    on_odom-last o s = ground arith

    spin-Inv : (s t : System F) → Inv s → Inv t → Inv (spin s t)
    unfolding spin
    spin-Inv s t h k = ground arith

    on_timer-Inv : (now : F) (armed : Bool) (s : System F) → Inv s → Inv (on_timer now armed s)
    unfolding on_timer
    on_timer-Inv now armed s h =
        let (ok, same, _) = tick-InLimits now armed s.bridge h.bridge_limits in
        record {
          bridge_limits = rw same ok;
          queue_limits = rw put_latest_lem (ok, tt);
          sent_safe = h.sent_safe;
        }

    on_work-Inv :
        (rx check : F) (code : Option ℕ) (s : System F) → Inv s → Inv (on_work rx check code s)
    unfolding on_work
    on_work-Inv rx check code s h = record {
      bridge_limits = h.bridge_limits;
      queue_limits = ground (arith, drain-nil s.queue, h.queue_limits);
      sent_safe =
          All-append IsSafe s.sent _ h.sent_safe
            (turn-IsSafe s.stop s.queue rx check code s.worker h.queue_limits);
    }

    step-Inv : (s : System F) (e : Event F) → Inv s → Inv (step s e)
    unfolding step on_cmd
    step-Inv s (command now msg) h = spin-Inv s _ h (record {
      bridge_limits = h.bridge_limits;
      queue_limits = h.queue_limits;
      sent_safe = h.sent_safe;
    })
    step-Inv s (odometry o) h = spin-Inv s _ h (record {
      bridge_limits = rw (on_odom-last o s.bridge) h.bridge_limits;
      queue_limits = h.queue_limits;
      sent_safe = h.sent_safe;
    })
    step-Inv s (timer now armed) h = spin-Inv s _ h (on_timer-Inv now armed s h)
    step-Inv s (work rx check code) h = on_work-Inv rx check code s h
    step-Inv s shutdown h = record {
      bridge_limits = h.bridge_limits;
      queue_limits = rw put_latest_lem (nought-InLimits laws, tt);
      sent_safe = h.sent_safe;
    }
    step-Inv s terminate h = ground arith

    run-Inv : (s : System F) (es : List (Event F)) → Inv s → Inv (run s es)
    unfolding run
    run-Inv s [] h = h
    run-Inv s (e ∷ es) h = run-Inv (step s e) es (step-Inv s e h)

    -- Over floating-point numbers with the laws of `IsDouble`: in any interleaving of velocity
    -- messages, odometry, timer ticks, turns of the worker, failures of the SDK, shutdown and
    -- termination, every call of `SetVelocity` is within the limits: the forward speed is finite
    -- and in [0, 0.20], the turn rate finite and in [-0.20, 0.20], the lateral speed 0 and the
    -- duration 0.20 s, also when a message holds NaN or infinities.
    pub run-IsSafe : (ros sdk : F) (es : List (Event F)) → All IsSafe (run (boot ros sdk) es).sent
    run-IsSafe ros sdk es = (run-Inv (boot ros sdk) es (boot-Inv ros sdk)).sent_safe
