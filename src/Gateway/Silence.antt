-- ===== src/Gateway/Silence.antt =====
-- host/g1_cmd_vel_bridge.py: interleavings of the two processes without a velocity message.
use humanoid_navigation.Prelude.{
  ℕ, ◌≡◌, refl, ap, Bool, false, Option, none, some, List, [], ◌∷◌, arith, All, All-append, inl,
  inr,
}
use humanoid_navigation.Double.{Double, LibM}
use humanoid_navigation.Gateway.{Command}
use humanoid_navigation.Gateway.Bridge.{Bridge, Odometry, audit_from, on_odom}
use humanoid_navigation.Gateway.Worker.{
  Worker, newest, receive, expire, call_of, final_calls, conclude, turn,
}
use humanoid_navigation.Gateway.System.{
  System, Event, command, odometry, timer, work, shutdown, terminate, spin, on_timer, on_work, step,
  run,
}
use humanoid_navigation.Gateway.Limits.{put_latest_lem, drain-nil}
use humanoid_navigation.Gateway.FailClosed.{standing, Unheard-standing, Unheard}
use humanoid_navigation.Gateway.Watchdog.{
  IsStill, conclude-running, conclude-raised, expire-receive-velocity,
}

final_calls-IsStill : (F : Type 0) ⦃d : Double F⦄ → All (IsStill {F = F}) final_calls
unfolding final_calls
final_calls-IsStill F = (refl, (refl, (refl, (refl, (refl, tt)))))

module _ {F : Type 0} ⦃d : Double F⦄ where
  -- Every event but a velocity message.
  abbrev pub IsSilent : Event F → Type 0
  IsSilent (command now msg) = ⊥
  IsSilent _ = Unit

  module _ ⦃m : LibM F⦄ where
    newest-standing :
        (c : Command F) (q : List (Command F))
        → c ≡ standing
        → All (λ x. x ≡ standing) q
        → newest c q ≡ standing
    unfolding newest
    newest-standing c [] h hs = h
    newest-standing c (x ∷ q) h hs = newest-standing x q hs.0 hs.1

    heard-standing :
        (rx check : F) (q : List (Command F)) (w : Worker F)
        → All (λ x. x ≡ standing) q
        → (expire check (receive rx q w)).velocity ≡ standing
    heard-standing rx check [] w h = elim (expire-receive-velocity rx check [] w) [
      | inl still ↦ still
      | inr (item, rest, queued, new, soon) ↦ cc
    ]
    heard-standing rx check (x ∷ q) w h =
        unfold receive expire in ground (arith, newest-standing x q h.0 h.1)

    conclude-IsStill :
        (code : Option ℕ) (w : Worker F) → w.velocity ≡ standing → All IsStill (conclude code w).1
    conclude-IsStill none w h = rw (conclude-raised w) (ap call_of h, final_calls-IsStill F)
    conclude-IsStill (some code) w h = rw ((conclude-running code w).1) (ap call_of h, tt)

    turn-IsStill :
        (stop : Bool) (q : List (Command F)) (rx check : F) (code : Option ℕ) (w : Worker F)
        → All (λ x. x ≡ standing) q
        → All IsStill (turn stop q rx check code w).1
    unfolding turn
    turn-IsStill stop q rx check code w h = ground (
      arith,
      final_calls-IsStill F ⦃d = d⦄,
      conclude-IsStill code (expire check (receive rx q w)) (heard-standing rx check q w h),
    )

    record Quiet (s : System F) : Type 0 where
      pub unheard : Unheard s.bridge
      pub queued : All (λ x. x ≡ standing) s.queue
      pub still : All IsStill s.sent

    on_odom-Unheard : (o : Odometry F) (s : Bridge F) → Unheard s → Unheard (on_odom o s).0
    unfolding on_odom audit_from
    on_odom-Unheard o s h = ground arith

    spin-Quiet : (s t : System F) → Quiet s → Quiet t → Quiet (spin s t)
    unfolding spin
    spin-Quiet s t h k = ground arith

    on_timer-Quiet :
        (now : F) (armed : Bool) (s : System F) → Quiet s → Quiet (on_timer now armed s)
    unfolding on_timer
    on_timer-Quiet now armed s h =
        let next = Unheard-standing now armed s.bridge h.unheard in
        record { unheard = next.1; queued = rw put_latest_lem (next.0, tt); still = h.still }

    on_work-Quiet :
        (rx check : F) (code : Option ℕ) (s : System F) → Quiet s → Quiet (on_work rx check code s)
    unfolding on_work
    on_work-Quiet rx check code s h = record {
      unheard = h.unheard;
      queued = ground (arith, drain-nil s.queue, h.queued);
      still =
          All-append IsStill s.sent _ h.still
            (turn-IsStill s.stop s.queue rx check code s.worker h.queued);
    }

    step-Quiet : (s : System F) (e : Event F) → IsSilent e → Quiet s → Quiet (step s e)
    unfolding step
    step-Quiet s (command now msg) q h = absurd q
    step-Quiet s (odometry o) q h = spin-Quiet s _ h (record {
      unheard = on_odom-Unheard o s.bridge h.unheard;
      queued = h.queued;
      still = h.still;
    })
    step-Quiet s (timer now armed) q h = spin-Quiet s _ h (on_timer-Quiet now armed s h)
    step-Quiet s (work rx check code) q h = on_work-Quiet rx check code s h
    step-Quiet s shutdown q h = record {
      unheard = h.unheard;
      queued = rw put_latest_lem (refl, tt);
      still = h.still;
    }
    step-Quiet s terminate q h = ground arith

    run-Quiet : (s : System F) (es : List (Event F)) → All IsSilent es → Quiet s → Quiet (run s es)
    unfolding run
    run-Quiet s [] q h = h
    run-Quiet s (e ∷ es) q h = run-Quiet (step s e) es q.1 (step-Quiet s e q.0 h)

    -- From a disarmed bridge that has made no call yet and whose queue commands no motion, every
    -- call of the SDK is for zero velocity until the next velocity message, also across arming
    -- and whatever message was kept from before: a command that is older than the arm token never
    -- moves the robot.
    pub run-IsStill :
        (s : System F) (es : List (Event F))
        → s.bridge.was_armed ≡ false
        → All (λ c. c ≡ standing) s.queue
        → s.sent ≡ []
        → All IsSilent es
        → All IsStill (run s es).sent
    run-IsStill s es off queued none_sent silent =
        (run-Quiet s es silent
          (record { unheard = inl off; queued = queued; still = rw none_sent tt })).still
