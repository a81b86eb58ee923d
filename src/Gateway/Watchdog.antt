-- ===== src/Gateway/Watchdog.antt =====
-- host/g1_cmd_vel_bridge.py, both processes together: a missing arm token, a silent publisher, and the
-- end of the worker.
use humanoid_navigation.Prelude.{
  ℕ, ◌≡◌, ◌⊎◌, refl, ap, ap₂, ◌∙◌, Bool, true, false, Option, none, some, List, [], ◌∷◌, ◌++◌,
  arith, All, Bool-cases, inl, inr,
}
use humanoid_navigation.Double.{Double, LibM, lt}
use humanoid_navigation.Gateway.{Command, cmd_timeout_s}
use humanoid_navigation.Gateway.Tick.{tick}
use humanoid_navigation.Gateway.Worker.{
  Worker, Call, newest, receive, expire, call_of, final_calls, conclude, turn,
}
use humanoid_navigation.Gateway.System.{
  System, Event, command, odometry, timer, work, shutdown, terminate, spin, on_timer, on_work, step,
  run,
}
use humanoid_navigation.Gateway.Limits.{put_latest_lem}
use humanoid_navigation.Gateway.FailClosed.{standing, tick-disarmed}

module _ {F : Type 0} ⦃d : Double F⦄ where
  open d use {sub}

  abbrev pub IsStill : Call F → Type 0
  IsStill c = c ≡ call_of standing

  -- The events that only the subscriptions see.
  abbrev pub IsMessage : Event F → Type 0
  IsMessage (command now msg) = Unit
  IsMessage (odometry o) = Unit
  IsMessage _ = ⊥

  module _ ⦃m : LibM F⦄ where
    pub conclude-running :
        (code : ℕ) (w : Worker F)
        → ((conclude (some code) w).0.running ≡ w.running)
          × ((conclude (some code) w).1 ≡ call_of w.velocity ∷ [])
    unfolding conclude
    conclude-running code w = (ground arith, ground arith)

    pub turn-live :
        (q : List (Command F)) (rx check : F) (code : Option ℕ) (w : Worker F)
        → w.running ≡ true
        → turn false q rx check code w ≡ conclude code (expire check (receive rx q w))
    unfolding turn
    turn-live q rx check code w on = ground arith

    pub turn-stop :
        (q : List (Command F)) (rx check : F) (code : Option ℕ) (w : Worker F)
        → w.running ≡ true
        → (turn true q rx check code w).1 ≡ final_calls
    unfolding turn
    turn-stop q rx check code w on = ground arith

    pub conclude-raised : (w : Worker F) → (conclude none w).1 ≡ call_of w.velocity ∷ final_calls
    unfolding conclude
    conclude-raised w = refl

    pub expire-receive-running :
        (rx check : F) (q : List (Command F)) (w : Worker F)
        → (expire check (receive rx q w)).running ≡ w.running
    unfolding expire receive
    expire-receive-running rx check [] w = ground arith
    expire-receive-running rx check (x ∷ q) w = ground arith

    pub expire-receive-velocity :
        (rx check : F) (q : List (Command F)) (w : Worker F)
        → ((expire check (receive rx q w)).velocity ≡ standing)
          ⊎ ((item : Command F) × (rest : List (Command F)) × (q ≡ item ∷ rest)
              × ((expire check (receive rx q w)).velocity ≡ newest item rest)
              × (lt cmd_timeout_s (sub check rx) ≡ false))
    unfolding expire receive
    expire-receive-velocity rx check [] w = inl (ground arith)
    expire-receive-velocity rx check (x ∷ q) w =
        elim (Bool-cases (lt cmd_timeout_s (sub check rx))) [
          | inl late ↦ inl (rw late refl)
          | inr soon ↦ inr (x, q, refl, rw soon refl, soon)
        ]

    -- A worker whose turn ends it, by the stop event or by an exception of the SDK, has made five
    -- calls with zero velocity last.
    pub turn_ends_still :
        (stop : Bool) (q : List (Command F)) (rx check : F) (code : Option ℕ) (w : Worker F)
        → w.running ≡ true
        → (turn stop q rx check code w).0.running ≡ false
        → (before : List (Call F)) × ((turn stop q rx check code w).1 ≡ before ++ final_calls)
    turn_ends_still true q rx check code w on off = ([], turn-stop q rx check code w on)
    turn_ends_still false q rx check none w on off =
        let heard : Worker F = expire check (receive rx q w) in
        (
          call_of heard.velocity ∷ [],
          ap (λ t. t.1) (turn-live q rx check none w on) ∙ conclude-raised heard,
        )
    turn_ends_still false q rx check (some code) w on off =
        let heard : Worker F = expire check (receive rx q w) in
        absurd (
          ended on (expire-receive-running rx check q w) (conclude-running code heard).0
            (ap (λ t. t.0.running) (turn-live q rx check (some code) w on)) off)
      where
        ended : {a b c e : Bool} → a ≡ true → b ≡ a → c ≡ b → e ≡ c → e ≡ false → ⊥
        ended p q r s u = cc

    -- A turn of a running worker makes one call that is zero, or the newest command of those that
    -- were queued, received within the command timeout. So an empty queue stops the robot.
    pub turn-watchdog :
        (q : List (Command F)) (rx check : F) (code : ℕ) (w : Worker F)
        → w.running ≡ true
        → ((turn false q rx check (some code) w).1 ≡ call_of standing ∷ [])
          ⊎ ((item : Command F) × (rest : List (Command F)) × (q ≡ item ∷ rest)
              × ((turn false q rx check (some code) w).1 ≡ call_of (newest item rest) ∷ [])
              × (lt cmd_timeout_s (sub check rx) ≡ false))
    turn-watchdog q rx check code w on =
        let heard : Worker F = expire check (receive rx q w) in
        let one =
          ap (λ t. t.1) (turn-live q rx check (some code) w on) ∙ (conclude-running code heard).1 in
        elim (expire-receive-velocity rx check q w) [
          | inl still ↦ inl (one ∙ ap (λ v. call_of v ∷ []) still)
          | inr (item, rest, queued, new, soon) ↦
              inr (item, rest, queued, one ∙ ap (λ v. call_of v ∷ []) new, soon)
        ]

    message_keeps :
        (s : System F) (e : Event F)
        → IsMessage e
        → ((step s e).queue ≡ s.queue)
          × ((step s e).worker ≡ s.worker)
          × ((step s e).stop ≡ s.stop)
          × ((step s e).sent ≡ s.sent)
    unfolding step spin
    message_keeps s (command now msg) h = ground arith
    message_keeps s (odometry o) h = ground arith
    message_keeps s (timer now armed) h = absurd h
    message_keeps s (work rx check code) h = absurd h
    message_keeps s shutdown h = absurd h
    message_keeps s terminate h = absurd h

    messages_keep :
        (s : System F) (es : List (Event F))
        → All IsMessage es
        → ((run s es).queue ≡ s.queue)
          × ((run s es).worker ≡ s.worker)
          × ((run s es).stop ≡ s.stop)
          × ((run s es).sent ≡ s.sent)
    unfolding run
    messages_keep s [] h = (refl, refl, refl, refl)
    messages_keep s (e ∷ es) h =
        let one = message_keeps s e h.0 in
        let all = messages_keep (step s e) es h.1 in
        (all.0 ∙ one.0, all.1 ∙ one.1, all.2 ∙ one.2, all.3 ∙ one.3)

    only_standing :
        (item : Command F) (rest : List (Command F))
        → standing ∷ [] ≡ item ∷ rest
        → newest item rest ≡ standing
    unfolding newest
    only_standing item [] h = ground arith
    only_standing item (x ∷ rest) h = ground arith

    turn-standing :
        (rx check : F) (code : ℕ) (w : Worker F)
        → w.running ≡ true
        → (turn false (standing ∷ []) rx check (some code) w).1 ≡ call_of standing ∷ []
    turn-standing rx check code w on = elim (turn-watchdog (standing ∷ []) rx check code w on) [
      | inl still ↦ still
      | inr (item, rest, queued, new, soon) ↦
          new ∙ ap (λ v. call_of v ∷ []) (only_standing item rest queued)
    ]

    disarmed_timer :
        (s : System F) (now : F)
        → s.stop ≡ false
        → ((step s (timer now false)).queue ≡ standing ∷ [])
          × ((step s (timer now false)).worker ≡ s.worker)
          × ((step s (timer now false)).stop ≡ s.stop)
          × ((step s (timer now false)).sent ≡ s.sent)
    unfolding step spin on_timer
    disarmed_timer s now live =
        let empty = put_latest_lem s.queue (tick now false s.bridge).1.command in
        let zero = (tick-disarmed now s.bridge).0 in ground (arith, empty, zero)

    work_standing :
        (u s : System F) (rx check : F) (code : ℕ)
        → u.queue ≡ standing ∷ []
        → u.worker ≡ s.worker
        → u.stop ≡ false
        → u.sent ≡ s.sent
        → s.worker.running ≡ true
        → (step u (work rx check (some code))).sent ≡ s.sent ++ call_of standing ∷ []
    unfolding step on_work
    work_standing u s rx check code q w live same on =
        ap₂ (λ a b. a ++ b) same (turned u.stop u.queue u.worker live q w)
      where
        turned :
            (stop : Bool) (queue : List (Command F)) (worker : Worker F)
            → stop ≡ false
            → queue ≡ standing ∷ []
            → worker ≡ s.worker
            → (turn stop queue rx check (some code) worker).1 ≡ call_of standing ∷ []
        turned stop queue worker a b c = rw (a, b, c) (turn-standing rx check code s.worker on)

    -- After a tick that finds no arm token, the next turn of the worker sends zero velocity, whatever
    -- messages arrive in between and whatever was commanded before.
    pub disarm_stops :
        (s : System F) (now rx check : F) (code : ℕ) (es : List (Event F))
        → s.worker.running ≡ true
        → s.stop ≡ false
        → All IsMessage es
        → (step (run (step s (timer now false)) es) (work rx check (some code))).sent
          ≡ s.sent ++ call_of standing ∷ []
    disarm_stops s now rx check code es on live h =
        let t : System F = step s (timer now false) in
        let u : System F = run t es in
        let first = disarmed_timer s now live in
        let kept = messages_keep t es h in
        work_standing u s rx check code (kept.0 ∙ first.0) (kept.1 ∙ first.1)
          (kept.2 ∙ first.2 ∙ live) (kept.3 ∙ first.3) on
