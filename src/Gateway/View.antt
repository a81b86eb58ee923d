-- ===== src/Gateway/View.antt =====
-- What the outside sees of host/g1_cmd_vel_bridge.py, and the turns of the worker as moves of
-- Gateway/Governor.
use humanoid_navigation.Prelude.{
  ℕ, ◌≤◌, ◌≡◌, ◌⊎◌, inl, inr, refl, sym, ap, ◌∙◌, Bool, true, false, Option, none, some, List, [],
  ◌∷◌, ◌++◌, length, arith, Bool-cases, if◌then◌else◌,
}
use mathlib.Core.List.{append-nil, append_assoc}
use humanoid_navigation.Double.{Double, LibM}
use humanoid_navigation.Gateway.{Command, drain}
use humanoid_navigation.Gateway.Worker.{
  Worker, Call, newest, receive, expire, conclude, call_of, final_calls, turn,
}
use humanoid_navigation.Gateway.System.{System, on_work}
use humanoid_navigation.Gateway.Limits.{last, drain-nil}
use humanoid_navigation.Gateway.Watchdog.{
  conclude-running, conclude-raised, expire-receive-running, expire-receive-velocity,
}
use humanoid_navigation.Gateway.Governor.{
  Governor, still, Move, deliver, hold, leave, Moves, here, next,
}

Governor-eq :
    {F : Type 0} (sp : Command F) (st : Bool) {a a' : Option (Command F)} {b b' : Bool}
    {c c' : List (Call F)}
    → a ≡ a'
    → b ≡ b'
    → c ≡ c'
    → ◌≡◌ {A = Governor F}
        (record { speed = sp; slot = a; stopping = st; live = b; sent = c })
        (record { speed = sp; slot = a'; stopping = st; live = b'; sent = c' })
Governor-eq sp st p q r =
    λ i. record { speed = sp; slot = p i; stopping = st; live = q i; sent = r i }

module _ {F : Type 0} ⦃d : Double F⦄ where
  abbrev pub head_of : List (Command F) → Option (Command F)
  head_of [] = none
  head_of (c ∷ q) = some c

  -- What the outside sees of both processes.
  abbrev pub view : System F → Governor F
  view s = record {
    speed = last s.bridge;
    slot = head_of s.queue;
    stopping = s.stop;
    live = s.worker.running;
    sent = s.sent;
  }

  pub lands : {g k t : Governor F} → t ≡ k → Moves g k → Moves g t
  lands e p = rw e p

  pub one_move : {g k : Governor F} → Move g k → Moves g k
  one_move p = next here p

  -- A command from the slot, or zero.
  sends :
      {g : Governor F} (v : Command F)
      → g.live ≡ true
      → (v ≡ still) ⊎ (g.slot ≡ some v)
      → Move g (record g { slot = none; sent = g.sent ++ call_of v ∷ [] })
  sends {g} v on (inl zero) = rw zero (hold on)
  sends {g} v on (inr given) = deliver v on given

module _ {F : Type 0} ⦃d : Double F⦄ ⦃m : LibM F⦄ where
  heard :
      (rx check : F) (q : List (Command F)) (w : Worker F)
      → length q ≤ 1
      → let v = (expire check (receive rx q w)).velocity in (v ≡ still) ⊎ (head_of q ≡ some v)
  unfolding newest
  heard rx check q w short = elim (expire-receive-velocity rx check q w) [
    | inl zero ↦ inl zero
    | inr (item, [], queued, new, soon) ↦ inr (ap head_of queued ∙ ap some (sym new))
    | inr (item, more ∷ rest, queued, new, soon) ↦ absurd (too_long short queued)
  ]
    where
      too_long : {a b : Command F} {r : List (Command F)} → length q ≤ 1 → q ≡ a ∷ b ∷ r → ⊥
      too_long h e = omega (arith, ap length e)

  turn_off :
      (ended : Bool) (q : List (Command F)) (rx check : F) (code : Option ℕ) (w : Worker F)
      → w.running ≡ false
      → turn ended q rx check code w ≡ (w, [], [])
  unfolding turn
  turn_off ended q rx check code w off = ground arith

  turn_stopped :
      (ended : Bool) (q : List (Command F)) (rx check : F) (code : Option ℕ) (w : Worker F)
      → w.running ≡ true
      → ended ≡ true
      → turn ended q rx check code w ≡ (record w { running = false }, final_calls, [])
  unfolding turn
  turn_stopped ended q rx check code w on stopped = ground arith

  turn_going :
      (ended : Bool) (q : List (Command F)) (rx check : F) (code : Option ℕ) (w : Worker F)
      → w.running ≡ true
      → ended ≡ false
      → turn ended q rx check code w ≡ conclude code (expire check (receive rx q w))
  unfolding turn
  turn_going ended q rx check code w on going = ground arith

  -- What a turn leaves in the slot.
  unfoldable pub taken : (on ended : Bool) (q : List (Command F)) → List (Command F)
  taken on ended q = if on then (if ended then q else drain q) else q

  taken_going :
      (on ended : Bool) (q : List (Command F))
      → on ≡ true
      → ended ≡ false
      → head_of (taken on ended q) ≡ none
  unfolding taken
  taken_going on ended q a b = ground (arith, drain-nil q)

  taken_stopped : (on ended : Bool) (q : List (Command F)) → ended ≡ true → taken on ended q ≡ q
  unfolding taken
  taken_stopped on ended q a = ground arith

  taken_off : (on ended : Bool) (q : List (Command F)) → on ≡ false → taken on ended q ≡ q
  unfolding taken
  taken_off on ended q a = ground arith

  work_view :
      (rx check : F) (code : Option ℕ) (s : System F)
      → let out = turn s.stop s.queue rx check code s.worker in
        view (on_work rx check code s) ≡ record (view s) {
          slot = head_of (taken s.worker.running s.stop s.queue);
          live = out.0.running;
          sent = s.sent ++ out.1;
        }
  unfolding on_work taken
  work_view rx check code s = refl

  off_moves :
      (rx check : F) (code : Option ℕ) (s : System F)
      → s.worker.running ≡ false
      → Moves (view s) (view (on_work rx check code s))
  off_moves rx check code s off =
      let e = turn_off s.stop s.queue rx check code s.worker off in
      lands
        (work_view rx check code s
          ∙ Governor-eq (last s.bridge) s.stop
              (ap head_of (taken_off s.worker.running s.stop s.queue off)) (ap (λ t. t.0.running) e)
              (ap (λ t. s.sent ++ t.1) e ∙ append-nil s.sent))
        here

  stopped_moves :
      (rx check : F) (code : Option ℕ) (s : System F)
      → s.worker.running ≡ true
      → s.stop ≡ true
      → Moves (view s) (view (on_work rx check code s))
  stopped_moves rx check code s on stopped =
      let e = turn_stopped s.stop s.queue rx check code s.worker on stopped in
      lands
        (work_view rx check code s
          ∙ Governor-eq (last s.bridge) s.stop
              (ap head_of (taken_stopped s.worker.running s.stop s.queue stopped))
              (ap (λ t. t.0.running) e) (ap (λ t. s.sent ++ t.1) e))
        (one_move (leave on))

  going_view :
      (rx check : F) (code : Option ℕ) (s : System F)
      → s.worker.running ≡ true
      → s.stop ≡ false
      → let out = conclude code (expire check (receive rx s.queue s.worker)) in
        view (on_work rx check code s)
        ≡ record (view s) { slot = none; live = out.0.running; sent = s.sent ++ out.1 }
  going_view rx check code s on going =
      let e = turn_going s.stop s.queue rx check code s.worker on going in
      work_view rx check code s
      ∙ Governor-eq (last s.bridge) s.stop (taken_going s.worker.running s.stop s.queue on going)
          (ap (λ t. t.0.running) e) (ap (λ t. s.sent ++ t.1) e)

  raised_stops : (w : Worker F) → (conclude none w).0.running ≡ false
  unfolding conclude
  raised_stops w = refl

  going_moves :
      (rx check : F) (code : Option ℕ) (s : System F)
      → s.worker.running ≡ true
      → s.stop ≡ false
      → length s.queue ≤ 1
      → Moves (view s) (view (on_work rx check code s))
  going_moves rx check (some code) s on going short =
      let w : Worker F = expire check (receive rx s.queue s.worker) in
      let out = conclude-running code w in
      lands
        (going_view rx check (some code) s on going
          ∙ Governor-eq (last s.bridge) s.stop refl
              (out.0 ∙ expire-receive-running rx check s.queue s.worker)
              (ap (λ cs. s.sent ++ cs) out.1))
        (one_move (sends w.velocity on (heard rx check s.queue s.worker short)))
  going_moves rx check none s on going short =
      let w : Worker F = expire check (receive rx s.queue s.worker) in
      lands
        (going_view rx check none s on going
          ∙ Governor-eq (last s.bridge) s.stop refl (raised_stops w) (
              ap (λ cs. s.sent ++ cs) (conclude-raised w)
              ∙ sym (append_assoc s.sent (call_of w.velocity ∷ []) final_calls)))
        (next (one_move (sends w.velocity on (heard rx check s.queue s.worker short))) (leave on))

  pub work_moves :
      (rx check : F) (code : Option ℕ) (s : System F)
      → length s.queue ≤ 1
      → Moves (view s) (view (on_work rx check code s))
  work_moves rx check code s short = elim (Bool-cases s.worker.running) [
    | inr off ↦ off_moves rx check code s off
    | inl on ↦ elim (Bool-cases s.stop) [
      | inl stopped ↦ stopped_moves rx check code s on stopped
      | inr going ↦ going_moves rx check code s on going short
    ]
  ]
