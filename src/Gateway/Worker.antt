-- ===== src/Gateway/Worker.antt =====
-- `sdk_worker` of host/g1_cmd_vel_bridge.py, the process that owns the Unitree SDK: one turn of its
-- loop, and its end by the stop event or by an exception. `client.SetVelocity` is not part of the
-- repository's own code: its result is an input of the turn, `none` where it raises.
use humanoid_navigation.Prelude.{
  ℕ, Bool, true, false, ◌&&◌, not, Option, none, some, List, [], ◌∷◌, ◌==◌, if◌then◌else◌,
  replicate,
}
use humanoid_navigation.Double.{Double, LibM, nought, lt, eq}
use humanoid_navigation.Gateway.{Command, cmd_timeout_s, sdk_command_duration_s}

-- One call `SetVelocity(vx, vy, wz, duration)`.
pub record Call (F : Type 0) : Type 0 where
  pub vx : F
  pub vy : F
  pub wz : F
  pub duration : F

pub data Report (F : Type 0) : Type 0 where
  velocity_report : F → F → ℕ → Report F
  exception_report : Report F

pub record Worker (F : Type 0) : Type 0 where
  pub velocity : Command F
  pub last_rx : F
  pub last_report : Option (F × F × ℕ)
  pub running : Bool

-- The last item that the inner `get_nowait` loop finds.
module _ {A : Type 0} where
  unfoldable pub newest : A → List A → A
  newest item [] = item
  newest item (next ∷ q) = newest next q

module _ {F : Type 0} ⦃d : Double F⦄ where
  open d use {sub}

  -- The local variables before the loop, at the clock's value `now`.
  unfoldable pub start : F → Worker F
  start now = record {
    velocity = (nought, nought);
    last_rx = now;
    last_report = none;
    running = true;
  }

  -- What the queue yields within `SDK_QUEUE_TIMEOUT_S`; with nothing on it, `queue.Empty`.
  unfoldable pub receive : F → List (Command F) → Worker F → Worker F
  unfolding newest
  receive now [] w = record w { velocity = (nought, nought) }
  receive now (item ∷ q) w = record w { velocity = newest item q; last_rx = now }

  -- The second clock reading, against `CMD_TIMEOUT_S`.
  unfoldable pub expire : F → Worker F → Worker F
  expire now w =
      if lt cmd_timeout_s (sub now w.last_rx) then record w { velocity = (nought, nought) } else w

  unfoldable pub call_of : Command F → Call F
  call_of c = record { vx = c.0; vy = nought; wz = c.1; duration = sdk_command_duration_s }

  -- The `finally` block.
  unfoldable pub final_calls : List (Call F)
  unfolding call_of
  final_calls = replicate 5 (call_of (nought, nought))

  unfoldable pub same_report : F × F × ℕ → Option (F × F × ℕ) → Bool
  same_report a none = false
  same_report a (some b) = eq a.0 b.0 && (eq a.1 b.1 && a.2 == b.2)

  module _ ⦃m : LibM F⦄ where
    open m use {round}

    -- After `SetVelocity` returned a code, or raised.
    unfoldable pub conclude : Option ℕ → Worker F → Worker F × List (Call F) × List (Report F)
    conclude none w =
        (record w { running = false }, call_of w.velocity ∷ final_calls, exception_report ∷ [])
    conclude (some code) w =
        let (vx, wz) = w.velocity in
        let report : F × F × ℕ = (round vx 3, round wz 3, code) in
        if same_report report w.last_report then (w, call_of w.velocity ∷ [], []) else (
          record w { last_report = some report },
          call_of w.velocity ∷ [],
          velocity_report vx wz code ∷ [],
        )

    -- One turn of `while not stop_event.is_set()`, with the stop event, the queue and the two clock
    -- readings. A worker that has ended does nothing.
    unfoldable pub turn :
        Bool
        → List (Command F)
        → F
        → F
        → Option ℕ
        → Worker F
        → Worker F × List (Call F) × List (Report F)
    turn stop q rx check code w =
        if not w.running
        then (w, [], [])
        else if stop
        then (record w { running = false }, final_calls, [])
        else conclude code (expire check (receive rx q w))
