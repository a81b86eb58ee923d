-- ===== src/Examples/Velocity.antt =====
-- host/g1_cmd_vel_bridge.py: its theorems at concrete messages, clocks and interleavings.
use humanoid_navigation.Prelude.{
  ◌≡◌, ◌≢◌, ◌⊎◌, refl, true, false, none, some, List, [], ◌∷◌, All, arith, sym, ap, ◌∙◌, Option,
}
use humanoid_navigation.Prelude.Int.{ℤ, pos, negsuc}
use humanoid_navigation.Double.{◌≼◌, nought, lt}
use humanoid_navigation.Double.Fixed.{Fixed, fixed_double, fixed_libm, Fixed-IsDouble}
use humanoid_navigation.Gateway.{Twist, Command, cmd_timeout_s}
use humanoid_navigation.Gateway.Bridge.{Bridge, Odometry}
use humanoid_navigation.Gateway.Tick.{
  time_step, arm_edge, is_fresh, is_enabled, motion_clock, in_first_motion, targets, finite_clamp,
  slew, velocity, twist_of, same_summary, tick,
}
use humanoid_navigation.Gateway.Worker.{Worker, newest, call_of, turn}
use humanoid_navigation.Gateway.Passive.{forget, without_odometry, run-without_odometry}
use humanoid_navigation.Gateway.System.{
  Event, System, command, odometry, timer, work, shutdown, terminate, boot, step, run,
}
use humanoid_navigation.Gateway.Bounds.{InLimits}
use humanoid_navigation.Gateway.Limits.{IsSafe, last, run-IsSafe}
use humanoid_navigation.Gateway.Slew.{IsNear, tick-IsNear}
use humanoid_navigation.Gateway.Follow.{IsSame, tick-IsSame}
use humanoid_navigation.Gateway.BadInput.{tick-slows}
use humanoid_navigation.Gateway.FailClosed.{standing, MayMove, tick-MayMove}
use humanoid_navigation.Gateway.Watchdog.{IsStill, turn-watchdog, disarm_stops}
use humanoid_navigation.Gateway.Silence.{run-IsStill}
use humanoid_navigation.Gateway.Governor.{Moves}
use humanoid_navigation.Gateway.View.{view}
use humanoid_navigation.Gateway.Refinement.{run-Moves}

abbrev sec : Fixed
sec = some (pos 10_000)

abbrev now : Fixed
now = some (pos 1_000_000)

-- Half a metre per second forward, and a turn rate that is no number.
abbrev wild : Twist Fixed
wild = record {
  linear_x = some (pos 5_000);
  linear_y = nought;
  linear_z = nought;
  angular_x = nought;
  angular_y = nought;
  angular_z = none;
}

-- A bridge that has been armed for ten seconds and has a message that is 0.1 s old.
abbrev driving : Bridge Fixed
driving = record {
  latest = some wild;
  latest_time = some (pos 999_000);
  was_armed = true;
  armed_since = some (pos 900_000);
  motion_since = some (some (pos 950_000));
  last_vx = some (pos 1_500);
  last_wz = nought;
  last_tick = some (pos 999_000);
  last_state = none;
  audit_start = none;
  audit_last_logged_distance = nought;
}

abbrev pose : Odometry Fixed
pose = record { x = sec; y = nought; qx = nought; qy = nought; qz = nought; qw = sec }

abbrev turning : Worker Fixed
turning = record {
  velocity = (some (pos 1_500), some (negsuc 999));
  last_rx = now;
  last_report = none;
  running = true;
}

abbrev live : System Fixed
live = record { bridge = driving; queue = []; worker = turning; stop = false; sent = [] }

abbrev drive : List (Event Fixed)
drive =
    timer now true
    ∷ command (some (pos 1_020_000)) wild
    ∷ timer (some (pos 1_021_000)) true
    ∷ work (some (pos 1_021_000)) (some (pos 1_021_000)) (some 0)
    ∷ shutdown
    ∷ work (some (pos 1_022_000)) (some (pos 1_022_000)) none
    ∷ terminate
    ∷ []

run-IsSafe_example : All IsSafe (run (boot nought nought) drive).sent
run-IsSafe_example = run-IsSafe Fixed-IsDouble nought nought drive

driving-InLimits : InLimits (last driving)
driving-InLimits = record {
  vx_finite = refl;
  vx_forward = omega arith;
  vx_le = omega arith;
  wz_finite = refl;
  wz_ge = omega arith;
  wz_le = omega arith;
}

tick-IsNear_example :
    ((tick now true driving).1.command ≡ (nought, nought))
    ⊎ IsNear (time_step now driving) (last driving) (tick now true driving).1.command
tick-IsNear_example = tick-IsNear Fixed-IsDouble now true driving driving-InLimits

-- One tick speeds up by 0.01 m/s and drops the turn rate that is no number.
tick_drives : (tick now true driving).1.command ≡ (some (pos 1_600), nought)
unfolding tick time_step arm_edge is_fresh is_enabled motion_clock in_first_motion targets
    finite_clamp slew velocity twist_of same_summary
tick_drives = refl

abbrev speed : Command Fixed → Option ℤ
speed c = c.0

driving_moves : (tick now true driving).1.command ≢ standing
driving_moves still = not_zero (ap speed (sym tick_drives ∙ still))
  where
    not_zero : some (pos 1_600) ≡ some (pos 0) → ⊥
    not_zero e = ground arith

tick-MayMove_example : MayMove now true driving
tick-MayMove_example = tick-MayMove now true driving driving_moves

abbrev parked : System Fixed
parked = record live { bridge = record driving { was_armed = false } }

abbrev silent : List (Event Fixed)
silent =
    timer now true
    ∷ odometry pose
    ∷ timer (some (pos 1_020_000)) true
    ∷ work (some (pos 1_021_000)) (some (pos 1_021_000)) (some 0)
    ∷ []

run-IsStill_example : All IsStill (run parked silent).sent
run-IsStill_example = run-IsStill parked silent refl tt refl (tt, (tt, (tt, (tt, tt))))

disarm_stops_example :
    (step
      (run (step live (timer now false)) (command now wild ∷ odometry pose ∷ []))
      (work now now (some 0))).sent
    ≡ call_of standing ∷ []
disarm_stops_example =
    disarm_stops live now now now 0 (command now wild ∷ odometry pose ∷ []) refl refl (tt, (tt, tt))

abbrev queued : List (Command Fixed)
queued = (some (pos 100), nought) ∷ (some (pos 200), nought) ∷ []

turn-watchdog_example :
    ((turn false queued now now (some 0) turning).1 ≡ call_of standing ∷ [])
    ⊎ ((item : Command Fixed) × (rest : List (Command Fixed)) × (queued ≡ item ∷ rest)
        × ((turn false queued now now (some 0) turning).1 ≡ call_of (newest item rest) ∷ [])
        × (lt cmd_timeout_s (fixed_double.sub now now) ≡ false))
turn-watchdog_example = turn-watchdog queued now now 0 turning refl

-- The same bridge with a forward speed that is no number.
abbrev garbled : Twist Fixed
garbled = record wild { linear_x = none }

tick-slows_example :
    (tick now true (record driving { latest = some garbled })).1.command.0 ≼ driving.last_vx
tick-slows_example =
    tick-slows Fixed-IsDouble now true (record driving { latest = some garbled }) garbled refl refl
      driving-InLimits

abbrev gentle : Twist Fixed
gentle = record wild { linear_x = some (pos 1_600); angular_z = nought }

abbrev led : Bridge Fixed
led = record driving { latest = some gentle }

gentle-InLimits : InLimits (some (pos 1_600), nought)
gentle-InLimits = record {
  vx_finite = refl;
  vx_forward = omega arith;
  vx_le = omega arith;
  wz_finite = refl;
  wz_ge = omega arith;
  wz_le = omega arith;
}

gentle-IsNear : IsNear (time_step now led) (last led) (some (pos 1_600), nought)
unfolding time_step
gentle-IsNear = record {
  vx_ge = omega arith;
  vx_le = omega arith;
  wz_ge = omega arith;
  wz_le = omega arith;
}

tick-IsSame_example :
    IsSame (tick now true led).1.command.0 (some (pos 1_600))
    × IsSame (tick now true led).1.command.1 nought
tick-IsSame_example =
    tick-IsSame Fixed-IsDouble now led gentle refl refl refl refl gentle-InLimits driving-InLimits
      gentle-IsNear

run-Moves_example : Moves (view (boot sec sec)) (view (run (boot sec sec) drive))
run-Moves_example = run-Moves Fixed-IsDouble sec sec drive

run-without_odometry_example :
    forget (run (boot sec sec) drive) ≡ forget (run (boot sec sec) (without_odometry drive))
run-without_odometry_example = run-without_odometry (boot sec sec) drive
