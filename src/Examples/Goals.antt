-- ===== src/Examples/Goals.antt =====
-- nav/g1_goal_to_nav.py: its theorems at concrete goals and maps.
use humanoid_navigation.Prelude.{◌≡◌, ◌⊎◌, refl, true, false, none, some, [], ◌∷◌, ◌++◌, replicate}
use humanoid_navigation.Prelude.Int.{pos}
use humanoid_navigation.Double.{nought}
use humanoid_navigation.Double.Fixed.{Fixed, fixed_double, fixed_libm}
use humanoid_navigation.Navigation.{Pose, Quaternion, map_frame}
use humanoid_navigation.Navigation.Geometry.{yaw_from_quaternion, angle_diff}
use humanoid_navigation.Navigation.Node.{
  Node, Config, Map, navigate, cancel_then_send, spin, same_goal, cell_in, cells_across, map_x,
  map_y, world_to_map_cell,
}
use humanoid_navigation.Navigation.Handlers.{
  dispatch_goal, on_cancel_done, on_cancel_navigation, succeeded, failed, accepted,
  on_goal_response, cancel_of, cancel_spin_of,
}
use humanoid_navigation.Navigation.Spinning.{Surroundings, on_result}
use humanoid_navigation.Navigation.Afterwards.{SendsNone, on_cancel_navigation-stops}
use humanoid_navigation.Prelude.Result.{ok, raised, value_error, zero_division_error}
use humanoid_navigation.Navigation.Cells.{map_cell_summary, Says, map_cell_summary-Says}
use humanoid_navigation.Prelude.{List, All}
use humanoid_navigation.Navigation.Node.{init}
use humanoid_navigation.Navigation.System.{
  Event, goal_received, goal_answered, goal_ended, cancel_received, cancel_confirmed, run,
}
use humanoid_navigation.Navigation.Origins.{nothing_yet}
use humanoid_navigation.Navigation.Trace.{IsTraced, run-IsTraced}
use humanoid_navigation.Navigation.Replacement.{
  NeedsSpin, replacement_sends, on_result-spin, late_result_loses_heading,
}

abbrev sec : Fixed
sec = some (pos 10_000)

abbrev now : Fixed
now = some (pos 1_000_000)

abbrev later : Fixed
later = some (pos 1_001_000)

abbrev upright : Quaternion Fixed
upright = record { qx = nought; qy = nought; qz = nought; qw = sec }

abbrev place : Fixed → Pose Fixed
place x = record {
  frame = map_frame;
  sec = nought;
  nanosec = nought;
  position = record { x = x; y = nought; z = nought };
  orientation = upright;
}

abbrev here : Pose Fixed
here = place nought

abbrev there : Pose Fixed
there = place (some (pos 30_000))

abbrev config : Config Fixed
config = record {
  goal_dedup_s = sec;
  goal_fresh_s = some (pos 50_000);
  cancel_grace_s = some (pos 20_000);
  final_spin_to_goal_yaw = true;
  final_yaw_tolerance_rad = some (pos 1_500);
  ignore_goal_yaw = false;
  final_heading_frame = [];
  final_heading_fallback_frame = [];
}

abbrev fresh : Node Fixed
fresh = record {
  map = none;
  active_goal = none;
  active_goal_pose = none;
  active_spin = none;
  active_spin_goal_pose = none;
  pending_goal = none;
  last_sent_goal_pose = none;
  last_sent_goal_time = nought;
  cancel_ignore_until = nought;
  active_goal_source_stamp = nought;
  last_succeeded_source_stamp = nought;
  last_feedback_log = nought;
  last_stale_goal_log = nought;
}

-- On its way to `here` by the handle 7.
abbrev underway : Node Fixed
underway = record fresh {
  active_goal = some 7;
  active_goal_pose = some here;
  last_sent_goal_pose = some here;
  active_goal_source_stamp = some (pos 900_000);
}

abbrev env : Surroundings Fixed
env = record { heading = λ frame. none; spin_server_ready = true }

-- A grid of three by two cells of half a metre.
abbrev grid : Map Fixed
grid = record {
  frame = map_frame;
  resolution = some (pos 5_000);
  width = 3;
  height = 2;
  origin = record { x = nought; y = nought; z = nought };
  origin_orientation = upright;
  cells = replicate 6 (pos 0);
}

cell_found : world_to_map_cell grid (some (pos 11_000)) (some (pos 6_000)) ≡ ok (some (2, 1, 5))
unfolding world_to_map_cell cells_across map_x map_y cell_in yaw_from_quaternion
cell_found = refl

-- A map without a resolution, and a goal that is not a number.
flat_map :
    world_to_map_cell (record grid { resolution = nought }) sec sec ≡ raised zero_division_error
unfolding world_to_map_cell cells_across
flat_map = refl

no_place : world_to_map_cell grid none sec ≡ raised value_error
unfolding world_to_map_cell cells_across map_x map_y yaw_from_quaternion
no_place = refl

map_cell_summary-Says_example : Says there (some grid) (map_cell_summary (some grid) there)
map_cell_summary-Says_example = map_cell_summary-Says (some grid) there refl

elsewhere : same_goal there here ≡ false
unfolding same_goal
elsewhere = refl

replacement_sends_example :
    let (waiting, asked) = dispatch_goal config now there now underway in
    let (sent, requests) = on_cancel_done config later waiting in
    (asked ≡ cancel_then_send 7 ∷ [])
    × (requests ≡ navigate there ∷ [])
    × (sent.pending_goal ≡ none)
    × (sent.active_goal ≡ none)
    × (sent.active_goal_pose ≡ some there)
    × (sent.active_goal_source_stamp ≡ now)
replacement_sends_example =
    replacement_sends config now later there now 7 here underway refl refl refl elsewhere refl

-- A confirmation, an answer, a result and one more confirmation.
abbrev late_events : List (Event Fixed)
late_events =
    cancel_confirmed later
    ∷ goal_answered later (accepted 8)
    ∷ goal_ended env later failed
    ∷ cancel_confirmed later
    ∷ []

on_cancel_navigation-stops_example :
    let (t, requests) = on_cancel_navigation true now underway in
    (t.active_goal ≡ none)
    × (t.active_spin ≡ none)
    × (t.pending_goal ≡ none)
    × (requests ≡ cancel_of (some 7) ++ cancel_spin_of none)
    × All SendsNone (run config late_events t)
on_cancel_navigation-stops_example =
    on_cancel_navigation-stops config now underway late_events refl
      (refl, (refl, (refl, (refl, tt))))

abbrev replayed : Pose Fixed
replayed = record here { sec = some (pos 900_000) }

on_result-spin_example :
    ((on_result config env now succeeded underway).1 ≡ [])
      × ¬ ((yaw : Fixed) × NeedsSpin config env here yaw)
    ⊎ ((yaw : Fixed) × NeedsSpin config env here yaw
        × ((on_result config env now succeeded underway).1
            ≡ spin (angle_diff (yaw_from_quaternion upright) yaw) (some (pos 900_000)) ∷ []))
on_result-spin_example = on_result-spin config env now here underway refl

late_result_loses_heading_example :
    let after_old = (on_result config env now failed underway).0 in
    let running = (on_goal_response config later (accepted 8) after_old).0 in
    (on_result config env later succeeded running).1 ≡ []
late_result_loses_heading_example =
    late_result_loses_heading config env now later later failed 8 underway

-- A goal is sent and accepted, another one replaces it, and is cancelled before it is accepted.
abbrev callbacks : List (Event Fixed)
callbacks =
    goal_received (λ f. none) now there
    ∷ goal_answered now (accepted 7)
    ∷ goal_received (λ f. none) later here
    ∷ cancel_confirmed later
    ∷ cancel_received true later
    ∷ goal_answered later (accepted 8)
    ∷ []

run-IsTraced_example : IsTraced config nothing_yet callbacks (run config callbacks init)
run-IsTraced_example = run-IsTraced config callbacks
