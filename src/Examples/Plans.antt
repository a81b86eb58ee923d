-- ===== src/Examples/Plans.antt =====
-- nav/g1_goal_to_plan.py and nav/g1_path_frame_relay.py: their theorems at a concrete path.
use humanoid_navigation.Prelude.{◌≡◌, true, some, [], ◌∷◌}
use humanoid_navigation.Prelude.Int.{pos}
use humanoid_navigation.Double.{nought}
use humanoid_navigation.Double.Fixed.{Fixed, fixed_double}
use humanoid_navigation.Navigation.{Pose}
use humanoid_navigation.Navigation.Handlers.{accepted}
use humanoid_navigation.Planning.{
  Route, follow, cancel_preview, Planner, start_preview, on_preview_goal_response,
  on_preview_result,
}
use humanoid_navigation.Prelude.{List}
use humanoid_navigation.Planning.{init}
use humanoid_navigation.Planning.System.{
  Event, map_received, goal_received, goal_answered, path_ended, preview_answered, run,
}
use humanoid_navigation.Planning.Trace.{nothing_yet, IsRequested, run-IsRequested}
use humanoid_navigation.Planning.Preview.{late_result_forgets_preview}

abbrev there : Pose Fixed
there = record {
  frame = [];
  sec = nought;
  nanosec = nought;
  position = record { x = some (pos 10_000); y = nought; z = nought };
  orientation = record { qx = nought; qy = nought; qz = nought; qw = some (pos 10_000) };
}

abbrev route : Route Fixed
route = record { frame = b'/' ∷ b'm' ∷ []; poses = there ∷ there ∷ [] }

abbrev previewing : Planner
previewing = record { map_ready = true; controller_goal = some 3 }

late_result_forgets_preview_example :
    let running = (on_preview_goal_response {F = Fixed} (accepted 4) previewing).0 in
    (running.controller_goal ≡ some 4)
    × ((start_preview true route (on_preview_result running)).1 ≡ follow route ∷ [])
    × ((start_preview true route running).1 ≡ cancel_preview 4 ∷ follow route ∷ [])
late_result_forgets_preview_example = late_result_forgets_preview 4 route previewing

-- A goal, its plan, and a second plan that replaces the preview of the first.
abbrev callbacks : List (Event Fixed)
callbacks =
    map_received
    ∷ goal_received (record there { frame = b'm' ∷ b'a' ∷ b'p' ∷ [] })
    ∷ goal_answered (accepted 5)
    ∷ path_ended true (some (true, route))
    ∷ preview_answered (accepted 6)
    ∷ path_ended true (some (true, route))
    ∷ []

run-IsRequested_example : IsRequested nothing_yet callbacks (run callbacks init)
run-IsRequested_example = run-IsRequested callbacks
