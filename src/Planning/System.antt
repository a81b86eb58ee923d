-- ===== src/Planning/System.antt =====
-- The node of nav/g1_goal_to_plan.py as a whole: its callbacks as events, in any order.
use humanoid_navigation.Prelude.{Bool, Option, List, [], ◌∷◌}
use humanoid_navigation.Navigation.{Pose}
use humanoid_navigation.Navigation.Handlers.{Response}
use humanoid_navigation.Planning.{
  Route, Request, Planner, on_map, on_goal, on_goal_response, on_result, on_preview_goal_response,
  on_preview_result,
}

-- A callback with what it is given; `ready` is what `wait_for_server` returns.
pub data Event (F : Type 0) : Type 0 where
  map_received : Event F
  goal_received : Pose F → Event F
  goal_answered : Response → Event F
  path_ended : Bool → Option (Bool × Route F) → Event F
  preview_answered : Response → Event F
  preview_ended : Event F

module _ {F : Type 0} where
  unfoldable pub handle : Event F → Planner → Planner × List (Request F)
  handle map_received s = (on_map s, [])
  handle (goal_received goal) s = (s, on_goal goal s)
  handle (goal_answered response) s = (s, on_goal_response response)
  handle (path_ended ready result) s = on_result ready result s
  handle (preview_answered response) s = on_preview_goal_response response s
  handle preview_ended s = (on_preview_result s, [])

  -- The requests at each event.
  unfoldable pub run : List (Event F) → Planner → List (List (Request F))
  run [] s = []
  run (e ∷ es) s = let next = handle e s in next.1 ∷ run es next.0
