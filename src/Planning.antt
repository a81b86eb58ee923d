-- ===== src/Planning.antt =====
-- nav/g1_goal_to_plan.py, the planning relay: a goal in the map becomes a path, and the path a
-- preview by the controller; and nav/g1_path_frame_relay.py, which sets the frames of a path.
pub mod Preview
pub mod System
pub mod Trace
use humanoid_navigation.Prelude.{
  Bool, true, false, Option, none, some, List, [], ◌∷◌, ◌++◌, map, if◌then◌else◌,
}
use humanoid_navigation.Navigation.{Frame, Pose, map_frame, eq_frame, lstrip}
use humanoid_navigation.Navigation.Node.{Handle}
use humanoid_navigation.Navigation.Handlers.{Response, accepted}

-- `nav_msgs/Path`
pub record Route (F : Type 0) : Type 0 where
  pub frame : Frame
  pub poses : List (Pose F)

-- What the node asks of the planner and of the controller, and what it publishes.
pub data Request (F : Type 0) : Type 0 where
  compute_path : Pose F → Request F
  await_path : Handle → Request F
  publish_plan : Route F → Request F
  follow : Route F → Request F
  await_preview : Handle → Request F
  cancel_preview : Handle → Request F

-- The state of class `GoalToPlan`.
pub record Planner : Type 0 where
  pub map_ready : Bool
  pub controller_goal : Option Handle

unfoldable pub init : Planner
init = record { map_ready = false; controller_goal = none }

unfoldable pub on_map : Planner → Planner
on_map s = record s { map_ready = true }

module _ {F : Type 0} where
  -- The header's frame and the frame of every pose are set.
  unfoldable pub in_frame : Frame → Route F → Route F
  in_frame f route = record {
    frame = f;
    poses = map (λ (p : Pose F). record p { frame = f }) route.poses;
  }

  unfoldable pub on_goal : Pose F → Planner → List (Request F)
  on_goal goal s =
      if s.map_ready
      then (if eq_frame (lstrip goal.frame) map_frame
          then compute_path (record goal { frame = map_frame }) ∷ []
          else [])
      else []

  unfoldable pub on_goal_response : Response → List (Request F)
  on_goal_response (accepted h) = await_path h ∷ []
  on_goal_response _ = []

  abbrev pub cancel_of : Option Handle → List (Request F)
  cancel_of none = []
  cancel_of (some h) = cancel_preview h ∷ []

  -- `ready` is what `wait_for_server` returns.
  unfoldable pub start_preview : Bool → Route F → Planner → Planner × List (Request F)
  start_preview ready route s =
      if ready
      then (record s { controller_goal = none }, cancel_of s.controller_goal ++ follow route ∷ [])
      else (s, [])

  -- The result of the planner: `none` where it raises, else whether its status is
  -- `STATUS_SUCCEEDED`, with the path.
  unfoldable pub on_result : Bool → Option (Bool × Route F) → Planner → Planner × List (Request F)
  on_result ready none s = (s, [])
  on_result ready (some (succeeded, route)) s = elim route.poses [
    | [] ↦ (s, [])
    | p ∷ poses ↦
        let plan = in_frame map_frame route in
        let next = start_preview ready plan s in
        if succeeded then (next.0, publish_plan plan ∷ next.1) else (s, [])
  ]

  unfoldable pub on_preview_goal_response : Response → Planner → Planner × List (Request F)
  on_preview_goal_response (accepted h) s =
      (record s { controller_goal = some h }, await_preview h ∷ [])
  on_preview_goal_response _ s = (s, [])

  -- `on_path` of nav/g1_path_frame_relay.py.
  unfoldable pub on_path : Route F → Route F
  on_path route = elim (lstrip route.frame) [
    | [] ↦ in_frame map_frame route
    | c ∷ f ↦ in_frame (c ∷ f) route
  ]

-- Whatever the result is, and whichever preview it is of.
unfoldable pub on_preview_result : Planner → Planner
on_preview_result s = record s { controller_goal = none }
