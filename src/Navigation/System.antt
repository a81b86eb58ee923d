-- ===== src/Navigation/System.antt =====
-- The node of nav/g1_goal_to_nav.py as a whole: its callbacks as events, in any order, as `rclpy.spin`
-- runs them, until one raises.
use humanoid_navigation.Prelude.{Bool, false, Option, none, some, List, [], ◌∷◌, map, if◌then◌else◌}
use humanoid_navigation.Prelude.Result.{is_raised}
use humanoid_navigation.Double.{Double, LibM, nought}
use humanoid_navigation.Navigation.{Frame, Pose, Transform, map_frame}
use humanoid_navigation.Navigation.Geometry.{goal_in_frame}
use humanoid_navigation.Navigation.Cells.{map_cell_summary}
use humanoid_navigation.Navigation.Node.{Node, Config, Map, Request}
use humanoid_navigation.Navigation.Handlers.{
  Status, Response, Step, normal_frame, stamp_of, is_stale, prepare_goal, on_map, on_goal,
  on_clicked_point, on_cancel_done, on_spin_cancel_done, on_cancel_navigation, on_feedback,
  on_goal_response,
}
use humanoid_navigation.Navigation.Spinning.{
  Surroundings, on_result, on_spin_response, on_spin_feedback, on_spin_result,
}

-- A callback with what it is given; the first of two numbers is `_now_s()`.
pub data Event (F : Type 0) : Type 0 where
  map_received : Map F → Event F
  goal_received : (Frame → Option (Transform F)) → F → Pose F → Event F
  point_clicked : (Frame → Option (Transform F)) → F → Pose F → Event F
  cancel_received : Bool → F → Event F
  goal_answered : F → Response → Event F
  goal_ended : Surroundings F → F → Status → Event F
  goal_advanced : F → Event F
  cancel_confirmed : F → Event F
  spin_answered : F → Response → F → Event F
  spin_ended : F → Status → Event F
  spin_advanced : F → Event F
  spin_cancel_confirmed : F → Event F

module _ {F : Type 0} ⦃d : Double F⦄ ⦃lib : LibM F⦄ (c : Config F) where
  unfoldable pub handle : Event F → Node F → Step F
  handle (map_received m) s = (on_map m s, [])
  handle (goal_received lookup now msg) s = on_goal c lookup now msg s
  handle (point_clicked lookup now msg) s = on_clicked_point c lookup now msg s
  handle (cancel_received requested now) s = on_cancel_navigation requested now s
  handle (goal_answered now response) s = on_goal_response c now response s
  handle (goal_ended env now status) s = on_result c env now status s
  handle (goal_advanced now) s = (on_feedback c now s, [])
  handle (cancel_confirmed now) s = on_cancel_done c now s
  handle (spin_answered now response stamp) s = on_spin_response c now response stamp s
  handle (spin_ended now status) s = on_spin_result c now status s
  handle (spin_advanced now) s = (on_spin_feedback c now s, [])
  handle (spin_cancel_confirmed now) s = on_spin_cancel_done c now s

  -- `_on_goal` raises: it does where the summary of the cell raises, of a goal that is not stale and
  -- comes to the map frame.
  unfoldable pub goal_fails : (Frame → Option (Transform F)) → F → Pose F → Node F → Bool
  goal_fails lookup now msg s =
      let goal = record msg { frame = normal_frame msg.frame } in
      if is_stale c now (stamp_of goal)
      then false
      else (elim (goal_in_frame (lookup goal.frame) goal map_frame) [
        | none ↦ false
        | some moved ↦ is_raised (map_cell_summary s.map (prepare_goal c moved))
      ])

  -- A callback raises, so `rclpy.spin` ends and with it the process.
  unfoldable pub fails : Event F → Node F → Bool
  fails (goal_received lookup now msg) s = goal_fails lookup now msg s
  fails (point_clicked lookup now msg) s =
      goal_fails lookup now
        (record msg {
          position = record { x = msg.position.x; y = msg.position.y; z = nought };
          orientation = record { qx = nought; qy = nought; qz = nought; qw = d.decimal 1 0 };
        })
        s
  fails _ s = false

  -- The requests at each event; none from a callback on that raises.
  unfoldable pub run : List (Event F) → Node F → List (List (Request F))
  run [] s = []
  run (e ∷ es) s =
      let rest = run es (handle e s).0 in
      if fails e s then map (λ dead. []) (e ∷ es) else (handle e s).1 ∷ rest
