-- ===== src/Navigation/Spinning.antt =====
-- The end of a navigation goal in nav/g1_goal_to_nav.py: its result, the final heading spin, and the
-- callbacks of the spin.
use humanoid_navigation.Prelude.{
  Bool, true, false, ◌||◌, not, Option, none, some, List, [], ◌∷◌, if◌then◌else◌,
}
use humanoid_navigation.Double.{Double, LibM, le, py_abs}
use humanoid_navigation.Navigation.{Frame, eq_frame, Pose, Transform}
use humanoid_navigation.Navigation.Geometry.{yaw_from_quaternion, angle_diff}
use humanoid_navigation.Navigation.Node.{Node, Config, Request, spin, await_spin_result}
use humanoid_navigation.Navigation.Handlers.{
  Status, failed, succeeded, Response, accepted, Step, send_pending,
}

-- The two services that a finished goal consults: the heading of a frame in the map, `none` where the
-- lookup raises, and the spin's action server.
pub record Surroundings (F : Type 0) : Type 0 where
  pub heading : Frame → Option (Transform F)
  pub spin_server_ready : Bool

module _ {F : Type 0} ⦃d : Double F⦄ where
  open d use {add}

  module _ ⦃lib : LibM F⦄ where
    abbrev yaw_of : Option (Transform F) → Option F
    yaw_of none = none
    yaw_of (some t) = some (yaw_from_quaternion t.rotation)

    -- The first frame whose lookup succeeds; the fallback is tried if it is set and another frame.
    unfoldable pub current_heading_yaw : Config F → Surroundings F → Option F
    current_heading_yaw c env = elim (yaw_of (env.heading c.final_heading_frame)) [
      | some yaw ↦ some yaw
      | none ↦
          if eq_frame c.final_heading_fallback_frame []
            || eq_frame c.final_heading_fallback_frame c.final_heading_frame
          then none
          else yaw_of (env.heading c.final_heading_fallback_frame)
    ]

    -- `_send_final_spin_if_needed`; the Boolean is what it returns.
    unfoldable pub send_final_spin_if_needed :
        Config F
        → Surroundings F
        → F
        → Option (Pose F)
        → F
        → Node F
        → Bool × Node F × List (Request F)
    send_final_spin_if_needed c env now none stamp s = (false, s, [])
    send_final_spin_if_needed c env now (some goal) stamp s =
        if c.ignore_goal_yaw || not c.final_spin_to_goal_yaw
        then (false, s, [])
        else (elim (current_heading_yaw c env) [
          | none ↦ (false, s, [])
          | some current ↦
              let yaw_error = angle_diff (yaw_from_quaternion goal.orientation) current in
              if le (py_abs yaw_error) c.final_yaw_tolerance_rad
              then (false, s, [])
              else if not env.spin_server_ready
              then (false, s, [])
              else (
                true,
                record s {
                  active_spin_goal_pose = some goal;
                  cancel_ignore_until = add now c.cancel_grace_s;
                },
                spin yaw_error stamp ∷ [],
              )
        ])

    -- `_on_result`
    unfoldable pub on_result : Config F → Surroundings F → F → Status → Node F → Step F
    on_result c env now succeeded s =
        let done = record s {
          active_goal = none;
          active_goal_pose = none;
          last_succeeded_source_stamp = s.active_goal_source_stamp;
        } in
        let (_, s', requests) =
          send_final_spin_if_needed c env now s.active_goal_pose s.active_goal_source_stamp done in
        (s', requests)
    on_result c env now _ s = (record s { active_goal = none; active_goal_pose = none }, [])

  -- `_on_spin_response`
  unfoldable pub on_spin_response : Config F → F → Response → F → Node F → Step F
  on_spin_response c now (accepted h) stamp s = (
    record s {
      active_spin = some h;
      active_goal_source_stamp = stamp;
      cancel_ignore_until = add now c.cancel_grace_s;
    },
    await_spin_result h ∷ [],
  )
  on_spin_response c now _ stamp s = (record s { active_spin_goal_pose = none }, [])

  unfoldable pub on_spin_feedback : Config F → F → Node F → Node F
  on_spin_feedback c now s = record s { cancel_ignore_until = add now c.cancel_grace_s }

  -- `_on_spin_result`
  unfoldable pub on_spin_result : Config F → F → Status → Node F → Step F
  on_spin_result c now failed s =
      (record s { active_spin = none; active_spin_goal_pose = none }, [])
  on_spin_result c now _ s =
      send_pending c now (record s { active_spin = none; active_spin_goal_pose = none })
