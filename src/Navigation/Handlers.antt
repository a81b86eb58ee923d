-- ===== src/Navigation/Handlers.antt =====
-- The handlers of nav/g1_goal_to_nav.py for goals, their cancellation and the final heading spin.
-- A handler maps the state to the new state and the requests that it makes; `now` is `_now_s()`. The
-- handler of goals goes on where the summary of the goal's cell, which is for the log, raises: `run` of
-- Navigation/System ends there.
use humanoid_navigation.Prelude.{
  Bool, false, ◌&&◌, ◌||◌, not, Option, none, some, List, [], ◌∷◌, ◌++◌, if◌then◌else◌, is_some,
}
use humanoid_navigation.Double.{Double, LibM, nought, lt, eq}
use humanoid_navigation.Navigation.{Frame, Pose, Transform, map_frame, lstrip}
use humanoid_navigation.Navigation.Geometry.{goal_in_frame}
use humanoid_navigation.Navigation.Node.{
  Node, Config, Map, Handle, Request, navigate, await_result, cancel_then_send, cancel,
  cancel_spin_then_send, cancel_spin, same_goal,
}

-- The end of an action: `future.result()` raises, or gives a status.
pub data Status : Type 0 where
  failed succeeded canceled aborted other : Status

-- The response to a goal request: it raises, is rejected, or gives a handle.
pub data Response : Type 0 where
  raised rejected : Response
  accepted : Handle → Response

abbrev pub Step : Type 0 → Type 0
Step F = Node F × List (Request F)

-- An empty frame is the map's; leading slashes go.
abbrev pub normal_frame : Frame → Frame
normal_frame [] = map_frame
normal_frame (a ∷ f) = lstrip (a ∷ f)

module _ {F : Type 0} ⦃d : Double F⦄ where
  open d use {decimal, add, sub, div}

  unfoldable pub on_map : Map F → Node F → Node F
  on_map m s = record s { map = some m }

  unfoldable pub send_goal : Config F → F → Pose F → F → Node F → Step F
  send_goal c now goal source_stamp s = (
    record s {
      active_goal_pose = some goal;
      active_goal_source_stamp = source_stamp;
      last_sent_goal_pose = some goal;
      last_sent_goal_time = now;
      cancel_ignore_until = add now c.cancel_grace_s;
      last_feedback_log = nought;
    },
    navigate goal ∷ [],
  )

  -- The end of both cancel callbacks: what is pending is sent.
  unfoldable pub send_pending : Config F → F → Node F → Step F
  send_pending c now s = elim s.pending_goal [
    | none ↦ (s, [])
    | some (goal, stamp) ↦ send_goal c now goal stamp (record s { pending_goal = none })
  ]

  unfoldable pub on_cancel_done : Config F → F → Node F → Step F
  on_cancel_done c now s =
      send_pending c now (record s { active_goal = none; active_goal_pose = none })

  unfoldable pub on_spin_cancel_done : Config F → F → Node F → Step F
  on_spin_cancel_done c now s =
      send_pending c now (record s { active_spin = none; active_spin_goal_pose = none })

  -- The pose that the active goal or spin is for.
  unfoldable pub active_pose : Node F → Option (Pose F)
  active_pose s = if is_some s.active_goal then s.active_goal_pose else s.active_spin_goal_pose

  abbrev pub same_as : Pose F → Option (Pose F) → Bool
  same_as goal none = false
  same_as goal (some p) = same_goal goal p

  abbrev pub cancel_active : Node F → List (Request F)
  cancel_active s = elim s.active_goal [
    | some h ↦ cancel_then_send h ∷ []
    | none ↦ (elim s.active_spin [ some h ↦ cancel_spin_then_send h ∷ [] | none ↦ [] ])
  ]

  -- `_on_goal` from the goal in the map frame on.
  unfoldable pub dispatch_goal : Config F → F → Pose F → F → Node F → Step F
  dispatch_goal c now goal stamp s =
      if lt nought stamp && eq stamp s.last_succeeded_source_stamp
      then (s, [])
      else if lt (sub now s.last_sent_goal_time) c.goal_dedup_s
          && same_as goal s.last_sent_goal_pose
      then (s, [])
      else if is_some s.active_goal || is_some s.active_spin
      then (if same_as goal (active_pose s)
          then (s, [])
          else (record s { pending_goal = some (goal, stamp) }, cancel_active s))
      else send_goal c now goal stamp s

  -- The reset of the stamp, and of the orientation where the goal's yaw is ignored.
  unfoldable pub prepare_goal : Config F → Pose F → Pose F
  prepare_goal c goal = record goal {
    sec = nought;
    nanosec = nought;
    orientation =
        if c.ignore_goal_yaw
        then record { qx = nought; qy = nought; qz = nought; qw = decimal 1 0 }
        else goal.orientation;
  }

  unfoldable pub stamp_of : Pose F → F
  stamp_of goal = add goal.sec (div goal.nanosec (decimal 1000000000 0))

  unfoldable pub is_stale : Config F → F → F → Bool
  is_stale c now stamp = lt nought stamp && lt c.goal_fresh_s (sub now stamp)

  module _ ⦃lib : LibM F⦄ where
    -- `_on_goal`; `lookup` is the transform buffer, by the frame of the goal.
    unfoldable pub on_goal :
        Config F → (Frame → Option (Transform F)) → F → Pose F → Node F → Step F
    on_goal c lookup now msg s =
        let goal = record msg { frame = normal_frame msg.frame } in
        let stamp = stamp_of goal in
        if is_stale c now stamp
        then (
          record s {
            last_stale_goal_log =
                if lt (decimal 5 0) (sub now s.last_stale_goal_log)
                then now
                else s.last_stale_goal_log;
          },
          [],
        )
        else (elim (goal_in_frame (lookup goal.frame) goal map_frame) [
          | none ↦ (s, [])
          | some moved ↦ dispatch_goal c now (prepare_goal c moved) stamp s
        ])

    -- `_on_clicked_point`
    unfoldable pub on_clicked_point :
        Config F → (Frame → Option (Transform F)) → F → Pose F → Node F → Step F
    on_clicked_point c lookup now msg s =
        on_goal c lookup now
          (record msg {
            position = record { x = msg.position.x; y = msg.position.y; z = nought };
            orientation = record { qx = nought; qy = nought; qz = nought; qw = decimal 1 0 };
          })
          s

  abbrev pub cancel_of : Option Handle → List (Request F)
  cancel_of none = []
  cancel_of (some h) = cancel h ∷ []

  abbrev pub cancel_spin_of : Option Handle → List (Request F)
  cancel_spin_of none = []
  cancel_spin_of (some h) = cancel_spin h ∷ []

  -- `_on_cancel_navigation`
  unfoldable pub on_cancel_navigation : Bool → F → Node F → Step F
  on_cancel_navigation requested now s =
      if not requested
      then (record s { cancel_ignore_until = nought }, [])
      else if lt now s.cancel_ignore_until
      then (s, [])
      else (
        record s {
          pending_goal = none;
          active_goal = none;
          active_goal_pose = if is_some s.active_goal then none else s.active_goal_pose;
          active_spin = none;
          active_spin_goal_pose = if is_some s.active_spin then none else s.active_spin_goal_pose;
        },
        cancel_of s.active_goal ++ cancel_spin_of s.active_spin,
      )

  unfoldable pub on_feedback : Config F → F → Node F → Node F
  on_feedback c now s =
      let s' = record s { cancel_ignore_until = add now c.cancel_grace_s } in
      if lt (sub now s.last_feedback_log) (decimal 1 0)
      then s'
      else record s' { last_feedback_log = now }

  unfoldable pub on_goal_response : Config F → F → Response → Node F → Step F
  on_goal_response c now (accepted h) s = (
    record s { active_goal = some h; cancel_ignore_until = add now c.cancel_grace_s },
    await_result h ∷ [],
  )
  on_goal_response c now _ s = (s, [])
