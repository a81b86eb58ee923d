-- ===== src/Navigation/Origins.antt =====
-- nav/g1_goal_to_nav.py: where the goals that the node sends and the handles that it cancels come from.
use humanoid_navigation.Prelude.{In, Option, none, some, List, [], ◌∷◌, All}
use humanoid_navigation.Double.{Double, LibM}
use humanoid_navigation.Navigation.{Frame, Pose, Transform, map_frame}
use humanoid_navigation.Navigation.Geometry.{goal_in_frame}
use humanoid_navigation.Navigation.Node.{
  Node, Config, Request, Handle, navigate, await_result, cancel_then_send, cancel, spin,
  await_spin_result, cancel_spin_then_send, cancel_spin,
}
use humanoid_navigation.Navigation.Handlers.{Response, accepted, Step, normal_frame, prepare_goal}

abbrev pub Held : {A : Type 0} → List A → Option A → Type 0
Held xs none = Unit
Held xs (some a) = In a xs

abbrev pub add_handle : Response → List Handle → List Handle
add_handle (accepted h) hs = h ∷ hs
add_handle _ hs = hs

-- The goals that were asked for, made ready in the map frame, and the handles of goals and of spins that the
-- servers gave.
pub record Past (F : Type 0) : Type 0 where
  pub targets : List (Pose F)
  pub goals : List Handle
  pub spins : List Handle

module _ {F : Type 0} where
  abbrev pub nothing_yet : Past F
  nothing_yet = record { targets = []; goals = []; spins = [] }

  abbrev pub Pending : Past F → Option (Pose F × F) → Type 0
  Pending past none = Unit
  Pending past (some (goal, stamp)) = In goal past.targets

  -- A request that names what came up before.
  abbrev pub Justified : Past F → Request F → Type 0
  Justified past (navigate goal) = In goal past.targets
  Justified past (await_result h) = In h past.goals
  Justified past (cancel_then_send h) = In h past.goals
  Justified past (cancel h) = In h past.goals
  Justified past (spin yaw stamp) = Unit
  Justified past (await_spin_result h) = In h past.spins
  Justified past (cancel_spin_then_send h) = In h past.spins
  Justified past (cancel_spin h) = In h past.spins

  pub record IsKnown (past : Past F) (s : Node F) : Type 0 where
    pub pending : Pending past s.pending_goal
    pub goal : Held past.goals s.active_goal
    pub turn : Held past.spins s.active_spin

  -- What a step keeps.
  pub record Keeps (past : Past F) (t : Step F) : Type 0 where
    pub known : IsKnown past t.0
    pub justified : All (Justified past) t.1

  module _ ⦃d : Double F⦄ ⦃lib : LibM F⦄ (c : Config F) where
    -- The goal that a message asks for, in the map frame.
    abbrev pub target : (Frame → Option (Transform F)) → Pose F → Option (Pose F)
    target lookup msg =
        let goal = record msg { frame = normal_frame msg.frame } in
        elim (goal_in_frame (lookup goal.frame) goal map_frame) [
          | none ↦ none
          | some moved ↦ some (prepare_goal c moved)
        ]
