-- ===== src/Planning/Preview.antt =====
-- The previews of nav/g1_goal_to_plan.py: what a plan asks for, and which preview it ends.
use humanoid_navigation.Prelude.{
  ◌≡◌, refl, Bool, true, false, Option, none, some, List, [], ◌∷◌, map, All, if◌then◌else◌,
}
use humanoid_navigation.Navigation.{Frame, Pose, map_frame, lstrip}
use humanoid_navigation.Navigation.Node.{Handle}
use humanoid_navigation.Navigation.Handlers.{accepted}
use humanoid_navigation.Planning.{
  Route, Request, publish_plan, follow, cancel_preview, Planner, in_frame, start_preview,
  on_preview_goal_response, on_preview_result, on_path,
}

list_split {ℓ} :
    {A B : Type 0} (P : B → Type ℓ) (l : List A) (x : B) (f : A → List A → B)
    → P x
    → ((a : A) (rest : List A) → P (f a rest))
    → P (elim l [ [] ↦ x | a ∷ rest ↦ f a rest ])
list_split P [] x f p q = p
list_split P (a ∷ rest) x f p q = q a rest

if_split {ℓ} :
    {A : Type 0} (P : A → Type ℓ) (b : Bool) (x y : A) → P x → P y → P (if b then x else y)
if_split P true x y p q = p
if_split P false x y p q = q

module _ {F : Type 0} where
  -- The header of a route and all its poses have the frame.
  pub record IsIn (f : Frame) (route : Route F) : Type 0 where
    pub header : route.frame ≡ f
    pub each : All (λ (p : Pose F). p.frame ≡ f) route.poses

  map-IsIn :
      (f : Frame) (poses : List (Pose F))
      → All (λ (p : Pose F). p.frame ≡ f) (map (λ (p : Pose F). record p { frame = f }) poses)
  map-IsIn f [] = tt
  map-IsIn f (p ∷ poses) = (refl, map-IsIn f poses)

  in_frame-IsIn : (f : Frame) (route : Route F) → IsIn f (in_frame f route)
  unfolding in_frame
  in_frame-IsIn f route = record { header = refl; each = map-IsIn f route.poses }

  -- The path relay gives every pose the frame of the header.
  pub on_path-IsIn : (route : Route F) → IsIn (on_path route).frame (on_path route)
  unfolding on_path in_frame
  on_path-IsIn route =
      list_split (λ (r : Route F). IsIn r.frame r) (lstrip route.frame) _ _
        (in_frame-IsIn map_frame route) (λ c f. in_frame-IsIn (c ∷ f) route)

  -- The result of the planner is a path that has poses.
  pub data IsPath : Option (Bool × Route F) → Route F → Type 0 where
    path_found :
        {route : Route F} (first : Pose F) (rest : List (Pose F))
        → route.poses ≡ first ∷ rest
        → IsPath (some (true, route)) route

  -- What a result of the planner leads to: nothing, only if it is no path; else the path, set to the
  -- map frame, is published, with a preview that replaces the one that is known to run if the
  -- controller is ready.
  pub data Planned (ready : Bool) (outcome : Option (Bool × Route F)) (s : Planner)
      : Planner × List (Request F) → Type 0 where
    nothing_planned : ((route : Route F) → ¬ IsPath outcome route) → Planned ready outcome s (s, [])
    only_shown :
        (route : Route F)
        → IsPath outcome route
        → ready ≡ false
        → Planned ready outcome s (s, publish_plan (in_frame map_frame route) ∷ [])
    first_preview :
        (route : Route F)
        → IsPath outcome route
        → ready ≡ true
        → s.controller_goal ≡ none
        → Planned ready outcome s (
          record s { controller_goal = none },
          publish_plan (in_frame map_frame route) ∷ follow (in_frame map_frame route) ∷ [],
        )
    next_preview :
        (route : Route F)
        → IsPath outcome route
        → ready ≡ true
        → (h : Handle) → s.controller_goal ≡ some h
        → Planned ready outcome s (
          record s { controller_goal = none },
          publish_plan (in_frame map_frame route)
              ∷ cancel_preview h
              ∷ follow (in_frame map_frame route)
              ∷ [],
        )

  -- The result of a cancelled preview that arrives after its successor was accepted makes the node
  -- forget the successor: the next plan goes to the controller without a cancellation of the preview
  -- that still runs.
  pub late_result_forgets_preview :
      (h : Handle) (route : Route F) (s : Planner)
      → let running = (on_preview_goal_response {F = F} (accepted h) s).0 in
        (running.controller_goal ≡ some h)
        × ((start_preview true route (on_preview_result running)).1 ≡ follow route ∷ [])
        × ((start_preview true route running).1 ≡ cancel_preview h ∷ follow route ∷ [])
  unfolding on_preview_goal_response on_preview_result start_preview
  late_result_forgets_preview h route s = (refl, refl, refl)
