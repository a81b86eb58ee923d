-- ===== src/Planning/Trace.antt =====
-- nav/g1_goal_to_plan.py over any order of its callbacks.
use humanoid_navigation.Prelude.{
  In, ◌≡◌, inl, refl, sym, ◌∙◌, Bool, true, false, Option, none, some, List, [], ◌∷◌, ◌++◌, All,
  All-append, if◌then◌else◌, if_split,
}
use humanoid_navigation.Navigation.{Pose, map_frame, eq_frame, lstrip}
use humanoid_navigation.Navigation.Node.{Handle}
use humanoid_navigation.Navigation.Handlers.{raised, rejected, accepted}
use humanoid_navigation.Navigation.Origins.{Held, add_handle}
use humanoid_navigation.Planning.{
  Route, Request, compute_path, await_path, publish_plan, follow, await_preview, cancel_preview,
  Planner, init, on_map, in_frame, on_goal, on_goal_response, cancel_of, start_preview, on_result,
  on_preview_goal_response, on_preview_result,
}
use humanoid_navigation.Planning.System.{
  Event, map_received, goal_received, goal_answered, path_ended, preview_answered, preview_ended,
  handle, run,
}

-- Whether a map has come, and the handles that the planner and the controller gave.
pub record Past : Type 0 where
  pub mapped : Bool
  pub plans : List Handle
  pub previews : List Handle

abbrev pub nothing_yet : Past
nothing_yet = record { mapped = false; plans = []; previews = [] }

record IsKnown (past : Past) (s : Planner) : Type 0 where
  mapped : s.map_ready ≡ past.mapped
  preview : Held past.previews s.controller_goal

module _ {F : Type 0} where
  abbrev pub note : Event F → Past → Past
  note map_received past = record past { mapped = true }
  note (goal_answered response) past = record past { plans = add_handle response past.plans }
  note (preview_answered response) past = record past {
    previews = add_handle response past.previews;
  }
  note _ past = past

  -- A path of the planner, with a pose at least, that is given the map's frame.
  abbrev IsPlanOf : Event F → Route F → Type 0
  IsPlanOf (path_ended ready (some (true, route))) plan =
      (plan ≡ in_frame map_frame route)
      × (p : Pose F) × (rest : List (Pose F)) × (route.poses ≡ p ∷ rest)
  IsPlanOf _ plan = ⊥

  -- The controller has answered that it is ready.
  abbrev IsReady : Event F → Type 0
  IsReady (path_ended true result) = Unit
  IsReady _ = ⊥

  abbrev IsGoalOf : Event F → Pose F → Type 0
  IsGoalOf (goal_received msg) goal =
      (goal ≡ record msg { frame = map_frame }) × (eq_frame (lstrip msg.frame) map_frame ≡ true)
  IsGoalOf _ goal = ⊥

  -- What each request at an event rests on.
  abbrev pub Justified : Past → Event F → Request F → Type 0
  Justified past e (compute_path goal) = (past.mapped ≡ true) × IsGoalOf e goal
  Justified past e (await_path h) = In h past.plans
  Justified past e (publish_plan plan) = IsPlanOf e plan
  Justified past e (follow plan) = IsReady e × IsPlanOf e plan
  Justified past e (await_preview h) = In h past.previews
  Justified past e (cancel_preview h) = In h past.previews

  record Keeps (past : Past) (e : Event F) (t : Planner × List (Request F)) : Type 0 where
    known : IsKnown past t.0
    justified : All (Justified past e) t.1

  module _ (past : Past) (s : Planner) (k : IsKnown past s) where
    goal-All : (goal : Pose F) → All (Justified past (goal_received goal)) (on_goal goal s)
    unfolding on_goal
    goal-All goal =
        if_split (All (Justified past (goal_received goal))) s.map_ready _ _
          (λ ready.
            if_split (All (Justified past (goal_received goal)))
              (eq_frame (lstrip goal.frame) map_frame) _ _
              (λ there. ((sym k.mapped ∙ ready, (refl, there)), tt)) (λ elsewhere. tt))
          (λ unready. tt)

    module _ (ready : Bool) (route : Route F) where
      cancel_of-All :
          (e : Event F) (o : Option Handle)
          → Held past.previews o
          → All (Justified past e) (cancel_of o)
      cancel_of-All e none h = tt
      cancel_of-All e (some a) h = (h, tt)

      plan-Keeps :
          (p : Pose F) (rest : List (Pose F))
          → route.poses ≡ p ∷ rest
          → let next = start_preview ready (in_frame map_frame route) s in
            Keeps past
              (path_ended ready (some (true, route)))
              (next.0, publish_plan (in_frame map_frame route) ∷ next.1)
      unfolding start_preview
      plan-Keeps p rest e = of_ready ready
        where
          of_ready :
              (b : Bool)
              → let next : Planner × List (Request F) =
                  if b
                  then (
                    record s { controller_goal = none },
                    cancel_of s.controller_goal ++ follow (in_frame map_frame route) ∷ [],
                  )
                  else (s, []) in
                Keeps past
                  (path_ended b (some (true, route)))
                  (next.0, publish_plan (in_frame map_frame route) ∷ next.1)
          of_ready true = record {
            known = record { mapped = k.mapped; preview = tt };
            justified = (
              (refl, p, rest, e),
              All-append (Justified past (path_ended true (some (true, route))))
                  (cancel_of s.controller_goal) (follow (in_frame map_frame route) ∷ [])
                  (cancel_of-All (path_ended true (some (true, route))) s.controller_goal k.preview)
                  ((tt, (refl, p, rest, e)), tt),
            );
          }
          of_ready false = record { known = k; justified = ((refl, p, rest, e), tt) }

    result-Keeps :
        (ready : Bool) (result : Option (Bool × Route F))
        → Keeps past (path_ended ready result) (on_result ready result s)
    unfolding on_result
    result-Keeps ready none = record { known = k; justified = tt }
    result-Keeps ready (some (succeeded, route)) = of_poses succeeded route.poses refl
      where
        of_poses :
            (b : Bool) (poses : List (Pose F))
            → route.poses ≡ poses
            → Keeps past (path_ended ready (some (b, route))) (elim poses [
              | [] ↦ (s, [])
              | p ∷ poses ↦
                  let plan = in_frame map_frame route in
                  let next = start_preview ready plan s in
                  if b then (next.0, publish_plan plan ∷ next.1) else (s, [])
            ])
        of_poses b [] e = record { known = k; justified = tt }
        of_poses true (p ∷ rest) e = plan-Keeps ready route p rest e
        of_poses false (p ∷ rest) e = record { known = k; justified = tt }

    handle-Keeps : (e : Event F) → Keeps (note e past) e (handle e s)
    unfolding handle on_map on_goal_response on_preview_goal_response on_preview_result
    handle-Keeps map_received = record {
      known = record { mapped = refl; preview = k.preview };
      justified = tt;
    }
    handle-Keeps (goal_received goal) = record { known = k; justified = goal-All goal }
    handle-Keeps (goal_answered (accepted h)) = record {
      known = record { mapped = k.mapped; preview = k.preview };
      justified = (inl refl, tt);
    }
    handle-Keeps (goal_answered raised) = record {
      known = record { mapped = k.mapped; preview = k.preview };
      justified = tt;
    }
    handle-Keeps (goal_answered rejected) = record {
      known = record { mapped = k.mapped; preview = k.preview };
      justified = tt;
    }
    handle-Keeps (path_ended ready result) = result-Keeps ready result
    handle-Keeps (preview_answered (accepted h)) = record {
      known = record { mapped = k.mapped; preview = inl refl };
      justified = (inl refl, tt);
    }
    handle-Keeps (preview_answered raised) = record {
      known = record { mapped = k.mapped; preview = k.preview };
      justified = tt;
    }
    handle-Keeps (preview_answered rejected) = record {
      known = record { mapped = k.mapped; preview = k.preview };
      justified = tt;
    }
    handle-Keeps preview_ended = record {
      known = record { mapped = k.mapped; preview = tt };
      justified = tt;
    }

  -- The requests at the events, each against its event and the past up to it.
  pub IsRequested : Past → List (Event F) → List (List (Request F)) → Type 0
  IsRequested past [] outs = outs ≡ []
  IsRequested past (e ∷ es) [] = ⊥
  IsRequested past (e ∷ es) (out ∷ outs) =
      All (Justified (note e past) e) out × IsRequested (note e past) es outs

  run_from :
      (es : List (Event F)) (past : Past) (s : Planner)
      → IsKnown past s
      → IsRequested past es (run es s)
  unfolding run IsRequested
  run_from [] past s k = refl
  run_from (e ∷ es) past s k =
      let kept = handle-Keeps past s k e in
      (kept.justified, run_from es (note e past) (handle e s).0 kept.known)

  -- From the start, over any order of callbacks: a path is computed only after a map has come, and for a goal
  -- that came in the map frame; a plan that is published or handed to the controller is the path of the
  -- planner's success at that event, with a pose at least and the map frame throughout, and is handed
  -- over only where the controller is ready; and each action that the node awaits or cancels was
  -- accepted before by the planner or the controller.
  pub run-IsRequested : (es : List (Event F)) → IsRequested nothing_yet es (run es init)
  unfolding init
  run-IsRequested es = run_from es nothing_yet init (record { mapped = refl; preview = tt })
