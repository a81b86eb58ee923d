-- ===== src/Navigation/Trace.antt =====
-- nav/g1_goal_to_nav.py over any order of its callbacks.
use humanoid_navigation.Prelude.{
  ◌≡◌, inl, inr, refl, Option, none, some, List, [], ◌∷◌, map, All, if_split,
}
use humanoid_navigation.Double.{Double, LibM, lt}
use humanoid_navigation.Navigation.{Pose}
use humanoid_navigation.Navigation.Node.{Node, Config, Request, init}
use humanoid_navigation.Navigation.Handlers.{
  Status, failed, Response, raised, rejected, accepted, on_map, on_clicked_point, on_cancel_done,
  on_spin_cancel_done, on_feedback, on_goal_response,
}
use humanoid_navigation.Navigation.Spinning.{on_spin_response, on_spin_feedback, on_spin_result}
use humanoid_navigation.Navigation.System.{
  Event, map_received, goal_received, point_clicked, cancel_received, goal_answered, goal_ended,
  goal_advanced, cancel_confirmed, spin_answered, spin_ended, spin_advanced, spin_cancel_confirmed,
  handle, fails, run,
}
use humanoid_navigation.Navigation.Origins.{
  Held, Past, nothing_yet, Pending, Justified, IsKnown, Keeps, add_handle, target,
}
use humanoid_navigation.Navigation.Steps.{
  send_pending-Keeps, on_goal-Keeps, on_cancel_navigation-Keeps, on_result-Keeps,
}

module _ {F : Type 0} ⦃d : Double F⦄ ⦃lib : LibM F⦄ (c : Config F) where
  -- A clicked point as a goal on the floor, with no turn.
  abbrev clicked : Pose F → Pose F
  clicked msg = record msg {
    position = record { x = msg.position.x; y = msg.position.y; z = d.decimal 0 0 };
    orientation = record {
      qx = d.decimal 0 0;
      qy = d.decimal 0 0;
      qz = d.decimal 0 0;
      qw = d.decimal 1 0;
    };
  }

  abbrev add_target : Option (Pose F) → List (Pose F) → List (Pose F)
  add_target none goals = goals
  add_target (some goal) goals = goal ∷ goals

  -- What an event adds to the past: a goal or a clicked point its pose in the map frame, if there is one, and
  -- the acceptance of a goal or of a spin its handle.
  abbrev pub note : Event F → Past F → Past F
  note (goal_received lookup now msg) past = record past {
    targets = add_target (target c lookup msg) past.targets;
  }
  note (point_clicked lookup now msg) past = record past {
    targets = add_target (target c lookup (clicked msg)) past.targets;
  }
  note (goal_answered now response) past = record past { goals = add_handle response past.goals }
  note (spin_answered now response stamp) past = record past {
    spins = add_handle response past.spins;
  }
  note _ past = past

  Held-later : {A : Type 0} (a : A) (xs : List A) (o : Option A) → Held xs o → Held (a ∷ xs) o
  Held-later a xs none h = tt
  Held-later a xs (some b) h = inr h

  Pending-later :
      (past : Past F) (goal : Pose F) (o : Option (Pose F × F))
      → Pending past o
      → Pending (record past { targets = goal ∷ past.targets }) o
  Pending-later past goal none h = tt
  Pending-later past goal (some (p, stamp)) h = inr h

  -- A goal that came up is held, and what was known stays known.
  targeted :
      (past : Past F) (s : Node F) (o : Option (Pose F))
      → IsKnown past s
      → Held (add_target o past.targets) o
        × IsKnown (record past { targets = add_target o past.targets }) s
  targeted past s none k = (tt, k)
  targeted past s (some goal) k = (
    inl refl,
    record {
      pending = Pending-later past goal s.pending_goal k.pending;
      goal = k.goal;
      turn = k.turn;
    },
  )

  goal_answered-Keeps :
      (now : F) (response : Response) (past : Past F) (s : Node F)
      → IsKnown past s
      → Keeps (note (goal_answered now response) past) (on_goal_response c now response s)
  unfolding on_goal_response
  goal_answered-Keeps now (accepted h) past s k = record {
    known = record {
      pending = same_pending s.pending_goal k.pending;
      goal = inl refl;
      turn = k.turn;
    };
    justified = (inl refl, tt);
  }
    where
      same_pending :
          (o : Option (Pose F × F))
          → Pending past o
          → Pending (record past { goals = h ∷ past.goals }) o
      same_pending none p = tt
      same_pending (some (goal, stamp)) p = p
  goal_answered-Keeps now raised past s k = record { known = k; justified = tt }
  goal_answered-Keeps now rejected past s k = record { known = k; justified = tt }

  spin_answered-Keeps :
      (now : F) (response : Response) (stamp : F) (past : Past F) (s : Node F)
      → IsKnown past s
      → Keeps
          (note (spin_answered now response stamp) past)
          (on_spin_response c now response stamp s)
  unfolding on_spin_response
  spin_answered-Keeps now (accepted h) stamp past s k = record {
    known = record {
      pending = same_pending s.pending_goal k.pending;
      goal = k.goal;
      turn = inl refl;
    };
    justified = (inl refl, tt);
  }
    where
      same_pending :
          (o : Option (Pose F × F))
          → Pending past o
          → Pending (record past { spins = h ∷ past.spins }) o
      same_pending none p = tt
      same_pending (some (goal, stamp)) p = p
  spin_answered-Keeps now raised stamp past s k = record {
    known = record { pending = k.pending; goal = k.goal; turn = k.turn };
    justified = tt;
  }
  spin_answered-Keeps now rejected stamp past s k = record {
    known = record { pending = k.pending; goal = k.goal; turn = k.turn };
    justified = tt;
  }

  spin_ended-Keeps :
      (now : F) (status : Status) (past : Past F) (s : Node F)
      → IsKnown past s
      → Keeps past (on_spin_result c now status s)
  unfolding on_spin_result
  spin_ended-Keeps now failed past s k = record {
    known = record { pending = k.pending; goal = k.goal; turn = tt };
    justified = tt;
  }
  spin_ended-Keeps now status past s k =
      send_pending-Keeps past c now _ (record { pending = k.pending; goal = k.goal; turn = tt })

  advanced-Keeps :
      (now : F) (past : Past F) (s : Node F) → IsKnown past s → Keeps past (on_feedback c now s, [])
  unfolding on_feedback
  advanced-Keeps now past s k =
      let same : IsKnown past (record s { cancel_ignore_until = d.add now c.cancel_grace_s }) =
        record { pending = k.pending; goal = k.goal; turn = k.turn } in
      record {
        known =
            if_split (IsKnown past) (lt (d.sub now s.last_feedback_log) (d.decimal 1 0)) _ _
              (λ soon. same) (λ late. record { pending = k.pending; goal = k.goal; turn = k.turn });
        justified = tt;
      }

  handle-Keeps :
      (e : Event F) (past : Past F) (s : Node F)
      → IsKnown past s
      → Keeps (note e past) (handle c e s)
  unfolding handle on_map on_feedback on_spin_feedback on_clicked_point on_cancel_done
      on_spin_cancel_done
  handle-Keeps (map_received m) past s k = record {
    known = record { pending = k.pending; goal = k.goal; turn = k.turn };
    justified = tt;
  }
  handle-Keeps (goal_received lookup now msg) past s k =
      let (seen, known) = targeted past s (target c lookup msg) k in
      on_goal-Keeps _ c lookup now msg s seen known
  handle-Keeps (point_clicked lookup now msg) past s k =
      let (seen, known) = targeted past s (target c lookup (clicked msg)) k in
      on_goal-Keeps _ c lookup now (clicked msg) s seen known
  handle-Keeps (cancel_received requested now) past s k =
      on_cancel_navigation-Keeps past c requested now s k
  handle-Keeps (goal_answered now response) past s k = goal_answered-Keeps now response past s k
  handle-Keeps (goal_ended env now status) past s k = on_result-Keeps past c env now status s k
  handle-Keeps (goal_advanced now) past s k = advanced-Keeps now past s k
  handle-Keeps (cancel_confirmed now) past s k =
      send_pending-Keeps past c now _ (record { pending = k.pending; goal = tt; turn = k.turn })
  handle-Keeps (spin_answered now response stamp) past s k =
      spin_answered-Keeps now response stamp past s k
  handle-Keeps (spin_ended now status) past s k = spin_ended-Keeps now status past s k
  handle-Keeps (spin_advanced now) past s k = record {
    known = record { pending = k.pending; goal = k.goal; turn = k.turn };
    justified = tt;
  }
  handle-Keeps (spin_cancel_confirmed now) past s k =
      send_pending-Keeps past c now _ (record { pending = k.pending; goal = k.goal; turn = tt })

  -- The requests at the events, each against the past up to its event.
  pub IsTraced : Past F → List (Event F) → List (List (Request F)) → Type 0
  IsTraced past [] outs = outs ≡ []
  IsTraced past (e ∷ es) [] = ⊥
  IsTraced past (e ∷ es) (out ∷ outs) =
      All (Justified (note e past)) out × IsTraced (note e past) es outs

  ended-IsTraced :
      (es : List (Event F)) (past : Past F) → IsTraced past es (map (λ (dead : Event F). []) es)
  unfolding IsTraced
  ended-IsTraced [] past = refl
  ended-IsTraced (e ∷ es) past = (tt, ended-IsTraced es (note e past))

  run_from :
      (es : List (Event F)) (past : Past F) (s : Node F)
      → IsKnown past s
      → IsTraced past es (run c es s)
  unfolding run IsTraced
  run_from [] past s k = refl
  run_from (e ∷ es) past s k =
      let kept = handle-Keeps e past s k in
      if_split (IsTraced past (e ∷ es)) (fails c e s) _ _
        (λ ends. (tt, ended-IsTraced es (note e past)))
        (λ goes_on. (kept.justified, run_from es (note e past) (handle c e s).0 kept.known))

  -- From the start, over any order of messages, answers, feedback and results: each goal that the node sends is
  -- one that was asked for by a message or a click, up to then, as its pose in the map frame made ready;
  -- and each handle whose result it awaits, or which it cancels, was given to it before by the server of
  -- its kind, for a goal or for a spin.
  pub run-IsTraced : (es : List (Event F)) → IsTraced nothing_yet es (run c es init)
  unfolding init
  run-IsTraced es = run_from es nothing_yet init (record { pending = tt; goal = tt; turn = tt })
