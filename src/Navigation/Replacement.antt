-- ===== src/Navigation/Replacement.antt =====
-- nav/g1_goal_to_nav.py: one goal replaces another, a reached goal is replayed, and the final heading
-- spin at the end of a goal.
use humanoid_navigation.Prelude.{
  ◌≡◌, ◌⊎◌, refl, sym, ap, ◌∙◌, Bool, true, false, ◌&&◌, not, Option, none, some, [], ◌∷◌, arith,
  inl, inr, Option-cases, Bool-cases,
}
use mathlib.Core.Bool.{false≢true}
use mathlib.Core.Option.{some-injective}
use humanoid_navigation.Double.{Double, LibM, nought, lt, le, eq, py_abs}
use humanoid_navigation.Navigation.{Pose}
use humanoid_navigation.Navigation.Geometry.{yaw_from_quaternion, angle_diff}
use humanoid_navigation.Navigation.Node.{
  Node, Config, Handle, navigate, cancel_then_send, spin, same_goal,
}
use humanoid_navigation.Navigation.Handlers.{
  Status, succeeded, accepted, send_goal, send_pending, on_cancel_done, active_pose, dispatch_goal,
  on_goal_response,
}
use humanoid_navigation.Navigation.Spinning.{
  Surroundings, current_heading_yaw, send_final_spin_if_needed, on_result,
}

module _ {F : Type 0} ⦃d : Double F⦄ where
  open d use {add, sub}

  -- While the goal that was sent last is active, a click elsewhere that has not the stamp of the
  -- last reached goal cancels that goal, and once the cancellation is confirmed the clicked goal,
  -- and no other, is sent.
  pub replacement_sends :
      (c : Config F) (now later : F) (goal : Pose F) (stamp : F) (h : Handle) (old : Pose F)
      (s : Node F)
      → s.active_goal ≡ some h
      → s.active_goal_pose ≡ some old
      → s.last_sent_goal_pose ≡ some old
      → same_goal goal old ≡ false
      → eq stamp s.last_succeeded_source_stamp ≡ false
      → let (waiting, asked) = dispatch_goal c now goal stamp s in
        let (sent, requests) = on_cancel_done c later waiting in
        (asked ≡ cancel_then_send h ∷ [])
        × (requests ≡ navigate goal ∷ [])
        × (sent.pending_goal ≡ none)
        × (sent.active_goal ≡ none)
        × (sent.active_goal_pose ≡ some goal)
        × (sent.active_goal_source_stamp ≡ stamp)
  unfolding dispatch_goal on_cancel_done send_pending send_goal active_pose
  replacement_sends c now later goal stamp h old s active pose last elsewhere new = ground arith

  module _ ⦃lib : LibM F⦄ where
    -- The spin's request touches neither the reached stamp nor the goal's own pose.
    pub spin-keeps :
        (c : Config F) (env : Surroundings F) (now : F) (pose : Option (Pose F)) (stamp : F)
        (s : Node F)
        → let next = (send_final_spin_if_needed c env now pose stamp s).1 in
          (next.last_succeeded_source_stamp ≡ s.last_succeeded_source_stamp)
          × (next.active_goal_pose ≡ s.active_goal_pose)
    unfolding send_final_spin_if_needed
    spin-keeps c env now none stamp s = (refl, refl)
    spin-keeps c env now (some goal) stamp s = ground arith

    on_result-erases :
        (c : Config F) (env : Surroundings F) (now : F) (status : Status) (s : Node F)
        → (on_result c env now status s).0.active_goal_pose ≡ none
    unfolding on_result
    on_result-erases c env now succeeded s =
        (spin-keeps c env now s.active_goal_pose s.active_goal_source_stamp _).1
    on_result-erases c env now _ s = refl

    no_pose-no_spin :
        (c : Config F) (env : Surroundings F) (now : F) (s : Node F)
        → s.active_goal_pose ≡ none
        → (on_result c env now succeeded s).1 ≡ []
    unfolding on_result send_final_spin_if_needed
    no_pose-no_spin c env now s e = rw (e, send_final_spin_if_needed) refl

    pub on_result-stamp :
        (c : Config F) (env : Surroundings F) (now : F) (s : Node F)
        → (on_result c env now succeeded s).0.last_succeeded_source_stamp
          ≡ s.active_goal_source_stamp
    unfolding on_result
    on_result-stamp c env now s =
        (spin-keeps c env now s.active_goal_pose s.active_goal_source_stamp _).0

    pub replay_refused :
        (c : Config F) (now : F) (goal : Pose F) (stamp : F) (s : Node F)
        → lt nought stamp ≡ true
        → s.last_succeeded_source_stamp ≡ stamp
        → dispatch_goal c now goal stamp s ≡ (s, [])
    unfolding dispatch_goal
    replay_refused c now goal stamp s positive same = ground arith

    -- What the final spin rests on.
    pub record NeedsSpin (c : Config F) (env : Surroundings F) (goal : Pose F) (yaw : F)
        : Type 0 where
      pub yaw_kept : c.ignore_goal_yaw ≡ false
      pub spin_wanted : c.final_spin_to_goal_yaw ≡ true
      pub heading_known : current_heading_yaw c env ≡ some yaw
      pub off_target :
          le
            (py_abs (angle_diff (yaw_from_quaternion goal.orientation) yaw))
            c.final_yaw_tolerance_rad
          ≡ false
      pub server_ready : env.spin_server_ready ≡ true

    spin_cases :
        (c : Config F) (env : Surroundings F) (now : F) (goal : Pose F) (stamp : F) (s : Node F)
        → let requests = (send_final_spin_if_needed c env now (some goal) stamp s).2 in
          (requests ≡ []) × ¬ ((yaw : F) × NeedsSpin c env goal yaw)
          ⊎ ((yaw : F) × NeedsSpin c env goal yaw
              × (requests
                  ≡ spin (angle_diff (yaw_from_quaternion goal.orientation) yaw) stamp ∷ []))
    unfolding send_final_spin_if_needed
    spin_cases c env now goal stamp s = elim (Option-cases (current_heading_yaw c env)) [
      | inl e ↦ inl (ground arith, λ n. no_heading e n.1.heading_known)
      | inr (yaw, e) ↦
          elim (Bool-cases (
            not c.ignore_goal_yaw
            && (c.final_spin_to_goal_yaw
                && (not (
                      le (py_abs (angle_diff (yaw_from_quaternion goal.orientation) yaw))
                        c.final_yaw_tolerance_rad)
                    && env.spin_server_ready)))) [
                      | inl all ↦ inr (
                        yaw,
                        record {
                          yaw_kept = ground arith;
                          spin_wanted = ground arith;
                          heading_known = e;
                          off_target = ground arith;
                          server_ready = ground arith;
                        },
                        ground arith,
                      )
                      | inr some_fails ↦ inl (
                        ground arith,
                        λ n.
                            fails n.0 n.1 (some-injective _ _ (sym n.1.heading_known ∙ e))
                              some_fails,
                      )
                    ]
    ]
      where
        no_heading : {o : Option F} {yaw : F} → o ≡ none → o ≡ some yaw → ⊥
        no_heading p q = cc

        off : F → Bool
        off yaw =
            le (py_abs (angle_diff (yaw_from_quaternion goal.orientation) yaw))
              c.final_yaw_tolerance_rad

        chain :
            {a b x y : Bool}
            → a ≡ true
            → b ≡ true
            → x ≡ true
            → y ≡ true
            → (a && (b && (x && y))) ≡ true
        chain p q r t = ground arith

        fails :
            {yaw : F} (other : F)
            → NeedsSpin c env goal other
            → other ≡ yaw
            → (not c.ignore_goal_yaw
                && (c.final_spin_to_goal_yaw && (not (off yaw) && env.spin_server_ready)))
              ≡ false
            → ⊥
        fails other n q h = false≢true (
            sym h
            ∙ chain (ap not n.yaw_kept) n.spin_wanted (ap not (ap off (sym q) ∙ n.off_target))
                n.server_ready)

    -- After a goal that succeeded and whose pose is stored, either a spin by the remaining yaw
    -- error is requested, all of whose conditions hold, or nothing is requested.
    pub on_result-spin :
        (c : Config F) (env : Surroundings F) (now : F) (goal : Pose F) (s : Node F)
        → s.active_goal_pose ≡ some goal
        → ((on_result c env now succeeded s).1 ≡ []) × ¬ ((yaw : F) × NeedsSpin c env goal yaw)
          ⊎ ((yaw : F) × NeedsSpin c env goal yaw
              × ((on_result c env now succeeded s).1
                  ≡ spin
                      (angle_diff (yaw_from_quaternion goal.orientation) yaw)
                      s.active_goal_source_stamp
                    ∷ []))
    unfolding on_result
    on_result-spin c env now goal s e =
        rw e (spin_cases c env now goal s.active_goal_source_stamp _)

    -- The result of a replaced goal that arrives after its successor was sent, and before the server
    -- has accepted it, erases the successor's pose: when the successor then succeeds, no final spin
    -- is requested, whatever its heading is.
    pub late_result_loses_heading :
        (c : Config F) (env : Surroundings F) (t u v : F) (status : Status) (h : Handle)
        (s : Node F)
        → let after_old = (on_result c env t status s).0 in
          let running = (on_goal_response c u (accepted h) after_old).0 in
          (on_result c env v succeeded running).1 ≡ []
    unfolding on_goal_response
    late_result_loses_heading c env t u v status h s =
        no_pose-no_spin c env v _ (on_result-erases c env t status s)
