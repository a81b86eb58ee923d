-- ===== src/Navigation/Steps.antt =====
-- The handlers of nav/g1_goal_to_nav.py, each against what the node was asked and given before.
use humanoid_navigation.Prelude.{
  In, Bool, false, ◌&&◌, ◌||◌, not, Option, none, some, List, [], ◌∷◌, All, All-append, if_split,
  option_split, is_some,
}
use humanoid_navigation.Double.{Double, LibM, nought, lt, le, eq, py_abs}
use humanoid_navigation.Navigation.{Frame, Pose, Transform, map_frame}
use humanoid_navigation.Navigation.Geometry.{goal_in_frame, yaw_from_quaternion, angle_diff}
use humanoid_navigation.Navigation.Node.{
  Node, Config, Request, Handle, cancel_then_send, cancel_spin_then_send,
}
use humanoid_navigation.Navigation.Handlers.{
  Status, succeeded, normal_frame, prepare_goal, stamp_of, is_stale, same_as, active_pose,
  cancel_active, send_goal, send_pending, dispatch_goal, on_goal, on_cancel_navigation, cancel_of,
  cancel_spin_of,
}
use humanoid_navigation.Navigation.Spinning.{
  Surroundings, send_final_spin_if_needed, current_heading_yaw, on_result,
}
use humanoid_navigation.Navigation.Origins.{Held, Past, Pending, Justified, IsKnown, Keeps, target}

module _ {F : Type 0} where
  module _ ⦃d : Double F⦄ (past : Past F) (c : Config F) where
    pub send_goal-Keeps :
        (now : F) (goal : Pose F) (stamp : F) (s : Node F)
        → In goal past.targets
        → IsKnown past s
        → Keeps past (send_goal c now goal stamp s)
    unfolding send_goal
    send_goal-Keeps now goal stamp s seen k = record {
      known = record { pending = k.pending; goal = k.goal; turn = k.turn };
      justified = (seen, tt);
    }

    pub send_pending-Keeps :
        (now : F) (s : Node F) → IsKnown past s → Keeps past (send_pending c now s)
    unfolding send_pending
    send_pending-Keeps now s k = of_pending s.pending_goal k.pending
      where
        of_pending :
            (o : Option (Pose F × F))
            → Pending past o
            → Keeps past (elim o [
              | none ↦ (s, [])
              | some (goal, stamp) ↦ send_goal c now goal stamp (record s { pending_goal = none })
            ])
        of_pending none h = record { known = k; justified = tt }
        of_pending (some (goal, stamp)) h =
            send_goal-Keeps now goal stamp (record s { pending_goal = none }) h
              (record { pending = tt; goal = k.goal; turn = k.turn })

    cancel_active-All : (s : Node F) → IsKnown past s → All (Justified past) (cancel_active s)
    cancel_active-All s k = of_handles s.active_goal s.active_spin k.goal k.turn
      where
        of_handles :
            (g : Option Handle) (t : Option Handle)
            → Held past.goals g
            → Held past.spins t
            → All (Justified past) (elim g [
              | some h ↦ cancel_then_send h ∷ []
              | none ↦ (elim t [ some h ↦ cancel_spin_then_send h ∷ [] | none ↦ [] ])
            ])
        of_handles (some h) t p q = (p, tt)
        of_handles none (some h) p q = (q, tt)
        of_handles none none p q = tt

    pub dispatch_goal-Keeps :
        (now : F) (goal : Pose F) (stamp : F) (s : Node F)
        → In goal past.targets
        → IsKnown past s
        → Keeps past (dispatch_goal c now goal stamp s)
    unfolding dispatch_goal
    dispatch_goal-Keeps now goal stamp s seen k =
        let stays : Keeps past (s, []) = record { known = k; justified = tt } in
        if_split (Keeps past) (lt nought stamp && eq stamp s.last_succeeded_source_stamp) _ _
          (λ replay. stays)
          (λ fresh.
            if_split (Keeps past)
              (lt (d.sub now s.last_sent_goal_time) c.goal_dedup_s
                && same_as goal s.last_sent_goal_pose)
              _ _ (λ again. stays)
              (λ new.
                if_split (Keeps past) (is_some s.active_goal || is_some s.active_spin) _ _
                  (λ busy.
                    if_split (Keeps past) (same_as goal (active_pose s)) _ _ (λ there. stays)
                      (λ elsewhere. record {
                        known = record { pending = seen; goal = k.goal; turn = k.turn };
                        justified = cancel_active-All s k;
                      }))
                  (λ idle. send_goal-Keeps now goal stamp s seen k)))

    pub on_cancel_navigation-Keeps :
        (requested : Bool) (now : F) (s : Node F)
        → IsKnown past s
        → Keeps past (on_cancel_navigation requested now s)
    unfolding on_cancel_navigation
    on_cancel_navigation-Keeps requested now s k =
        if_split (Keeps past) (not requested) _ _
          (λ withdrawn. record {
            known = record { pending = k.pending; goal = k.goal; turn = k.turn };
            justified = tt;
          })
          (λ asked.
            if_split (Keeps past) (lt now s.cancel_ignore_until) _ _
              (λ grace. record { known = k; justified = tt })
              (λ late. record {
                known = record { pending = tt; goal = tt; turn = tt };
                justified =
                    All-append (Justified past) _ _ (cancels s.active_goal k.goal)
                      (cancels_spin s.active_spin k.turn);
              }))
      where
        cancels : (o : Option Handle) → Held past.goals o → All (Justified past) (cancel_of o)
        cancels none h = tt
        cancels (some a) h = (h, tt)

        cancels_spin :
            (o : Option Handle) → Held past.spins o → All (Justified past) (cancel_spin_of o)
        cancels_spin none h = tt
        cancels_spin (some a) h = (h, tt)

    module _ ⦃lib : LibM F⦄ where
      pub on_goal-Keeps :
          (lookup : Frame → Option (Transform F)) (now : F) (msg : Pose F) (s : Node F)
          → Held past.targets (target c lookup msg)
          → IsKnown past s
          → Keeps past (on_goal c lookup now msg s)
      unfolding on_goal
      on_goal-Keeps lookup now msg s seen k =
          let goal = record msg { frame = normal_frame msg.frame } in
          if_split (Keeps past) (is_stale c now (stamp_of goal)) _ _
            (λ stale. record {
              known = record { pending = k.pending; goal = k.goal; turn = k.turn };
              justified = tt;
            })
            (λ fresh.
              of_moved (stamp_of goal) (goal_in_frame (lookup goal.frame) goal map_frame) seen)
        where
          of_moved :
              (stamp : F) (o : Option (Pose F))
              → Held past.targets
                  (elim o [ none ↦ none | some moved ↦ some (prepare_goal c moved) ])
              → Keeps past (elim o [
                | none ↦ (s, [])
                | some moved ↦ dispatch_goal c now (prepare_goal c moved) stamp s
              ])
          of_moved stamp none h = record { known = k; justified = tt }
          of_moved stamp (some moved) h = dispatch_goal-Keeps now (prepare_goal c moved) stamp s h k

      -- The final spin leaves the handles and the pending goal alone.
      Spins : Bool × Node F × List (Request F) → Type 0
      Spins t = Keeps past (t.1, t.2)

      send_final_spin-Keeps :
          (env : Surroundings F) (now : F) (pose : Option (Pose F)) (stamp : F) (s : Node F)
          → IsKnown past s
          → Spins (send_final_spin_if_needed c env now pose stamp s)
      unfolding send_final_spin_if_needed Spins
      send_final_spin-Keeps env now none stamp s k = record { known = k; justified = tt }
      send_final_spin-Keeps env now (some goal) stamp s k =
          let stays : Spins (false, s, []) = record { known = k; justified = tt } in
          if_split Spins (c.ignore_goal_yaw || not c.final_spin_to_goal_yaw) _ _ (λ off. stays)
            (λ on. option_split Spins (current_heading_yaw c env) _ _ stays (λ current.
              if_split Spins
                (le (py_abs (angle_diff (yaw_from_quaternion goal.orientation) current))
                  c.final_yaw_tolerance_rad)
                _ _ (λ aligned. stays)
                (λ turned.
                  if_split Spins (not env.spin_server_ready) _ _ (λ away. stays)
                    (λ ready. record {
                      known = record { pending = k.pending; goal = k.goal; turn = k.turn };
                      justified = (tt, tt);
                    }))))

      pub on_result-Keeps :
          (env : Surroundings F) (now : F) (status : Status) (s : Node F)
          → IsKnown past s
          → Keeps past (on_result c env now status s)
      unfolding on_result Spins
      on_result-Keeps env now succeeded s k =
          send_final_spin-Keeps env now s.active_goal_pose s.active_goal_source_stamp _
            (record { pending = k.pending; goal = tt; turn = k.turn })
      on_result-Keeps env now status s k = record {
        known = record { pending = k.pending; goal = tt; turn = k.turn };
        justified = tt;
      }
