-- ===== src/Navigation/Afterwards.antt =====
-- nav/g1_goal_to_nav.py: what stays true over the events that follow a cancellation or a reached goal.
use mathlib.Core.Path.{subst}
use mathlib.Core.Bool.{false≢true}
use humanoid_navigation.Prelude.{
  if_split, if◌then◌else◌, ◌||◌, not, sym, ◌≡◌, refl, Bool, true, false, Option, none, some, List,
  [], ◌∷◌, ◌++◌, map, All, arith,
}
use humanoid_navigation.Double.{Double, LibM, lt, le, py_abs}
use humanoid_navigation.Navigation.{Pose}
use humanoid_navigation.Navigation.Geometry.{yaw_from_quaternion, angle_diff}
use humanoid_navigation.Navigation.Node.{Node, Config, Handle, Request, navigate}
use humanoid_navigation.Navigation.Handlers.{
  Step, Status, succeeded, failed, accepted, on_map, on_goal_response, send_pending, on_cancel_done,
  on_spin_cancel_done, on_cancel_navigation, on_feedback, cancel_of, cancel_spin_of,
}
use humanoid_navigation.Navigation.Spinning.{
  Surroundings, current_heading_yaw, send_final_spin_if_needed, on_result, on_spin_response,
  on_spin_feedback, on_spin_result,
}
use humanoid_navigation.Navigation.System.{
  Event, map_received, goal_received, point_clicked, cancel_received, goal_answered, goal_ended,
  goal_advanced, cancel_confirmed, spin_answered, spin_ended, spin_advanced, spin_cancel_confirmed,
  handle, fails, run,
}

-- An event that asks for a goal.
abbrev pub asks : {F : Type 0} → Event F → Bool
asks (goal_received lookup now msg) = true
asks (point_clicked lookup now msg) = true
asks _ = false

-- The result of a goal that has been reached.
abbrev pub reaches : {F : Type 0} → Event F → Bool
reaches (goal_ended env now succeeded) = true
reaches _ = false

abbrev pub is_navigate : {F : Type 0} → Request F → Bool
is_navigate (navigate goal) = true
is_navigate _ = false

-- No goal is sent.
abbrev pub SendsNone : {F : Type 0} → List (Request F) → Type 0
SendsNone requests = All (λ r. is_navigate r ≡ false) requests

if_not_split {ℓ} :
    {A : Type 0} (P : A → Type ℓ) (b : Bool) (x y : A) → b ≡ false → P y → P (if b then x else y)
if_not_split P true x y h p = absurd (false≢true (sym h))
if_not_split P false x y h p = p

option_split {ℓ} :
    {A B : Type 0} (P : B → Type ℓ) (o : Option A) (x : B) (f : A → B)
    → P x
    → ((a : A) → P (f a))
    → P (elim o [ none ↦ x | some a ↦ f a ])
option_split P none x f p q = p
option_split P (some a) x f p q = q a

cancel_of-SendsNone :
    (F : Type 0)
    → ⦃d : Double F⦄ → (goal turn : Option Handle)
    → SendsNone {F = F} (cancel_of goal ++ cancel_spin_of turn)
cancel_of-SendsNone F none none = tt
cancel_of-SendsNone F none (some h) = (refl, tt)
cancel_of-SendsNone F (some g) none = (refl, tt)
cancel_of-SendsNone F (some g) (some h) = (refl, (refl, tt))

module _ {F : Type 0} where
  ended-SendsNone :
      (es : List (Event F)) → All (SendsNone {F = F}) (map (λ (dead : Event F). []) es)
  ended-SendsNone [] = tt
  ended-SendsNone (e ∷ es) = (tt, ended-SendsNone es)

module _ {F : Type 0} ⦃d : Double F⦄ where
  -- Nothing is pending, and no goal is sent.
  abbrev IsQuiet : Step F → Type 0
  IsQuiet (s, requests) = (s.pending_goal ≡ none) × SendsNone requests

  nothing_pending :
      (c : Config F) (now : F) (s : Node F) → s.pending_goal ≡ none → send_pending c now s ≡ (s, [])
  unfolding send_pending
  nothing_pending c now s idle = ground arith

  send_pending-IsQuiet :
      (c : Config F) (now : F) (s : Node F) → s.pending_goal ≡ none → IsQuiet (send_pending c now s)
  send_pending-IsQuiet c now s idle = subst IsQuiet (sym (nothing_pending c now s idle)) (idle, tt)

  cancel-IsQuiet :
      (requested : Bool) (now : F) (s : Node F)
      → s.pending_goal ≡ none
      → IsQuiet (on_cancel_navigation requested now s)
  unfolding on_cancel_navigation
  cancel-IsQuiet false now s idle = (idle, tt)
  cancel-IsQuiet true now s idle =
      if_split IsQuiet (lt now s.cancel_ignore_until) _ _ (λ ignored. (idle, tt))
        (λ heard. (refl, cancel_of-SendsNone F s.active_goal s.active_spin))

  module _ ⦃lib : LibM F⦄ (c : Config F) where
    spin-IsQuiet :
        (env : Surroundings F) (now : F) (pose : Option (Pose F)) (stamp : F) (s : Node F)
        → s.pending_goal ≡ none
        → let (spins, next, requests) = send_final_spin_if_needed c env now pose stamp s in
          (next.pending_goal ≡ none) × SendsNone requests
    unfolding send_final_spin_if_needed
    spin-IsQuiet env now none stamp s idle = (idle, tt)
    spin-IsQuiet env now (some goal) stamp s idle =
        if_split P (c.ignore_goal_yaw || not c.final_spin_to_goal_yaw) _ _ (λ fixed. (idle, tt))
          (λ turns.
            option_split P (current_heading_yaw c env) _ _ (idle, tt)
              (λ current.
                if_split P
                  (le (py_abs (angle_diff (yaw_from_quaternion goal.orientation) current))
                    c.final_yaw_tolerance_rad)
                  _ _ (λ near. (idle, tt))
                  (λ far.
                    if_split P (not env.spin_server_ready) _ _ (λ down. (idle, tt))
                      (λ up. (idle, (refl, tt))))))
      where
        P : Bool × Node F × List (Request F) → Type 0
        P (spins, next, requests) = (next.pending_goal ≡ none) × SendsNone requests

    result-IsQuiet :
        (env : Surroundings F) (now : F) (status : Status) (s : Node F)
        → s.pending_goal ≡ none
        → IsQuiet (on_result c env now status s)
    unfolding on_result
    result-IsQuiet env now succeeded s idle =
        spin-IsQuiet env now s.active_goal_pose s.active_goal_source_stamp _ idle
    result-IsQuiet env now _ s idle = (idle, tt)

    spin_result-IsQuiet :
        (now : F) (status : Status) (s : Node F)
        → s.pending_goal ≡ none
        → IsQuiet (on_spin_result c now status s)
    unfolding on_spin_result
    spin_result-IsQuiet now failed s idle = (idle, tt)
    spin_result-IsQuiet now _ s idle = send_pending-IsQuiet c now _ idle

    handle-IsQuiet :
        (e : Event F) (s : Node F) → asks e ≡ false → s.pending_goal ≡ none → IsQuiet (handle c e s)
    unfolding handle on_map on_feedback on_spin_feedback on_goal_response on_spin_response
        on_cancel_done on_spin_cancel_done
    handle-IsQuiet (map_received m) s other idle = (idle, tt)
    handle-IsQuiet (goal_received lookup now msg) s other idle = absurd (false≢true (sym other))
    handle-IsQuiet (point_clicked lookup now msg) s other idle = absurd (false≢true (sym other))
    handle-IsQuiet (cancel_received requested now) s other idle =
        cancel-IsQuiet requested now s idle
    handle-IsQuiet (goal_answered now (accepted h)) s other idle = (idle, (refl, tt))
    handle-IsQuiet (goal_answered now _) s other idle = (idle, tt)
    handle-IsQuiet (goal_ended env now status) s other idle = result-IsQuiet env now status s idle
    handle-IsQuiet (goal_advanced now) s other idle = (ground (arith, idle), tt)
    handle-IsQuiet (cancel_confirmed now) s other idle = send_pending-IsQuiet c now _ idle
    handle-IsQuiet (spin_answered now (accepted h) stamp) s other idle = (idle, (refl, tt))
    handle-IsQuiet (spin_answered now _ stamp) s other idle = (idle, tt)
    handle-IsQuiet (spin_ended now status) s other idle = spin_result-IsQuiet now status s idle
    handle-IsQuiet (spin_advanced now) s other idle = (idle, tt)
    handle-IsQuiet (spin_cancel_confirmed now) s other idle = send_pending-IsQuiet c now _ idle

    run-SendsNone :
        (es : List (Event F)) (s : Node F)
        → All (λ e. asks e ≡ false) es
        → s.pending_goal ≡ none
        → All SendsNone (run c es s)
    unfolding run
    run-SendsNone [] s others idle = tt
    run-SendsNone (e ∷ es) s (other, others) idle =
        let (still, none_sent) = handle-IsQuiet e s other idle in
        if_split (All SendsNone) (fails c e s) _ _ (λ ends. (tt, ended-SendsNone es))
          (λ goes_on. (none_sent, run-SendsNone es (handle c e s).0 others still))

    -- Outside the grace period a cancellation cancels each active handle, and leaves nothing active or
    -- pending. Until the next goal message or click, no event makes the node send a goal: neither a
    -- confirmation of this or an earlier cancellation, nor an answer, feedback or result that is late.
    pub on_cancel_navigation-stops :
        (now : F) (s : Node F) (es : List (Event F))
        → lt now s.cancel_ignore_until ≡ false
        → All (λ e. asks e ≡ false) es
        → let (t, requests) = on_cancel_navigation true now s in
          (t.active_goal ≡ none)
          × (t.active_spin ≡ none)
          × (t.pending_goal ≡ none)
          × (requests ≡ cancel_of s.active_goal ++ cancel_spin_of s.active_spin)
          × All SendsNone (run c es t)
    unfolding on_cancel_navigation
    on_cancel_navigation-stops now s es h others =
        if_not_split P (lt now s.cancel_ignore_until) _ _ h
          (refl, refl, refl, refl, run-SendsNone es _ others refl)
      where
        P : Step F → Type 0
        P (t, requests) =
            (t.active_goal ≡ none)
            × (t.active_spin ≡ none)
            × (t.pending_goal ≡ none)
            × (requests ≡ cancel_of s.active_goal ++ cancel_spin_of s.active_spin)
            × All SendsNone (run c es t)

    -- The state after all the events, or at the callback that raises.
    unfoldable pub after : List (Event F) → Node F → Node F
    after [] s = s
    after (e ∷ es) s = let next = after es (handle c e s).0 in if fails c e s then s else next
