-- ===== src/Navigation/Goals.antt =====
-- nav/g1_goal_to_nav.py: what each handler promises of a goal, a cancellation and the map.
use mathlib.Core.Option.{some-ne-none}
use humanoid_navigation.Prelude.{
  sym, ap, ℕ, ◌+◌, ◌*◌, ◌<◌, ◌≡◌, ◌⊎◌, true, false, none, some, [], ◌∷◌, arith,
}
use humanoid_navigation.Prelude.Int.{ℤ, pos, negsuc}
use humanoid_navigation.Double.{Double, nought, lt}
use humanoid_navigation.Navigation.{Pose}
use humanoid_navigation.Navigation.Node.{
  Node, Config, Handle, navigate, cancel_then_send, cancel_spin_then_send, same_goal, cell_in,
}
use humanoid_navigation.Navigation.Handlers.{
  send_goal, dispatch_goal, on_cancel_navigation, on_feedback,
}

index_in_grid : (r c w h : ℕ) → r < h → c < w → r * w + c < h * w
index_in_grid r c w h p q = grind arith

-- The cell is that of the column and the row, which are in the grid.
pub record IsCell (i j : ℤ) (w h col row index : ℕ) : Type 0 where
  pub column : i ≡ pos col
  pub line : j ≡ pos row
  pub in_columns : col < w
  pub in_lines : row < h
  pub row_by_row : index ≡ row * w + col
  pub in_cells : index < h * w

cell_at :
    (a b w h : ℕ) {col row index : ℕ}
    → cell_in (pos a) (pos b) w h ≡ some (col, row, index)
    → (a ≡ col) × (b ≡ row) × (col < w) × (row < h) × (index ≡ row * w + col) × (index < h * w)
unfolding cell_in
cell_at a b w h e = ground (arith, index_in_grid b a w h)

pub cell_in-IsCell :
    (i j : ℤ) (w h : ℕ) {col row index : ℕ}
    → cell_in i j w h ≡ some (col, row, index)
    → IsCell i j w h col row index
unfolding cell_in
cell_in-IsCell (pos a) (pos b) w h e =
    let (same_a, same_b, p, q, r, t) = cell_at a b w h e in
    record {
      column = ap pos same_a;
      line = ap pos same_b;
      in_columns = p;
      in_lines = q;
      row_by_row = r;
      in_cells = t;
    }
cell_in-IsCell (pos a) (negsuc b) w h e = absurd (some-ne-none _ (sym e))
cell_in-IsCell (negsuc a) j w h e = absurd (some-ne-none _ (sym e))

module _ {F : Type 0} ⦃d : Double F⦄ where
  open d use {add, sub}

  -- A goal that reaches the decision makes at most one request, and it is sent to the action server
  -- only while no goal and no spin is active.
  pub dispatch_goal-one_active :
      (c : Config F) (now : F) (goal : Pose F) (stamp : F) (s : Node F)
      → ((dispatch_goal c now goal stamp s).1 ≡ [])
        ⊎ ((dispatch_goal c now goal stamp s).1 ≡ navigate goal ∷ [])
          × (s.active_goal ≡ none)
          × (s.active_spin ≡ none)
          × ((dispatch_goal c now goal stamp s).0.active_goal_pose ≡ some goal)
        ⊎ ((h : Handle) × ((dispatch_goal c now goal stamp s).1 ≡ cancel_then_send h ∷ [])
            × (s.active_goal ≡ some h)
            × ((dispatch_goal c now goal stamp s).0.pending_goal ≡ some (goal, stamp)))
        ⊎ ((h : Handle) × ((dispatch_goal c now goal stamp s).1 ≡ cancel_spin_then_send h ∷ [])
            × (s.active_goal ≡ none)
            × (s.active_spin ≡ some h)
            × ((dispatch_goal c now goal stamp s).0.pending_goal ≡ some (goal, stamp)))
  unfolding dispatch_goal send_goal
  dispatch_goal-one_active c now goal stamp s = ground arith

  -- Feedback keeps the goal: at a time that is not before 0, a cancellation within the grace
  -- period after it changes nothing, until a message that withdraws the cancellation ends the
  -- period.
  pub on_feedback-grace :
      (c : Config F) (t now : F) (s : Node F)
      → lt now (add t c.cancel_grace_s) ≡ true
      → lt now nought ≡ false
      → (on_cancel_navigation true now (on_feedback c t s) ≡ (on_feedback c t s, []))
        × ((on_cancel_navigation true now
              (on_cancel_navigation false now (on_feedback c t s)).0).0.active_goal
            ≡ none)
  unfolding on_cancel_navigation on_feedback
  on_feedback-grace c t now s h z = ground arith

  -- A goal that was sent is not sent again: within the duplicate window a goal at the same place
  -- changes nothing and asks for nothing, whatever is active at that time.
  pub send_goal-dedup :
      (c : Config F) (t now : F) (goal again : Pose F) (stamp other : F) (s : Node F)
      → lt (sub now t) c.goal_dedup_s ≡ true
      → same_goal again goal ≡ true
      → let sent = (send_goal c t goal stamp s).0 in
        dispatch_goal c now again other sent ≡ (sent, [])
  unfolding dispatch_goal send_goal
  send_goal-dedup c t now goal again stamp other s soon same = ground arith
