-- ===== src/Navigation/Cells.antt =====
-- `_map_cell_summary` of nav/g1_goal_to_nav.py: what the log says of the cell of a goal.
use mathlib.Core.Path.{subst}
use mathlib.Core.Option.{some-ne-none}
use humanoid_navigation.Prelude.{
  ℕ, zero, suc, ◌+◌, ◌*◌, ◌<◌, ◌≡◌, refl, sym, ap, ap₂, ◌∙◌, true, false, Option, none, some, List,
  [], ◌∷◌, length, if◌then◌else◌, if_split, arith,
}
use humanoid_navigation.Prelude.Int.{ℤ, pos}
use humanoid_navigation.Double.{Double, LibM, nought, eq, is_finite}
use humanoid_navigation.Prelude.Result.{
  Fault, Result, ok, raised, ◌>>=◌, nth, value_error, overflow_error, zero_division_error,
}
use humanoid_navigation.Navigation.{Frame, Pose, eq_frame}
use humanoid_navigation.Navigation.Node.{
  Map, Occupancy, occupancy_name, cell_in, cells_across, map_x, map_y, world_to_map_cell,
}
use humanoid_navigation.Navigation.Goals.{cell_in-IsCell}

-- The texts of the summary, with what they name.
pub data Summary : Type 0 where
  no_map_received : Summary
  frame_mismatch : Frame → Frame → Summary
  outside_map : Summary
  -- the column, the row, the value and its name
  in_map : ℕ → ℕ → ℤ → Occupancy → Summary

nth-ok : {A : Type 0} (xs : List A) (i : ℕ) → i < length xs → (x : A) × (nth xs i ≡ ok x)
unfolding nth
nth-ok [] i below = absurd (omega arith)
nth-ok (x ∷ xs) zero below = (x, refl)
nth-ok (x ∷ xs) (suc i) below = nth-ok xs i (omega arith)

cell_in-inside :
    (col row w h : ℕ)
    → col < w
    → row < h
    → cell_in (pos col) (pos row) w h ≡ some (col, row, row * w + col)
unfolding cell_in
cell_in-inside col row w h p q = ground arith

in_grid_found :
    (i j : ℤ) (w h : ℕ)
    → (col row : ℕ) × (i ≡ pos col) × (j ≡ pos row) × (col < w) × (row < h)
    → cell_in i j w h ≡ none
    → ⊥
in_grid_found i j w h (col, row, same_i, same_j, p, q) missed = some-ne-none _ (
    sym (cell_in-inside col row w h p q)
    ∙ (ap₂ (λ a b. cell_in a b w h) (sym same_i) (sym same_j) ∙ missed))

module _ {F : Type 0} ⦃d : Double F⦄ ⦃lib : LibM F⦄ where
  open d use {is_nan, div}
  open lib use {floor}

  unfoldable pub cell_summary : Map F → Option (ℕ × ℕ × ℕ) → Result Summary
  cell_summary m none = ok outside_map
  cell_summary m (some (col, row, index)) =
      nth m.cells index >>= λ value. ok (in_map col row value (occupancy_name value))

  unfoldable pub map_cell_summary : Option (Map F) → Pose F → Result Summary
  map_cell_summary none goal = ok no_map_received
  map_cell_summary (some m) goal =
      if eq_frame goal.frame m.frame
      then world_to_map_cell m goal.position.x goal.position.y >>= cell_summary m
      else ok (frame_mismatch goal.frame m.frame)

  -- The map has a value for each of its cells.
  abbrev pub IsFull : Map F → Type 0
  IsFull m = length m.cells ≡ m.height * m.width

  abbrev pub IsKnown : Option (Map F) → Type 0
  IsKnown none = Unit
  IsKnown (some m) = IsFull m

  -- The number of cells in a distance along an axis, by the quotient, or the exception instead.
  pub data Counts (resolution v : F) : Result ℤ → Type 0 where
    counted :
        eq resolution nought ≡ false
        → is_finite (div v resolution) ≡ true
        → Counts resolution v (ok (floor (div v resolution)))
    by_zero : eq resolution nought ≡ true → Counts resolution v (raised zero_division_error)
    unordered :
        eq resolution nought ≡ false
        → is_nan (div v resolution) ≡ true
        → Counts resolution v (raised value_error)
    unbounded :
        eq resolution nought ≡ false
        → is_nan (div v resolution) ≡ false
        → is_finite (div v resolution) ≡ false
        → Counts resolution v (raised overflow_error)

  cells_across-Counts : (resolution v : F) → Counts resolution v (cells_across resolution v)
  unfolding cells_across
  cells_across-Counts resolution v =
      let q = div v resolution in
      if_split (Counts resolution v) (eq resolution nought) _ _ by_zero (λ divides.
        if_split (Counts resolution v) (is_nan q) _ _ (λ no_number. unordered divides no_number)
          (λ number.
            if_split (Counts resolution v) (is_finite q) _ _ (λ bounded. counted divides bounded)
              (λ endless. unbounded divides number endless)))

  -- What becomes of a goal's summary, on each of its branches.
  pub data Says (goal : Pose F) : Option (Map F) → Result Summary → Type 0 where
    unmapped : Says goal none (ok no_map_received)
    elsewhere :
        {m : Map F} (other : eq_frame goal.frame m.frame ≡ false)
        → Says goal (some m) (ok (frame_mismatch goal.frame m.frame))
    fails_across :
        {m : Map F} {fault : Fault}
        → eq_frame goal.frame m.frame ≡ true
        → Counts m.resolution (map_x m goal.position.x goal.position.y) (raised fault)
        → Says goal (some m) (raised fault)
    fails_along :
        {m : Map F} {fault : Fault} {i : ℤ}
        → eq_frame goal.frame m.frame ≡ true
        → Counts m.resolution (map_x m goal.position.x goal.position.y) (ok i)
        → Counts m.resolution (map_y m goal.position.x goal.position.y) (raised fault)
        → Says goal (some m) (raised fault)
    outside :
        {m : Map F} {i j : ℤ}
        → eq_frame goal.frame m.frame ≡ true
        → Counts m.resolution (map_x m goal.position.x goal.position.y) (ok i)
        → Counts m.resolution (map_y m goal.position.x goal.position.y) (ok j)
        → ¬ ((col row : ℕ) × (i ≡ pos col) × (j ≡ pos row) × (col < m.width) × (row < m.height))
        → Says goal (some m) (ok outside_map)
    inside :
        {m : Map F} {col row : ℕ} {value : ℤ}
        → eq_frame goal.frame m.frame ≡ true
        → Counts m.resolution (map_x m goal.position.x goal.position.y) (ok (pos col))
        → Counts m.resolution (map_y m goal.position.x goal.position.y) (ok (pos row))
        → col < m.width
        → row < m.height
        → nth m.cells (row * m.width + col) ≡ ok value
        → Says goal (some m) (ok (in_map col row value (occupancy_name value)))

  cell_summary-Says :
      (m : Map F) (goal : Pose F) (i j : ℤ) (cell : Option (ℕ × ℕ × ℕ))
      → IsFull m
      → eq_frame goal.frame m.frame ≡ true
      → Counts m.resolution (map_x m goal.position.x goal.position.y) (ok i)
      → Counts m.resolution (map_y m goal.position.x goal.position.y) (ok j)
      → cell_in i j m.width m.height ≡ cell
      → Says goal (some m) (cell_summary m cell)
  unfolding cell_summary
  cell_summary-Says m goal i j none full same across along found =
      outside same across along (λ h. in_grid_found i j m.width m.height h found)
  cell_summary-Says m goal i j (some (col, row, index)) full same across along found =
      let k = cell_in-IsCell i j m.width m.height found in
      let (value, read) = nth-ok m.cells index (omega (arith, full, k.in_cells)) in
      subst (Says goal (some m))
        (sym (ap (λ r. r >>= λ v. ok (in_map col row v (occupancy_name v))) read))
        (inside same
          (subst (λ n. Counts m.resolution (map_x m goal.position.x goal.position.y) (ok n))
            k.column across)
          (subst (λ n. Counts m.resolution (map_y m goal.position.x goal.position.y) (ok n)) k.line
            along)
          k.in_columns k.in_lines (ap (nth m.cells) (sym k.row_by_row) ∙ read))

  Counts-Says :
      (m : Map F) (goal : Pose F) (across along : Result ℤ)
      → IsFull m
      → eq_frame goal.frame m.frame ≡ true
      → Counts m.resolution (map_x m goal.position.x goal.position.y) across
      → Counts m.resolution (map_y m goal.position.x goal.position.y) along
      → Says goal
          (some m)
          (across >>= (λ i. along >>= λ j. ok (cell_in i j m.width m.height)) >>= cell_summary m)
  Counts-Says m goal (raised fault) along full same p q = fails_across same p
  Counts-Says m goal (ok i) (raised fault) full same p q = fails_along same p q
  Counts-Says m goal (ok i) (ok j) full same p q =
      cell_summary-Says m goal i j (cell_in i j m.width m.height) full same p q refl

  -- Without a map, and with a map that has a value for each of its cells: the summary of a goal says that
  -- there is no map, that the goal is in another frame, that the goal is outside of the grid, or the
  -- column and the row of the goal's cell, which are in the grid, with the value that the map has
  -- there, row by row, and its name. Or it raises: ZeroDivisionError if the resolution is zero, and
  -- else, by the first of the two quotients that is not finite, ValueError for NaN and OverflowError
  -- for an infinity.
  pub map_cell_summary-Says :
      (m : Option (Map F)) (goal : Pose F) → IsKnown m → Says goal m (map_cell_summary m goal)
  unfolding map_cell_summary world_to_map_cell
  map_cell_summary-Says none goal known = unmapped
  map_cell_summary-Says (some m) goal full =
      if_split (Says goal (some m)) (eq_frame goal.frame m.frame) _ _
        (λ same.
          Counts-Says m goal _ _ full same
            (cells_across-Counts m.resolution (map_x m goal.position.x goal.position.y))
            (cells_across-Counts m.resolution (map_y m goal.position.x goal.position.y)))
        elsewhere
