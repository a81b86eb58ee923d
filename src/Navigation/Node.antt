-- ===== src/Navigation/Node.antt =====
-- The state of class `GoalToNav` of nav/g1_goal_to_nav.py, its requests to the action servers, its
-- constants and the occupancy map.
use humanoid_navigation.Prelude.{
  ℕ, ◌+◌, ◌*◌, Bool, ◌&&◌, ◌||◌, Option, none, some, List, if◌then◌else◌, leb,
}
use humanoid_navigation.Prelude.Int.{ℤ, pos, negsuc}
use humanoid_navigation.Prelude.Result.{
  Result, ok, raised, ◌>>=◌, value_error, overflow_error, zero_division_error,
}
use humanoid_navigation.Double.{Double, LibM, nought, lt, eq, is_finite, py_abs}
use humanoid_navigation.Navigation.{Frame, Pose, Quaternion, Point}
use humanoid_navigation.Navigation.Geometry.{yaw_from_quaternion}

-- A goal handle of the action client.
abbrev pub Handle : Type 0
Handle = ℕ

-- What the node asks of the two action clients.
pub data Request (F : Type 0) : Type 0 where
  -- `send_goal_async` with `_on_goal_response`
  navigate : Pose F → Request F
  -- `get_result_async` with `_on_result`
  await_result : Handle → Request F
  -- `cancel_goal_async` with `_on_cancel_done`
  cancel_then_send : Handle → Request F
  -- `cancel_goal_async` with no continuation
  cancel : Handle → Request F
  -- the same for the spin's client
  spin : F → F → Request F
  await_spin_result : Handle → Request F
  cancel_spin_then_send : Handle → Request F
  cancel_spin : Handle → Request F

-- `nav_msgs/OccupancyGrid`
pub record Map (F : Type 0) : Type 0 where
  pub frame : Frame
  pub resolution : F
  pub width : ℕ
  pub height : ℕ
  pub origin : Point F
  pub origin_orientation : Quaternion F
  pub cells : List ℤ

-- What the environment variables set.
pub record Config (F : Type 0) : Type 0 where
  pub goal_dedup_s : F
  pub goal_fresh_s : F
  pub cancel_grace_s : F
  pub final_spin_to_goal_yaw : Bool
  pub final_yaw_tolerance_rad : F
  pub ignore_goal_yaw : Bool
  pub final_heading_frame : Frame
  pub final_heading_fallback_frame : Frame

pub record Node (F : Type 0) : Type 0 where
  pub map : Option (Map F)
  pub active_goal : Option Handle
  pub active_goal_pose : Option (Pose F)
  pub active_spin : Option Handle
  pub active_spin_goal_pose : Option (Pose F)
  -- the pose and the source stamp; the summary is for the log only
  pub pending_goal : Option (Pose F × F)
  pub last_sent_goal_pose : Option (Pose F)
  pub last_sent_goal_time : F
  pub cancel_ignore_until : F
  pub active_goal_source_stamp : F
  pub last_succeeded_source_stamp : F
  pub last_feedback_log : F
  pub last_stale_goal_log : F

-- `col < 0 or row < 0 or col >= width or row >= height`, else the cell and its index.
unfoldable pub cell_in : ℤ → ℤ → ℕ → ℕ → Option (ℕ × ℕ × ℕ)
cell_in (pos col) (pos row) width height =
    if leb width col || leb height row then none else some (col, row, row * width + col)
cell_in _ _ width height = none

module _ {F : Type 0} ⦃d : Double F⦄ where
  open d use {is_nan, decimal, add, sub, mul, div, neg}

  unfoldable pub init : Node F
  init = record {
    map = none;
    active_goal = none;
    active_goal_pose = none;
    active_spin = none;
    active_spin_goal_pose = none;
    pending_goal = none;
    last_sent_goal_pose = none;
    last_sent_goal_time = nought;
    cancel_ignore_until = nought;
    active_goal_source_stamp = nought;
    last_succeeded_source_stamp = neg (decimal 1 0);
    last_feedback_log = nought;
    last_stale_goal_log = nought;
  }

  unfoldable pub same_goal : Pose F → Pose F → Bool
  same_goal a b =
      lt (py_abs (sub a.position.x b.position.x)) (decimal 5 2)
      && lt (py_abs (sub a.position.y b.position.y)) (decimal 5 2)

  module _ ⦃lib : LibM F⦄ where
    open lib use {sin, cos, floor}

    -- `int(math.floor(v / resolution))`: a division by zero raises, and so does the floor of a number that is
    -- not finite.
    unfoldable pub cells_across : F → F → Result ℤ
    cells_across resolution v =
        let q = div v resolution in
        if eq resolution nought
        then raised zero_division_error
        else if is_nan q
        then raised value_error
        else if is_finite q
        then ok (floor q)
        else raised overflow_error

    -- A point in the axes of the map: `map_x` and `map_y`.
    unfoldable pub map_x : Map F → F → F → F
    map_x m x y =
        let yaw = yaw_from_quaternion m.origin_orientation in
        sub (mul (cos (neg yaw)) (sub x m.origin.x)) (mul (sin (neg yaw)) (sub y m.origin.y))

    unfoldable pub map_y : Map F → F → F → F
    map_y m x y =
        let yaw = yaw_from_quaternion m.origin_orientation in
        add (mul (sin (neg yaw)) (sub x m.origin.x)) (mul (cos (neg yaw)) (sub y m.origin.y))

    unfoldable pub world_to_map_cell : Map F → F → F → Result (Option (ℕ × ℕ × ℕ))
    world_to_map_cell m x y = do
      col ← cells_across m.resolution (map_x m x y)
      row ← cells_across m.resolution (map_y m x y)
      ok (cell_in col row m.width m.height)

-- `_occupancy_name`
pub data Occupancy : Type 0 where
  unknown free occupied cost : Occupancy

unfoldable pub occupancy_name : ℤ → Occupancy
occupancy_name (negsuc n) = unknown
occupancy_name (pos value) = if leb value 0 then free else if leb 100 value then occupied else cost
