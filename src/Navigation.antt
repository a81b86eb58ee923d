-- ===== src/Navigation.antt =====
-- nav/g1_goal_to_nav.py: clicks in Foxglove become NavigateToPose actions, with a final heading spin.
-- The messages that the node reads and the requests that it makes; each child module is one part.
pub mod Geometry
pub mod Node
pub mod Handlers
pub mod Spinning
pub mod Goals
pub mod Cells
pub mod System
pub mod Origins
pub mod Steps
pub mod Trace
pub mod Afterwards
pub mod Replacement
use humanoid_navigation.Prelude.{ℕ, Bool, true, false, ◌&&◌, List, [], ◌∷◌, ◌==◌, if◌then◌else◌}

-- The code points of a frame's name.
abbrev pub Frame : Type 0
Frame = List ℕ

abbrev pub map_frame : Frame
map_frame = b'm' ∷ b'a' ∷ b'p' ∷ []

abbrev pub eq_frame : Frame → Frame → Bool
eq_frame [] [] = true
eq_frame (a ∷ x) (b ∷ y) = a == b && eq_frame x y
eq_frame _ _ = false

-- `lstrip("/")`
unfoldable pub lstrip : Frame → Frame
lstrip [] = []
lstrip (c ∷ f) = let rest = lstrip f in if c == b'/' then rest else c ∷ f

pub record Quaternion (F : Type 0) : Type 0 where
  pub qx : F
  pub qy : F
  pub qz : F
  pub qw : F

pub record Point (F : Type 0) : Type 0 where
  pub x : F
  pub y : F
  pub z : F

-- `geometry_msgs/PoseStamped`; the two parts of the stamp as the numbers that they convert to.
pub record Pose (F : Type 0) : Type 0 where
  pub frame : Frame
  pub sec : F
  pub nanosec : F
  pub position : Point F
  pub orientation : Quaternion F

-- `geometry_msgs/TransformStamped`, without its header.
pub record Transform (F : Type 0) : Type 0 where
  pub translation : Point F
  pub rotation : Quaternion F
