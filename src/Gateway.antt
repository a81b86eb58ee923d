-- ===== src/Gateway.antt =====
-- host/g1_cmd_vel_bridge.py: the fail-closed gateway from Nav2's velocity topic to the Unitree SDK.
-- The constants, the messages and the command queue; each child module is one part of the file.
pub mod Bridge
pub mod Tick
pub mod Worker
pub mod System
pub mod Clamp
pub mod Bounds
pub mod Limits
pub mod Slew
pub mod BadInput
pub mod Follow
pub mod Governor
pub mod View
pub mod Refinement
pub mod Passive
pub mod FailClosed
pub mod Watchdog
pub mod Silence
use humanoid_navigation.Prelude.{ℕ, List, [], ◌∷◌, ltb, length, ◌++◌, if◌then◌else◌}
use humanoid_navigation.Double.{Double, nought}

module _ {F : Type 0} ⦃d : Double F⦄ where
  open d use {decimal}

  abbrev pub cmd_timeout_s : F
  cmd_timeout_s = decimal 30 2

  abbrev pub sdk_command_duration_s : F
  sdk_command_duration_s = decimal 20 2

  abbrev pub max_vx : F
  max_vx = decimal 20 2

  abbrev pub max_wz : F
  max_wz = decimal 20 2

  abbrev pub max_dvx_per_s : F
  max_dvx_per_s = decimal 10 2

  abbrev pub max_dwz_per_s : F
  max_dwz_per_s = decimal 20 2

  abbrev pub first_motion_s : F
  first_motion_s = decimal 30 1

  abbrev pub first_max_vx : F
  first_max_vx = decimal 20 2

  abbrev pub first_max_wz : F
  first_max_wz = decimal 20 2

  abbrev pub arm_settle_s : F
  arm_settle_s = decimal 10 1

  -- The longest time step that the slew limit counts.
  abbrev pub max_dt_s : F
  max_dt_s = decimal 25 2

-- The fields of `geometry_msgs/Twist`.
pub record Twist (F : Type 0) : Type 0 where
  pub linear_x : F
  pub linear_y : F
  pub linear_z : F
  pub angular_x : F
  pub angular_y : F
  pub angular_z : F

-- A pair (vx, wz) on the queue between the two processes.
abbrev pub Command : Type 0 → Type 0
Command F = F × F

-- `ctx.Queue(maxsize=2)`, oldest first.
abbrev pub queue_size : ℕ
queue_size = 2

module _ {A : Type 0} where
  -- `get_nowait` until `queue.Empty`.
  unfoldable pub drain : List A → List A
  drain [] = []
  drain (x ∷ q) = drain q

  -- `put_nowait`; `queue.Full` is swallowed.
  unfoldable pub put_nowait : List A → A → List A
  put_nowait q item = if ltb (length q) queue_size then q ++ item ∷ [] else q

  unfoldable pub put_latest : List A → A → List A
  unfolding drain put_nowait
  put_latest q item = put_nowait (drain q) item
