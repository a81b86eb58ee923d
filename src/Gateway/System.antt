-- ===== src/Gateway/System.antt =====
-- host/g1_cmd_vel_bridge.py as a whole: the ROS process and the SDK process, with the queue and the
-- stop event between them, as interleaved events. `main` starts both and shuts both down.
use humanoid_navigation.Prelude.{ℕ, Bool, true, false, Option, List, [], ◌∷◌, ◌++◌, if◌then◌else◌}
use humanoid_navigation.Double.{Double, LibM, nought}
use humanoid_navigation.Gateway.{Twist, Command, drain, put_latest}
use humanoid_navigation.Gateway.Bridge.{Bridge, Odometry, init, on_cmd, on_odom}
use humanoid_navigation.Gateway.Tick.{tick}
use humanoid_navigation.Gateway.Worker.{Worker, Call, start, turn}

pub data Event (F : Type 0) : Type 0 where
  -- a velocity message, at a reading of the clock
  command : F → Twist F → Event F
  odometry : Odometry F → Event F
  -- the control timer, at a reading of the clock, with the presence of the arm token
  timer : F → Bool → Event F
  -- a turn of the worker: two readings of the clock, and what `SetVelocity` returns
  work : F → F → Option ℕ → Event F
  -- the end of `rclpy.spin`
  shutdown : Event F
  -- `sdk_process.terminate()`, which `main` calls after the stop event only
  terminate : Event F

pub record System (F : Type 0) : Type 0 where
  pub bridge : Bridge F
  pub queue : List (Command F)
  pub worker : Worker F
  pub stop : Bool
  -- every call of `SetVelocity` so far, oldest first
  pub sent : List (Call F)

module _ {F : Type 0} ⦃d : Double F⦄ where
  -- Both processes started, at a reading of each clock.
  unfoldable pub boot : F → F → System F
  boot ros sdk = record {
    bridge = init ros;
    queue = [];
    worker = start sdk;
    stop = false;
    sent = [];
  }

  module _ ⦃m : LibM F⦄ where
    -- A callback of the ROS process; none runs after `rclpy.spin` has ended.
    unfoldable pub spin : System F → System F → System F
    spin s next = if s.stop then s else next

    unfoldable pub on_timer : F → Bool → System F → System F
    on_timer now armed s =
        let (bridge, out) = tick now armed s.bridge in
        record s { bridge = bridge; queue = put_latest s.queue out.command }

    unfoldable pub on_work : F → F → Option ℕ → System F → System F
    on_work rx check code s =
        let (worker, calls, _) = turn s.stop s.queue rx check code s.worker in
        record s {
          worker = worker;
          queue = if s.worker.running then (if s.stop then s.queue else drain s.queue) else s.queue;
          sent = s.sent ++ calls;
        }

    unfoldable pub step : System F → Event F → System F
    step s (command now msg) = spin s (record s { bridge = on_cmd now msg s.bridge })
    step s (odometry o) = spin s (record s { bridge = (on_odom o s.bridge).0 })
    step s (timer now armed) = spin s (on_timer now armed s)
    step s (work rx check code) = on_work rx check code s
    step s shutdown = record s { queue = put_latest s.queue (nought, nought); stop = true }
    step s terminate =
        if s.stop then record s { worker = record (s.worker) { running = false } } else s

    unfoldable pub run : System F → List (Event F) → System F
    run s [] = s
    run s (e ∷ es) = run (step s e) es
