-- ===== src/Lib.antt =====
-- The humanoid navigation stack: from a click in Foxglove to the velocity of the robot.
--
-- The nodes of the robot and two tools are modelled here, in these folders:
-- * host/g1_cmd_vel_bridge.py (Gateway): the fail-closed gateway from Nav2's velocity topic to the
--   Unitree SDK. Gateway/Bridge has the state of class `Bridge` with `on_cmd` and `on_odom`,
--   Gateway/Tick its `tick`, Gateway/Worker the process `sdk_worker`, and Gateway/System both
--   processes with the queue and the stop event, as `main` runs them: a list of events is one
--   interleaving. Gateway/Governor is a specification: one slot for the next command, and the moves
--   that are allowed; Gateway/View is what it sees of both processes. Gateway/Passive leaves the
--   odometry out.
-- * nav/g1_goal_to_nav.py (Navigation): the node that turns goals into NavigateToPose actions with
--   a final heading spin. Navigation/Geometry has the quaternions and frames, Navigation/Node the
--   state and the occupancy map, Navigation/Handlers and Navigation/Spinning one function per
--   callback of class `GoalToNav`, Navigation/Cells the summary of a goal's cell with its
--   exceptions, and Navigation/System the callbacks in any order until one raises
--   (Navigation/Afterwards those that follow a cancellation or a reached goal). A handler returns
--   the new state and the requests to the action servers.
-- * src/localizer.py (Localizer): the alignment of Fast-LIO's scans with a prebuilt map.
--   Localizer/Loading has the levelled map and `LocalizerNode.__init__`, Localizer/Icp the
--   alignment loops, Localizer/Search the search over yaw seeds (and Localizer/Whole the one over
--   the whole map), Localizer/Node the state of class `LocalizerNode` with its filters and its
--   local map (and Localizer/Cache what that is a part of), and Localizer/Tracking the timer:
--   `_first_localize`, `_track` and `_localize`. Localizer/Messages has what it receives and sends,
--   with stamps and frames. PointCloud has `pc2_to_xyz` and `xyz_to_pc2`, over the arrays of Bytes.
-- * nav/g1_goal_to_plan.py with nav/g1_path_frame_relay.py (Planning): the planning relay, one
--   function per callback of class `GoalToPlan`, and Planning/System these in any order.
-- * src/ransac_gravity_override.py (GravityOverride): the floor-aligned view of the same scans.
--   GravityOverride has the floor fit, GravityOverride/Node the state and the callback of class
--   `GravityOverride`, GravityOverride/Outcome its branches, GravityOverride/Lookup the wait for
--   Fast-LIO's transform, and GravityOverride/Main the process from its command line on.
-- * nav/g1_nav_pose_bridge.py and nav/g1_lidar_costmap_relay.py (PoseBridge): the planar frame with
--   its odometry, and the restamped scans.
-- * scripts/align_pcd_floor.py and scripts/make_nav2_map.py (MapTools): MapTools/Pcd and
--   MapTools/Load read a binary PCD file, MapTools/Align turns its cloud onto the floor,
--   MapTools/Grid makes the occupancy grid, MapTools/Make goes from the file to the image, and
--   MapTools/Outputs has what is written and printed besides. MapTools/Words, MapTools/Lines,
--   MapTools/Turns and MapTools/Reload compare how the two tools read the lines of one header;
--   MapTools/Chain and MapTools/Pipeline run the tools one after the other, and MapTools/Report
--   reads the image as Nav2 does.
-- The localizer's transform is what the frames of Navigation and of PoseBridge are looked up
-- through, and the gateway receives the velocities of the action that Navigation starts; the tools
-- make the map and the grid beforehand. The programs share no other state.
--
-- Floating-point numbers are a type with the operations of Double, no file of the repository has
-- them. What a theorem needs of IEEE-754 is the record `IsDouble` there, and Double/Fixed meets it;
-- a float32 is a parameter too, with `IsSingle` and `IsExact` of Bytes. Clock readings, transforms,
-- the codes of the SDK and the presence of the arm token are inputs. numpy, scipy and Open3D are
-- the records `Numerics`, `Rotations` and `Aligner` of Localizer, `FloorTools` of GravityOverride
-- and `GridTools` of MapTools/Grid; only the dilation of the last has a law. How Nav2 reads a
-- trinary map is a hypothesis of MapTools/Report. Python's exceptions are the values of
-- Prelude/Result. Most loops are over lists or over the iterations left. On fuel are the readers of
-- PCD files, with one turn for each byte of the file and one more, since each line has a byte; and
-- the wait of GravityOverride/Lookup, with one round for each nanosecond of the time-out and one
-- more, since the clock advances.
--
-- Not modelled: the texts of logs and the formats of numbers and of image files, the declaration of
-- ROS parameters and the start-up of the processes but for that of src/ransac_gravity_override.py,
-- launch files, and the copies of other projects.
--
-- Examples has the theorems at concrete inputs.
pub mod Prelude
pub mod Double
pub mod Bytes
pub mod Gateway
pub mod Navigation
pub mod Planning
pub mod Localizer
pub mod GravityOverride
pub mod PointCloud
pub mod MapTools
pub mod PoseBridge
pub mod Examples
