-- ===== src/Examples/Starts.antt =====
-- src/localizer.py: its theorems from the start of the node, at a concrete map and messages.
use humanoid_navigation.Prelude.{All, ◌≡◌, refl, false, none, some, replicate, codes, List, [], ◌∷◌}
use humanoid_navigation.Prelude.Int.{pos}
use humanoid_navigation.Double.{nought}
use humanoid_navigation.Double.Fixed.{Fixed, fixed_double, fixed_libm}
use humanoid_navigation.Localizer.{Cloud}
use humanoid_navigation.Localizer.Node.{Localizer, masked, prepare, in_height_range}
use humanoid_navigation.GravityOverride.{FloorTools}
use humanoid_navigation.Localizer.Loading.{
  Angles, InitialPose, hint_to_matrix, gravity_align_floor, kalman_init, boot,
}
use humanoid_navigation.Localizer.Cache.{IsCurrent, run-IsCurrent}
use humanoid_navigation.Localizer.Start.{HasStarted, run-HasStarted}
use humanoid_navigation.Localizer.Messages.{Outfit, Incoming, scan, odom, tick, serve}
use humanoid_navigation.Localizer.Stamps.{IsTimed, serve-IsTimed}
use humanoid_navigation.Localizer.Wire.{IsSound, serve-IsSound}
use humanoid_navigation.PointCloud.{PointCloud2, xyz_to_pc2}
use humanoid_navigation.Examples.Clouds.{whole, whole-IsSingle, wide}
use humanoid_navigation.Localizer.Frozen.{run}
use humanoid_navigation.Examples.Poses.{
  sec, fixed_numerics, fixed_rotations, fixed_aligner, settings, waiting, corner, events,
}

-- A ceiling half a metre above, found with its normal downward.
instance abbrev ceiling_tools : FloorTools Fixed
ceiling_tools = record {
  segment_plane = λ limit pts.
      (record { x = nought; y = nought; z = fixed_double.neg sec }, some (pos 5_000), 200);
  angle_deg = λ z. nought;
  as_quat = λ m. record { qx = nought; qy = nought; qz = nought; qw = sec };
}

abbrev map_points : Cloud Fixed
map_points = replicate 210 corner

abbrev angles : Angles Fixed Fixed
angles = record {
  rot_of_euler_deg = λ roll pitch yaw. yaw;
  quat_of = λ r. record { qx = nought; qy = nought; qz = r; qw = sec };
  deg2rad = λ a. a;
}

abbrev hint : InitialPose Fixed
hint = record {
  x = sec;
  y = nought;
  z = nought;
  roll = nought;
  pitch = nought;
  yaw = some (pos 900_000);
}

abbrev started : Localizer Fixed Fixed (Cloud Fixed)
started = record waiting {
  map_cam = hint_to_matrix angles hint;
  published = hint_to_matrix angles hint;
  filters = record {
    kf_x = kalman_init nought sec sec;
    kf_y = kalman_init nought sec nought;
    kf_z = kalman_init nought sec nought;
    kf_yaw = kalman_init nought sec (some (pos 900_000));
  };
  target =
      prepare fixed_aligner settings.voxel_map
        (masked in_height_range (gravity_align_floor map_points).0);
  full_map = (gravity_align_floor map_points).0;
  cam_to_world = none;
  floor_z_world = nought;
  lost_count = 0;
  map_published = false;
}

boot_starts : boot settings angles nought sec hint (codes "/data/map.ply") map_points ≡ some started
unfolding boot
boot_starts = refl

run-HasStarted_example :
    (started.map_cam ≡ hint_to_matrix angles hint)
    × (started.full_map ≡ (gravity_align_floor map_points).0)
    × HasStarted settings sec started (run settings sec events started).0
run-HasStarted_example =
    run-HasStarted settings sec angles nought sec hint (codes "/data/map.ply") map_points started
      events boot_starts

abbrev outfit : Outfit Fixed
outfit = record { map_frame = codes "map"; odom_frame = codes "world"; display = map_points }

-- A message of 210 points, and one that is too short for its size.
abbrev full_scan : PointCloud2
full_scan = xyz_to_pc2 wide map_points (codes "camera_init") 41

abbrev torn_scan : PointCloud2
torn_scan = record full_scan { stamp = 42; bytes = [] }

abbrev incoming : List (Incoming Fixed Fixed)
incoming =
    tick (some nought) 7
    ∷ scan full_scan
    ∷ tick none 8
    ∷ odom corner sec
    ∷ tick none 9
    ∷ scan torn_scan
    ∷ tick none 10
    ∷ []

serve-IsTimed_example : IsTimed wide outfit none incoming (
    serve wide settings sec angles outfit incoming (record { node = started; latest_stamp = none }))
serve-IsTimed_example = serve-IsTimed settings sec wide angles outfit incoming started refl

serve-IsSound_example : All (All (IsSound wide)) (
    serve wide settings sec angles outfit incoming (record { node = started; latest_stamp = none }))
serve-IsSound_example =
    serve-IsSound wide whole-IsSingle settings sec angles outfit incoming
      (record { node = started; latest_stamp = none })

run-IsCurrent_example :
    IsCurrent settings (gravity_align_floor map_points).0 (run settings sec events started).0
run-IsCurrent_example =
    run-IsCurrent settings sec angles nought sec hint (codes "/data/map.ply") map_points started
      events boot_starts
