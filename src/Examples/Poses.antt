-- ===== src/Examples/Poses.antt =====
-- src/localizer.py: its theorems at a concrete map, scan and state.
use humanoid_navigation.Prelude.{
  ◌≡◌, ◌⊎◌, refl, true, false, none, some, List, [], ◌∷◌, map, length,
}
use humanoid_navigation.Prelude.Int.{pos}
use humanoid_navigation.Double.{nought, py_abs}
use humanoid_navigation.Double.Fixed.{Fixed, fixed_double, fixed_libm}
use humanoid_navigation.Navigation.{Point}
use humanoid_navigation.Localizer.{
  Cloud, Rigid, Match, Features, Numerics, Rotations, Aligner, Settings,
}
use humanoid_navigation.Localizer.Node.{Kalman, Localizer, with_floor_z}
use humanoid_navigation.Localizer.Tracking.{first_ok, first_with, track, track_with}
use humanoid_navigation.Localizer.Gate.{IsLocked, Outcome, track_with-Outcome, first_with-gated}
use humanoid_navigation.Localizer.Whole.{Found, run_global_icp-Found}
use humanoid_navigation.Localizer.Search.{run_global_icp}
use humanoid_navigation.Localizer.{Settings}
use humanoid_navigation.Localizer.Attitude.{IsUpright, MovesWithin, track-within, run-IsUpright}
use humanoid_navigation.Examples.Clouds.{whole}
use humanoid_navigation.Localizer.Frozen.{Event, scanned, moved, ticked, run, promised, frozen_run}

abbrev pub sec : Fixed
sec = some (pos 10_000)

-- Distances in the sum norm.
instance abbrev pub fixed_numerics : Numerics Fixed
fixed_numerics = record {
  inf = some (pos 100_000_000_000_000);
  norm2 = λ x y. fixed_double.add (py_abs x) (py_abs y);
  norm3 = λ x y z. fixed_double.add (py_abs x) (fixed_double.add (py_abs y) (py_abs z));
  quantile = λ xs q. nought;
  centroid = λ pts. record { x = nought; y = nought; z = nought };
  modulo = λ x m. x;
  voxel_downsample = λ v pts. pts;
}

-- A rotation is its yaw, and turns nothing.
instance abbrev pub fixed_rotations : Rotations Fixed Fixed
fixed_rotations = record {
  yaw_of = λ r. r;
  roll_deg_of = λ r. nought;
  pitch_deg_of = λ r. nought;
  rot_of_yaw = λ r. r;
  rot_of_yaw_deg = λ n. fixed_double.decimal n 0;
  slerp = λ a b t. b;
  rot_mul = λ a b. fixed_double.add a b;
  flat = λ r. r;
  rotate = λ r p. p;
}

abbrev identity : Rigid Fixed Fixed
identity = record { rot = nought; at = record { x = nought; y = nought; z = nought } }

-- A map that every scan matches where it is.
instance abbrev pub fixed_aligner : Aligner Fixed Fixed (Cloud Fixed)
fixed_aligner = record {
  distances = λ g pts. map (λ p. nought) pts;
  distances_2d = λ g pts. map (λ p. nought) pts;
  estimate_normals = λ radius pts. pts;
  index = λ pts normals. pts;
  coarsen = λ v g. g;
  target_size = λ g. length g;
  increment_3d = λ g pts r. identity;
  increment_2d = λ g pts r. identity;
  increment_plane = λ g pts r. identity;
  compute_fpfh = λ r pts normals. [];
  feature_matching = λ src tgt r. record { pose = identity; fitness = sec; rmse = nought };
}

abbrev pub settings : Settings Fixed
settings = record {
  icp_max_dist = sec;
  min_fitness = some (pos 5_000);
  min_fitness_reloc = some (pos 6_000);
  max_dpose_per_tick = sec;
  max_rmse = sec;
  relocalize_after_n_losses = 5;
  max_ceiling_above_floor = some (pos 20_000);
  use_3d_icp = true;
  use_kalman = true;
  use_fpfh_ransac = false;
  dis_updatemap = some (pos 30_000);
  local_map_radius = some (pos 200_000);
  confidence_th = some (pos 8_000);
  max_roll_pitch_deg = some (pos 100_000);
  max_init_dist_from_hint = some (pos 50_000);
  max_recovery_drift_from_prior = some (pos 30_000);
  use_multi_scale_icp = false;
  multi_scale_voxels = sec ∷ [];
  track_voxels = sec ∷ [];
  max_map_drift_rate = some (pos 1_000);
  drift_rate_speed_gain = some (pos 1_000);
  jump_fitness_margin = some (pos 500);
  loc_period = sec;
  freeze_after_init = true;
  voxel_map = some (pos 1_000);
  voxel_scan = some (pos 1_000);
  init_x = nought;
  init_y = nought;
}

abbrev still_filter : Kalman Fixed
still_filter = record {
  value = nought;
  variance = sec;
  process_var = some (pos 100);
  meas_var = sec;
}

abbrev pub waiting : Localizer Fixed Fixed (Cloud Fixed)
waiting = record {
  map_cam = identity;
  published = identity;
  filters = record {
    kf_x = still_filter;
    kf_y = still_filter;
    kf_z = still_filter;
    kf_yaw = still_filter;
  };
  target = [];
  features = none;
  full_map = [];
  local_map_centre = none;
  initialized = false;
  latest_cloud = none;
  cam_to_world = some nought;
  floor_z_world = some (pos 1_000);
  lost_count = 4;
  robot_speed = nought;
  last_odom = none;
  settle_ticks = 0;
  frozen_static_published = false;
  map_published = true;
}

abbrev tracking : Localizer Fixed Fixed (Cloud Fixed)
tracking = record waiting { initialized = true }

abbrev pub corner : Point Fixed
corner = record { x = sec; y = sec; z = nought }

abbrev pub one_point : Cloud Fixed
one_point = corner ∷ []

abbrev matched : Match Fixed Fixed
matched = record {
  pose = record { rot = nought; at = record { x = some (pos 500); y = nought; z = nought } };
  fitness = some (pos 9_000);
  rmse = some (pos 1_000);
}

track_with-Outcome_example :
    Outcome settings sec one_point matched tracking
      (track_with settings sec one_point matched tracking)
track_with-Outcome_example = track_with-Outcome settings sec one_point matched tracking

first_with-gated_example :
    (((first_with settings sec matched waiting).initialized ≡ true)
      × (first_ok settings matched ≡ true)
      × IsLocked matched.pose waiting.floor_z_world (first_with settings sec matched waiting))
    ⊎ (((first_with settings sec matched waiting).initialized ≡ false)
        × (first_ok settings matched ≡ false)
        × ((first_with settings sec matched waiting).map_cam ≡ waiting.map_cam)
        × ((first_with settings sec matched waiting).published ≡ with_floor_z matched.pose waiting))
first_with-gated_example = first_with-gated settings sec matched waiting refl

abbrev pub events : List (Event Fixed Fixed)
events = scanned one_point ∷ ticked none ∷ moved corner sec ∷ ticked (some nought) ∷ []

frozen_run_example :
    ((run settings sec events tracking).1 ≡ promised tracking.published false events)
    × ((run settings sec events tracking).0.map_cam ≡ tracking.map_cam)
    × ((run settings sec events tracking).0.published ≡ tracking.published)
    × ((run settings sec events tracking).0.initialized ≡ true)
frozen_run_example = frozen_run settings sec events tracking refl refl

abbrev described : Features Fixed
described = record { points = one_point; normals = one_point; fpfh = [] }

abbrev scales : Settings Fixed
scales = record settings { use_multi_scale_icp = true; use_fpfh_ransac = true }

run_global_icp-Found_example :
    Found scales
      (some described)
      one_point
      one_point
      identity
      (sec ∷ [])
      (run_global_icp scales (some described) one_point one_point identity)
run_global_icp-Found_example =
    run_global_icp-Found scales (some described) one_point one_point identity sec [] refl

track-within_example :
    MovesWithin settings sec one_point tracking (track settings sec one_point tracking)
track-within_example = track-within settings sec one_point tracking

run-IsUpright_example : IsUpright settings sec (run settings sec events waiting).0
run-IsUpright_example = run-IsUpright settings sec events waiting refl
