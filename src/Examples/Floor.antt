-- ===== src/Examples/Floor.antt =====
-- src/ransac_gravity_override.py: its theorems at concrete clouds.
use humanoid_navigation.Prelude.{
  ℕ, ◌+◌, ◌≡◌, refl, arith, true, [], ◌∷◌, Option, some, none, replicate, ltb, if◌then◌else◌,
}
use humanoid_navigation.Prelude.Int.{pos}
use humanoid_navigation.Double.{nought, py_abs}
use humanoid_navigation.Double.Fixed.{Fixed, fixed_double}
use humanoid_navigation.Navigation.{Point}
use humanoid_navigation.Localizer.{Numerics}
use humanoid_navigation.GravityOverride.{FloorTools, eye}
use humanoid_navigation.GravityOverride.Node.{Message, Settings, Override, init, run}
use humanoid_navigation.GravityOverride.Pooling.{Bounded, run-Bounded}
use humanoid_navigation.GravityOverride.Checked.{IsOrdered, run-IsOrdered}
use humanoid_navigation.GravityOverride.Lookup.{
  Rounds, lookup_imu_quat, Waits, Ends, lookup_imu_quat-Ends,
}
use humanoid_navigation.Prelude.{List, codes, ◌-◌, ◌*◌}
use humanoid_navigation.Prelude.Result.{ok}
use humanoid_navigation.Navigation.{Quaternion}
use humanoid_navigation.GravityOverride.Main.{Reading, main, Starts, main-Starts}
use humanoid_navigation.GravityOverride.Attempts.{IsOpen, Tries, run-Tries}

abbrev sec : Fixed
sec = some (pos 10_000)

instance abbrev floor_numerics : Numerics Fixed
floor_numerics = record {
  inf = some (pos 100_000_000_000_000);
  norm2 = λ x y. fixed_double.add (py_abs x) (py_abs y);
  norm3 = λ x y z. fixed_double.add (py_abs x) (fixed_double.add (py_abs y) (py_abs z));
  quantile = λ xs q. nought;
  centroid = λ pts. record { x = nought; y = nought; z = nought };
  modulo = λ x m. x;
  voxel_downsample = λ v pts. pts;
}

-- Every floor is level, half a metre below, and every candidate lies on it.
instance abbrev level_tools : FloorTools Fixed
level_tools = record {
  segment_plane = λ limit pts. (record { x = nought; y = nought; z = sec }, some (pos 5_000), 2500);
  angle_deg = λ z. nought;
  as_quat = λ m. record { qx = nought; qy = nought; qz = nought; qw = sec };
}

abbrev settings : Settings Fixed
settings = record {
  min_points = 2500;
  publish = true;
  output_frame = b'f' ∷ [];
  max_correction_deg = some (pos 150_000);
  min_inlier_ratio = some (pos 2_000);
  flip_gravity = true;
}

abbrev corner : Point Fixed
corner = record { x = sec; y = sec; z = nought }

abbrev small : Message Fixed
small = record { frame = b'c' ∷ []; points = corner ∷ [] }

abbrev large : Message Fixed
large = record { frame = b'c' ∷ []; points = replicate 2500 corner }

run-Bounded_example : Bounded (run settings (small ∷ large ∷ small ∷ []) (init settings eye)).0
run-Bounded_example = run-Bounded settings eye (small ∷ large ∷ small ∷ [])

run-IsOrdered_example :
    IsOrdered settings (run settings (small ∷ large ∷ small ∷ []) (init settings eye)).1
run-IsOrdered_example = run-IsOrdered settings eye (small ∷ large ∷ small ∷ [])

-- The transform appears in the third round.
abbrev slow_start : Rounds ℕ
slow_start = record {
  clock = λ k. 5 + k;
  is_ok = λ k. true;
  found = λ k. if ltb k 3 then none else some 7;
}

lookup_imu_quat-Ends_example :
    (n : ℕ) × (r : Option ℕ) × (lookup_imu_quat slow_start 10 11 ≡ some r)
    × Waits slow_start 15 1 n
    × Ends slow_start 15 (1 + n) r
lookup_imu_quat-Ends_example = lookup_imu_quat-Ends slow_start 10 (λ i. omega arith)

abbrev nearly : Override Fixed
nearly = record (init settings eye) { n_seen = 58 }

nearly-IsOpen : IsOpen nearly
unfolding init
nearly-IsOpen = record { idle = refl; undone = refl }

run-Tries_example : Tries settings (small ∷ large ∷ []) nearly
run-Tries_example =
    run-Tries settings (small ∷ large ∷ []) nearly nearly-IsOpen (omega arith) (omega arith)

-- A reader of words of one digit.
abbrev reading : Reading Fixed
reading = record { float_of = digit; from_quat = λ q. ok eye }
  where
    digit : List ℕ → Option Fixed
    digit (c ∷ []) = some (some (pos ((c - 48) * 10_000)))
    digit _ = none

abbrev no_rounds : Rounds (Quaternion Fixed)
no_rounds = record { clock = λ k. k; is_ok = λ k. true; found = λ k. none }

abbrev digits : List (List ℕ)
digits = codes "0" ∷ codes "1" ∷ codes "0" ∷ codes "1" ∷ []

main-Starts_example :
    Starts reading settings [] digits (main reading settings [] no_rounds 5 9 (codes "0,1,0,1"))
main-Starts_example =
    main-Starts reading settings [] no_rounds 5 9 (codes "0")
      (codes "1" ∷ codes "0" ∷ codes "1" ∷ []) refl (λ e. cc)
