-- ===== src/Examples/Bridges.antt =====
-- nav/g1_nav_pose_bridge.py: its theorems at concrete readings.
use humanoid_navigation.Prelude.{none, some, [], ◌∷◌, List}
use humanoid_navigation.Prelude.Int.{pos}
use humanoid_navigation.Double.{nought}
use humanoid_navigation.Double.Fixed.{Fixed, fixed_double, fixed_libm}
use humanoid_navigation.PoseBridge.{Reading, init, run}
use humanoid_navigation.PoseBridge.Chain.{IsChain, run-IsChain}

abbrev sec : Fixed
sec = some (pos 10_000)

-- The lookup fails, then finds the body one metre ahead, and fails again.
abbrev readings : List (Reading Fixed)
readings =
    record { source = none; stamp = 1; now_s = sec }
    ∷ record {
      source = some (record {
        translation = record { x = sec; y = nought; z = sec };
        rotation = record { qx = nought; qy = nought; qz = nought; qw = sec };
      });
      stamp = 2;
      now_s = some (pos 20_000);
    }
    ∷ record { source = none; stamp = 3; now_s = some (pos 40_000) }
    ∷ []

run-IsChain_example : IsChain none readings (run readings init)
run-IsChain_example = run-IsChain readings
