-- ===== src/Examples/Clouds.antt =====
-- The clouds of src/localizer.py as messages: the theorems at concrete points and bytes.
use humanoid_navigation.Prelude.{ℕ, ◌≡◌, refl, true, false, [], ◌∷◌, none, some, map, codes}
use humanoid_navigation.Prelude.Int.{pos, negsuc}
use humanoid_navigation.Prelude.Result.{ok}
use humanoid_navigation.Double.Fixed.{Fixed, fixed_double}
use humanoid_navigation.Localizer.{Cloud}
use humanoid_navigation.Localizer.Node.{masked}
use humanoid_navigation.Bytes.{Single, Convert, IsSingle, IsExact, rows, reshape, frombuffer}
use humanoid_navigation.PointCloud.{
  PointCloud2, Field, field_of, spread, slices, zip_points, column, all_points, each,
  is_finite_point, pc2_to_xyz, xyz_to_pc2,
}
use humanoid_navigation.PointCloud.RoundTrip.{pc2_to_xyz-xyz_to_pc2}

-- A float32 that stands for a whole number, in its first byte.
instance abbrev pub whole : Single ℕ
whole = record { to_word = λ n. (n, 0, 0, 0); from_word = λ w. w.0 }

pub whole-IsSingle : IsSingle ℕ
whole-IsSingle = record { from_word-to_word = λ v. refl }

abbrev narrowed : Fixed → ℕ
narrowed (some (pos n)) = n
narrowed _ = 0

abbrev pub wide : Convert Fixed ℕ
wide = record { widen = λ n. some (pos n); narrow = narrowed }

wide-IsExact : IsExact Fixed ℕ wide
wide-IsExact = record { narrow-widen = λ v h. refl }

abbrev two_points : Cloud Fixed
two_points =
    record { x = some (pos 3); y = some (pos 1); z = some (negsuc 6) }
    ∷ record { x = some (pos 200); y = none; z = some (pos 5) }
    ∷ []

pc2_to_xyz-xyz_to_pc2_example :
    pc2_to_xyz wide (xyz_to_pc2 wide two_points (codes "world") 12)
    ≡ ok (masked is_finite_point (map (each wide.widen) (map (each wide.narrow) two_points)))
pc2_to_xyz-xyz_to_pc2_example =
    pc2_to_xyz-xyz_to_pc2 whole-IsSingle wide two_points (codes "world") 12

abbrev field : ℕ → ℕ → Field
field name offset = record { name = name ∷ []; offset = offset; datatype = 7; count = 1 }

-- One point of 20 bytes, whose fields stand in another order, among others.
abbrev scan : PointCloud2
scan = record {
  stamp = 4;
  frame = codes "body";
  height = 1;
  width = 1;
  fields = field b'z' 4 ∷ field b'i' 0 ∷ field b'y' 12 ∷ field b'x' 16 ∷ [];
  is_bigendian = false;
  point_step = 20;
  row_step = 20;
  bytes = 9 ∷ 0 ∷ 0 ∷ 0 ∷ 3 ∷ 0 ∷ 0 ∷ 0 ∷ 9 ∷ 0 ∷ 0 ∷ 0 ∷ 2 ∷ 0 ∷ 0 ∷ 0 ∷ 1 ∷ 0 ∷ 0 ∷ 0 ∷ [];
  is_dense = true;
}

abbrev scanned : Cloud Fixed
scanned = record { x = some (pos 1); y = some (pos 2); z = some (pos 3) } ∷ []

scan_reads : pc2_to_xyz wide scan ≡ ok scanned
unfolding pc2_to_xyz all_points column field_of spread slices zip_points rows reshape frombuffer
    masked
scan_reads = refl
