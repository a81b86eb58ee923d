-- ===== src/PointCloud.antt =====
-- `sensor_msgs/PointCloud2` and the points of a cloud: `pc2_to_xyz` of src/localizer.py and of
-- src/ransac_gravity_override.py, which are the same code, and `xyz_to_pc2` of src/localizer.py.
pub mod RoundTrip
use humanoid_navigation.Prelude.{
  ℕ, ◌+◌, ◌*◌, Bool, false, true, ◌&&◌, Option, none, some, List, [], ◌∷◌, ◌==◌, if◌then◌else◌, map,
  length, replicate,
}
use humanoid_navigation.Prelude.Result.{
  Result, ok, raised, value_error, key_error, ◌>>=◌, from_option,
}
use humanoid_navigation.Double.{Double, is_finite}
use humanoid_navigation.Navigation.{Frame, Point, eq_frame}
use humanoid_navigation.Localizer.{Cloud}
use humanoid_navigation.Localizer.Node.{masked}
use humanoid_navigation.Bytes.{Single, Convert, take, drop, reshape, concat, frombuffer, tobytes}

-- `sensor_msgs/PointField`
pub record Field : Type 0 where
  pub name : Frame
  pub offset : ℕ
  pub datatype : ℕ
  pub count : ℕ

pub record PointCloud2 : Type 0 where
  pub stamp : ℕ
  pub frame : Frame
  pub height : ℕ
  pub width : ℕ
  pub fields : List Field
  pub is_bigendian : Bool
  pub point_step : ℕ
  pub row_step : ℕ
  -- `data`
  pub bytes : List ℕ
  pub is_dense : Bool

abbrev pub x_axis : Frame
x_axis = b'x' ∷ []

abbrev pub y_axis : Frame
y_axis = b'y' ∷ []

abbrev pub z_axis : Frame
z_axis = b'z' ∷ []

-- `PointField.FLOAT32`
abbrev float32 : ℕ
float32 = 7

-- `fields[name]` of the dictionary by name, where a later field replaces an earlier one.
unfoldable pub field_of : Frame → List Field → Option Field
field_of name [] = none
field_of name (f ∷ fs) = elim (field_of name fs) [
  | some g ↦ some g
  | none ↦ if eq_frame f.name name then some f else none
]

-- What `pts[:, i] = values` makes of a column of `n` numbers: a single value is spread over it.
unfoldable pub spread {ℓ} : {A : Type ℓ} → ℕ → List A → Result (List A)
spread n vs = if length vs == n then ok vs else elim vs [
  | [] ↦ raised value_error
  | v ∷ [] ↦ ok (replicate n v)
  | v ∷ w ∷ rest ↦ raised value_error
]

-- The bytes of `raw[:, off : off + 4]`, row after row.
unfoldable pub slices : ℕ → List (List ℕ) → List ℕ
slices off raw = concat (map (λ row. take 4 (drop off row)) raw)

unfoldable pub zip_points : {S : Type 0} → List S → List S → List S → List (Point S)
zip_points (a ∷ xs) (b ∷ ys) (c ∷ zs) = record { x = a; y = b; z = c } ∷ zip_points xs ys zs
zip_points _ _ _ = []

-- The numbers of an (N, 3) array in the order of memory.
unfoldable pub flat : {S : Type 0} → List (Point S) → List S
flat [] = []
flat (p ∷ pts) = p.x ∷ p.y ∷ p.z ∷ flat pts

-- `astype` on an (N, 3) array, at one point.
abbrev pub each : {A B : Type 0} → (A → B) → Point A → Point B
each f p = record { x = f p.x; y = f p.y; z = f p.z }

module _ {S : Type 0} ⦃single : Single S⦄ where
  -- One turn of the loop over the axes.
  unfoldable pub column : PointCloud2 → List (List ℕ) → Frame → Result (List S)
  column msg raw axis = do
    field ← from_option key_error (field_of axis msg.fields)
    values ← frombuffer (slices field.offset raw)
    spread (msg.width * msg.height) values

  -- `pts`, before the points that are not finite are left out.
  unfoldable pub all_points : PointCloud2 → Result (List (Point S))
  all_points msg = do
    raw ← reshape (msg.width * msg.height) msg.point_step msg.bytes
    xs ← column msg raw x_axis
    ys ← column msg raw y_axis
    zs ← column msg raw z_axis
    ok (zip_points xs ys zs)

-- `np.isfinite(pts).all(axis=1)` of one row.
abbrev pub is_finite_point : {F : Type 0} ⦃d : Double F⦄ → Point F → Bool
is_finite_point p = is_finite p.x && (is_finite p.y && is_finite p.z)

module _ {F S : Type 0} ⦃d : Double F⦄ ⦃single : Single S⦄ (conv : Convert F S) where
  -- The mask may come after the widening to float64, which keeps every value.
  unfoldable pub pc2_to_xyz : PointCloud2 → Result (Cloud F)
  pc2_to_xyz msg = all_points msg >>= λ (pts : List (Point S)).
      ok (masked is_finite_point (map (each conv.widen) pts))

  unfoldable pub xyz_to_pc2 : Cloud F → Frame → ℕ → PointCloud2
  xyz_to_pc2 pts frame stamp = record {
    stamp = stamp;
    frame = frame;
    height = 1;
    width = length pts;
    fields =
        record { name = x_axis; offset = 0; datatype = float32; count = 1 }
        ∷ record { name = y_axis; offset = 4; datatype = float32; count = 1 }
        ∷ record { name = z_axis; offset = 8; datatype = float32; count = 1 }
        ∷ [];
    is_bigendian = false;
    point_step = 12;
    row_step = 12 * length pts;
    bytes = tobytes (flat (map (each conv.narrow) pts));
    is_dense = true;
  }
