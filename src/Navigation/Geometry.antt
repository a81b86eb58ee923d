-- ===== src/Navigation/Geometry.antt =====
-- The geometry of nav/g1_goal_to_nav.py: quaternions, rotation matrices and goals in another frame.
use humanoid_navigation.Prelude.{◌&&◌, Option, none, some, if◌then◌else◌}
use humanoid_navigation.Double.{Double, LibM, nought, lt}
use humanoid_navigation.Navigation.{Frame, eq_frame, Quaternion, Point, Pose, Transform}

-- A 3×3 matrix by rows.
pub record Matrix (F : Type 0) : Type 0 where
  pub m00 : F
  pub m01 : F
  pub m02 : F
  pub m10 : F
  pub m11 : F
  pub m12 : F
  pub m20 : F
  pub m21 : F
  pub m22 : F

module _ {F : Type 0} ⦃d : Double F⦄ where
  open d use {decimal, add, sub, mul, div, neg}

  abbrev one : F
  one = decimal 1 0

  abbrev two : F
  two = decimal 2 0

  unfoldable pub quat_to_mat : Quaternion F → Matrix F
  quat_to_mat q = record {
    m00 = sub one (mul two (add (mul qy qy) (mul qz qz)));
    m01 = mul two (sub (mul qx qy) (mul qz qw));
    m02 = mul two (add (mul qx qz) (mul qy qw));
    m10 = mul two (add (mul qx qy) (mul qz qw));
    m11 = sub one (mul two (add (mul qx qx) (mul qz qz)));
    m12 = mul two (sub (mul qy qz) (mul qx qw));
    m20 = mul two (sub (mul qx qz) (mul qy qw));
    m21 = mul two (add (mul qy qz) (mul qx qw));
    m22 = sub one (mul two (add (mul qx qx) (mul qy qy)));
  }
    where
      open q use {qx, qy, qz, qw}

  -- `A @ B`
  unfoldable pub mat_mul : Matrix F → Matrix F → Matrix F
  mat_mul a b = record {
    m00 = dot a.m00 a.m01 a.m02 b.m00 b.m10 b.m20;
    m01 = dot a.m00 a.m01 a.m02 b.m01 b.m11 b.m21;
    m02 = dot a.m00 a.m01 a.m02 b.m02 b.m12 b.m22;
    m10 = dot a.m10 a.m11 a.m12 b.m00 b.m10 b.m20;
    m11 = dot a.m10 a.m11 a.m12 b.m01 b.m11 b.m21;
    m12 = dot a.m10 a.m11 a.m12 b.m02 b.m12 b.m22;
    m20 = dot a.m20 a.m21 a.m22 b.m00 b.m10 b.m20;
    m21 = dot a.m20 a.m21 a.m22 b.m01 b.m11 b.m21;
    m22 = dot a.m20 a.m21 a.m22 b.m02 b.m12 b.m22;
  }
    where
      dot : F → F → F → F → F → F → F
      dot a b c x y z = add (add (mul a x) (mul b y)) (mul c z)

  -- A rotation and a translation applied to a point: `(T @ p)[:3]` for the homogeneous matrix.
  unfoldable pub apply : Transform F → Point F → Point F
  unfolding quat_to_mat
  apply t p = record {
    x = row m.m00 m.m01 m.m02 t.translation.x;
    y = row m.m10 m.m11 m.m12 t.translation.y;
    z = row m.m20 m.m21 m.m22 t.translation.z;
  }
    where
      m : Matrix F
      m = quat_to_mat t.rotation

      row : F → F → F → F → F
      row a b c o = add (add (add (mul a p.x) (mul b p.y)) (mul c p.z)) (mul o one)

  module _ ⦃lib : LibM F⦄ where
    open lib use {sin, cos, atan2, sqrt}

    quat_by_trace : Matrix F → Quaternion F
    quat_by_trace m =
        let s = div (decimal 5 1) (sqrt (add (add (add m.m00 m.m11) m.m22) one)) in
        record {
          qx = mul (sub m.m21 m.m12) s;
          qy = mul (sub m.m02 m.m20) s;
          qz = mul (sub m.m10 m.m01) s;
          qw = div (decimal 25 2) s;
        }

    quat_by_x : Matrix F → Quaternion F
    quat_by_x m =
        let s = mul two (sqrt (sub (sub (add one m.m00) m.m11) m.m22)) in
        record {
          qw = div (sub m.m21 m.m12) s;
          qx = mul (decimal 25 2) s;
          qy = div (add m.m01 m.m10) s;
          qz = div (add m.m02 m.m20) s;
        }

    quat_by_y : Matrix F → Quaternion F
    quat_by_y m =
        let s = mul two (sqrt (sub (sub (add one m.m11) m.m00) m.m22)) in
        record {
          qw = div (sub m.m02 m.m20) s;
          qx = div (add m.m01 m.m10) s;
          qy = mul (decimal 25 2) s;
          qz = div (add m.m12 m.m21) s;
        }

    quat_by_z : Matrix F → Quaternion F
    quat_by_z m =
        let s = mul two (sqrt (sub (sub (add one m.m22) m.m00) m.m11)) in
        record {
          qw = div (sub m.m10 m.m01) s;
          qx = div (add m.m02 m.m20) s;
          qy = div (add m.m12 m.m21) s;
          qz = mul (decimal 25 2) s;
        }

    normalise : Quaternion F → Quaternion F
    normalise q =
        let norm =
          sqrt (add (add (add (mul q.qx q.qx) (mul q.qy q.qy)) (mul q.qz q.qz)) (mul q.qw q.qw)) in
        record { qx = div q.qx norm; qy = div q.qy norm; qz = div q.qz norm; qw = div q.qw norm }

    unfoldable pub rot_to_quat : Matrix F → Quaternion F
    unfolding quat_by_trace quat_by_x quat_by_y quat_by_z normalise
    rot_to_quat m = normalise (
        if lt nought (add (add m.m00 m.m11) m.m22)
        then quat_by_trace m
        else if lt m.m11 m.m00 && lt m.m22 m.m00
        then quat_by_x m
        else if lt m.m22 m.m11
        then quat_by_y m
        else quat_by_z m)

    unfoldable pub yaw_from_quaternion : Quaternion F → F
    yaw_from_quaternion q =
        atan2 (mul two (add (mul q.qw q.qz) (mul q.qx q.qy)))
          (sub one (mul two (add (mul q.qy q.qy) (mul q.qz q.qz))))

    unfoldable pub angle_diff : F → F → F
    angle_diff target current = atan2 (sin (sub target current)) (cos (sub target current))

    -- `_goal_in_frame`, with the result of the transform lookup, `none` where it raises.
    unfoldable pub goal_in_frame : Option (Transform F) → Pose F → Frame → Option (Pose F)
    unfolding rot_to_quat mat_mul apply
    goal_in_frame found pose target =
        if eq_frame pose.frame target then some pose else (elim found [
          | none ↦ none
          | some t ↦ some (record pose {
            frame = target;
            position = apply t pose.position;
            orientation =
                rot_to_quat (mat_mul (quat_to_mat t.rotation) (quat_to_mat pose.orientation));
          })
        ])
