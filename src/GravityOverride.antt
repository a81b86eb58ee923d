-- ===== src/GravityOverride.antt =====
-- src/ransac_gravity_override.py: the floor-aligned view of Fast-LIO's cloud. The floor fit, the
-- rotation onto +Z, and what Open3D and scipy do for them.
pub mod Node
pub mod Lookup
pub mod Outcome
pub mod Pooling
pub mod Checked
pub mod Attempts
pub mod Main
use humanoid_navigation.Prelude.{ℕ, Bool, ◌||◌, ltb, length, map, if◌then◌else◌}
use humanoid_navigation.Double.{Double, LibM, nought, lt, le}
use humanoid_navigation.Navigation.{Point, Quaternion}
use humanoid_navigation.Navigation.Geometry.{Matrix, mat_mul}
use humanoid_navigation.Localizer.{Cloud, Numerics}
use humanoid_navigation.Localizer.Node.{masked}

-- What Open3D, numpy and scipy compute.
pub record FloorTools (F : Type 0) : Type 0 where
  -- `segment_plane`: the coefficients (a, b, c), the offset d, and the number of inliers
  pub segment_plane : F → Cloud F → Point F × F × ℕ
  -- `np.degrees(np.arccos(np.clip(z, -1, 1)))`
  pub angle_deg : F → F
  -- `Rotation.from_matrix(...).as_quat()`
  pub as_quat : Matrix F → Quaternion F

-- The result of the fit: the unit normal, the offset of the plane and the ratio of inliers.
pub record Fit (F : Type 0) : Type 0 where
  pub normal : Point F
  pub offset : F
  pub ratio : F

module _ {F : Type 0} ⦃d : Double F⦄ where
  open d use {decimal, add, sub, mul, div, neg}

  abbrev one : F
  one = decimal 1 0

  abbrev pub up : Point F
  up = record { x = nought; y = nought; z = one }

  -- `(r @ pts.T).T` at one point.
  unfoldable pub turn_point : Matrix F → Point F → Point F
  turn_point m p = record {
    x = add (add (mul m.m00 p.x) (mul m.m01 p.y)) (mul m.m02 p.z);
    y = add (add (mul m.m10 p.x) (mul m.m11 p.y)) (mul m.m12 p.z);
    z = add (add (mul m.m20 p.x) (mul m.m21 p.y)) (mul m.m22 p.z);
  }

  -- `np.eye(3)`, and `np.diag([1.0, -1.0, -1.0])`
  unfoldable pub eye : Matrix F
  eye = record {
    m00 = one;
    m01 = nought;
    m02 = nought;
    m10 = nought;
    m11 = one;
    m12 = nought;
    m20 = nought;
    m21 = nought;
    m22 = one;
  }

  unfoldable pub flip : Matrix F
  flip = record {
    m00 = one;
    m01 = nought;
    m02 = nought;
    m10 = nought;
    m11 = neg one;
    m12 = nought;
    m20 = nought;
    m21 = nought;
    m22 = neg one;
  }

  -- `a + b`, and `a * k`
  unfoldable pub mat_add : Matrix F → Matrix F → Matrix F
  mat_add a b = record {
    m00 = add a.m00 b.m00;
    m01 = add a.m01 b.m01;
    m02 = add a.m02 b.m02;
    m10 = add a.m10 b.m10;
    m11 = add a.m11 b.m11;
    m12 = add a.m12 b.m12;
    m20 = add a.m20 b.m20;
    m21 = add a.m21 b.m21;
    m22 = add a.m22 b.m22;
  }

  unfoldable pub mat_scale : Matrix F → F → Matrix F
  mat_scale a k = record {
    m00 = mul a.m00 k;
    m01 = mul a.m01 k;
    m02 = mul a.m02 k;
    m10 = mul a.m10 k;
    m11 = mul a.m11 k;
    m12 = mul a.m12 k;
    m20 = mul a.m20 k;
    m21 = mul a.m21 k;
    m22 = mul a.m22 k;
  }

  unfoldable pub cross : Point F → Point F → Point F
  cross a b = record {
    x = sub (mul a.y b.z) (mul a.z b.y);
    y = sub (mul a.z b.x) (mul a.x b.z);
    z = sub (mul a.x b.y) (mul a.y b.x);
  }

  unfoldable pub skew : Point F → Matrix F
  skew v = record {
    m00 = nought;
    m01 = neg v.z;
    m02 = v.y;
    m10 = v.z;
    m11 = nought;
    m12 = neg v.x;
    m20 = neg v.y;
    m21 = v.x;
    m22 = nought;
  }

  module _ ⦃num : Numerics F⦄ where
    open num use {norm3, quantile}

    unfoldable pub rotation_to_align : Point F → Point F → Matrix F
    rotation_to_align n_from n_to =
        let v = cross n_from n_to in
        let s = norm3 v.x v.y v.z in
        let c = add (add (mul n_from.x n_to.x) (mul n_from.y n_to.y)) (mul n_from.z n_to.z) in
        let k = skew v in
        if lt s (decimal 1 9)
        then (if lt nought c then eye else flip)
        else mat_add (mat_add eye k) (mat_scale (mat_mul k k) (div (sub one c) (mul s s)))

    -- The candidates for the floor: the lowest quarter of the points.
    unfoldable pub candidates : Cloud F → Cloud F
    candidates pts =
        let z_thresh = quantile (map (λ (p : Point F). p.z) pts) (decimal 25 2) in
        masked (λ p. le p.z z_thresh) pts

    unfoldable pub no_fit : Fit F
    no_fit = record { normal = up; offset = nought; ratio = nought }

    unfoldable pub fit_floor_normal : ⦃tools : FloorTools F⦄ → Cloud F → Fit F
    fit_floor_normal ⦃tools⦄ pts =
        let cands = candidates pts in
        let (n, offset, inliers) = tools.segment_plane (decimal 5 2) cands in
        let down = lt n.z nought in
        let n' : Point F = if down then record { x = neg n.x; y = neg n.y; z = neg n.z } else n in
        let norm = norm3 n'.x n'.y n'.z in
        if ltb (length pts) 200 || ltb (length cands) 200 then no_fit else record {
          normal = record { x = div n'.x norm; y = div n'.y norm; z = div n'.z norm };
          offset = div (if down then neg offset else offset) norm;
          ratio = div (decimal inliers 0) (decimal (length cands) 0);
        }
