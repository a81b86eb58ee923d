-- ===== src/MapTools/Align.antt =====
-- `main` of scripts/align_pcd_floor.py: the cloud in a frame whose z axis is the floor's normal.
use humanoid_navigation.Prelude.{
  ℕ, suc, Bool, ◌&&◌, ◌||◌, not, Option, List, map, length, if◌then◌else◌,
}
use mathlib.Core.Option
use humanoid_navigation.Prelude.Result.{Result, ok, ◌>>=◌}
use humanoid_navigation.Double.{Double, LibM, nought, lt}
use humanoid_navigation.Navigation.{Point, Quaternion}
use humanoid_navigation.Navigation.Geometry.{Matrix}
use humanoid_navigation.Localizer.{Numerics}
use humanoid_navigation.GravityOverride.{turn_point, cross}
use humanoid_navigation.Bytes.{Single, Convert}
use humanoid_navigation.PointCloud.{each, is_finite_point}
use humanoid_navigation.MapTools.{Text}
use humanoid_navigation.MapTools.Pcd.{Sample, read_binary_pcd, written}

-- The floor z = a * x + b * y + c of the recording.
pub record Floor (F : Type 0) : Type 0 where
  pub a : F
  pub b : F
  pub c : F

-- What the tool prints.
pub record Printed (F : Type 0) : Type 0 where
  pub rotation_rows : Matrix F
  pub translation : Point F
  pub quaternion : Quaternion F
  pub origin_height : F
  pub floor_check : F
  pub points : ℕ

module _ {F : Type 0} ⦃d : Double F⦄ where
  open d use {is_nan, decimal, add, sub, mul, div, neg}

  abbrev one : F
  one = decimal 1 0

  abbrev two : F
  two = decimal 2 0

  -- `np.dot(a, b)`
  unfoldable pub dot : Point F → Point F → F
  dot a b = add (add (mul a.x b.x) (mul a.y b.y)) (mul a.z b.z)

  unfoldable pub minus : Point F → Point F → Point F
  minus a b = record { x = sub a.x b.x; y = sub a.y b.y; z = sub a.z b.z }

  -- `np.argmax` prefers the first of two entries: it is NaN, or the second neither is nor is larger.
  unfoldable pub beats : F → F → Bool
  beats x y = is_nan x || (not (is_nan y) && not (lt x y))

  module _ ⦃m : LibM F⦄ where
    open m use {sqrt}

    unfoldable pub plane_scale : Floor F → F
    plane_scale floor = sqrt (add (add one (mul floor.a floor.a)) (mul floor.b floor.b))

    unfoldable pub up_raw : Floor F → Point F
    up_raw floor =
        let s = plane_scale floor in
        record { x = div floor.a s; y = div floor.b s; z = div (neg one) s }

    -- `translation`
    unfoldable pub shift : Floor F → Point F
    shift floor = record { x = nought; y = nought; z = div floor.c (plane_scale floor) }

    module _ ⦃num : Numerics F⦄ where
      -- Raw +X, projected onto the floor, of length 1.
      unfoldable pub aligned_x : Point F → Point F
      aligned_x up =
          let raw_x : Point F = record { x = one; y = nought; z = nought } in
          let v = minus raw_x (each (λ u. mul u (dot raw_x up)) up) in
          each (λ u. div u (num.norm3 v.x v.y v.z)) v

      -- `np.vstack((aligned_x_raw, aligned_y_raw, up_raw))`
      unfoldable pub rotation : Floor F → Matrix F
      rotation floor =
          let up = up_raw floor in
          let ax = aligned_x up in
          let ay = cross up ax in
          record {
            m00 = ax.x;
            m01 = ax.y;
            m02 = ax.z;
            m10 = ay.x;
            m11 = ay.y;
            m12 = ay.z;
            m20 = up.x;
            m21 = up.y;
            m22 = up.z;
          }

      unfoldable pub rotation_to_quaternion : Matrix F → Quaternion F
      rotation_to_quaternion r =
          let trace = add (add r.m00 r.m11) r.m22 in
          let half = mul (decimal 25 2) in
          let st = mul (sqrt (add trace one)) two in
          let sx = mul (sqrt (sub (sub (add one r.m00) r.m11) r.m22)) two in
          let sy = mul (sqrt (sub (sub (add one r.m11) r.m00) r.m22)) two in
          let sz = mul (sqrt (sub (sub (add one r.m22) r.m00) r.m11)) two in
          let q : Quaternion F =
            if lt nought trace
            then record {
              qx = div (sub r.m21 r.m12) st;
              qy = div (sub r.m02 r.m20) st;
              qz = div (sub r.m10 r.m01) st;
              qw = half st;
            }
            else if beats r.m00 r.m11 && beats r.m00 r.m22
            then record {
              qx = half sx;
              qy = div (add r.m01 r.m10) sx;
              qz = div (add r.m02 r.m20) sx;
              qw = div (sub r.m21 r.m12) sx;
            }
            else if beats r.m11 r.m22
            then record {
              qx = div (add r.m01 r.m10) sy;
              qy = half sy;
              qz = div (add r.m12 r.m21) sy;
              qw = div (sub r.m02 r.m20) sy;
            }
            else record {
              qx = div (add r.m02 r.m20) sz;
              qy = div (add r.m12 r.m21) sz;
              qz = half sz;
              qw = div (sub r.m10 r.m01) sz;
            } in
          let n =
            sqrt
              (add (add (add (mul q.qx q.qx) (mul q.qy q.qy)) (mul q.qz q.qz)) (mul q.qw q.qw)) in
          record { qx = div q.qx n; qy = div q.qy n; qz = div q.qz n; qw = div q.qw n }

      unfoldable pub printed : {S : Type 0} → Floor F → List (Sample S) → Printed F
      printed floor cloud =
          let r = rotation floor in
          let t = shift floor in
          let origin : Point F = record { x = nought; y = nought; z = floor.c } in
          record {
            rotation_rows = r;
            translation = t;
            quaternion = rotation_to_quaternion r;
            origin_height = t.z;
            floor_check = add (dot (up_raw floor) origin) t.z;
            points = length cloud;
          }

      module _ {S : Type 0} ⦃single : Single S⦄ (conv : Convert F S) (norm32 : Point S → F) where
        open conv use {widen, narrow}

        -- A finite position is rotated and shifted, a finite normal that is not zero is rotated.
        -- `norm32` is `np.linalg.norm` on float32.
        unfoldable pub align_sample : Floor F → Sample S → Sample S
        align_sample floor s =
            let r = rotation floor in
            let t = shift floor in
            let p = turn_point r (each widen s.at) in
            let moved : Point F = record { x = add p.x t.x; y = add p.y t.y; z = add p.z t.z } in
            record s {
              at = if is_finite_point (each widen s.at) then each narrow moved else s.at;
              normal =
                  if is_finite_point (each widen s.normal) && lt nought (norm32 s.normal)
                  then each narrow (turn_point r (each widen s.normal))
                  else s.normal;
            }

        -- `main`, from the bytes of one file to those of the other; one turn of the header's loop for
        -- each byte is enough.
        unfoldable pub align_pcd : Floor F → List ℕ → Option (Result (List ℕ))
        align_pcd floor file =
            Option.map
              (λ (r : Result (List Text × List (Sample S))).
                r >>= λ t. ok (written t.0 (map (align_sample floor) t.1)))
              (read_binary_pcd (suc (length file)) file)
