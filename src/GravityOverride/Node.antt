-- ===== src/GravityOverride/Node.antt =====
-- The node of src/ransac_gravity_override.py: the pooling of scans, the fit, and the relay.
use humanoid_navigation.Prelude.{
  ℕ, ◌+◌, Bool, true, false, ◌||◌, not, List, [], ◌∷◌, ◌++◌, ltb, leb, length, map, if◌then◌else◌,
}
use humanoid_navigation.Double.{Double, nought, lt}
use humanoid_navigation.Navigation.{Frame, Transform}
use humanoid_navigation.Navigation.Geometry.{Matrix, mat_mul}
use humanoid_navigation.Localizer.{Cloud, Numerics}
use humanoid_navigation.GravityOverride.{
  FloorTools, Fit, up, flip, turn_point, rotation_to_align, candidates, fit_floor_normal,
}

-- A cloud with the frame of its header.
pub record Message (F : Type 0) : Type 0 where
  pub frame : Frame
  pub points : Cloud F

pub data Effect (F : Type 0) : Type 0 where
  relay : Message F → Effect F
  static_transform : Transform F → Effect F
  shut_down : Effect F
  -- `sys.exit(2)`, which ends the process
  exit_starved : Effect F

pub record Settings (F : Type 0) : Type 0 where
  pub min_points : ℕ
  pub publish : Bool
  pub output_frame : Frame
  pub max_correction_deg : F
  pub min_inlier_ratio : F
  pub flip_gravity : Bool

pub record Override (F : Type 0) : Type 0 where
  pub r_imu : Matrix F
  -- the limit in force
  pub enough : ℕ
  pub scans : List (Cloud F)
  pub n_seen : ℕ
  pub done : Bool
  pub active : Bool

abbrev pub min_points_floor : ℕ
min_points_floor = 2500

abbrev pub max_scans : ℕ
max_scans = 60

module _ {A : Type 0} where
  -- `sum(len(s) for s in scans)`, and `np.vstack(scans)`
  unfoldable pub total : List (List A) → ℕ
  total [] = 0
  total (s ∷ scans) = length s + total scans

  unfoldable pub stacked : List (List A) → List A
  stacked [] = []
  stacked (s ∷ scans) = s ++ stacked scans

  unfoldable pub pooled : List A → List (List A) → List (List A)
  pooled [] scans = scans
  pooled (p ∷ pts) scans = scans ++ (p ∷ pts) ∷ []

module _ {F : Type 0} ⦃d : Double F⦄ where
  -- `__init__`, with the rotation of the IMU's quaternion.
  unfoldable pub init : Settings F → Matrix F → Override F
  init c imu = record {
    r_imu = if c.flip_gravity then mat_mul flip imu else imu;
    enough = if ltb c.min_points min_points_floor then min_points_floor else c.min_points;
    scans = [];
    n_seen = 0;
    done = false;
    active = false;
  }

  -- A rejected fit starts over with fresh scans.
  unfoldable pub retry : Override F → Override F
  retry s = record s { scans = []; n_seen = 0; done = false }

  unfoldable pub relabelled : Settings F → Message F → Message F
  relabelled c msg = record msg { frame = c.output_frame }

  module _ ⦃num : Numerics F⦄ ⦃tools : FloorTools F⦄ where
    open tools use {angle_deg, as_quat}

    unfoldable pub world_points : Override F → Cloud F
    world_points s = map (turn_point s.r_imu) (stacked s.scans)

    -- `n_cands < 200`
    unfoldable pub is_starved : Cloud F → Bool
    is_starved pts = ltb (length pts) 200 || ltb (length (candidates pts)) 200

    unfoldable pub transform_of : Fit F → Override F → Transform F
    transform_of fit s = record {
      translation = record { x = nought; y = nought; z = fit.offset };
      rotation = as_quat (mat_mul (rotation_to_align fit.normal up) s.r_imu);
    }

    -- `_compute`
    unfoldable pub compute : Settings F → Override F → Override F × List (Effect F)
    compute c s =
        let fit = fit_floor_normal (world_points s) in
        if is_starved (world_points s)
        then (s, shut_down ∷ exit_starved ∷ [])
        else if lt fit.ratio c.min_inlier_ratio
        then (retry s, [])
        else if lt c.max_correction_deg (angle_deg fit.normal.z)
        then (retry s, [])
        else if not c.publish
        then (s, shut_down ∷ [])
        else (record s { active = true; scans = [] }, static_transform (transform_of fit s) ∷ [])

    -- The first lines of `_on_cloud` on a cloud that is pooled.
    unfoldable pub pool : Cloud F → Override F → Override F
    pool pts s = record s { scans = pooled pts s.scans; n_seen = s.n_seen + 1 }

    unfoldable pub is_full : Override F → Bool
    is_full s = leb s.enough (total s.scans) || leb max_scans s.n_seen

    -- `_on_cloud`
    unfoldable pub on_cloud : Settings F → Message F → Override F → Override F × List (Effect F)
    on_cloud c msg s =
        if s.active
        then (s, relay (relabelled c msg) ∷ [])
        else if s.done
        then (s, [])
        else (let filled = pool msg.points s in
            let (next, effects) = compute c (record filled { done = true }) in
            if is_full filled
            then (next, effects ++ (if next.active then relay (relabelled c msg) ∷ [] else []))
            else (filled, []))

    -- The effects of a sequence of clouds.
    unfoldable pub run : Settings F → List (Message F) → Override F → Override F × List (Effect F)
    run c [] s = (s, [])
    run c (msg ∷ msgs) s =
        let next = on_cloud c msg s in let rest = run c msgs next.0 in (rest.0, next.1 ++ rest.1)
