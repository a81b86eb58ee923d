-- ===== src/Examples/Maps.antt =====
-- scripts/align_pcd_floor.py and scripts/make_nav2_map.py: their theorems at a concrete file and cloud.
use humanoid_navigation.Prelude.{
  ℕ, zero, suc, ◌+◌, ◌≡◌, ◌<◌, ◌==◌, sym, ap, ◌∙◌, inl, inr, refl, Bool, true, false, ◌&&◌, ◌||◌,
  List, [], ◌∷◌, ◌++◌, length, some, codes, arith, Bool-cases,
}
use humanoid_navigation.Prelude.Int.{ℤ, pos, negsuc}
use humanoid_navigation.Prelude.Result.{ok}
use humanoid_navigation.Double.{nought, py_abs}
use humanoid_navigation.Double.Fixed.{Fixed, scale, fixed_double, fixed_libm}
use humanoid_navigation.Navigation.{Point}
use humanoid_navigation.Localizer.{Numerics, Cloud}
use humanoid_navigation.Bytes.{frombuffer}
use humanoid_navigation.MapTools.{
  starts_with, lstrip, rstrip, strip, is_ascii, split_from, split, eq_texts, digits_from, int_of,
}
use humanoid_navigation.MapTools.Pcd.{
  Sample, readline, header_turn, header_loop, words_of, value_of, points_of, checked_points,
  samples, shaped, decode, read_binary_pcd,
}
use humanoid_navigation.MapTools.Align.{Floor, align_pcd}
use humanoid_navigation.MapTools.Rewrite.{Outcome, align_pcd-Outcome}
use humanoid_navigation.Prelude.{◌-◌, ◌*◌, ltb, if◌then◌else◌}
use humanoid_navigation.MapTools.Grid.{
  GridTools, gap, IsDilation, Arguments, Frame, NavMap, image, nav_map, frame_of, to_int, low_edge,
  high_edge, lowest, highest,
}
use humanoid_navigation.MapTools.Load.{load_xyz}
use humanoid_navigation.MapTools.Outputs.{
  Outputs, yaml_of, preview_color, statistics_of, outputs, main,
}
use humanoid_navigation.MapTools.Report.{
  Occupancy, occupied_cell, free_cell, unknown_cell, IsTrinary,
}
use humanoid_navigation.MapTools.Turns.{is_plain}
use humanoid_navigation.MapTools.Pipeline.{aligned_points, align_pcd-main}
use humanoid_navigation.MapTools.Ends.{Ends, main-Ends}
use humanoid_navigation.Examples.Clouds.{whole, whole-IsSingle, wide}

abbrev sec : Fixed
sec = some (pos 10_000)

instance abbrev map_numerics : Numerics Fixed
map_numerics = record {
  inf = some (pos 100_000_000_000_000);
  norm2 = λ x y. fixed_double.add (py_abs x) (py_abs y);
  norm3 = λ x y z. fixed_double.add (py_abs x) (fixed_double.add (py_abs y) (py_abs z));
  quantile = λ xs q. nought;
  centroid = λ pts. record { x = nought; y = nought; z = nought };
  modulo = λ x m. x;
  voxel_downsample = λ v pts. pts;
}

abbrev line : List ℕ → List ℕ
line text = text ++ 10 ∷ []

abbrev header : List (List ℕ)
header =
    line (codes "# .PCD v0.7")
    ∷ line (codes "FIELDS x y z intensity normal_x normal_y normal_z curvature")
    ∷ line (codes "SIZE 4 4 4 4 4 4 4 4")
    ∷ line (codes "TYPE F F F F F F F F")
    ∷ line (codes "POINTS 1")
    ∷ line (codes "DATA binary")
    ∷ []

abbrev word : ℕ → List ℕ
word n = n ∷ 0 ∷ 0 ∷ 0 ∷ []

abbrev payload : List ℕ
payload = word 3 ++ word 10 ++ word 4 ++ word 7 ++ word 0 ++ word 0 ++ word 1 ++ word 2

abbrev file : List ℕ
file =
    line (codes "# .PCD v0.7")
    ++ line (codes "FIELDS x y z intensity normal_x normal_y normal_z curvature")
    ++ line (codes "SIZE 4 4 4 4 4 4 4 4")
    ++ line (codes "TYPE F F F F F F F F")
    ++ line (codes "POINTS 1")
    ++ line (codes "DATA binary")
    ++ payload

abbrev sample : Sample ℕ
sample = record {
  at = record { x = 3; y = 10; z = 4 };
  intensity = 7;
  normal = record { x = 0; y = 0; z = 1 };
  curvature = 2;
}

file_reads : read_binary_pcd (suc (length file)) file ≡ some (ok (header, sample ∷ []))
unfolding read_binary_pcd decode shaped samples checked_points points_of value_of words_of
    header_loop header_turn readline frombuffer starts_with lstrip rstrip strip is_ascii split_from
    split eq_texts digits_from int_of
file_reads = refl

abbrev slope : Floor Fixed
slope = record { a = some (pos 100); b = nought; c = sec }

abbrev norm32 : Point ℕ → Fixed
norm32 p = some (pos (p.x + p.y + p.z))

align_pcd-Outcome_example : Outcome wide norm32 slope file
align_pcd-Outcome_example = align_pcd-Outcome wide norm32 whole-IsSingle slope file

any_below : ℕ → (ℕ → Bool) → Bool
any_below zero p = false
any_below (suc n) p = p n || any_below n p

any_below_intro : (n i : ℕ) (p : ℕ → Bool) → i < n → p i ≡ true → any_below n p ≡ true
unfolding any_below
any_below_intro zero i p h hit = absurd (omega arith)
any_below_intro (suc n) i p h hit = elim (Bool-cases (i == n)) [
  | inl last ↦
      let at : i ≡ n = ground arith in let first = sym (ap p at) ∙ hit in ground (arith, first)
  | inr other ↦ let later = any_below_intro n i p (ground arith) hit in ground (arith, later)
]

any_below_elim : (n : ℕ) (p : ℕ → Bool) → any_below n p ≡ true → (i : ℕ) × (i < n) × (p i ≡ true)
unfolding any_below
any_below_elim zero p h = absurd (ground arith)
any_below_elim (suc n) p h = elim (Bool-cases (p n)) [
  | inl hit ↦ (n, omega arith, hit)
  | inr miss ↦ let (i, below, hit) = any_below_elim n p (ground arith) in (i, omega arith, hit)
]

abbrev scaled : ℤ → ℤ
scaled (pos n) = pos (n * scale)
scaled (negsuc n) = negsuc (n * scale + (scale - 1))

-- The dilation as scipy documents it, pixel by pixel; stand-ins for the rest.
abbrev grid_tools : GridTools Fixed
grid_tools = record {
  ceil = fixed_libm.floor;
  nearest = fixed_libm.floor;
  float = λ z. some (scaled z);
  dilation =
      λ h w shape g r c. any_below h (λ a. any_below w (λ b. g a b && shape (gap a r) (gap b c)));
  closing = λ h w shape g. g;
}

grid_tools-IsDilation : IsDilation grid_tools
grid_tools-IsDilation = record {
  covers = λ h w shape g r c a b _ _ row column set near.
      any_below_intro h a _ row (any_below_intro w b _ column (ground (arith, set, near)));
  comes_from = λ h w shape g r c set.
      let (a, row, in_row) = any_below_elim h _ set in
      let (b, column, hit) = any_below_elim w _ in_row in
      (a, b, row, column, ground (arith, hit), ground (arith, hit));
}

abbrev arguments : Arguments Fixed
arguments = record {
  resolution = sec;
  padding = sec;
  floor_min = nought;
  floor_max = some (pos 800);
  obstacle_min = some (pos 1_200);
  obstacle_max = some (pos 17_000);
  free_support_radius = sec;
  obstacle_seal_radius = sec;
}

header_is_plain : is_plain header ≡ true
unfolding split split_from
header_is_plain = refl

align_pcd-main_example :
    (out : List ℕ) × (align_pcd wide norm32 slope file ≡ some (ok out))
    × (load_xyz wide out
        ≡ some (ok (aligned_points wide norm32 grid_tools arguments slope (sample ∷ []))))
    × (main grid_tools wide arguments out
        ≡ some (
            outputs grid_tools arguments
              (aligned_points wide norm32 grid_tools arguments slope (sample ∷ []))))
align_pcd-main_example =
    align_pcd-main wide norm32 grid_tools arguments whole-IsSingle slope file header (sample ∷ [])
      file_reads header_is_plain

abbrev wall : Cloud Fixed
wall = record { x = sec; y = sec; z = some (pos 13_000) } ∷ []

abbrev map_of_wall : NavMap Fixed
map_of_wall =
    let frame : Frame Fixed = record { xmin = nought; ymin = nought; height = 3; width = 3 } in
    record { frame = frame; image = image grid_tools arguments frame wall }

abbrev outputs_of_wall : Outputs Fixed
outputs_of_wall = record {
  map = map_of_wall;
  yaml = yaml_of arguments map_of_wall;
  preview = λ r c. preview_color (map_of_wall.image r c);
  statistics = statistics_of grid_tools arguments wall map_of_wall;
}

outputs-wall : outputs grid_tools arguments wall ≡ ok outputs_of_wall
unfolding outputs nav_map frame_of to_int low_edge high_edge lowest highest
outputs-wall = refl

-- The map server's rule.
abbrev trinary : ℕ → ℕ → ℕ → ℕ → Occupancy
trinary negate high low v =
    if ltb (high * 255) ((255 - v) * 1_000)
    then occupied_cell
    else if ltb ((255 - v) * 1_000) (low * 255)
    then free_cell
    else unknown_cell

trinary-IsTrinary : IsTrinary trinary
trinary-IsTrinary = record {
  dark = λ high low v byte above. ground arith;
  bright = λ high low v byte below above. ground arith;
  between = λ high low v byte below above. ground arith;
}

main-Ends_example : Ends wide grid_tools arguments trinary file
main-Ends_example =
    main-Ends wide grid_tools arguments trinary grid_tools-IsDilation trinary-IsTrinary file
