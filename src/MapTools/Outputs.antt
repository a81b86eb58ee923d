-- ===== src/MapTools/Outputs.antt =====
-- What scripts/make_nav2_map.py writes next to the image, and what it prints: the yaml file, the preview and the
-- numbers of cells.
use humanoid_navigation.Prelude.{
  ℕ, zero, suc, ◌+◌, ◌*◌, Bool, codes, List, length, ◌==◌, if◌then◌else◌, Option,
}
use mathlib.Core.Option
use humanoid_navigation.Prelude.Result.{Result, ok, ◌>>=◌}
use humanoid_navigation.Double.{Double, LibM}
use humanoid_navigation.Localizer.{Cloud}
use humanoid_navigation.Localizer.Node.{masked}
use humanoid_navigation.Bytes.{Single, Convert}
use humanoid_navigation.MapTools.{Text}
use humanoid_navigation.MapTools.Load.{load_xyz}
use humanoid_navigation.MapTools.Grid.{
  Pixels, GridTools, Arguments, NavMap, in_band, free, occupied, nav_map,
}

-- The content of the yaml file; the thresholds are in thousandths.
pub record Yaml (F : Type 0) : Type 0 where
  pub image_name : Text
  pub resolution : F
  pub origin_x : F
  pub origin_y : F
  pub negate : ℕ
  pub occupied_thresh : ℕ
  pub free_thresh : ℕ
  pub mode : Text

-- The numbers of points and of cells that are printed.
pub record Statistics : Type 0 where
  pub floor_points : ℕ
  pub obstacle_points : ℕ
  pub free_cells : ℕ
  pub occupied_cells : ℕ
  pub unknown_cells : ℕ
  pub total : ℕ

pub record Color : Type 0 where
  pub red : ℕ
  pub green : ℕ
  pub blue : ℕ

abbrev pub gray_tone : ℕ → Color
gray_tone n = record { red = n; green = n; blue = n }

pub record Outputs (F : Type 0) : Type 0 where
  pub map : NavMap F
  pub yaml : Yaml F
  pub preview : ℕ → ℕ → Color
  pub statistics : Statistics

-- The pixels that are set in the first `w` columns of a row, and in the first `h` rows.
unfoldable pub count_row : ℕ → (ℕ → Bool) → ℕ
count_row zero row = 0
count_row (suc w) row = (if row w then 1 else 0) + count_row w row

-- `grid.sum()` of a Boolean array of the given height and width.
unfoldable pub count : ℕ → ℕ → Pixels → ℕ
count zero w grid = 0
count (suc h) w grid = count_row w (grid h) + count h w grid

-- Each of the three assignments by mask, on zeros.
unfoldable pub preview_color : ℕ → Color
preview_color v =
    let zeros = gray_tone 0 in
    let grayed = if v == 205 then gray_tone 110 else zeros in
    let whitened = if v == 254 then gray_tone 255 else grayed in
    if v == 0 then gray_tone 0 else whitened

module _ {F : Type 0} where
  unfoldable pub yaml_of : Arguments F → NavMap F → Yaml F
  yaml_of args m = record {
    image_name = codes "teaching_lab_nav.pgm";
    resolution = args.resolution;
    origin_x = m.frame.xmin;
    origin_y = m.frame.ymin;
    negate = 0;
    occupied_thresh = 650;
    free_thresh = 196;
    mode = codes "trinary";
  }

  module _ ⦃d : Double F⦄ ⦃m : LibM F⦄ (tools : GridTools F) where
    unfoldable pub statistics_of : Arguments F → Cloud F → NavMap F → Statistics
    statistics_of args xyz map =
        let h : ℕ = map.frame.height in
        let w : ℕ = map.frame.width in
        record {
          floor_points = length (masked (in_band args.floor_min args.floor_max) xyz);
          obstacle_points = length (masked (in_band args.obstacle_min args.obstacle_max) xyz);
          free_cells = count h w (free tools args map.frame xyz);
          occupied_cells = count h w (occupied tools args map.frame xyz);
          unknown_cells = count h w (λ r c. map.image r c == 205);
          total = w * h;
        }

    unfoldable pub outputs : Arguments F → Cloud F → Result (Outputs F)
    outputs args xyz = nav_map tools args xyz >>= λ (map : NavMap F). ok (record {
      map = map;
      yaml = yaml_of args map;
      preview = λ r c. preview_color (map.image r c);
      statistics = statistics_of args xyz map;
    })

    -- The whole tool, on the bytes of the cloud's file.
    unfoldable pub main :
        {S : Type 0} ⦃single : Single S⦄
        → Convert F S
        → Arguments F
        → List ℕ
        → Option (Result (Outputs F))
    main conv args file =
        Option.map (λ (r : Result (Cloud F)). r >>= outputs args) (load_xyz conv file)
