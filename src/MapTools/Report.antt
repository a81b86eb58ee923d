-- ===== src/MapTools/Report.antt =====
-- The outputs of scripts/make_nav2_map.py: the printed numbers, and what Nav2 reads from the image by the yaml file.
use humanoid_navigation.Prelude.{
  ℕ, zero, suc, ◌+◌, ◌-◌, ◌*◌, ◌≤◌, ◌<◌, ◌≡◌, refl, sym, ap, ◌∙◌, Bool, true, false, ◌==◌,
  if◌then◌else◌, arith,
}
use mathlib.Core.Path.{fun_ext, subst}
use humanoid_navigation.Prelude.Result.{ok, both_return, ok-injective}
use humanoid_navigation.Double.{Double, LibM}
use humanoid_navigation.Localizer.{Cloud}
use humanoid_navigation.MapTools.Grid.{
  Pixels, GridTools, IsDilation, Arguments, NavMap, free, occupied, supported, image, nav_map,
}
use humanoid_navigation.MapTools.Pixels.{any, blocks, image-pixel}
use humanoid_navigation.MapTools.Make.{nav_map_image}
use humanoid_navigation.MapTools.Outputs.{
  gray_tone, Outputs, count_row, count, preview_color, yaml_of, statistics_of, outputs,
}

abbrev bit : Bool → ℕ
bit b = if b then 1 else 0

-- Three sets of columns of which each column is in one, and three sets of pixels.
partition_row :
    (w : ℕ) (f g k : ℕ → Bool)
    → ((c : ℕ) → bit (f c) + bit (g c) + bit (k c) ≡ 1)
    → count_row w f + count_row w g + count_row w k ≡ w
unfolding count_row
partition_row zero f g k one = omega arith
partition_row (suc n) f g k one = omega (arith, one n, partition_row n f g k one)

partition :
    (w h : ℕ) (f g k : Pixels)
    → ((r c : ℕ) → bit (f r c) + bit (g r c) + bit (k r c) ≡ 1)
    → count h w f + count h w g + count h w k ≡ w * h
unfolding count
partition w zero f g k one = omega arith
partition w (suc h) f g k one =
    omega (arith, partition_row w (f h) (g h) (k h) (one h), partition w h f g k one)

-- What Nav2's map server makes of a pixel.
pub data Occupancy : Type 0 where
  occupied_cell : Occupancy
  free_cell : Occupancy
  unknown_cell : Occupancy

-- What is documented of the trinary mode, where `negate` is 0: a pixel is as dark as (255 - value) / 255; it
-- is occupied where that is above one threshold, free where that is below the other, and unknown else.
-- The thresholds are in thousandths.
pub record IsTrinary (read : ℕ → ℕ → ℕ → ℕ → Occupancy) : Type 0 where
  pub dark :
      (high low v : ℕ) → v ≤ 255 → high * 255 < (255 - v) * 1000 → read 0 high low v ≡ occupied_cell
  pub bright :
      (high low v : ℕ)
      → v ≤ 255
      → (255 - v) * 1000 ≤ high * 255
      → (255 - v) * 1000 < low * 255
      → read 0 high low v ≡ free_cell
  pub between :
      (high low v : ℕ)
      → v ≤ 255
      → (255 - v) * 1000 ≤ high * 255
      → low * 255 ≤ (255 - v) * 1000
      → read 0 high low v ≡ unknown_cell

module _ {F : Type 0} ⦃d : Double F⦄ ⦃m : LibM F⦄ (tools : GridTools F) (args : Arguments F) where
  one_color :
      (xyz : Cloud F) (map : NavMap F) (r c : ℕ)
      → bit (free tools args map.frame xyz r c)
          + bit (occupied tools args map.frame xyz r c)
          + bit (image tools args map.frame xyz r c == 205)
        ≡ 1
  unfolding image free
  one_color xyz map r c = ground arith

  free-white :
      (xyz : Cloud F) (map : NavMap F) (r c : ℕ)
      → free tools args map.frame xyz r c ≡ (image tools args map.frame xyz r c == 254)
  unfolding image free
  free-white xyz map r c = ground arith

  occupied-black :
      (xyz : Cloud F) (map : NavMap F) (r c : ℕ)
      → occupied tools args map.frame xyz r c ≡ (image tools args map.frame xyz r c == 0)
  unfolding image free
  occupied-black xyz map r c = ground arith

  -- The numbers of cells of an output, against its image.
  pub IsCounted : Outputs F → Type 0
  IsCounted o =
      let h = o.map.frame.height in
      let w = o.map.frame.width in
      let s = o.statistics in
      (s.free_cells + s.occupied_cells + s.unknown_cells ≡ s.total)
      × (s.total ≡ w * h)
      × (s.free_cells ≡ count h w (λ r c. o.map.image r c == 254))
      × (s.occupied_cells ≡ count h w (λ r c. o.map.image r c == 0))

  statistics-IsCounted :
      (xyz : Cloud F) (map : NavMap F)
      → map.image ≡ image tools args map.frame xyz
      → IsCounted (record {
        map = map;
        yaml = yaml_of args map;
        preview = λ r c. preview_color (map.image r c);
        statistics = statistics_of tools args xyz map;
      })
  unfolding statistics_of IsCounted
  statistics-IsCounted xyz map same =
      let h : ℕ = map.frame.height in
      let w : ℕ = map.frame.width in
      (
        ap
              (λ (g : ℕ → ℕ → ℕ).
                count h w (free tools args map.frame xyz)
                + count h w (occupied tools args map.frame xyz)
                + count h w (λ r c. g r c == 205))
              same
            ∙ partition w h (free tools args map.frame xyz) (occupied tools args map.frame xyz) _
                (one_color xyz map),
        refl,
        ap (count h w) (fun_ext λ r. fun_ext λ c. free-white xyz map r c)
            ∙ ap (λ (g : ℕ → ℕ → ℕ). count h w (λ r c. g r c == 254)) (sym same),
        ap (count h w) (fun_ext λ r. fun_ext λ c. occupied-black xyz map r c)
            ∙ ap (λ (g : ℕ → ℕ → ℕ). count h w (λ r c. g r c == 0)) (sym same),
      )

  -- For every cloud and arguments: where the tool comes to its outputs, the free, the occupied and the
  -- unknown cells that it prints are as many as the width times the height together, and the free
  -- and the occupied ones are as many as the white and the black pixels of its image.
  pub outputs-IsCounted :
      (xyz : Cloud F) (o : Outputs F) → outputs tools args xyz ≡ ok o → IsCounted o
  unfolding outputs
  outputs-IsCounted xyz o h =
      let (map, made, same) = both_return (nav_map tools args xyz) _ h in
      subst IsCounted (ok-injective same)
        (statistics-IsCounted xyz map (nav_map_image tools args xyz map made))

  -- What a cell is, from the points of the cloud.
  abbrev pub truth : Cloud F → NavMap F → ℕ → ℕ → Occupancy
  truth xyz map r c =
      if any (blocks args map.frame tools r c) xyz
      then occupied_cell
      else if supported tools args map.frame xyz r c
      then free_cell
      else unknown_cell

  abbrev tone : Occupancy → ℕ
  tone occupied_cell = 0
  tone free_cell = 255
  tone unknown_cell = 110

  -- The reader of the image and the preview agree with the points at a cell.
  pub IsReadAs : (ℕ → ℕ → ℕ → ℕ → Occupancy) → Cloud F → Outputs F → ℕ → ℕ → Type 0
  IsReadAs read xyz o r c =
      (read o.yaml.negate o.yaml.occupied_thresh o.yaml.free_thresh (o.map.image r c)
        ≡ truth xyz o.map r c)
      × (o.preview r c ≡ gray_tone (tone (truth xyz o.map r c)))

  module _ (laws : IsDilation tools) (read : ℕ → ℕ → ℕ → ℕ → Occupancy)
      (reader : IsTrinary read) where
    read_tone :
        (b s : Bool)
        → let t : Occupancy = if b then occupied_cell else if s then free_cell else unknown_cell in
          let v : ℕ = if b then 0 else if s then 254 else 205 in
          (read 0 650 196 v ≡ t) × (preview_color v ≡ gray_tone (tone t))
    unfolding preview_color
    read_tone true s = (reader.dark 650 196 0 (omega arith) (omega arith), refl)
    read_tone false true =
        (reader.bright 650 196 254 (omega arith) (omega arith) (omega arith), refl)
    read_tone false false =
        (reader.between 650 196 205 (omega arith) (omega arith) (omega arith), refl)

    -- Where scipy's dilation and Nav2's trinary mode are as documented: at each cell of the grid, what Nav2
    -- reads from the image by the thresholds of the yaml file is occupied just if a point of the height
    -- of an obstacle has its cell within the seal radius, else free just if the closed and dilated
    -- floor holds the cell, else unknown; and the preview shows it black, white or gray.
    pub outputs-IsReadAs :
        (xyz : Cloud F) (o : Outputs F) (r c : ℕ)
        → outputs tools args xyz ≡ ok o
        → r < o.map.frame.height
        → c < o.map.frame.width
        → IsReadAs read xyz o r c
    unfolding outputs IsReadAs yaml_of
    outputs-IsReadAs xyz o r c h row column =
        let (map, made, same) = both_return (nav_map tools args xyz) _ h in
        let e = ok-injective same in
        subst
          (λ (t : Outputs F).
            r < t.map.frame.height → c < t.map.frame.width → IsReadAs read xyz t r c)
          e
          (λ row column.
            let pixel =
              ap (λ (g : ℕ → ℕ → ℕ). g r c) (nav_map_image tools args xyz map made)
              ∙ image-pixel args map.frame tools laws xyz r c row column in
            let (seen, shown) =
              read_tone (any (blocks args map.frame tools r c) xyz)
                (supported tools args map.frame xyz r c) in
            (ap (read 0 650 196) pixel ∙ seen, ap preview_color pixel ∙ shown))
          row column
