-- ===== src/MapTools/Grid.antt =====
-- `main` of scripts/make_nav2_map.py: the occupancy grid of a cloud. What `math.ceil`, `round` and scipy's
-- morphology compute are parameters.
use humanoid_navigation.Prelude.{
  ℕ, zero, suc, ◌+◌, ◌-◌, ◌*◌, ◌≡◌, ◌<◌, Bool, true, false, ◌&&◌, ◌||◌, not, Option, none, some, [],
  ◌∷◌, ltb, leb, ◌==◌, if◌then◌else◌,
}
use humanoid_navigation.Prelude.Int.{ℤ, pos, negsuc}
use humanoid_navigation.Prelude.Result.{Result, ok, raised, value_error, overflow_error, ◌>>=◌}
use humanoid_navigation.Double.{Double, LibM, le, is_finite, py_min, py_max}
use humanoid_navigation.Navigation.{Point}
use humanoid_navigation.Localizer.{Cloud}
use humanoid_navigation.Localizer.Node.{masked}

-- A Boolean array, by row and column.
abbrev pub Pixels : Type 0
Pixels = ℕ → ℕ → Bool

-- A structuring element that is symmetric in rows and in columns: whether it holds an offset, by the
-- sizes of its parts.
abbrev pub Shape : Type 0
Shape = ℕ → ℕ → Bool

-- `math.ceil`, `round` to a whole number, and `float`; `ndimage.binary_dilation` and
-- `ndimage.binary_closing` on an array of the given height and width.
pub record GridTools (F : Type 0) : Type 0 where
  pub ceil : F → ℤ
  pub nearest : F → ℤ
  pub float : ℤ → F
  pub dilation : ℕ → ℕ → Shape → Pixels → Pixels
  pub closing : ℕ → ℕ → Shape → Pixels → Pixels

-- The difference of two numbers, without its sign.
abbrev pub gap : ℕ → ℕ → ℕ
gap a b = (a - b) + (b - a)

-- What scipy documents of the dilation: a pixel is set just if the structure around it meets a pixel of the
-- input that is set; outside of the array nothing is.
pub record IsDilation {F : Type 0} (tools : GridTools F) : Type 0 where
  pub covers :
      (h w : ℕ) (shape : Shape) (g : Pixels) (r c a b : ℕ)
      → r < h
      → c < w
      → a < h
      → b < w
      → g a b ≡ true
      → shape (gap a r) (gap b c) ≡ true
      → tools.dilation h w shape g r c ≡ true
  pub comes_from :
      (h w : ℕ) (shape : Shape) (g : Pixels) (r c : ℕ)
      → tools.dilation h w shape g r c ≡ true
      → (a : ℕ) × (b : ℕ) × (a < h) × (b < w) × (g a b ≡ true) × (shape (gap a r) (gap b c) ≡ true)

-- The arguments of the command line.
pub record Arguments (F : Type 0) : Type 0 where
  pub resolution : F
  pub padding : F
  pub floor_min : F
  pub floor_max : F
  pub obstacle_min : F
  pub obstacle_max : F
  pub free_support_radius : F
  pub obstacle_seal_radius : F

-- The grid's lower left corner and its size.
pub record Frame (F : Type 0) : Type 0 where
  pub xmin : F
  pub ymin : F
  pub height : ℕ
  pub width : ℕ

-- The image, and the frame that the yaml file gives it.
pub record NavMap (F : Type 0) : Type 0 where
  pub frame : Frame F
  pub image : ℕ → ℕ → ℕ

unfoldable pub disk : ℕ → Shape
disk radius y x = leb (x * x + y * y) (radius * radius)

abbrev pub is_cell : Option (ℕ × ℕ) → ℕ → ℕ → Bool
is_cell none r c = false
is_cell (some (a, b)) r c = a == r && b == c

-- The row and the column, where both are in the grid. Rows are counted from the top.
unfoldable pub cell_at : ℕ → ℕ → ℤ → ℤ → Option (ℕ × ℕ)
cell_at height width (pos col) (pos up) =
    if ltb col width && ltb up height then some (height - 1 - up, col) else none
cell_at height width _ _ = none

-- The size of an array, which cannot be negative.
abbrev size : ℤ → Result ℕ
size (pos n) = ok n
size (negsuc n) = raised value_error

abbrev add_one : ℤ → ℤ
add_one (pos n) = pos (n + 1)
add_one (negsuc zero) = pos 0
add_one (negsuc (suc n)) = negsuc n

-- `max(1, n)`
abbrev at_least_one : ℤ → ℕ
at_least_one (pos n) = if leb n 1 then 1 else n
at_least_one (negsuc n) = 1

module _ {F : Type 0} ⦃d : Double F⦄ where
  open d use {is_nan, add, sub, mul, div}

  -- `xyz[:, i].min()` and `.max()`
  unfoldable pub lowest : (Point F → F) → Cloud F → Result F
  lowest axis [] = raised value_error
  lowest axis (p ∷ []) = ok (axis p)
  lowest axis (p ∷ q ∷ pts) = lowest axis (q ∷ pts) >>= λ v. ok (py_min (axis p) v)

  unfoldable pub highest : (Point F → F) → Cloud F → Result F
  highest axis [] = raised value_error
  highest axis (p ∷ []) = ok (axis p)
  highest axis (p ∷ q ∷ pts) = highest axis (q ∷ pts) >>= λ v. ok (py_max (axis p) v)

  -- `(xyz[:, 2] >= low) & (xyz[:, 2] <= high)`
  unfoldable pub in_band : F → F → Point F → Bool
  in_band low high p = le low p.z && le p.z high

  module _ ⦃m : LibM F⦄ where
    open m use {floor}

    -- The cell of a point.
    unfoldable pub cell : Arguments F → Frame F → Point F → Option (ℕ × ℕ)
    cell args f p =
        cell_at f.height f.width (floor (div (sub p.x f.xmin) args.resolution))
          (floor (div (sub p.y f.ymin) args.resolution))

    -- `hits[rows, cols] = True` on zeros
    unfoldable pub hits : Arguments F → Frame F → Cloud F → Pixels
    hits args f [] r c = false
    hits args f (p ∷ pts) r c = is_cell (cell args f p) r c || hits args f pts r c

    module _ (tools : GridTools F) where
      -- `math.floor`, `math.ceil` and `int(round(...))`, which raise on a number that is not finite.
      unfoldable pub to_int : (F → ℤ) → F → Result ℤ
      to_int f v =
          if is_nan v
          then raised value_error
          else if is_finite v
          then ok (f v)
          else raised overflow_error

      -- `xmin` and `ymin`, from the least coordinate; `xmax` and `ymax`, from the largest.
      unfoldable pub low_edge : Arguments F → F → Result F
      low_edge args v = to_int floor (div (sub v args.padding) args.resolution) >>= λ n.
          ok (mul (tools.float n) args.resolution)

      unfoldable pub high_edge : Arguments F → F → Result F
      high_edge args v = to_int tools.ceil (div (add v args.padding) args.resolution) >>= λ n.
          ok (mul (tools.float n) args.resolution)

      unfoldable pub frame_of : Arguments F → Cloud F → Result (Frame F)
      frame_of args xyz = do
        x0 ← lowest (λ p. p.x) xyz
        xmin ← low_edge args x0
        y0 ← lowest (λ p. p.y) xyz
        ymin ← low_edge args y0
        x1 ← highest (λ p. p.x) xyz
        xmax ← high_edge args x1
        y1 ← highest (λ p. p.y) xyz
        ymax ← high_edge args y1
        columns ← to_int tools.nearest (div (sub xmax xmin) args.resolution)
        lines ← to_int tools.nearest (div (sub ymax ymin) args.resolution)
        height ← size (add_one lines)
        width ← size (add_one columns)
        ok (record { xmin = xmin; ymin = ymin; height = height; width = width })

      -- The number of cells in a radius.
      unfoldable pub radius_cells : Arguments F → F → ℕ
      radius_cells args radius = at_least_one (tools.nearest (div radius args.resolution))

      -- `free` before the occupied cells are taken out, and `occupied`.
      unfoldable pub supported : Arguments F → Frame F → Cloud F → Pixels
      supported args f xyz =
          let shape = disk (radius_cells args args.free_support_radius) in
          let floor_hits = hits args f (masked (in_band args.floor_min args.floor_max) xyz) in
          tools.closing f.height f.width shape (tools.dilation f.height f.width shape floor_hits)

      unfoldable pub occupied : Arguments F → Frame F → Cloud F → Pixels
      occupied args f xyz =
          let obstacle_hits =
            hits args f (masked (in_band args.obstacle_min args.obstacle_max) xyz) in
          tools.dilation f.height f.width (disk (radius_cells args args.obstacle_seal_radius))
            obstacle_hits

      unfoldable pub free : Arguments F → Frame F → Cloud F → Pixels
      free args f xyz r c = supported args f xyz r c && not (occupied args f xyz r c)

      -- Gray, then white, then black.
      unfoldable pub image : Arguments F → Frame F → Cloud F → ℕ → ℕ → ℕ
      image args f xyz r c =
          let gray : ℕ = 205 in
          let whitened : ℕ = if free args f xyz r c then 254 else gray in
          if occupied args f xyz r c then 0 else whitened

      -- The image in its frame, where both radii are numbers of cells.
      unfoldable pub nav_map : Arguments F → Cloud F → Result (NavMap F)
      nav_map args xyz = do
        f ← frame_of args xyz
        free_radius ← to_int tools.nearest (div args.free_support_radius args.resolution)
        seal_radius ← to_int tools.nearest (div args.obstacle_seal_radius args.resolution)
        ok (record { frame = f; image = image args f xyz })
