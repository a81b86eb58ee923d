-- ===== src/MapTools/Pixels.antt =====
-- The image of scripts/make_nav2_map.py, pixel by pixel.
use humanoid_navigation.Prelude.{
  ℕ, ◌-◌, ◌≡◌, ◌<◌, refl, ap, sym, Bool, true, false, ◌&&◌, ◌||◌, Option, none, some, List, [], ◌∷◌,
  ltb, if◌then◌else◌, arith, Bool-cases, inl, inr,
}
use humanoid_navigation.Prelude.Int.{ℤ, pos, negsuc}
use mathlib.Core.Option.{some-injective, some-ne-none}
use humanoid_navigation.Double.{Double, LibM}
use humanoid_navigation.Navigation.{Point}
use humanoid_navigation.Localizer.{Cloud}
use humanoid_navigation.Localizer.Node.{masked}
use humanoid_navigation.MapTools.Grid.{
  Shape, GridTools, gap, IsDilation, Arguments, Frame, disk, in_band, cell_at, cell, is_cell, hits,
  radius_cells, supported, occupied, free, image,
}

abbrev pub any {ℓ} : {A : Type ℓ} → (A → Bool) → List A → Bool
any p [] = false
any p (a ∷ xs) = p a || any p xs

-- Truth values that imply each other.
same_truth : (a b : Bool) → (a ≡ true → b ≡ true) → (b ≡ true → a ≡ true) → a ≡ b
same_truth true b p q = sym (p refl)
same_truth false true p q = q refl
same_truth false false p q = refl

abbrev meets : Shape → Option (ℕ × ℕ) → ℕ → ℕ → Bool
meets shape none r c = false
meets shape (some (a, b)) r c = shape (gap a r) (gap b c)

meets-is_cell :
    (shape : Shape) (o : Option (ℕ × ℕ)) (a b r c : ℕ)
    → is_cell o a b ≡ true
    → shape (gap a r) (gap b c) ≡ true
    → meets shape o r c ≡ true
meets-is_cell shape none a b r c hit near = absurd (ground arith)
meets-is_cell shape (some (x, y)) a b r c hit near =
    let p : x ≡ a = ground arith in let q : y ≡ b = ground arith in rw (p, q) near

is_cell-some : {o : Option (ℕ × ℕ)} (a b : ℕ) → o ≡ some (a, b) → is_cell o a b ≡ true
is_cell-some a b e = rw e (ground arith)

if-eq-some {ℓ} :
    {A : Type ℓ} (b : Bool) (x : A) {y : A}
    → (if b then some x else none) ≡ some y
    → (b ≡ true) × (x ≡ y)
if-eq-some true x h = (refl, some-injective _ _ h)
if-eq-some false x h = absurd (some-ne-none _ (sym h))

-- A pixel is met by a cell.
met :
    (shape : Shape) (o : Option (ℕ × ℕ)) (r c : ℕ)
    → meets shape o r c ≡ true
    → (a : ℕ) × (b : ℕ) × (o ≡ some (a, b)) × (shape (gap a r) (gap b c) ≡ true)
met shape none r c h = absurd (ground arith)
met shape (some (a, b)) r c h = (a, b, refl, h)

cell_at_bounds :
    (height width : ℕ) (col up : ℤ) (a b : ℕ)
    → cell_at height width col up ≡ some (a, b)
    → (a < height) × (b < width)
unfolding cell_at
cell_at_bounds height width (pos col) (pos up) a b h =
    let (inside, e) = if-eq-some (ltb col width && ltb up height) (height - 1 - up, col) h in
    let row = ap (λ t. t.0) e in let column = ap (λ t. t.1) e in (ground arith, ground arith)
cell_at_bounds height width (negsuc col) up a b h = absurd (some-ne-none _ (sym h))
cell_at_bounds height width (pos col) (negsuc up) a b h = absurd (some-ne-none _ (sym h))

module _ {F : Type 0} ⦃d : Double F⦄ ⦃m : LibM F⦄ (args : Arguments F) (f : Frame F) where
  cell_bounds :
      (p : Point F) (a b : ℕ) → cell args f p ≡ some (a, b) → (a < f.height) × (b < f.width)
  unfolding cell
  cell_bounds p a b h = cell_at_bounds f.height f.width _ _ a b h

  module _ (keep : Point F → Bool) (shape : Shape) where
    -- A point that is kept, with a cell near the pixel.
    abbrev pub marks : ℕ → ℕ → Point F → Bool
    marks r c p = keep p && meets shape (cell args f p) r c

    hits-any :
        (xyz : Cloud F) (a b r c : ℕ)
        → hits args f (masked keep xyz) a b ≡ true
        → shape (gap a r) (gap b c) ≡ true
        → any (marks r c) xyz ≡ true
    unfolding hits masked
    hits-any [] a b r c hit near = absurd (ground arith)
    hits-any (p ∷ xyz) a b r c hit near =
        ground (arith, hits-any xyz a b r c, meets-is_cell shape (cell args f p) a b r c)

    -- Each point that marks a pixel has hit a cell near it.
    any-hits :
        (xyz : Cloud F) (r c : ℕ)
        → any (marks r c) xyz ≡ true
        → (a : ℕ) × (b : ℕ) × (a < f.height)
          × (b < f.width)
          × (hits args f (masked keep xyz) a b ≡ true)
          × (shape (gap a r) (gap b c) ≡ true)
    unfolding hits masked
    any-hits [] r c h = absurd (ground arith)
    any-hits (p ∷ xyz) r c h = elim (Bool-cases (marks r c p)) [
      | inl here ↦
          let kept : keep p ≡ true = ground arith in
          let (a, b, at, near) = met shape (cell args f p) r c (ground arith) in
          let (row, column) = cell_bounds p a b at in
          let hit = is_cell-some a b at in (a, b, row, column, ground arith, near)
      | inr later ↦
          let (a, b, row, column, hit, near) = any-hits xyz r c (ground arith) in
          (a, b, row, column, ground arith, near)
    ]

  module _ (tools : GridTools F) where
    -- A point of the height of an obstacle has its cell within the seal radius of the pixel.
    abbrev pub blocks : ℕ → ℕ → Point F → Bool
    blocks =
        marks (in_band args.obstacle_min args.obstacle_max)
          (disk (radius_cells tools args args.obstacle_seal_radius))

    pub occupied-any :
        (laws : IsDilation tools) (xyz : Cloud F) (r c : ℕ)
        → r < f.height
        → c < f.width
        → occupied tools args f xyz r c ≡ any (blocks r c) xyz
    unfolding occupied
    occupied-any laws xyz r c row column =
        let keep = in_band args.obstacle_min args.obstacle_max in
        let shape : Shape = disk (radius_cells tools args args.obstacle_seal_radius) in
        let obstacles = hits args f (masked keep xyz) in
        same_truth _ _
          (λ set.
            let (a, b, _, _, hit, near) =
              laws.comes_from f.height f.width shape obstacles r c set in
            hits-any keep shape xyz a b r c hit near)
          (λ found.
            let (a, b, row', column', hit, near) = any-hits keep shape xyz r c found in
            laws.covers f.height f.width shape obstacles r c a b row column row' column' hit near)

    -- The color of a pixel of the grid, from the points.
    pub image-pixel :
        (laws : IsDilation tools) (xyz : Cloud F) (r c : ℕ)
        → r < f.height
        → c < f.width
        → image tools args f xyz r c ≡ (
            if any (blocks r c) xyz then 0 else if supported tools args f xyz r c then 254 else 205)
    unfolding image free
    image-pixel laws xyz r c row column = ground (arith, occupied-any laws xyz r c row column)
