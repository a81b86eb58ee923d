-- ===== src/MapTools/Make.antt =====
-- scripts/make_nav2_map.py from the file to the image.
use mathlib.Core.Option
use mathlib.Core.Option.{some-injective, some-ne-none}
use mathlib.Core.Path.{subst}
use humanoid_navigation.Prelude.{
  ℕ, zero, suc, ◌≤◌, ◌<◌, ◌≡◌, ◌⊎◌, refl, ltb, Bool-cases, ap, ◌∙◌, Option, some, List, [], ◌∷◌,
  ◌++◌, length, if◌then◌else◌, if_split, arith, inl, inr,
}
use humanoid_navigation.Prelude.Result.{
  Result, Fault, ok, raised, value_error, ◌>>=◌, both_return, ok-injective,
}
use humanoid_navigation.Double.{Double, LibM}
use humanoid_navigation.Navigation.{eq_frame}
use humanoid_navigation.Localizer.{Cloud}
use humanoid_navigation.Bytes.{Single, Convert}
use humanoid_navigation.MapTools.{Text, is_ascii, split, eq_texts}
use humanoid_navigation.MapTools.Pcd.{word_data, word_binary, readline}
use humanoid_navigation.MapTools.Lines.{readline-lt}
use humanoid_navigation.MapTools.Load.{load_turn, load_loop, load_xyz}
use humanoid_navigation.MapTools.Grid.{
  GridTools, IsDilation, Arguments, NavMap, supported, image, frame_of, to_int, nav_map,
}
use humanoid_navigation.MapTools.Pixels.{any, blocks, image-pixel}

-- A turn returns where the rest of the loop does.
load_turn_returns :
    (header : List (List Text)) (line : Text) (rest : List ℕ)
    (more : Option (Result (List (List Text) × List ℕ)))
    → (r : Result (List (List Text) × List ℕ)) × (more ≡ some r)
    → (r : Result (List (List Text) × List ℕ)) × (load_turn header line rest more ≡ some r)
unfolding load_turn
load_turn_returns header [] rest more h = (raised value_error, refl)
load_turn_returns header (c ∷ line) rest more h =
    if_split Returns (is_ascii (c ∷ line)) _ _ (λ ascii. of_parts (split (c ∷ line)))
      (λ other. (raised value_error, refl))
  where
    Returns : Option (Result (List (List Text) × List ℕ)) → Type 0
    Returns o = (r : Result (List (List Text) × List ℕ)) × (o ≡ some r)

    of_parts :
        (parts : List Text)
        → (r : Result (List (List Text) × List ℕ)) × ((elim parts [
          | [] ↦ more
          | w ∷ ws ↦
              if eq_frame w word_data
              then (if eq_texts ws (word_binary ∷ [])
                  then some (ok (header ++ (w ∷ ws) ∷ [], rest))
                  else some (raised value_error))
              else more
        ])
            ≡ some r)
    of_parts [] = h
    of_parts (w ∷ ws) =
        if_split Returns (eq_frame w word_data) _ _
          (λ last.
            if_split Returns (eq_texts ws (word_binary ∷ [])) _ _ (λ binary. (_, refl))
              (λ other. (_, refl)))
          (λ goes_on. h)

load_loop_returns :
    (fuel : ℕ) (header : List (List Text)) (stream : List ℕ)
    → length stream < fuel
    → (r : Result (List (List Text) × List ℕ)) × (load_loop fuel header stream ≡ some r)
unfolding load_loop load_turn readline
load_loop_returns zero header stream enough = absurd (omega arith)
load_loop_returns (suc fuel) header [] enough = (raised value_error, refl)
load_loop_returns (suc fuel) header (c ∷ stream) enough =
    let line = (readline (c ∷ stream)).0 in
    let rest = (readline (c ∷ stream)).1 in
    load_turn_returns header line rest _ (
      load_loop_returns fuel (header ++ split line ∷ []) rest (omega (arith, readline-lt c stream)))

module _ {F : Type 0} ⦃d : Double F⦄ ⦃m : LibM F⦄ (tools : GridTools F) (args : Arguments F) where
  pub nav_map_image :
      (xyz : Cloud F) (map : NavMap F)
      → nav_map tools args xyz ≡ ok map
      → map.image ≡ image tools args map.frame xyz
  unfolding nav_map
  nav_map_image xyz map h =
      let (f, _, h₁) = both_return (frame_of tools args xyz) _ h in
      let (_, _, h₂) = both_return (to_int tools tools.nearest _) _ h₁ in
      let (_, _, made) = both_return (to_int tools tools.nearest _) _ h₂ in
      subst (λ (t : NavMap F). t.image ≡ image tools args t.frame xyz) (ok-injective made) refl

module _ {F S : Type 0} ⦃d : Double F⦄ ⦃m : LibM F⦄ ⦃single : Single S⦄ (conv : Convert F S)
    (tools : GridTools F) (args : Arguments F) where
  -- `main`, from the bytes of the cloud's file to the image and its frame.
  unfoldable pub make_nav2_map : List ℕ → Option (Result (NavMap F))
  make_nav2_map file =
      Option.map (λ (r : Result (Cloud F)). r >>= nav_map tools args) (load_xyz conv file)

  pub load_xyz_returns : (file : List ℕ) → (r : Result (Cloud F)) × (load_xyz conv file ≡ some r)
  unfolding load_xyz
  load_xyz_returns file =
      let (r, e) = load_loop_returns (suc (length file)) [] file (omega arith) in
      (_, ap (Option.map (λ (t : Result (List (List Text) × List ℕ)). t >>= _)) e)

  -- What a pixel of an image is, from the points of the cloud; nothing is said past the image's edge.
  pub IsPainted : Cloud F → NavMap F → ℕ → ℕ → Type 0
  IsPainted xyz map r c =
      (map.frame.height ≤ r)
      ⊎ ((map.frame.width ≤ c)
          ⊎ (map.image r c ≡ (
              if any (blocks args map.frame tools r c) xyz
              then 0
              else if supported tools args map.frame xyz r c
              then 254
              else 205)))

  -- The two ends of the tool at a pixel.
  pub data Ends (file : List ℕ) (r c : ℕ) : Type 0 where
    fails : (e : Fault) → make_nav2_map file ≡ some (raised e) → Ends file r c
    paints :
        (xyz : Cloud F) (map : NavMap F)
        → load_xyz conv file ≡ some (ok xyz)
        → make_nav2_map file ≡ some (ok map)
        → IsPainted xyz map r c
        → Ends file r c

  module _ (laws : IsDilation tools) where
    image-IsPainted :
        (xyz : Cloud F) (map : NavMap F) (r c : ℕ)
        → nav_map tools args xyz ≡ ok map
        → IsPainted xyz map r c
    unfolding IsPainted
    image-IsPainted xyz map r c made = elim (Bool-cases (ltb r map.frame.height)) [
      | inr below ↦ inl (ground (arith, below))
      | inl row ↦ elim (Bool-cases (ltb c map.frame.width)) [
        | inr beside ↦ inr (inl (ground (arith, beside)))
        | inl column ↦ inr (
            inr (
              ap (λ (f : ℕ → ℕ → ℕ). f r c) (nav_map_image tools args xyz map made)
              ∙ image-pixel args map.frame tools laws xyz r c (ground (arith, row))
                  (ground (arith, column))))
      ]
    ]

    module _ (file : List ℕ) (r c : ℕ) where
      make_of :
          (loaded : Result (Cloud F))
          → load_xyz conv file ≡ some loaded
          → make_nav2_map file ≡ some (loaded >>= nav_map tools args)
      unfolding make_nav2_map
      make_of loaded e = ap (Option.map (λ (t : Result (Cloud F)). t >>= nav_map tools args)) e

      mapped-Ends :
          (xyz : Cloud F) (made : Result (NavMap F))
          → load_xyz conv file ≡ some (ok xyz)
          → nav_map tools args xyz ≡ made
          → Ends file r c
      mapped-Ends xyz (raised e) read h = fails e (make_of (ok xyz) read ∙ ap some h)
      mapped-Ends xyz (ok map) read h =
          paints xyz map read (make_of (ok xyz) read ∙ ap some h) (image-IsPainted xyz map r c h)

      loaded-Ends : (loaded : Result (Cloud F)) → load_xyz conv file ≡ some loaded → Ends file r c
      loaded-Ends (raised e) read = fails e (make_of (raised e) read)
      loaded-Ends (ok xyz) read = mapped-Ends xyz (nav_map tools args xyz) read refl

      -- Where scipy's dilation is as documented: for every file the tool ends, and either raises, or paints
      -- each pixel of its grid black just if a point of the height of an obstacle has its cell within
      -- the seal radius of it, in cells; else white just if the closed and dilated floor holds it, and
      -- gray otherwise.
      pub make_nav2_map-Ends : Ends file r c
      make_nav2_map-Ends = let (loaded, read) = load_xyz_returns file in loaded-Ends loaded read
