-- ===== src/MapTools/Ends.antt =====
-- scripts/make_nav2_map.py as a whole, from the bytes of the cloud's file to its outputs.
use humanoid_navigation.Prelude.{ℕ, ◌<◌, ◌≡◌, refl, ap, ◌∙◌, some, List}
use mathlib.Core.Option
use humanoid_navigation.Prelude.Result.{Result, Fault, ok, raised, ◌>>=◌}
use humanoid_navigation.Double.{Double, LibM}
use humanoid_navigation.Localizer.{Cloud}
use humanoid_navigation.Bytes.{Single, Convert}
use humanoid_navigation.MapTools.Load.{load_xyz}
use humanoid_navigation.MapTools.Grid.{GridTools, IsDilation, Arguments}
use humanoid_navigation.MapTools.Make.{load_xyz_returns}
use humanoid_navigation.MapTools.Outputs.{Outputs, outputs, main}
use humanoid_navigation.MapTools.Report.{
  Occupancy, IsTrinary, IsCounted, IsReadAs, outputs-IsCounted, outputs-IsReadAs,
}

module _ {F S : Type 0} ⦃d : Double F⦄ ⦃m : LibM F⦄ ⦃single : Single S⦄ (conv : Convert F S)
    (tools : GridTools F) (args : Arguments F) (read : ℕ → ℕ → ℕ → ℕ → Occupancy) where
  -- The two ends of the tool.
  pub data Ends (file : List ℕ) : Type 0 where
    fails : (e : Fault) → main tools conv args file ≡ some (raised e) → Ends file
    reports :
        (xyz : Cloud F) (o : Outputs F)
        → load_xyz conv file ≡ some (ok xyz)
        → main tools conv args file ≡ some (ok o)
        → IsCounted tools args o
        → ((r c : ℕ)
            → r < o.map.frame.height
            → c < o.map.frame.width
            → IsReadAs tools args read xyz o r c)
        → Ends file

  main_of :
      (file : List ℕ) (loaded : Result (Cloud F))
      → load_xyz conv file ≡ some loaded
      → main tools conv args file ≡ some (loaded >>= outputs tools args)
  unfolding main
  main_of file loaded e = ap (Option.map (λ (t : Result (Cloud F)). t >>= outputs tools args)) e

  module _ (laws : IsDilation tools) (reader : IsTrinary read) (file : List ℕ) where
    outputs-Ends :
        (xyz : Cloud F) (made : Result (Outputs F))
        → load_xyz conv file ≡ some (ok xyz)
        → outputs tools args xyz ≡ made
        → Ends file
    outputs-Ends xyz (raised e) found h = fails e (main_of file (ok xyz) found ∙ ap some h)
    outputs-Ends xyz (ok o) found h =
        reports xyz o found (main_of file (ok xyz) found ∙ ap some h)
          (outputs-IsCounted tools args xyz o h)
          (λ r c row column. outputs-IsReadAs tools args laws read reader xyz o r c h row column)

    loaded-Ends : (loaded : Result (Cloud F)) → load_xyz conv file ≡ some loaded → Ends file
    loaded-Ends (raised e) found = fails e (main_of file (raised e) found)
    loaded-Ends (ok xyz) found = outputs-Ends xyz (outputs tools args xyz) found refl

    -- Where scipy's dilation and Nav2's trinary mode are as documented: for every file the tool ends, and
    -- either raises, or comes to an image that Nav2 reads, at each cell of the grid, by the thresholds of
    -- the yaml file, as occupied just if a point of the height of an obstacle has its cell within the
    -- seal radius, else as free just if the closed and dilated floor holds the cell, else as unknown; a
    -- preview that shows these black, white and gray; and numbers of cells that are those of the image
    -- and make up the grid.
    pub main-Ends : Ends file
    main-Ends =
        let (loaded, found) = load_xyz_returns conv tools args file in loaded-Ends loaded found
