-- ===== src/MapTools/Pipeline.antt =====
-- From a recording to the occupancy grid: scripts/align_pcd_floor.py, then scripts/make_nav2_map.py on its file.
use humanoid_navigation.Prelude.{ℕ, suc, ◌≡◌, true, ap, some, List, map, length, length-map}
use mathlib.Core.Option
use humanoid_navigation.Prelude.Result.{Result, ok, ◌>>=◌}
use humanoid_navigation.Double.{Double, LibM}
use humanoid_navigation.Navigation.{Point}
use humanoid_navigation.Localizer.{Cloud, Numerics}
use humanoid_navigation.Localizer.Node.{masked}
use humanoid_navigation.Bytes.{Single, Convert, IsSingle}
use humanoid_navigation.PointCloud.{each, is_finite_point}
use humanoid_navigation.MapTools.{Text}
use humanoid_navigation.MapTools.Pcd.{Sample, read_binary_pcd, written}
use humanoid_navigation.MapTools.Align.{Floor, align_sample, align_pcd}
use humanoid_navigation.MapTools.Load.{load_xyz}
use humanoid_navigation.MapTools.Grid.{GridTools, Arguments}
use humanoid_navigation.MapTools.Outputs.{outputs, main}
use humanoid_navigation.MapTools.Rewrite.{align_of}
use humanoid_navigation.MapTools.Turns.{is_plain}
use humanoid_navigation.MapTools.Chain.{load_xyz-written}

module _ {F S : Type 0} ⦃d : Double F⦄ ⦃m : LibM F⦄ ⦃num : Numerics F⦄ ⦃single : Single S⦄
    (conv : Convert F S) (norm32 : Point S → F) (tools : GridTools F) (args : Arguments F) where
  -- The positions of the aligned samples, less those that are not finite.
  abbrev pub aligned_points : Floor F → List (Sample S) → Cloud F
  aligned_points floor cloud =
      masked is_finite_point
        (map (each conv.widen) (map (λ s. s.at) (map (align_sample conv norm32 floor) cloud)))

  main_of :
      (file : List ℕ) (xyz : Cloud F)
      → load_xyz conv file ≡ some (ok xyz)
      → main tools conv args file ≡ some (outputs tools args xyz)
  unfolding main
  main_of file xyz e = ap (Option.map (λ (r : Result (Cloud F)). r >>= outputs tools args)) e

  -- Over a float32 that is read back from its bytes: for every floor and every file that the first tool reads
  -- as a header, of which only the last line begins with the word DATA, and a cloud, the first tool
  -- writes a file, and the second tool loads from it just the finite positions of the aligned
  -- cloud and makes its outputs of them.
  pub align_pcd-main :
      (laws : IsSingle S) (floor : Floor F) (file : List ℕ) (header : List Text)
      (cloud : List (Sample S))
      → read_binary_pcd (suc (length file)) file ≡ some (ok (header, cloud))
      → is_plain header ≡ true
      → (out : List ℕ) × (align_pcd conv norm32 floor file ≡ some (ok out))
        × (load_xyz conv out ≡ some (ok (aligned_points floor cloud)))
        × (main tools conv args out ≡ some (outputs tools args (aligned_points floor cloud)))
  align_pcd-main laws floor file header cloud read plain =
      let moved : List (Sample S) = map (align_sample conv norm32 floor) cloud in
      let loaded =
        load_xyz-written conv laws file header cloud moved read plain
          (length-map (align_sample conv norm32 floor) cloud) in
      (
        written header moved,
        align_of conv norm32 floor file (ok (header, cloud)) read,
        loaded,
        main_of (written header moved) (aligned_points floor cloud) loaded,
      )
