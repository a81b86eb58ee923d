-- ===== src/Localizer/Wire.antt =====
-- The clouds that src/localizer.py sends, as messages that other nodes decode.
use humanoid_navigation.Prelude.{
  ℕ, ◌+◌, ◌*◌, ◌≤◌, ◌≡◌, refl, Bool, ◌&&◌, Option, none, some, List, [], ◌∷◌, map, length,
  length-map, All, All-append, ltb, if_split, arith,
}
use humanoid_navigation.Prelude.Result.{Result, ok, raised}
use humanoid_navigation.Double.{Double, LibM}
use humanoid_navigation.Navigation.{Frame}
use humanoid_navigation.Bytes.{Single, Convert, IsSingle, length-tobytes}
use humanoid_navigation.PointCloud.{PointCloud2, Field, flat, each, pc2_to_xyz, xyz_to_pc2}
use humanoid_navigation.PointCloud.RoundTrip.{length-flat, pc2_to_xyz-xyz_to_pc2}
use humanoid_navigation.Localizer.{Cloud, Numerics, Rotations, Aligner, Settings}
use humanoid_navigation.Localizer.Tracking.{
  Publication, nothing, transform, static_transform, or_else, below_ceiling, localize,
}
use humanoid_navigation.Localizer.Loading.{Angles}
use humanoid_navigation.Localizer.Messages.{
  Front, Outfit, Sent, map_cloud, filtered_scan, dynamic_tf, static_tf, Incoming, scan, odom, tick,
  stamp_of, receive, filtered, scan_part, map_part, tf_part, sends, serve,
}

-- A field is one float32 within a point.
abbrev pub Fits : ℕ → Field → Type 0
Fits step f = (f.datatype ≡ 7) × (f.offset + 4 * f.count ≤ step)

module _ {F S : Type 0} ⦃d : Double F⦄ ⦃single : Single S⦄ (conv : Convert F S) where
  -- The sizes that a message declares are those of its bytes, its fields lie in a point, and it is decoded.
  pub record IsCloud (msg : PointCloud2) : Type 0 where
    pub row : msg.row_step ≡ msg.point_step * msg.width
    pub whole : length msg.bytes ≡ msg.row_step * msg.height
    pub fields : All (Fits msg.point_step) msg.fields
    pub decodes : (pts : Cloud F) × (pc2_to_xyz conv msg ≡ ok pts)

  abbrev pub IsSound : Sent F → Type 0
  IsSound (map_cloud msg) = IsCloud msg
  IsSound (filtered_scan msg) = IsCloud msg
  IsSound (dynamic_tf t) = Unit
  IsSound (static_tf t) = Unit

  module _ (laws : IsSingle S) where
    xyz_to_pc2-IsCloud :
        (pts : Cloud F) (frame : Frame) (stamp : ℕ) → IsCloud (xyz_to_pc2 conv pts frame stamp)
    unfolding xyz_to_pc2
    xyz_to_pc2-IsCloud pts frame stamp = record {
      row = refl;
      whole = omega (
        arith,
        length-tobytes (flat (map (each conv.narrow) pts)),
        length-flat (map (each conv.narrow) pts),
        length-map (each conv.narrow) pts,
      );
      fields = ((refl, omega arith), ((refl, omega arith), ((refl, omega arith), tt)));
      decodes = (_, pc2_to_xyz-xyz_to_pc2 laws conv pts frame stamp);
    }

    map_part-IsSound :
        (outfit : Outfit F) (latest : Option ℕ) (now : ℕ) (published : Bool)
        → All IsSound (map_part conv outfit latest now published)
    unfolding map_part
    map_part-IsSound outfit latest now Bool.true = tt
    map_part-IsSound outfit latest now Bool.false = (xyz_to_pc2-IsCloud _ _ _, tt)

    module _ {R : Type 0} ⦃num : Numerics F⦄ ⦃rots : Rotations F R⦄ (c : Settings F)
        (outfit : Outfit F) (latest : Option ℕ) (now : ℕ) where
      filtered-IsSound :
          (r : R) (cloud : Cloud F) → All IsSound (filtered conv c outfit latest now r cloud)
      unfolding filtered
      filtered-IsSound r cloud = of_points (below_ceiling c r cloud)
        where
          of_points :
              (pts : Cloud F)
              → All IsSound (elim pts [
                | [] ↦ []
                | p ∷ pts ↦
                    filtered_scan
                      (xyz_to_pc2 conv (p ∷ pts) outfit.odom_frame (stamp_of latest now))
                    ∷ []
              ])
          of_points [] = tt
          of_points (p ∷ pts) = (xyz_to_pc2-IsCloud _ _ _, tt)

      scan_part-IsSound :
          (r : Option R) (cloud : Option (Cloud F))
          → All IsSound (scan_part conv c outfit latest now r cloud)
      unfolding scan_part
      scan_part-IsSound (some r) (some cloud) =
          if_split (All IsSound) (ltb (length cloud) 200) _ _ (λ few. tt)
            (λ enough. filtered-IsSound r cloud)
      scan_part-IsSound (some r) none = tt
      scan_part-IsSound none cloud = tt

    tf_part-IsSound :
        {R : Type 0} (angles : Angles F R) (outfit : Outfit F) (latest : Option ℕ) (now : ℕ)
        (p : Publication F R)
        → All IsSound (tf_part angles outfit latest now p)
    unfolding tf_part
    tf_part-IsSound angles outfit latest now nothing = tt
    tf_part-IsSound angles outfit latest now (transform t) = (tt, tt)
    tf_part-IsSound angles outfit latest now (static_transform t) = (tt, tt)

module _ {F R G S : Type 0} ⦃d : Double F⦄ ⦃lib : LibM F⦄ ⦃num : Numerics F⦄ ⦃rots : Rotations F R⦄
    ⦃aligner : Aligner F R G⦄ ⦃single : Single S⦄ (conv : Convert F S) (laws : IsSingle S)
    (c : Settings F) (pi : F) (angles : Angles F R) (outfit : Outfit F) where
  sends-IsSound :
      (gravity : Option R) (now : ℕ) (s : Front F R G)
      → All (IsSound conv) (sends conv c pi angles outfit gravity now s)
  unfolding sends
  sends-IsSound gravity now s =
      let tf =
        tf_part-IsSound conv laws angles outfit s.latest_stamp now
          (localize c pi gravity s.node).1 in
      if_split (All (IsSound conv)) (c.freeze_after_init && s.node.initialized) _ _ (λ frozen. tf)
        (λ live.
          All-append (IsSound conv) _ _
            (map_part-IsSound conv laws outfit s.latest_stamp now s.node.map_published)
            (All-append (IsSound conv) _ _
              (scan_part-IsSound conv laws c outfit s.latest_stamp now
                (or_else s.node.cam_to_world gravity) s.node.latest_cloud)
              tf))

  -- Over a float32 that is read back from its bytes, from any state and over any events: each cloud that
  -- the node sends declares rows and sizes that are those of its bytes, and three float32 fields that
  -- lie within a point, and it is decoded without an error.
  pub serve-IsSound :
      (es : List (Incoming F R)) (s : Front F R G)
      → All (All (IsSound conv)) (serve conv c pi angles outfit es s)
  unfolding serve
  serve-IsSound [] s = tt
  serve-IsSound (odom pos t ∷ es) s = (tt, serve-IsSound es _)
  serve-IsSound (tick gravity now ∷ es) s = (sends-IsSound gravity now s, serve-IsSound es _)
  serve-IsSound (scan msg ∷ es) s = received (receive conv msg s) (λ next. serve-IsSound es next)
    where
      received :
          (r : Result (Front F R G))
          → ((next : Front F R G)
              → All (All (IsSound conv)) (serve conv c pi angles outfit es next))
          → All
              (All (IsSound conv))
              (elim r [ raised e ↦ [] | ok next ↦ [] ∷ serve conv c pi angles outfit es next ])
      received (raised e) rest = tt
      received (ok next) rest = (tt, rest next)
