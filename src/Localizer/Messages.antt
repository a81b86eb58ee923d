-- ===== src/Localizer/Messages.antt =====
-- The messages of src/localizer.py: what its subscriptions receive, and what a timer tick sends, with stamps
-- and frames.
use humanoid_navigation.Prelude.{
  ℕ, Bool, true, false, ◌&&◌, Option, none, some, List, [], ◌∷◌, ◌++◌, ltb, length, if◌then◌else◌,
}
use humanoid_navigation.Prelude.Result.{Result, ok, raised, ◌>>=◌}
use humanoid_navigation.Double.{Double, LibM}
use humanoid_navigation.Navigation.{Frame, Point}
use humanoid_navigation.Bytes.{Single, Convert}
use humanoid_navigation.PointCloud.{PointCloud2, pc2_to_xyz, xyz_to_pc2}
use humanoid_navigation.Localizer.{Cloud, Numerics, Rotations, Aligner, Settings}
use humanoid_navigation.Localizer.Node.{Localizer, cloud_cb, odom_cb}
use humanoid_navigation.Localizer.Tracking.{
  Publication, nothing, transform, static_transform, or_else, below_ceiling, localize,
}
use humanoid_navigation.Localizer.Loading.{Angles, TransformStamped, matrix_to_ros_tf}

-- The node with the stamp of the latest scan.
pub record Front (F R G : Type 0) : Type 0 where
  pub node : Localizer F R G
  pub latest_stamp : Option ℕ

-- The parameters `map_frame` and `odom_frame`, and the points of the map for display.
pub record Outfit (F : Type 0) : Type 0 where
  pub map_frame : Frame
  pub odom_frame : Frame
  pub display : Cloud F

pub data Sent (F : Type 0) : Type 0 where
  map_cloud : PointCloud2 → Sent F
  filtered_scan : PointCloud2 → Sent F
  dynamic_tf : TransformStamped F → Sent F
  static_tf : TransformStamped F → Sent F

-- A scan, an odometry message, or a tick with the gravity transform and a reading of the clock.
pub data Incoming (F R : Type 0) : Type 0 where
  scan : PointCloud2 → Incoming F R
  odom : Point F → F → Incoming F R
  tick : Option R → ℕ → Incoming F R

-- The stamp of the latest scan, or else the clock.
abbrev pub stamp_of : Option ℕ → ℕ → ℕ
stamp_of none now = now
stamp_of (some stamp) now = stamp

module _ {F R G S : Type 0} ⦃d : Double F⦄ ⦃single : Single S⦄ (conv : Convert F S) where
  -- `_cloud_cb` of a message.
  unfoldable pub receive : PointCloud2 → Front F R G → Result (Front F R G)
  receive msg s = pc2_to_xyz conv msg >>= λ (pts : Cloud F).
      ok (record { node = cloud_cb pts s.node; latest_stamp = some msg.stamp })

module _ {F R S : Type 0} ⦃d : Double F⦄ ⦃num : Numerics F⦄ ⦃rots : Rotations F R⦄
    ⦃single : Single S⦄ (conv : Convert F S) (c : Settings F) (outfit : Outfit F) where
  -- The scan for display: nothing where no point is below the ceiling.
  unfoldable pub filtered : Option ℕ → ℕ → R → Cloud F → List (Sent F)
  filtered latest now r cloud = elim (below_ceiling c r cloud) [
    | [] ↦ []
    | p ∷ pts ↦
        filtered_scan (xyz_to_pc2 conv (p ∷ pts) outfit.odom_frame (stamp_of latest now)) ∷ []
  ]

  unfoldable pub scan_part : Option ℕ → ℕ → Option R → Option (Cloud F) → List (Sent F)
  scan_part latest now (some r) (some cloud) =
      if ltb (length cloud) 200 then [] else filtered latest now r cloud
  scan_part latest now _ _ = []

module _ {F S : Type 0} ⦃d : Double F⦄ ⦃single : Single S⦄ (conv : Convert F S)
    (outfit : Outfit F) where
  -- `_publish_map_cloud`, once.
  unfoldable pub map_part : Option ℕ → ℕ → Bool → List (Sent F)
  map_part latest now true = []
  map_part latest now false =
      map_cloud (xyz_to_pc2 conv outfit.display outfit.map_frame (stamp_of latest now)) ∷ []

module _ {F R : Type 0} (angles : Angles F R) (outfit : Outfit F) where
  -- `_publish_tf`, and the static transform of a frozen node, which has the clock's stamp.
  unfoldable pub tf_part : Option ℕ → ℕ → Publication F R → List (Sent F)
  tf_part latest now nothing = []
  tf_part latest now (transform t) =
      dynamic_tf
        (matrix_to_ros_tf angles t (stamp_of latest now) outfit.map_frame outfit.odom_frame)
      ∷ []
  tf_part latest now (static_transform t) =
      static_tf (matrix_to_ros_tf angles t now outfit.map_frame outfit.odom_frame) ∷ []

module _ {F R G S : Type 0} ⦃d : Double F⦄ ⦃lib : LibM F⦄ ⦃num : Numerics F⦄ ⦃rots : Rotations F R⦄
    ⦃aligner : Aligner F R G⦄ ⦃single : Single S⦄ (conv : Convert F S) (c : Settings F) (pi : F)
    (angles : Angles F R) (outfit : Outfit F) where
  -- What `_localize` sends: a frozen node its transform only.
  unfoldable pub sends : Option R → ℕ → Front F R G → List (Sent F)
  sends gravity now s =
      let tf = tf_part angles outfit s.latest_stamp now (localize c pi gravity s.node).1 in
      if c.freeze_after_init && s.node.initialized
      then tf
      else map_part conv outfit s.latest_stamp now s.node.map_published
        ++ (scan_part conv c outfit s.latest_stamp now (or_else s.node.cam_to_world gravity)
              s.node.latest_cloud
            ++ tf)

  -- What is sent at each event. A scan that cannot be decoded raises out of the callback and ends the
  -- node.
  unfoldable pub serve : List (Incoming F R) → Front F R G → List (List (Sent F))
  serve [] s = []
  serve (scan msg ∷ es) s = elim (receive conv msg s) [
    | raised e ↦ []
    | ok next ↦ [] ∷ serve es next
  ]
  serve (odom pos t ∷ es) s = [] ∷ serve es (record s { node = odom_cb pos t s.node })
  serve (tick gravity now ∷ es) s =
      sends gravity now s ∷ serve es (record s { node = (localize c pi gravity s.node).0 })
