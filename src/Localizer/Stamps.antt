-- ===== src/Localizer/Stamps.antt =====
-- The stamps and frames of the messages of src/localizer.py over a sequence of events.
use humanoid_navigation.Prelude.{
  ℕ, ◌≡◌, ◌⊎◌, inl, inr, refl, sym, ◌&&◌, Option, none, some, List, [], ◌∷◌, ltb, length, if_split,
  option_split, option_split_with, All, All-append,
}
use mathlib.Core.Option.{some-ne-none}
use humanoid_navigation.Prelude.Result.{Result, ok, raised, Fault, ◌>>=◌}
use humanoid_navigation.Double.{Double, LibM}
use humanoid_navigation.Navigation.{Point}
use humanoid_navigation.Bytes.{Single, Convert}
use humanoid_navigation.PointCloud.{PointCloud2, pc2_to_xyz}
use humanoid_navigation.Localizer.{Cloud, Numerics, Rotations, Aligner, Settings}
use humanoid_navigation.Localizer.Node.{Localizer, cloud_cb, odom_cb}
use humanoid_navigation.Localizer.Tracking.{Publication, or_else, localize}
use humanoid_navigation.Localizer.Loading.{Angles}
use humanoid_navigation.Localizer.Messages.{
  Front, Outfit, Sent, Incoming, scan, odom, tick, receive, scan_part, map_part, sends, serve,
}
use humanoid_navigation.Localizer.Timed.{
  Timed, map_part-Timed, scan_part-Timed, Carries, tf_part-Timed,
}

module _ {F R S : Type 0} ⦃d : Double F⦄ ⦃single : Single S⦄ (conv : Convert F S)
    (outfit : Outfit F) where
  -- What is sent at the events, after the stamp of the latest scan.
  pub data IsTimed : Option ℕ → List (Incoming F R) → List (List (Sent F)) → Type 0 where
    done : {latest : Option ℕ} → IsTimed latest [] []
    died :
        {latest : Option ℕ} {msg : PointCloud2} {es : List (Incoming F R)} (e : Fault)
        → pc2_to_xyz conv msg ≡ raised e
        → IsTimed latest (scan msg ∷ es) []
    heard :
        {latest : Option ℕ} {msg : PointCloud2} {es : List (Incoming F R)}
        {outs : List (List (Sent F))} (pts : Cloud F)
        → pc2_to_xyz conv msg ≡ ok pts
        → IsTimed (some msg.stamp) es outs
        → IsTimed latest (scan msg ∷ es) ([] ∷ outs)
    rode :
        {latest : Option ℕ} {pos : Point F} {t : F} {es : List (Incoming F R)}
        {outs : List (List (Sent F))}
        → IsTimed latest es outs
        → IsTimed latest (odom pos t ∷ es) ([] ∷ outs)
    ticked :
        {latest : Option ℕ} {gravity : Option R} {now : ℕ} {es : List (Incoming F R)}
        {out : List (Sent F)} {outs : List (List (Sent F))}
        → All (Timed outfit latest now) out
        → IsTimed latest es outs
        → IsTimed latest (tick gravity now ∷ es) (out ∷ outs)

module _ {F R G : Type 0} where
  -- A cloud comes with its stamp.
  pub record IsPaired (s : Front F R G) : Type 0 where
    pub stamped : (s.node.latest_cloud ≡ none) ⊎ ((stamp : ℕ) × (s.latest_stamp ≡ some stamp))

module _ {F R G : Type 0} ⦃d : Double F⦄ ⦃lib : LibM F⦄ ⦃num : Numerics F⦄ ⦃rots : Rotations F R⦄
    ⦃aligner : Aligner F R G⦄ (c : Settings F) (pi : F) where
  -- What a tick does where there is no cloud yet.
  Waits : Option (Cloud F) → Localizer F R G × Publication F R → Type 0
  Waits o q = Carries o q.1 × (o ≡ none → q.0.latest_cloud ≡ none)

  localize-Waits :
      (gravity : Option R) (s : Localizer F R G) → Waits s.latest_cloud (localize c pi gravity s)
  unfolding localize Waits Carries
  localize-Waits gravity s =
      if_split (Waits s.latest_cloud) (c.freeze_after_init && s.initialized) _ _
        (λ frozen.
          if_split (Waits s.latest_cloud) s.frozen_static_published _ _ (λ sent. (tt, λ e. e))
            (λ unsent. (tt, λ e. e)))
        (λ live.
          option_split (Waits s.latest_cloud) (or_else s.cam_to_world gravity) _ _ (tt, λ e. e)
            (λ r.
              option_split_with
                (λ (o : Option (Cloud F)) (q : Localizer F R G × Publication F R).
                  o ≡ s.latest_cloud → Waits o q)
                s.latest_cloud _ _ (λ none_yet. (tt, λ e. sym none_yet))
                (λ cloud here. (
                  if_split (Carries (some cloud)) (ltb (length cloud) 200) _ _ (λ short. tt)
                      (λ long. (cloud, refl)),
                  λ e. absurd (some-ne-none cloud e),
                ))
                refl))

  module _ {S : Type 0} ⦃single : Single S⦄ (conv : Convert F S) (angles : Angles F R)
      (outfit : Outfit F) where
    sends-Timed :
        (gravity : Option R) (now : ℕ) (s : Front F R G)
        → IsPaired s
        → All (Timed outfit s.latest_stamp now) (sends conv c pi angles outfit gravity now s)
    unfolding sends Waits
    sends-Timed gravity now s h =
        let latest = s.latest_stamp in
        let published = (localize c pi gravity s.node).1 in
        let tf =
          tf_part-Timed angles outfit latest now s.node.latest_cloud published h.stamped
            (localize-Waits gravity s.node).0 in
        if_split (λ (out : List (Sent F)). All (Timed outfit latest now) out)
          (c.freeze_after_init && s.node.initialized) _ _ (λ frozen. tf)
          (λ live.
            All-append (Timed outfit latest now)
              (map_part conv outfit latest now s.node.map_published) _
              (map_part-Timed conv outfit latest now s.node.map_published)
              (All-append (Timed outfit latest now)
                (scan_part conv c outfit latest now (or_else s.node.cam_to_world gravity)
                  s.node.latest_cloud)
                _
                (scan_part-Timed conv outfit latest now c (or_else s.node.cam_to_world gravity)
                  s.node.latest_cloud h.stamped)
                tf))

    tick-IsPaired :
        (gravity : Option R) (s : Front F R G)
        → IsPaired s
        → IsPaired (record s { node = (localize c pi gravity s.node).0 })
    unfolding Waits
    tick-IsPaired gravity s h = record {
      stamped = elim h.stamped [
        | inl no_cloud ↦ inl ((localize-Waits gravity s.node).1 no_cloud)
        | inr stamp ↦ inr stamp
      ];
    }

    heard_by : PointCloud2 → Front F R G → Cloud F → Front F R G
    heard_by msg s pts = record { node = cloud_cb pts s.node; latest_stamp = some msg.stamp }

    -- The two ends of the callback of a scan.
    scanned-IsTimed :
        (msg : PointCloud2) (es : List (Incoming F R)) (s : Front F R G) (r : Result (Cloud F))
        → pc2_to_xyz conv msg ≡ r
        → ((pts : Cloud F)
            → IsTimed conv outfit
                (some msg.stamp)
                es
                (serve conv c pi angles outfit es (heard_by msg s pts)))
        → IsTimed conv outfit s.latest_stamp
            (scan msg ∷ es)
            (elim (r >>= λ (pts : Cloud F). ok (heard_by msg s pts)) [
              | raised e ↦ []
              | ok next ↦ [] ∷ serve conv c pi angles outfit es next
            ])
    scanned-IsTimed msg es s (raised e) read rest = died e read
    scanned-IsTimed msg es s (ok pts) read rest = heard pts read (rest pts)

    serve_from :
        (es : List (Incoming F R)) (s : Front F R G)
        → IsPaired s
        → IsTimed conv outfit s.latest_stamp es (serve conv c pi angles outfit es s)
    unfolding serve receive heard_by odom_cb
    serve_from [] s h = done
    serve_from (odom pos t ∷ es) s h = rode (serve_from es _ (record { stamped = h.stamped }))
    serve_from (tick gravity now ∷ es) s h =
        ticked (sends-Timed gravity now s h) (serve_from es _ (tick-IsPaired gravity s h))
    serve_from (scan msg ∷ es) s h =
        scanned-IsTimed msg es s (pc2_to_xyz conv msg) refl
          (λ pts. serve_from es _ (record { stamped = inr (msg.stamp, refl) }))

    -- From a node without a scan, over any events: every dynamic transform and every filtered scan carries
    -- the stamp of the latest scan that was received, never the clock's, with the frames of the
    -- parameters; a static transform carries the clock's; and the node sends nothing at other events, and
    -- ends at the first scan that cannot be decoded.
    pub serve-IsTimed :
        (es : List (Incoming F R)) (s : Localizer F R G)
        → s.latest_cloud ≡ none
        → IsTimed conv outfit none es
            (serve conv c pi angles outfit es (record { node = s; latest_stamp = none }))
    serve-IsTimed es s fresh =
        serve_from es (record { node = s; latest_stamp = none }) (record { stamped = inl fresh })
