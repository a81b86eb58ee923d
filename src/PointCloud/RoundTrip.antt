-- ===== src/PointCloud/RoundTrip.antt =====
-- `pc2_to_xyz` on what `xyz_to_pc2` makes.
use humanoid_navigation.Prelude.{
  ℕ, ◌*◌, ◌≡◌, refl, sym, ap, ◌∙◌, Bool, true, ◌&&◌, List, [], ◌∷◌, map, length, length-map, arith,
  Bool-cases, inl, inr,
}
use humanoid_navigation.Prelude.Result.{Result, ok, ◌>>=◌, both_return, ok-injective}
use humanoid_navigation.Double.{Double, IsFinite, is_finite}
use humanoid_navigation.Navigation.{Frame, Point}
use humanoid_navigation.Localizer.{Cloud}
use humanoid_navigation.Localizer.Node.{masked}
use humanoid_navigation.Bytes.{
  Single, Convert, IsSingle, IsExact, rows, reshape, frombuffer, tobytes, length-tobytes,
  frombuffer-tobytes,
}
use humanoid_navigation.PointCloud.{
  PointCloud2, field_of, spread, slices, zip_points, flat, each, column, all_points,
  is_finite_point, pc2_to_xyz, xyz_to_pc2,
}

three : (a b c : Bool) → (a && (b && c)) ≡ true → (a ≡ true) × (b ≡ true) × (c ≡ true)
three a b c h = (ground arith, ground arith, ground arith)

is_finite_point-IsFinite :
    {F : Type 0} ⦃d : Double F⦄ (p : Point F)
    → is_finite_point p ≡ true
    → IsFinite p.x × IsFinite p.y × IsFinite p.z
is_finite_point-IsFinite p h = three (is_finite p.x) (is_finite p.y) (is_finite p.z) h

masked-first :
    {F : Type 0} ⦃d : Double F⦄ (keep : Point F → Bool) (q : Point F) (rest : Cloud F)
    → keep q ≡ true
    → masked keep (q ∷ rest) ≡ q ∷ masked keep rest
unfolding masked
masked-first keep q rest h = rw h refl

module _ {S : Type 0} where
  pub length-flat : (pts : List (Point S)) → length (flat pts) ≡ 3 * length pts
  unfolding flat
  length-flat [] = omega arith
  length-flat (p ∷ pts) = omega (arith, length-flat pts)

  zip_points-map :
      (pts : List (Point S))
      → zip_points (map (λ p. p.x) pts) (map (λ p. p.y) pts) (map (λ p. p.z) pts) ≡ pts
  unfolding zip_points
  zip_points-map [] = refl
  zip_points-map (p ∷ pts) = ap (λ ps. p ∷ ps) (zip_points-map pts)

  spread-full : {n : ℕ} (vs : List S) → length vs ≡ n → spread n vs ≡ ok vs
  unfolding spread
  spread-full vs h = ground (arith, h)

  module _ ⦃single : Single S⦄ where
    -- Each of the three slices of the rows.
    slices-tobytes :
        (pts : List (Point S))
        → let raw = rows (length pts) 12 (tobytes (flat pts)) in
          (slices 0 raw ≡ tobytes (map (λ p. p.x) pts))
          × (slices 4 raw ≡ tobytes (map (λ p. p.y) pts))
          × (slices 8 raw ≡ tobytes (map (λ p. p.z) pts))
    unfolding slices rows tobytes flat
    slices-tobytes [] = (refl, refl, refl)
    slices-tobytes (p ∷ pts) =
        let (a, b, c) = slices-tobytes pts in
        (word (single.to_word p.x) a, word (single.to_word p.y) b, word (single.to_word p.z) c)
      where
        word :
            (w : ℕ × ℕ × ℕ × ℕ) {bs cs : List ℕ}
            → bs ≡ cs
            → w.0 ∷ w.1 ∷ w.2 ∷ w.3 ∷ bs ≡ w.0 ∷ w.1 ∷ w.2 ∷ w.3 ∷ cs
        word w e = ap (λ t. w.0 ∷ w.1 ∷ w.2 ∷ w.3 ∷ t) e

    reshape-flat :
        (n : ℕ) (pts : List (Point S))
        → n ≡ length pts
        → reshape n 12 (tobytes (flat pts)) ≡ ok (rows (length pts) 12 (tobytes (flat pts)))
    unfolding reshape
    reshape-flat n pts e = ground (
      arith,
      length-tobytes (flat pts),
      length-flat pts,
      ap (λ k. rows k 12 (tobytes (flat pts))) e,
    )

    module _ (laws : IsSingle S) where
      read_column :
          (n off : ℕ) (vs : List S) (raw : List (List ℕ))
          → n ≡ length vs
          → slices off raw ≡ tobytes vs
          → (frombuffer (slices off raw) >>= spread n) ≡ ok vs
      read_column n off vs raw size same =
          ap (λ bs. frombuffer bs >>= spread n) same
          ∙ ap (λ r. r >>= spread n) (frombuffer-tobytes laws vs)
          ∙ spread-full vs (sym size)

      columns :
          {r : Result (List (List ℕ))} {raw : List (List ℕ)} {xs ys zs : List S}
          (f g h : List (List ℕ) → Result (List S))
          → r ≡ ok raw
          → f raw ≡ ok xs
          → g raw ≡ ok ys
          → h raw ≡ ok zs
          → (r >>= λ t. f t >>= λ a. g t >>= λ b. h t >>= λ c. ok (zip_points a b c))
            ≡ ok (zip_points xs ys zs)
      columns f g h e p q s = rw e (rw p (rw q (rw s refl)))

      module _ {F : Type 0} ⦃d : Double F⦄ (conv : Convert F S) where
        all_points-xyz_to_pc2 :
            (pts : Cloud F) (frame : Frame) (stamp : ℕ)
            → all_points (xyz_to_pc2 conv pts frame stamp) ≡ ok (map (each conv.narrow) pts)
        unfolding all_points column field_of xyz_to_pc2
        all_points-xyz_to_pc2 pts frame stamp =
            let qs : List (Point S) = map (each conv.narrow) pts in
            let n = length pts * 1 in
            let size : n ≡ length qs = omega (arith, length-map (each conv.narrow) pts) in
            let (a, b, c) = slices-tobytes qs in
            columns (λ t. frombuffer (slices 0 t) >>= spread n)
              (λ t. frombuffer (slices 4 t) >>= spread n)
              (λ t. frombuffer (slices 8 t) >>= spread n) (reshape-flat n qs size)
              (read_column n 0 _ _ (size ∙ sym (length-map (λ (p : Point S). p.x) qs)) a)
              (read_column n 4 _ _ (size ∙ sym (length-map (λ (p : Point S). p.y) qs)) b)
              (read_column n 8 _ _ (size ∙ sym (length-map (λ (p : Point S). p.z) qs)) c)
            ∙ ap ok (zip_points-map qs)

        -- Over a float32 that is read back from its bytes: reading the message that is made of a cloud
        -- succeeds, whatever the cloud, and gives its points rounded to float32, less those that are not
        -- finite then.
        pub pc2_to_xyz-xyz_to_pc2 :
            (pts : Cloud F) (frame : Frame) (stamp : ℕ)
            → pc2_to_xyz conv (xyz_to_pc2 conv pts frame stamp)
              ≡ ok (masked is_finite_point (map (each conv.widen) (map (each conv.narrow) pts)))
        unfolding pc2_to_xyz
        pc2_to_xyz-xyz_to_pc2 pts frame stamp =
            ap
              (λ r. r >>= λ (ps : List (Point S)).
                ok (masked is_finite_point (map (each conv.widen) ps)))
              (all_points-xyz_to_pc2 pts frame stamp)

        module _ (exact : IsExact F S conv) where
          exact_point :
              (p : Point S)
              → is_finite_point (each conv.widen p) ≡ true
              → each conv.widen (each conv.narrow (each conv.widen p)) ≡ each conv.widen p
          exact_point p h =
              let parts = is_finite_point-IsFinite (each conv.widen p) h in
              λ i. record { x = same p.x parts.0 i; y = same p.y parts.1 i; z = same p.z parts.2 i }
            where
              same :
                  (v : S)
                  → IsFinite (conv.widen v)
                  → conv.widen (conv.narrow (conv.widen v)) ≡ conv.widen v
              same v h = ap conv.widen (exact.narrow-widen v h)

          read_again :
              (ps : List (Point S))
              → let pts = masked is_finite_point (map (each conv.widen) ps) in
                masked is_finite_point (map (each conv.widen) (map (each conv.narrow) pts)) ≡ pts
          unfolding masked
          read_again [] = refl
          read_again (p ∷ ps) = elim (Bool-cases (is_finite_point (each conv.widen p))) [
            | inl fin ↦
                let q : Point F = each conv.widen p in
                let left : Cloud F = masked is_finite_point (map (each conv.widen) ps) in
                let rest : Cloud F = map (each conv.widen) (map (each conv.narrow) left) in
                rw fin (
                  ap (λ (t : Point F). masked is_finite_point (t ∷ rest)) (exact_point p fin)
                  ∙ masked-first is_finite_point q rest fin
                  ∙ ap (λ (t : Cloud F). q ∷ t) (read_again ps))
            | inr not_fin ↦ rw not_fin (read_again ps)
          ]

          -- Over a float32 that is read back from its bytes, and whose finite values are exact in float64:
          -- a cloud that was read from a message, and is sent in a new one, is read from that as the same
          -- cloud.
          pub pc2_to_xyz_again :
              (msg : PointCloud2) (pts : Cloud F) (frame : Frame) (stamp : ℕ)
              → pc2_to_xyz conv msg ≡ ok pts
              → pc2_to_xyz conv (xyz_to_pc2 conv pts frame stamp) ≡ ok pts
          unfolding pc2_to_xyz
          pc2_to_xyz_again msg pts frame stamp read =
              let (ps, _, made) =
                both_return (all_points msg)
                  (λ (ps : List (Point S)). ok (masked is_finite_point (map (each conv.widen) ps)))
                  read in
              let same = ok-injective made in
              pc2_to_xyz-xyz_to_pc2 pts frame stamp
              ∙ ap
                  (λ (t : Cloud F).
                    ok (masked is_finite_point (map (each conv.widen) (map (each conv.narrow) t))))
                  (sym same)
              ∙ ap ok (read_again ps)
              ∙ ap ok same
