-- ===== src/MapTools/Chain.antt =====
-- The two tools one after the other: scripts/make_nav2_map.py on the file that scripts/align_pcd_floor.py writes.
use humanoid_navigation.Prelude.{
  ℕ, suc, ◌*◌, ◌≡◌, refl, sym, ap, ◌∙◌, Bool, true, false, ◌&&◌, Option, none, some, List, [], ◌∷◌,
  ◌++◌, map, length, length-append, replicate, ◌==◌, if◌then◌else◌, arith,
}
use mathlib.Core.Option
use mathlib.Core.Option.{some-injective, some-ne-none}
use humanoid_navigation.Prelude.Int.{ℤ, pos}
use humanoid_navigation.Prelude.Result.{
  Result, ok, raised, value_error, ◌>>=◌, both_return, raised≢ok, nth,
}
use humanoid_navigation.Double.{Double}
use humanoid_navigation.Navigation.{Point}
use humanoid_navigation.Localizer.Node.{masked}
use humanoid_navigation.Bytes.{
  Single, Convert, IsSingle, concat, rows, reshape, tobytes, length-tobytes, frombuffer-tobytes,
}
use humanoid_navigation.PointCloud.{each, is_finite_point}
use humanoid_navigation.MapTools.{Text, split, eq_texts}
use humanoid_navigation.MapTools.Pcd.{
  Sample, word_fields, word_size, word_type, expected_fields, header_loop, words_of, value_of,
  is_value, points_of, checked_points, flat_samples, decode, read_binary_pcd, written,
}
use humanoid_navigation.MapTools.Lines.{header_loop_returns}
use humanoid_navigation.MapTools.Rewrite.{decode-ok, length-flat_samples, read_of, length_zero}
use humanoid_navigation.MapTools.Reload.{header_loop-Reloads}
use humanoid_navigation.MapTools.Turns.{is_plain}
use humanoid_navigation.MapTools.Words.{eq_texts_sound, all_ascii, words_of-ok}
use humanoid_navigation.MapTools.Load.{
  load_loop, index_of, reshaped, select, layout, load_points, load_xyz,
}

is_value-some : (v : Option (List Text)) (ws : List Text) → is_value v ws ≡ true → v ≡ some ws
is_value-some none ws h = absurd (ground arith)
is_value-some (some v) ws h = ap some (eq_texts_sound v ws h)

and-true : (a b c : Bool) → (a && (b && c)) ≡ true → (a ≡ true) × (b ≡ true) × (c ≡ true)
and-true a b c h = (ground arith, ground arith, ground arith)

-- A header that the first tool accepts is one that the second accepts.
layout-checked :
    (header : List Text) (n : ℕ)
    → checked_points header ≡ ok (pos n)
    → (all_ascii header ≡ true) × (layout (map split header) ≡ ok (expected_fields, pos n))
unfolding checked_points layout eq_texts
layout-checked header n h =
    let (lines, decoded, h₁) = both_return (words_of header) _ h in
    let (ascii, same) = words_of-ok header lines decoded in
    let (tests, points) =
      if-eq-ok-of
        (is_value (value_of word_fields lines) expected_fields
          && (is_value (value_of word_size lines) (replicate 8 (b'4' ∷ []))
              && is_value (value_of word_type lines) (replicate 8 (b'F' ∷ []))))
        (points_of lines) h₁ in
    let (a, b, c) = and-true _ _ _ tests in
    let fields = is_value-some (value_of word_fields lines) expected_fields a in
    let sizes = is_value-some (value_of word_size lines) (replicate 8 (b'4' ∷ [])) b in
    let types = is_value-some (value_of word_type lines) (replicate 8 (b'F' ∷ [])) c in
    (ascii, ap layout (sym same) ∙ rw (fields, sizes, types, points) refl)
  where
    if-eq-ok-of :
        (b : Bool) (r : Result ℤ) {v : ℤ}
        → (if b then r else raised value_error) ≡ ok v
        → (b ≡ true) × (r ≡ ok v)
    if-eq-ok-of true r h = (refl, h)
    if-eq-ok-of false r h = absurd (raised≢ok h)

module _ {S : Type 0} where
  abbrev row_of : Sample S → List S
  row_of s =
      s.at.x ∷ s.at.y ∷ s.at.z ∷ s.intensity ∷ s.normal.x ∷ s.normal.y ∷ s.normal.z ∷ s.curvature
      ∷ []

  rows-flat_samples :
      (cloud : List (Sample S)) → rows (length cloud) 8 (flat_samples cloud) ≡ map row_of cloud
  unfolding rows flat_samples
  rows-flat_samples [] = refl
  rows-flat_samples (s ∷ cloud) = ap (λ t. row_of s ∷ t) (rows-flat_samples cloud)

  select-row_of :
      (cloud : List (Sample S)) → select (map row_of cloud) 0 1 2 ≡ ok (map (λ s. s.at) cloud)
  unfolding select nth
  select-row_of [] = refl
  select-row_of (s ∷ cloud) =
      ap (λ (r : Result (List (Point S))). r >>= λ rest. ok (s.at ∷ rest)) (select-row_of cloud)

  module _ ⦃single : Single S⦄ (laws : IsSingle S) where
    load_points-flat :
        (header : List Text) (cloud : List (Sample S))
        → checked_points header ≡ ok (pos (length cloud))
        → load_points (map split header) (tobytes (flat_samples cloud)) ≡ ok (map (λ s. s.at) cloud)
    unfolding load_points reshaped reshape index_of
    load_points-flat header cloud checked =
        let (ascii, shape) = layout-checked header (length cloud) checked in
        let size : (length (flat_samples cloud) == length cloud * 8) ≡ true =
          ground (arith, length-flat_samples cloud) in
        rw (shape, frombuffer-tobytes laws (flat_samples cloud), size, rows-flat_samples cloud)
          (select-row_of cloud)

    -- Reading a file that the first tool accepts, up to its payload.
    read-parts :
        (file : List ℕ) (header : List Text) (cloud : List (Sample S))
        → read_binary_pcd (suc (length file)) file ≡ some (ok (header, cloud))
        → (payload : List ℕ) × (header_loop (suc (length file)) [] file
            ≡ some (ok (header, payload)))
          × (checked_points header ≡ ok (pos (length cloud)))
          × (length payload ≡ 4 * (length cloud * 8))
    read-parts file header cloud read =
        let (r, loop) = header_loop_returns (suc (length file)) [] file (omega arith) in
        of_end r loop (some-injective _ _ (sym (read_of file r loop) ∙ read))
      where
        of_end :
            (r : Result (List Text × List ℕ))
            → header_loop (suc (length file)) [] file ≡ some r
            → r >>= (λ (t : List Text × List ℕ). decode t.0 t.1) ≡ ok (header, cloud)
            → (payload : List ℕ) × (header_loop (suc (length file)) [] file
                ≡ some (ok (header, payload)))
              × (checked_points header ≡ ok (pos (length cloud)))
              × (length payload ≡ 4 * (length cloud * 8))
        of_end (raised e) loop h = absurd (raised≢ok h)
        of_end (ok (lines, payload)) loop h =
            let (same, checked, size) = decode-ok lines payload header cloud h in
            (
              payload,
              loop ∙ ap (λ t. some (ok (t, payload))) (sym same),
              ap checked_points same ∙ checked,
              size,
            )

module _ {F S : Type 0} ⦃d : Double F⦄ ⦃single : Single S⦄ (conv : Convert F S)
    (laws : IsSingle S) where
  -- The second tool on the header of a file that the first accepts, in front of another cloud of the
  -- same length.
  pub load_xyz-written :
      (file : List ℕ) (header : List Text) (cloud others : List (Sample S))
      → read_binary_pcd (suc (length file)) file ≡ some (ok (header, cloud))
      → is_plain header ≡ true
      → length others ≡ length cloud
      → load_xyz conv (written header others)
        ≡ some (ok (masked is_finite_point (map (each conv.widen) (map (λ s. s.at) others))))
  unfolding load_xyz written
  load_xyz-written file header cloud others read plain count =
      let (payload, loop, checked, size) = read-parts laws file header cloud read in
      let h = header_loop-Reloads (suc (length file)) [] file header payload loop in
      let rest : List ℕ = tobytes (flat_samples others) in
      let rest_size : length rest ≡ length payload =
        omega
          (arith, size, count, length-tobytes (flat_samples others), length-flat_samples others) in
      let joined : length (concat header ++ rest) ≡ length file = omega (
        arith,
        ap length h.joins,
        ap (λ ls. length (concat ls)) h.splits,
        length-append (concat h.lines) payload,
        length-append (concat header) rest,
        rest_size,
      ) in
      let (ascii, _) = layout-checked header (length cloud) checked in
      let loaded =
        ap (λ k. load_loop (suc k) [] (concat header ++ rest)) joined
        ∙ ap (λ ls. load_loop (suc (length file)) [] (concat ls ++ rest)) h.splits
        ∙ h.loads [] rest (λ none_left. length_zero rest (rest_size ∙ ap length none_left))
            (ap is_plain (sym h.splits) ∙ plain) (ap all_ascii (sym h.splits) ∙ ascii)
        ∙ ap (λ ls. some (ok (map split ls, rest))) (sym h.splits) in
      ap
        (Option.map (λ (r : Result (List (List Text) × List ℕ)). r >>= λ t.
          load_points t.0 t.1 >>= λ (pts : List (Point S)).
          ok (masked is_finite_point (map (each conv.widen) pts))))
        loaded
      ∙ ap
          (λ (r : Result (List (Point S))).
            some (r >>= λ pts. ok (masked is_finite_point (map (each conv.widen) pts))))
          (load_points-flat laws header others (checked ∙ ap (λ k. ok (pos k)) (sym count)))
