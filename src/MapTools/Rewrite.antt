-- ===== src/MapTools/Rewrite.antt =====
-- Reading the file that scripts/align_pcd_floor.py writes.
use humanoid_navigation.Prelude.{
  ℕ, zero, suc, ◌*◌, ◌≡◌, refl, sym, ap, ◌∙◌, some, List, [], ◌∷◌, ◌++◌, map, length, length-append,
  length-map, ◌==◌, arith,
}
use mathlib.Core.Option
use humanoid_navigation.Prelude.Int.{ℤ, pos, negsuc}
use humanoid_navigation.Prelude.Result.{
  Result, ok, raised, Fault, value_error, ◌>>=◌, both_return, ok-injective, raised≢ok, if-eq-ok,
}
use humanoid_navigation.Double.{Double, LibM}
use humanoid_navigation.Navigation.{Point}
use humanoid_navigation.Localizer.{Numerics}
use humanoid_navigation.Bytes.{
  Single, Convert, IsSingle, concat, frombuffer, tobytes, length-tobytes, frombuffer-tobytes,
}
use humanoid_navigation.MapTools.{Text}
use humanoid_navigation.MapTools.Pcd.{
  Sample, header_loop, checked_points, samples, flat_samples, shaped, decode, read_binary_pcd,
  written,
}
use humanoid_navigation.MapTools.Lines.{Reads, header_loop_returns, header_loop-Reads}
use humanoid_navigation.MapTools.Align.{Floor, align_sample, align_pcd}

pub length_zero : (xs : List ℕ) → length xs ≡ 0 → xs ≡ []
length_zero [] h = refl
length_zero (x ∷ xs) h = absurd (omega arith)

module _ {S : Type 0} where
  samples-flat_samples : (rows : List (Sample S)) → samples (flat_samples rows) ≡ rows
  unfolding samples flat_samples
  samples-flat_samples [] = refl
  samples-flat_samples (s ∷ rows) = ap (λ t. s ∷ t) (samples-flat_samples rows)

  pub length-flat_samples : (rows : List (Sample S)) → length (flat_samples rows) ≡ 8 * length rows
  unfolding flat_samples
  length-flat_samples [] = omega arith
  length-flat_samples (s ∷ rows) = omega (arith, length-flat_samples rows)

  length-samples : (n : ℕ) (vs : List S) → length vs ≡ n * 8 → length (samples vs) ≡ n
  unfolding samples
  length-samples zero [] h = refl
  length-samples (suc n) (a ∷ b ∷ c ∷ e ∷ f ∷ g ∷ i ∷ j ∷ vs) h =
      omega (arith, length-samples n vs (omega arith))
  length-samples n vs h = absurd (omega arith)

  shaped-ok :
      (points : ℤ) (vs : List S) (rows : List (Sample S))
      → shaped points vs ≡ ok rows
      → (points ≡ pos (length rows)) × (length vs ≡ length rows * 8)
  unfolding shaped
  shaped-ok (negsuc n) vs rows h = absurd (raised≢ok h)
  shaped-ok (pos n) vs rows h =
      let (fits, same) = if-eq-ok (length vs == n * 8) (samples vs) value_error h in
      let size : length vs ≡ n * 8 = ground (arith, fits) in
      let count : n ≡ length rows = sym (length-samples n vs size) ∙ ap length same in
      (ap pos count, size ∙ ap (λ k. k * 8) count)

  shaped-flat : (rows : List (Sample S)) → shaped (pos (length rows)) (flat_samples rows) ≡ ok rows
  unfolding shaped
  shaped-flat rows = ground (arith, length-flat_samples rows, samples-flat_samples rows)

  module _ ⦃single : Single S⦄ where
    length-frombuffer :
        (raw : List ℕ) (vs : List S) → frombuffer raw ≡ ok vs → length raw ≡ 4 * length vs
    unfolding frombuffer
    length-frombuffer [] vs h = omega (arith, ap length (ok-injective h))
    length-frombuffer (a ∷ b ∷ c ∷ e ∷ raw) vs h =
        let (ws, read, same) = both_return (frombuffer raw) _ h in
        omega (arith, length-frombuffer raw ws read, ap length (ok-injective same))
    length-frombuffer raw vs h = absurd (raised≢ok h)

    -- What `decode` has returned: another cloud of as many rows is decoded under the same header.
    pub decode-ok :
        (header : List Text) (payload : List ℕ) (found : List Text) (rows : List (Sample S))
        → decode header payload ≡ ok (found, rows)
        → (found ≡ header)
          × (checked_points header ≡ ok (pos (length rows)))
          × (length payload ≡ 4 * (length rows * 8))
    unfolding decode
    decode-ok header payload found rows h =
        let (points, checked, h₁) = both_return (checked_points header) _ h in
        let (vs, read, h₂) = both_return (frombuffer payload) _ h₁ in
        let (rs, shape, h₃) = both_return (shaped points vs) _ h₂ in
        let pair = ok-injective h₃ in
        let made = shape ∙ ap (λ t. ok t.1) pair in
        let (count, size) = shaped-ok points vs rows made in
        (
          sym (ap (λ t. t.0) pair),
          checked ∙ ap ok count,
          length-frombuffer payload vs read ∙ ap (λ k. 4 * k) size,
        )

    decode-flat :
        (laws : IsSingle S) (header : List Text) (rows : List (Sample S))
        → checked_points header ≡ ok (pos (length rows))
        → decode header (tobytes (flat_samples rows)) ≡ ok (header, rows)
    unfolding decode
    decode-flat laws header rows checked =
        rw checked (rw (frombuffer-tobytes laws (flat_samples rows)) (rw (shaped-flat rows) refl))

    pub read_of :
        (file : List ℕ) (r : Result (List Text × List ℕ))
        → header_loop (suc (length file)) [] file ≡ some r
        → read_binary_pcd {S = S} (suc (length file)) file
          ≡ some (r >>= λ (t : List Text × List ℕ). decode t.0 t.1)
    unfolding read_binary_pcd
    read_of file r e =
        ap (Option.map (λ (r : Result (List Text × List ℕ)). r >>= λ t. decode t.0 t.1)) e

    module _ (laws : IsSingle S) (file : List ℕ) (header : List Text) (payload : List ℕ) where
      -- The header in front of another cloud of the same length is a file of the same length that reads as
      -- that cloud.
      Reads-written :
          (rows : List (Sample S))
          → Reads (suc (length file)) [] file header payload
          → checked_points header ≡ ok (pos (length rows))
          → length payload ≡ 4 * (length rows * 8)
          → let out = written header rows in
            (length out ≡ length file)
            × (read_binary_pcd (suc (length out)) out ≡ some (ok (header, rows)))
      unfolding written read_binary_pcd
      Reads-written rows h checked size =
          let rest : List ℕ = tobytes (flat_samples rows) in
          let rest_size : length rest ≡ length payload =
            omega (arith, size, length-tobytes (flat_samples rows), length-flat_samples rows) in
          let joined : length (concat header ++ rest) ≡ length file = omega (
            arith,
            ap length h.joins,
            ap (λ ls. length (concat ls)) h.splits,
            length-append (concat h.lines) payload,
            length-append (concat header) rest,
            rest_size,
          ) in
          let loop =
            ap (λ k. header_loop (suc k) [] (concat header ++ rest)) joined
            ∙ ap (λ ls. header_loop (suc (length file)) [] (concat ls ++ rest)) h.splits
            ∙ h.again rest (λ none_left. length_zero rest (rest_size ∙ ap length none_left)) in
          (
            joined,
            ap (Option.map (λ (r : Result (List Text × List ℕ)). r >>= λ t. decode t.0 t.1)) loop
                ∙ ap some (decode-flat laws header rows checked),
          )

module _ {F S : Type 0} ⦃d : Double F⦄ ⦃m : LibM F⦄ ⦃num : Numerics F⦄ ⦃single : Single S⦄
    (conv : Convert F S) (norm32 : Point S → F) where
  -- The two ends of the program: the error that reading the file raises, or a file that is read again.
  pub data Outcome (floor : Floor F) (file : List ℕ) : Type 0 where
    fails :
        (e : Fault)
        → read_binary_pcd {S = S} (suc (length file)) file ≡ some (raised e)
        → align_pcd conv norm32 floor file ≡ some (raised e)
        → Outcome floor file
    writes :
        (out : List ℕ) (header : List Text) (cloud : List (Sample S))
        → align_pcd conv norm32 floor file ≡ some (ok out)
        → read_binary_pcd (suc (length file)) file ≡ some (ok (header, cloud))
        → length out ≡ length file
        → read_binary_pcd (suc (length out)) out
          ≡ some (ok (header, map (align_sample conv norm32 floor) cloud))
        → Outcome floor file

  pub align_of :
      (floor : Floor F) (file : List ℕ) (r : Result (List Text × List (Sample S)))
      → read_binary_pcd (suc (length file)) file ≡ some r
      → align_pcd conv norm32 floor file
        ≡ some (
            r >>= λ (t : List Text × List (Sample S)).
            ok (written t.0 (map (align_sample conv norm32 floor) t.1)))
  unfolding align_pcd
  align_of floor file r e =
      ap
        (Option.map (λ (r : Result (List Text × List (Sample S))).
          r >>= λ t. ok (written t.0 (map (align_sample conv norm32 floor) t.1))))
        e

  module _ (laws : IsSingle S) (floor : Floor F) (file : List ℕ) where
    decoded :
        (header : List Text) (payload : List ℕ) (r : Result (List Text × List (Sample S)))
        → header_loop (suc (length file)) [] file ≡ some (ok (header, payload))
        → decode header payload ≡ r
        → Outcome floor file
    decoded header payload (raised e) loop found =
        let read = read_of file (ok (header, payload)) loop ∙ ap some found in
        fails e read (align_of floor file (raised e) read)
    decoded header payload (ok (found_header, cloud)) loop found =
        let (same, checked, size) = decode-ok header payload found_header cloud found in
        let fixed = found ∙ ap (λ t. ok (t, cloud)) same in
        let read = read_of file (ok (header, payload)) loop ∙ ap some fixed in
        let rows : List (Sample S) = map (align_sample conv norm32 floor) cloud in
        let count : length rows ≡ length cloud =
          length-map (align_sample conv norm32 floor) cloud in
        let (size_kept, read_back) =
          Reads-written laws file header payload rows
            (header_loop-Reads (suc (length file)) [] file header payload loop)
            (checked ∙ ap (λ k. ok (pos k)) (sym count))
            (size ∙ ap (λ k. 4 * (k * 8)) (sym count)) in
        writes (written header rows) header cloud (align_of floor file (ok (header, cloud)) read)
          read size_kept read_back

    looped :
        (r : Result (List Text × List ℕ))
        → header_loop (suc (length file)) [] file ≡ some r
        → Outcome floor file
    looped (raised e) loop =
        let read = read_of file (raised e) loop in
        fails e read (align_of floor file (raised e) read)
    looped (ok (header, payload)) loop = decoded header payload (decode header payload) loop refl

    -- Over a float32 that is read back from its bytes: for every file and floor, the tool ends, and either
    -- raises the error that reading the file raises, or writes a file of the same length, which reads as
    -- the same header with every sample aligned.
    pub align_pcd-Outcome : Outcome floor file
    align_pcd-Outcome =
        let (r, loop) = header_loop_returns (suc (length file)) [] file (omega arith) in
        looped r loop
