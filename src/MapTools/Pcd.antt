-- ===== src/MapTools/Pcd.antt =====
-- `read_binary_pcd` of scripts/align_pcd_floor.py, and the file that its `main` writes.
use humanoid_navigation.Prelude.{
  ℕ, zero, suc, ◌*◌, codes, Bool, false, ◌&&◌, Option, none, some, List, [], ◌∷◌, ◌++◌, length,
  replicate, ◌==◌, if◌then◌else◌,
}
use mathlib.Core.Option
use humanoid_navigation.Prelude.Int.{ℤ, pos, negsuc}
use humanoid_navigation.Prelude.Result.{
  Result, ok, raised, value_error, key_error, index_error, ◌>>=◌, from_option,
}
use humanoid_navigation.Navigation.{Point, eq_frame}
use humanoid_navigation.Bytes.{Single, concat, frombuffer, tobytes}
use humanoid_navigation.MapTools.{
  Text, newline, starts_with, strip, is_ascii, split, eq_texts, int_of,
}

-- One row of the cloud: `EXPECTED_FIELDS`.
pub record Sample (S : Type 0) : Type 0 where
  pub at : Point S
  pub intensity : S
  pub normal : Point S
  pub curvature : S

abbrev pub word_data : Text
word_data = codes "DATA"

abbrev pub word_fields : Text
word_fields = codes "FIELDS"

abbrev pub word_size : Text
word_size = codes "SIZE"

abbrev pub word_type : Text
word_type = codes "TYPE"

abbrev word_points : Text
word_points = codes "POINTS"

abbrev pub word_binary : Text
word_binary = codes "binary"

abbrev pub expected_fields : List Text
expected_fields =
    codes "x"
    ∷ codes "y"
    ∷ codes "z"
    ∷ codes "intensity"
    ∷ codes "normal_x"
    ∷ codes "normal_y"
    ∷ codes "normal_z"
    ∷ codes "curvature"
    ∷ []

-- `stream.readline()`: a line with its line feed, and what is left of the stream.
unfoldable pub readline : List ℕ → Text × List ℕ
readline [] = ([], [])
readline (c ∷ stream) =
    let (line, rest) = readline stream in
    if c == newline then (c ∷ [], stream) else (c ∷ line, rest)

-- One turn of the loop over the lines: the end of the file, the `DATA` line, or another line, after which
-- the loop goes on with `more`.
unfoldable pub header_turn :
    List Text
    → Text
    → List ℕ
    → Option (Result (List Text × List ℕ))
    → Option (Result (List Text × List ℕ))
header_turn header [] rest more = some (raised value_error)
header_turn header (c ∷ line) rest more =
    if starts_with (word_data ++ b' ' ∷ []) (c ∷ line)
    then (if eq_frame (strip (c ∷ line)) (word_data ++ (b' ' ∷ word_binary))
        then some (ok (header ++ (c ∷ line) ∷ [], rest))
        else some (raised value_error))
    else more

-- The loop on fuel: the lines up to the `DATA` line behind the header so far, and the payload. The outer
-- `none` means that the fuel ran out.
unfoldable pub header_loop : ℕ → List Text → List ℕ → Option (Result (List Text × List ℕ))
header_loop zero header stream = none
header_loop (suc fuel) header stream =
    let (line, rest) = readline stream in
    let more = header_loop fuel (header ++ line ∷ []) rest in header_turn header line rest more

-- The words of each line.
unfoldable pub words_of : List Text → Result (List (List Text))
words_of [] = ok []
words_of (line ∷ lines) =
    if is_ascii line
    then (words_of lines >>= λ (rest : List (List Text)). ok (split line ∷ rest))
    else raised value_error

-- `values.get(name)`: the words after the first of the last line that begins with the name.
unfoldable pub value_of : Text → List (List Text) → Option (List Text)
value_of name [] = none
value_of name (words ∷ lines) = elim (value_of name lines) [
  | some value ↦ some value
  | none ↦ elim words [ [] ↦ none | w ∷ ws ↦ if eq_frame w name then some ws else none ]
]

abbrev pub is_value : Option (List Text) → List Text → Bool
is_value none ws = false
is_value (some v) ws = eq_texts v ws

abbrev first : List Text → Result Text
first [] = raised index_error
first (w ∷ ws) = ok w

-- `int(values["POINTS"][0])`
unfoldable pub points_of : List (List Text) → Result ℤ
points_of lines = do
  value ← from_option key_error (value_of word_points lines)
  word ← first value
  from_option value_error (int_of word)

-- The tests on the header; the result is the number of points that it declares.
unfoldable pub checked_points : List Text → Result ℤ
checked_points header = words_of header >>= λ (lines : List (List Text)).
    if is_value (value_of word_fields lines) expected_fields
      && (is_value (value_of word_size lines) (replicate 8 (b'4' ∷ []))
          && is_value (value_of word_type lines) (replicate 8 (b'F' ∷ [])))
    then points_of lines
    else raised value_error

module _ {S : Type 0} where
  -- `cloud.reshape(points, 8)`
  unfoldable pub samples : List S → List (Sample S)
  samples (x ∷ y ∷ z ∷ i ∷ nx ∷ ny ∷ nz ∷ c ∷ rest) =
      record {
        at = record { x = x; y = y; z = z };
        intensity = i;
        normal = record { x = nx; y = ny; z = nz };
        curvature = c;
      }
      ∷ samples rest
  samples _ = []

  -- The numbers of the cloud in the order of memory.
  unfoldable pub flat_samples : List (Sample S) → List S
  flat_samples [] = []
  flat_samples (s ∷ rest) =
      s.at.x
      ∷ s.at.y
      ∷ s.at.z
      ∷ s.intensity
      ∷ s.normal.x
      ∷ s.normal.y
      ∷ s.normal.z
      ∷ s.curvature
      ∷ flat_samples rest

  -- The test of the payload's size, and the rows.
  unfoldable pub shaped : ℤ → List S → Result (List (Sample S))
  shaped (pos n) cloud = if length cloud == n * 8 then ok (samples cloud) else raised value_error
  shaped (negsuc n) cloud = raised value_error

  module _ ⦃single : Single S⦄ where
    unfoldable pub decode : List Text → List ℕ → Result (List Text × List (Sample S))
    decode header payload = do
      points ← checked_points header
      cloud ← frombuffer payload
      rows ← shaped points cloud
      ok (header, rows)

    -- `read_binary_pcd` on the bytes of a file.
    unfoldable pub read_binary_pcd : ℕ → List ℕ → Option (Result (List Text × List (Sample S)))
    read_binary_pcd fuel file =
        Option.map (λ (r : Result (List Text × List ℕ)). r >>= λ t. decode t.0 t.1)
          (header_loop fuel [] file)

    -- `stream.writelines(header)` and `stream.write(cloud.tobytes())`
    unfoldable pub written : List Text → List (Sample S) → List ℕ
    written header cloud = concat header ++ tobytes (flat_samples cloud)
