-- ===== src/MapTools/Load.antt =====
-- `load_xyz` of scripts/make_nav2_map.py.
use mathlib.Core.Option
use humanoid_navigation.Prelude.{
  ℕ, zero, suc, ◌/◌, Option, none, some, List, [], ◌∷◌, ◌++◌, map, length, replicate, if◌then◌else◌,
}
use humanoid_navigation.Prelude.Int.{ℤ, pos, negsuc}
use humanoid_navigation.Prelude.Result.{
  Result, ok, raised, value_error, key_error, ◌>>=◌, from_option, nth,
}
use humanoid_navigation.Double.{Double}
use humanoid_navigation.Navigation.{Point, eq_frame}
use humanoid_navigation.Localizer.{Cloud}
use humanoid_navigation.Localizer.Node.{masked}
use humanoid_navigation.Bytes.{Single, Convert, rows, reshape, frombuffer}
use humanoid_navigation.PointCloud.{each, is_finite_point}
use humanoid_navigation.MapTools.{Text, is_ascii, split, eq_texts}
use humanoid_navigation.MapTools.Pcd.{
  word_data, word_binary, word_fields, word_size, word_type, readline, value_of, points_of,
}

-- One turn of the loop: the end of the file, a line that is not ASCII, the line `DATA binary`, another
-- `DATA` line, or any other line, after which the loop goes on with `more`.
unfoldable pub load_turn :
    List (List Text)
    → Text
    → List ℕ
    → Option (Result (List (List Text) × List ℕ))
    → Option (Result (List (List Text) × List ℕ))
load_turn header [] rest more = some (raised value_error)
load_turn header (c ∷ line) rest more =
    let parts = split (c ∷ line) in
    if is_ascii (c ∷ line)
    then elim parts [
      | [] ↦ more
      | w ∷ ws ↦
          if eq_frame w word_data
          then (if eq_texts ws (word_binary ∷ [])
              then some (ok (header ++ (w ∷ ws) ∷ [], rest))
              else some (raised value_error))
          else more
    ]
    else some (raised value_error)

-- The loop on fuel: the words of each line behind those so far, and the payload. The outer `none` means that
-- the fuel ran out.
unfoldable pub load_loop :
    ℕ → List (List Text) → List ℕ → Option (Result (List (List Text) × List ℕ))
load_loop zero header stream = none
load_loop (suc fuel) header stream =
    let (line, rest) = readline stream in
    let more = load_loop fuel (header ++ split line ∷ []) rest in load_turn header line rest more

-- `fields.index(name)`
unfoldable pub index_of : Text → List Text → Option ℕ
index_of name [] = none
index_of name (w ∷ ws) =
    let later = Option.map suc (index_of name ws) in if eq_frame w name then some 0 else later

-- `reshape(points, columns)`, where -1 stands for as many rows as there are.
unfoldable pub reshaped {ℓ} : {A : Type ℓ} → ℤ → ℕ → List A → Result (List (List A))
reshaped (pos n) columns xs = reshape n columns xs
reshaped (negsuc zero) zero xs = raised value_error
reshaped (negsuc zero) (suc k) xs = reshape (length xs / suc k) (suc k) xs
reshaped (negsuc (suc n)) columns xs = raised value_error

-- `cloud[:, [i, j, k]]`, row by row.
unfoldable pub select : {S : Type 0} → List (List S) → ℕ → ℕ → ℕ → Result (List (Point S))
select [] i j k = ok []
select (row ∷ rows) i j k = do
  a ← nth row i
  b ← nth row j
  c ← nth row k
  rest ← select rows i j k
  ok (record { x = a; y = b; z = c } ∷ rest)

-- The tests on the header; the result is the columns and the declared number of points.
unfoldable pub layout : List (List Text) → Result (List Text × ℤ)
layout lines = from_option key_error (value_of word_fields lines) >>= λ fields.
    from_option key_error (value_of word_size lines) >>= λ sizes.
    if eq_texts sizes (replicate (length fields) (b'4' ∷ []))
    then (from_option key_error (value_of word_type lines) >>= λ types.
        if eq_texts types (replicate (length fields) (b'F' ∷ []))
        then (points_of lines >>= λ points. ok (fields, points))
        else raised value_error)
    else raised value_error

module _ {S : Type 0} ⦃single : Single S⦄ where
  unfoldable pub load_points : List (List Text) → List ℕ → Result (List (Point S))
  load_points lines payload = do
    shape ← layout lines
    numbers ← frombuffer payload
    cloud ← reshaped shape.1 (length shape.0) numbers
    i ← from_option value_error (index_of (b'x' ∷ []) shape.0)
    j ← from_option value_error (index_of (b'y' ∷ []) shape.0)
    k ← from_option value_error (index_of (b'z' ∷ []) shape.0)
    select cloud i j k

module _ {F S : Type 0} ⦃d : Double F⦄ ⦃single : Single S⦄ (conv : Convert F S) where
  -- On the bytes of a file; one turn of the loop for each byte is enough.
  unfoldable pub load_xyz : List ℕ → Option (Result (Cloud F))
  load_xyz file =
      Option.map
        (λ (r : Result (List (List Text) × List ℕ)). r >>= λ t.
          load_points t.0 t.1 >>= λ (pts : List (Point S)).
          ok (masked is_finite_point (map (each conv.widen) pts)))
        (load_loop (suc (length file)) [] file)
