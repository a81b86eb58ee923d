-- ===== src/Bytes.antt =====
-- Arrays of float32 as bytes, the way numpy's `frombuffer`, `tobytes` and `reshape` document them. What a
-- float32 is, and its conversions from and to float64, are parameters: no file of the repository
-- implements them.
use humanoid_navigation.Prelude.{
  ℕ, zero, suc, ◌*◌, ◌≡◌, refl, ap, ◌∙◌, List, [], ◌∷◌, ◌++◌, length, ◌==◌, if◌then◌else◌, arith,
}
use humanoid_navigation.Prelude.Result.{Result, ok, raised, value_error, ◌>>=◌}
use humanoid_navigation.Double.{Double, IsFinite}

-- The four bytes of a float32 in memory, lowest address first.
abbrev pub Word : Type 0
Word = ℕ × ℕ × ℕ × ℕ

pub record Single (S : Type 0) : Type 0 where
  pub to_word : S → Word
  pub from_word : Word → S

-- `astype(np.float64)` and `astype(np.float32)`
pub record Convert (F S : Type 0) : Type 0 where
  pub widen : S → F
  pub narrow : F → S

-- A float32 is read back from its bytes.
pub record IsSingle (S : Type 0) ⦃single : Single S⦄ : Type 0 where
  pub from_word-to_word : (v : S) → single.from_word (single.to_word v) ≡ v

-- Every finite float32 is a float64, and is rounded to itself.
pub record IsExact (F S : Type 0) ⦃d : Double F⦄ (conv : Convert F S) : Type 0 where
  pub narrow-widen : (v : S) → IsFinite (conv.widen v) → conv.narrow (conv.widen v) ≡ v

module _ {ℓ} {A : Type ℓ} where
  abbrev pub take : ℕ → List A → List A
  take zero xs = []
  take (suc n) [] = []
  take (suc n) (x ∷ xs) = x ∷ take n xs

  abbrev pub drop : ℕ → List A → List A
  drop zero xs = xs
  drop (suc n) [] = []
  drop (suc n) (x ∷ xs) = drop n xs

  -- The first `n` rows of `step` elements.
  unfoldable pub rows : ℕ → ℕ → List A → List (List A)
  rows zero step raw = []
  rows (suc n) step raw = take step raw ∷ rows n step (drop step raw)

  -- `reshape(n, step)`
  unfoldable pub reshape : ℕ → ℕ → List A → Result (List (List A))
  reshape n step raw = if length raw == n * step then ok (rows n step raw) else raised value_error

  abbrev pub concat : List (List A) → List A
  concat [] = []
  concat (xs ∷ xss) = xs ++ concat xss

module _ {S : Type 0} ⦃single : Single S⦄ where
  open single use {from_word, to_word}

  abbrev pub word_of : ℕ → ℕ → ℕ → ℕ → S
  word_of a b c e = from_word (a, b, c, e)

  -- `np.frombuffer(raw, dtype=np.float32)`
  unfoldable pub frombuffer : List ℕ → Result (List S)
  frombuffer [] = ok []
  frombuffer (a ∷ b ∷ c ∷ e ∷ raw) = frombuffer raw >>= λ vs. ok (word_of a b c e ∷ vs)
  frombuffer _ = raised value_error

  -- `tobytes()`
  unfoldable pub tobytes : List S → List ℕ
  tobytes [] = []
  tobytes (v ∷ vs) = let (a, b, c, e) = to_word v in a ∷ b ∷ c ∷ e ∷ tobytes vs

  pub length-tobytes : (vs : List S) → length (tobytes vs) ≡ 4 * length vs
  unfolding tobytes
  length-tobytes [] = omega arith
  length-tobytes (v ∷ vs) = omega (arith, length-tobytes vs)

  module _ (laws : IsSingle S) where
    pub frombuffer-tobytes : (vs : List S) → frombuffer (tobytes vs) ≡ ok vs
    unfolding frombuffer tobytes
    frombuffer-tobytes [] = refl
    frombuffer-tobytes (v ∷ vs) =
        ap (λ r. r >>= λ ws. ok (from_word (to_word v) ∷ ws)) (frombuffer-tobytes vs)
        ∙ ap (λ w. ok (w ∷ vs)) (laws.from_word-to_word v)
