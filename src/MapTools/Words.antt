-- ===== src/MapTools/Words.antt =====
-- Splitting a line of a file into words: the white space around the line makes no difference.
use humanoid_navigation.Prelude.{
  ℕ, ◌≡◌, refl, sym, ap, ◌∙◌, Bool, true, false, ◌&&◌, List, [], ◌∷◌, map, arith, Bool-cases,
  if◌then◌else◌, inl, inr,
}
use humanoid_navigation.Prelude.Result.{ok, ◌>>=◌, both_return, ok-injective, raised≢ok}
use humanoid_navigation.Navigation.{eq_frame}
use humanoid_navigation.MapTools.{
  Text, is_space, is_text_space, add_word, lstrip, rstrip, strip, is_ascii, split_from, split,
  eq_texts,
}
use humanoid_navigation.MapTools.Pcd.{words_of}

space_is_text_space : (c : ℕ) → is_space c ≡ true → is_text_space c ≡ true
space_is_text_space c h = ground arith

-- What a character makes of the split of the text behind it.
abbrev extend : ℕ → Text × List Text → Text × List Text
extend c t = if is_text_space c then ([], add_word t.0 t.1) else (c ∷ t.0, t.1)

split_from-rstrip : (text : Text) → split_from (rstrip text) ≡ split_from text
unfolding split_from rstrip
split_from-rstrip [] = refl
split_from-rstrip (c ∷ text) = of_rest (rstrip text) (split_from-rstrip text)
  where
    of_test :
        (white : Bool)
        → is_space c ≡ white
        → split_from [] ≡ split_from text
        → split_from (if white then [] else c ∷ []) ≡ split_from (c ∷ text)
    of_test true e same = rw (space_is_text_space c e) (ap (λ t. ([], add_word t.0 t.1)) same)
    of_test false e same = ap (extend c) same

    of_rest :
        (rest : Text)
        → split_from rest ≡ split_from text
        → split_from
            (elim rest [ [] ↦ if is_space c then [] else c ∷ [] | e ∷ rest ↦ c ∷ e ∷ rest ])
          ≡ split_from (c ∷ text)
    of_rest (e ∷ rest) same = ap (extend c) same
    of_rest [] same = of_test (is_space c) refl same

split-lstrip : (text : Text) → split (lstrip text) ≡ split text
unfolding split split_from lstrip
split-lstrip [] = refl
split-lstrip (c ∷ text) = of_test (is_space c) refl (split-lstrip text)
  where
    of_test :
        (white : Bool)
        → is_space c ≡ white
        → split (lstrip text) ≡ split text
        → split (if white then lstrip text else c ∷ text) ≡ split (c ∷ text)
    of_test true e same = rw (space_is_text_space c e) same
    of_test false e same = refl

pub split-strip : (text : Text) → split (strip text) ≡ split text
unfolding split strip
split-strip text = split-lstrip (rstrip text) ∙ ap (λ t. add_word t.0 t.1) (split_from-rstrip text)

pub eq_frame_sound : (a b : Text) → eq_frame a b ≡ true → a ≡ b
eq_frame_sound [] [] h = refl
eq_frame_sound (x ∷ a) (y ∷ b) h = ground (arith, eq_frame_sound a b)
eq_frame_sound [] (y ∷ b) h = absurd (ground arith)
eq_frame_sound (x ∷ a) [] h = absurd (ground arith)

pub eq_texts_sound : (a b : List Text) → eq_texts a b ≡ true → a ≡ b
unfolding eq_texts
eq_texts_sound [] [] h = refl
eq_texts_sound (x ∷ a) (y ∷ b) h = ground (arith, eq_frame_sound x y, eq_texts_sound a b)
eq_texts_sound [] (y ∷ b) h = absurd (ground arith)
eq_texts_sound (x ∷ a) [] h = absurd (ground arith)

abbrev pub all_ascii : List Text → Bool
all_ascii [] = true
all_ascii (line ∷ lines) = is_ascii line && all_ascii lines

-- Lines that are decoded are ASCII, and come as their words.
pub words_of-ok :
    (lines : List Text) (words : List (List Text))
    → words_of lines ≡ ok words
    → (all_ascii lines ≡ true) × (words ≡ map split lines)
unfolding words_of
words_of-ok [] words h = (refl, sym (ok-injective h))
words_of-ok (line ∷ lines) words h = elim (Bool-cases (is_ascii line)) [
  | inl ascii ↦
      let h' : words_of lines >>= (λ (rest : List (List Text)). ok (split line ∷ rest)) ≡ ok words =
        rw ascii at h in
      let (rest, found, same) = both_return (words_of lines) _ h' in
      let (all, e) = words_of-ok lines rest found in
      (ground (arith, ascii, all), sym (ok-injective same) ∙ ap (λ t. split line ∷ t) e)
  | inr other ↦ absurd (raised≢ok {A = List (List Text)} (rw other at h))
]
