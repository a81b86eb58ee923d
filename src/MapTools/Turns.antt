-- ===== src/MapTools/Turns.antt =====
-- The turns of the two header loops on one line: what ends the loop of scripts/align_pcd_floor.py ends that of
-- scripts/make_nav2_map.py.
use humanoid_navigation.Prelude.{
  ℕ, ◌≡◌, refl, sym, ap, ◌∙◌, Bool, true, false, ◌&&◌, ◌||◌, not, Option, none, some, List, [], ◌∷◌,
  ◌++◌, if◌then◌else◌,
}
use humanoid_navigation.Prelude.Result.{Result, ok, raised, value_error}
use mathlib.Core.Option.{some-ne-none}
use humanoid_navigation.Navigation.{eq_frame}
use humanoid_navigation.MapTools.{Text, starts_with, strip, is_ascii, split_from, split, eq_texts}
use humanoid_navigation.MapTools.Pcd.{word_data, word_binary, header_turn}
use humanoid_navigation.MapTools.Lines.{not_found}
use humanoid_navigation.MapTools.Load.{load_turn}
use humanoid_navigation.MapTools.Words.{split-strip, eq_frame_sound}

-- The words begin with `DATA`.
abbrev pub is_data : List Text → Bool
is_data [] = false
is_data (w ∷ ws) = eq_frame w word_data

abbrev pub is_last : List Text → Bool
is_last [] = true
is_last (line ∷ lines) = false

-- No line but the last one has `DATA` as its first word.
abbrev pub is_plain : List Text → Bool
is_plain [] = true
is_plain (line ∷ lines) = (is_last lines || not (is_data (split line))) && is_plain lines

abbrev closing : Text
closing = word_data ++ (b' ' ∷ word_binary)

-- The line that ended the other tool's loop ends this one.
pub load_turn-closes :
    (w : List (List Text)) (c : ℕ) (line : Text) (rest : List ℕ)
    (more : Option (Result (List (List Text) × List ℕ)))
    → is_ascii (c ∷ line) ≡ true
    → split (c ∷ line) ≡ word_data ∷ word_binary ∷ []
    → load_turn w (c ∷ line) rest more ≡ some (ok (w ++ split (c ∷ line) ∷ [], rest))
unfolding load_turn eq_texts
load_turn-closes w c line rest more ascii words = rw (ascii, words) refl

pub load_turn-passes :
    (w : List (List Text)) (c : ℕ) (line : Text) (rest : List ℕ)
    (more : Option (Result (List (List Text) × List ℕ)))
    → is_ascii (c ∷ line) ≡ true
    → is_data (split (c ∷ line)) ≡ false
    → load_turn w (c ∷ line) rest more ≡ more
unfolding load_turn
load_turn-passes w c line rest more ascii plain = rw ascii (of_parts (split (c ∷ line)) plain)
  where
    of_parts :
        (parts : List Text)
        → is_data parts ≡ false
        → elim parts [
          | [] ↦ more
          | p ∷ ps ↦
              if eq_frame p word_data
              then (if eq_texts ps (word_binary ∷ [])
                  then some (ok (w ++ (p ∷ ps) ∷ [], rest))
                  else some (raised value_error))
              else more
        ]
          ≡ more
    of_parts [] plain = refl
    of_parts (p ∷ ps) plain = rw plain refl

split-closing : split closing ≡ word_data ∷ word_binary ∷ []
unfolding split split_from
split-closing = refl

abbrev ended : List Text → List ℕ → Option (Result (List Text × List ℕ))
ended header rest = some (ok (header, rest))

-- What a turn that ends with a header says of its line.
pub closes-words :
    (header : List Text) (line : Text)
    → ((r : List ℕ) (m : Option (Result (List Text × List ℕ)))
        → header_turn header line r m ≡ some (ok (header ++ line ∷ [], r)))
    → (c : ℕ) × (text : Text) × (line ≡ c ∷ text) × (split line ≡ word_data ∷ word_binary ∷ [])
unfolding header_turn
closes-words header [] ends = absurd (not_found (ends [] none))
closes-words header (c ∷ text) ends = (
  c,
  text,
  refl,
  of_tests (starts_with (word_data ++ b' ' ∷ []) (c ∷ text)) (eq_frame (strip (c ∷ text)) closing)
      refl (ends [] none),
)
  where
    of_tests :
        (starts binary : Bool)
        → eq_frame (strip (c ∷ text)) closing ≡ binary
        → (if starts
            then (if binary
                then ended (header ++ (c ∷ text) ∷ []) []
                else some (raised value_error))
            else none)
          ≡ ended (header ++ (c ∷ text) ∷ []) []
        → split (c ∷ text) ≡ word_data ∷ word_binary ∷ []
    of_tests true true same h =
        sym (split-strip (c ∷ text)) ∙ ap split (eq_frame_sound _ _ same) ∙ split-closing
    of_tests true false same h = absurd (not_found h)
    of_tests false binary same h = absurd (some-ne-none _ (sym h))

pub passes-cons :
    (header : List Text) (line : Text)
    → ((r : List ℕ) (m : Option (Result (List Text × List ℕ))) → header_turn header line r m ≡ m)
    → (c : ℕ) × (text : Text) × (line ≡ c ∷ text)
unfolding header_turn
passes-cons header [] goes_on = absurd (some-ne-none _ (goes_on [] none))
passes-cons header (c ∷ text) goes_on = (c, text, refl)
