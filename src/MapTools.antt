-- ===== src/MapTools.antt =====
-- scripts/align_pcd_floor.py and scripts/make_nav2_map.py: the tools that turn a recorded cloud into the map
-- and into the occupancy grid for Nav2. Text as bytes, the way Python's strings split and convert it.
pub mod Pcd
pub mod Lines
pub mod Align
pub mod Rewrite
pub mod Load
pub mod Grid
pub mod Pixels
pub mod Make
pub mod Words
pub mod Turns
pub mod Reload
pub mod Chain
pub mod Outputs
pub mod Report
pub mod Pipeline
pub mod Ends
use humanoid_navigation.Prelude.{
  ℕ, zero, suc, ◌+◌, ◌-◌, ◌*◌, Bool, true, false, ◌&&◌, ◌||◌, not, Option, none, some, List, [],
  ◌∷◌, ◌++◌, leb, ◌==◌, if◌then◌else◌,
}
use humanoid_navigation.Prelude.Int.{ℤ, pos, negsuc}
use humanoid_navigation.Navigation.{eq_frame}

-- A line or a word, by its bytes.
abbrev pub Text : Type 0
Text = List ℕ

abbrev pub newline : ℕ
newline = 10

abbrev between : ℕ → ℕ → ℕ → Bool
between lo hi c = leb lo c && leb c hi

-- White space for `bytes.strip`: tab, line feed, vertical tab, form feed, carriage return, space.
abbrev pub is_space : ℕ → Bool
is_space c = between 9 13 c || c == 32

-- For `str.split` the separators from 28 to 31 are white space too.
abbrev pub is_text_space : ℕ → Bool
is_text_space c = is_space c || between 28 31 c

unfoldable pub starts_with : Text → Text → Bool
starts_with [] text = true
starts_with (a ∷ prefix) [] = false
starts_with (a ∷ prefix) (b ∷ text) = a == b && starts_with prefix text

unfoldable pub lstrip : Text → Text
lstrip [] = []
lstrip (c ∷ text) = let rest = lstrip text in if is_space c then rest else c ∷ text

-- What is left when the white space at the end is left out.
unfoldable pub rstrip : Text → Text
rstrip [] = []
rstrip (c ∷ text) = elim (rstrip text) [
  | [] ↦ if is_space c then [] else c ∷ []
  | e ∷ rest ↦ c ∷ e ∷ rest
]

-- `line.strip()`
unfoldable pub strip : Text → Text
strip text = lstrip (rstrip text)

-- `line.decode("ascii")` succeeds.
unfoldable pub is_ascii : Text → Bool
is_ascii [] = true
is_ascii (c ∷ text) = leb c 127 && is_ascii text

-- A word in front of the words that follow it; no word is empty.
abbrev add_word : Text → List Text → List Text
add_word [] words = words
add_word (c ∷ word) words = (c ∷ word) ∷ words

-- `split()`: the word that the text continues, and the words after it.
unfoldable pub split_from : Text → Text × List Text
split_from [] = ([], [])
split_from (c ∷ text) =
    let (word, words) = split_from text in
    if is_text_space c then ([], add_word word words) else (c ∷ word, words)

unfoldable pub split : Text → List Text
split text = let (word, words) = split_from text in add_word word words

unfoldable pub eq_texts : List Text → List Text → Bool
eq_texts [] [] = true
eq_texts (a ∷ x) (b ∷ y) = eq_frame a b && eq_texts x y
eq_texts _ _ = false

-- The digits of `int(text)`, where single underscores may stand between them.
unfoldable pub digits_from : ℕ → Bool → Text → Option ℕ
digits_from acc digit [] = if digit then some acc else none
digits_from acc digit (c ∷ text) =
    let more = digits_from (acc * 10 + (c - 48)) true text in
    let after = digits_from acc false text in
    if between 48 57 c then more else if digit && c == 95 then after else none

abbrev negated : Option ℕ → Option ℤ
negated none = none
negated (some zero) = some (pos 0)
negated (some (suc n)) = some (negsuc n)

abbrev unsigned : Option ℕ → Option ℤ
unsigned none = none
unsigned (some n) = some (pos n)

-- `int(text)` of a word, `none` where it raises.
unfoldable pub int_of : Text → Option ℤ
int_of [] = none
int_of (c ∷ text) =
    if c == 45
    then negated (digits_from 0 false text)
    else unsigned (digits_from 0 false (if c == 43 then text else c ∷ text))
