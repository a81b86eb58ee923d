-- ===== src/MapTools/Lines.antt =====
-- The lines of a file as `readline` gives them, and the header loop of scripts/align_pcd_floor.py over them.
use humanoid_navigation.Prelude.{
  ℕ, zero, suc, ◌≤◌, ◌<◌, ◌≡◌, ◌⊎◌, inl, inr, refl, sym, ap, ap₂, ◌∙◌, Option, some, List, [], ◌∷◌,
  ◌++◌, length, length-append, ◌==◌, arith, Bool-cases,
}
use humanoid_navigation.Prelude.Result.{Result, ok, raised, value_error, ok-injective, raised≢ok}
use mathlib.Core.List.{append-nil, append_assoc}
use mathlib.Core.Option.{some-injective, some-ne-none}
use humanoid_navigation.Navigation.{eq_frame}
use humanoid_navigation.Bytes.{concat}
use humanoid_navigation.MapTools.{Text, newline, starts_with, strip}
use humanoid_navigation.MapTools.Pcd.{word_data, word_binary, readline, header_turn, header_loop}

-- A line that ends by its line feed.
abbrev IsWhole : Text → Type 0
IsWhole line = (rest : List ℕ) → readline (line ++ rest) ≡ (line, rest)

pub readline-append : (stream : List ℕ) → (readline stream).0 ++ (readline stream).1 ≡ stream
unfolding readline
readline-append [] = refl
readline-append (c ∷ stream) = elim (Bool-cases (c == newline)) [
  | inl ends ↦ rw ends refl
  | inr goes_on ↦ rw goes_on (ap (λ t. c ∷ t) (readline-append stream))
]

readline-IsWhole : (stream : List ℕ) → IsWhole (readline stream).0 ⊎ ((readline stream).1 ≡ [])
unfolding readline
readline-IsWhole [] = inr refl
readline-IsWhole (c ∷ stream) = elim (Bool-cases (c == newline)) [
  | inl ends ↦ rw ends (inl (λ rest. rw ends refl))
  | inr goes_on ↦ rw goes_on (elim (readline-IsWhole stream) [
    | inl whole ↦ inl (λ rest. rw goes_on (ap (λ t. (c ∷ t.0, t.1)) (whole rest)))
    | inr last ↦ inr last
  ])
]

-- Reading the first line again in front of another rest, which is empty if the rest was.
pub readline_again :
    (stream rest : List ℕ)
    → ((readline stream).1 ≡ [] → rest ≡ [])
    → readline ((readline stream).0 ++ rest) ≡ ((readline stream).0, rest)
readline_again stream rest same = elim (readline-IsWhole stream) [
  | inl whole ↦ whole rest
  | inr last ↦
      let line = (readline stream).0 in
      ap (λ t. readline (line ++ t)) (same last ∙ sym last)
      ∙ ap readline (readline-append stream)
      ∙ ap (λ t. (line, t)) (last ∙ sym (same last))
]

-- What a header that was read says of the file: its lines and the payload are the file, and in front of
-- another payload, empty if that one was, the same number of turns reads the same lines.
pub record Reads (fuel : ℕ) (header : List Text) (stream : List ℕ) (found : List Text)
    (payload : List ℕ) : Type 0 where
  pub lines : List Text
  pub splits : found ≡ header ++ lines
  pub joins : stream ≡ concat lines ++ payload
  pub again :
      (rest : List ℕ)
      → (payload ≡ [] → rest ≡ [])
      → header_loop fuel header (concat lines ++ rest) ≡ some (ok (found, rest))

-- The three ends of a turn.
pub header_turn_cases :
    (header : List Text) (line : Text) (rest : List ℕ) (more : Option (Result (List Text × List ℕ)))
    → (((r : List ℕ) (m : Option (Result (List Text × List ℕ)))
        → header_turn header line r m ≡ some (raised value_error)))
      ⊎ ((((r : List ℕ) (m : Option (Result (List Text × List ℕ)))
            → header_turn header line r m ≡ some (ok (header ++ line ∷ [], r))))
          ⊎ ((r : List ℕ) (m : Option (Result (List Text × List ℕ)))
              → header_turn header line r m ≡ m))
unfolding header_turn
header_turn_cases header [] rest more = inl (λ r m. refl)
header_turn_cases header (c ∷ line) rest more =
    elim (Bool-cases (starts_with (word_data ++ b' ' ∷ []) (c ∷ line))) [
      | inr other ↦ inr (inr (λ r m. rw other refl))
      | inl starts ↦
          elim (Bool-cases (eq_frame (strip (c ∷ line)) (word_data ++ (b' ' ∷ word_binary)))) [
            | inl binary ↦ inr (inl (λ r m. rw (starts, binary) refl))
            | inr other ↦ inl (λ r m. rw (starts, other) refl)
          ]
    ]

turn_of :
    (fuel : ℕ) (header : List Text) (stream : List ℕ) {rest : List ℕ} {line : Text}
    → readline stream ≡ (line, rest)
    → header_loop (suc fuel) header stream
      ≡ header_turn header line rest (header_loop fuel (header ++ line ∷ []) rest)
unfolding header_loop
turn_of fuel header stream e =
    ap
      (λ (t : Text × List ℕ).
        header_turn header t.0 t.1 (header_loop fuel (header ++ t.0 ∷ []) t.1))
      e

readline-le : (stream : List ℕ) → length (readline stream).1 ≤ length stream
readline-le stream = omega (
  arith,
  ap length (readline-append stream),
  length-append (readline stream).0 (readline stream).1,
)

pub readline-lt : (c : ℕ) (stream : List ℕ) → length (readline (c ∷ stream)).1 < length (c ∷ stream)
unfolding readline
readline-lt c stream = elim (Bool-cases (c == newline)) [
  | inl ends ↦ rw ends (omega arith)
  | inr goes_on ↦ rw goes_on (omega (arith, readline-le stream))
]

-- One turn for each byte of the file, and one more, is enough.
pub header_loop_returns :
    (fuel : ℕ) (header : List Text) (stream : List ℕ)
    → length stream < fuel
    → (r : Result (List Text × List ℕ)) × (header_loop fuel header stream ≡ some r)
unfolding header_loop header_turn readline
header_loop_returns zero header stream enough = absurd (omega arith)
header_loop_returns (suc fuel) header [] enough = (raised value_error, refl)
header_loop_returns (suc fuel) header (c ∷ stream) enough =
    let line = (readline (c ∷ stream)).0 in
    let rest = (readline (c ∷ stream)).1 in
    let more = header_loop fuel (header ++ line ∷ []) rest in
    elim (header_turn_cases header line rest more) [
      | inl fails ↦ (raised value_error, fails rest more)
      | inr (inl ends) ↦ (ok (header ++ line ∷ [], rest), ends rest more)
      | inr (inr goes_on) ↦
          let (r, e) =
            header_loop_returns fuel (header ++ line ∷ []) rest
              (omega (arith, readline-lt c stream)) in
          (r, goes_on rest more ∙ e)
    ]

pub append_empty : (xs ys : List ℕ) → xs ++ ys ≡ [] → (xs ≡ []) × (ys ≡ [])
append_empty [] ys e = (refl, e)
append_empty (x ∷ xs) ys e = absurd (omega (arith, ap length e))

pub found_parts :
    {a c : List Text} {b e : List ℕ}
    → ◌≡◌ {A = Option (Result (List Text × List ℕ))} (some (ok (a, b))) (some (ok (c, e)))
    → (a ≡ c) × (b ≡ e)
found_parts h =
    let pair = ok-injective (some-injective _ _ h) in (ap (λ t. t.0) pair, ap (λ t. t.1) pair)

pub not_found :
    {t : List Text × List ℕ}
    → ◌≡◌ {A = Option (Result (List Text × List ℕ))} (some (raised value_error)) (some (ok t))
    → ⊥
not_found h = raised≢ok (some-injective _ _ h)

module _ (fuel : ℕ) (header : List Text) (stream : List ℕ) (found : List Text)
    (payload : List ℕ) where
  abbrev line : Text
  line = (readline stream).0

  abbrev left : List ℕ
  left = (readline stream).1

  last_line :
      ((r : List ℕ) (m : Option (Result (List Text × List ℕ)))
        → header_turn header line r m ≡ some (ok (header ++ line ∷ [], r)))
      → (header ++ line ∷ [] ≡ found) × (left ≡ payload)
      → Reads (suc fuel) header stream found payload
  last_line ends (a, b) = record {
    lines = line ∷ [];
    splits = sym a;
    joins = sym (readline-append stream) ∙ ap₂ (λ t u. t ++ u) (sym (append-nil line)) b;
    again = λ rest same.
        turn_of fuel header (line ++ [] ++ rest) (
          ap (λ t. readline (t ++ rest)) (append-nil line)
          ∙ readline_again stream rest (λ none_left. same (sym b ∙ none_left)))
        ∙ ends rest _
        ∙ ap (λ t. some (ok (t, rest))) a;
  }

  one_more_line :
      ((r : List ℕ) (m : Option (Result (List Text × List ℕ))) → header_turn header line r m ≡ m)
      → Reads fuel (header ++ line ∷ []) left found payload
      → Reads (suc fuel) header stream found payload
  one_more_line goes_on h =
      let ls : List Text = h.lines in
      record {
        lines = line ∷ ls;
        splits = h.splits ∙ append_assoc header (line ∷ []) ls;
        joins =
            sym (readline-append stream)
            ∙ ap (λ t. line ++ t) h.joins
            ∙ sym (append_assoc line (concat ls) payload);
        again = λ rest same.
            turn_of fuel header (line ++ concat ls ++ rest) (
              ap readline (append_assoc line (concat ls) rest)
              ∙ readline_again stream (concat ls ++ rest) (λ none_left.
                let (a, b) = append_empty (concat ls) payload (sym h.joins ∙ none_left) in
                ap₂ (λ t u. t ++ u) a (same b)))
            ∙ goes_on (concat ls ++ rest) _
            ∙ h.again rest same;
      }

pub header_loop-Reads :
    (fuel : ℕ) (header : List Text) (stream : List ℕ) (found : List Text) (payload : List ℕ)
    → header_loop fuel header stream ≡ some (ok (found, payload))
    → Reads fuel header stream found payload
unfolding header_loop
header_loop-Reads zero header stream found payload h = absurd (some-ne-none _ (sym h))
header_loop-Reads (suc fuel) header stream found payload h =
    let line : Text = (readline stream).0 in
    let rest : List ℕ = (readline stream).1 in
    let more = header_loop fuel (header ++ line ∷ []) rest in
    elim (header_turn_cases header line rest more) [
      | inl fails ↦ absurd (not_found (sym (fails rest more) ∙ h))
      | inr (inl ends) ↦
          last_line fuel header stream found payload ends (found_parts (sym (ends rest more) ∙ h))
      | inr (inr goes_on) ↦ one_more_line fuel header stream found payload goes_on (
          header_loop-Reads fuel (header ++ line ∷ []) rest found payload
            (sym (goes_on rest more) ∙ h))
    ]
