-- ===== src/MapTools/Reload.antt =====
-- The header that scripts/align_pcd_floor.py has read, in the loop of scripts/make_nav2_map.py.
use humanoid_navigation.Prelude.{
  ℕ, zero, suc, ◌≡◌, refl, sym, ap, ap₂, ◌∙◌, true, false, Option, some, List, [], ◌∷◌, ◌++◌, map,
  arith, inl, inr,
}
use humanoid_navigation.Prelude.Result.{Result, ok}
use mathlib.Core.List.{append-nil, append_assoc}
use mathlib.Core.Option.{some-ne-none}
use humanoid_navigation.Bytes.{concat}
use humanoid_navigation.MapTools.{Text, is_ascii, split}
use humanoid_navigation.MapTools.Pcd.{word_data, word_binary, readline, header_turn, header_loop}
use humanoid_navigation.MapTools.Lines.{
  header_turn_cases, readline_again, readline-append, found_parts, not_found, append_empty,
}
use humanoid_navigation.MapTools.Load.{load_turn, load_loop}
use humanoid_navigation.MapTools.Words.{all_ascii}
use humanoid_navigation.MapTools.Turns.{
  is_data, is_last, is_plain, load_turn-closes, load_turn-passes, closes-words, passes-cons,
}

-- What a header that was read says of the other loop: its lines are the header, and in front of another
-- payload, empty if that one was, the loop reads their words.
pub record Reloads (fuel : ℕ) (header : List Text) (stream : List ℕ) (found : List Text)
    (payload : List ℕ) : Type 0 where
  pub lines : List Text
  pub splits : found ≡ header ++ lines
  pub joins : stream ≡ concat lines ++ payload
  pub filled : is_last lines ≡ false
  pub loads :
      (w : List (List Text)) (rest : List ℕ)
      → (payload ≡ [] → rest ≡ [])
      → is_plain lines ≡ true
      → all_ascii lines ≡ true
      → load_loop fuel w (concat lines ++ rest) ≡ some (ok (w ++ map split lines, rest))

load_turn_of :
    (fuel : ℕ) (w : List (List Text)) (stream : List ℕ) {rest : List ℕ} {line : Text}
    → readline stream ≡ (line, rest)
    → load_loop (suc fuel) w stream
      ≡ load_turn w line rest (load_loop fuel (w ++ split line ∷ []) rest)
unfolding load_loop
load_turn_of fuel w stream e =
    ap (λ (t : Text × List ℕ). load_turn w t.0 t.1 (load_loop fuel (w ++ split t.0 ∷ []) t.1)) e

module _ (fuel : ℕ) (header : List Text) (stream : List ℕ) (found : List Text)
    (payload : List ℕ) where
  abbrev line : Text
  line = (readline stream).0

  abbrev left : List ℕ
  left = (readline stream).1

  last_line :
      ((r : List ℕ) (m : Option (Result (List Text × List ℕ)))
        → header_turn header line r m ≡ some (ok (header ++ line ∷ [], r)))
      → (header ++ line ∷ [] ≡ found) × (left ≡ payload)
      → Reloads (suc fuel) header stream found payload
  last_line ends (a, b) =
      let (c, text, e, words) = closes-words header line ends in
      record {
        lines = line ∷ [];
        splits = sym a;
        joins = sym (readline-append stream) ∙ ap₂ (λ t u. t ++ u) (sym (append-nil line)) b;
        filled = refl;
        loads = λ w rest same plain ascii.
            load_turn_of fuel w (line ++ [] ++ rest) (
              ap (λ t. readline (t ++ rest)) (append-nil line)
              ∙ readline_again stream rest (λ none_left. same (sym b ∙ none_left)))
            ∙ of_line w rest e (ground (arith, ascii)) words;
      }
    where
      of_line :
          (w : List (List Text)) (rest : List ℕ) {t : Text} {c : ℕ} {text : Text}
          → t ≡ c ∷ text
          → is_ascii t ≡ true
          → split t ≡ word_data ∷ word_binary ∷ []
          → load_turn w t rest (load_loop fuel (w ++ split t ∷ []) rest)
            ≡ some (ok (w ++ split t ∷ [], rest))
      of_line w rest {t} {c} {text} e ascii words =
          ap (λ u. load_turn w u rest (load_loop fuel (w ++ split u ∷ []) rest)) e
          ∙ load_turn-closes w c text rest _ (ap is_ascii (sym e) ∙ ascii)
              (ap split (sym e) ∙ words)
          ∙ ap (λ u. some (ok (w ++ split u ∷ [], rest))) (sym e)

  one_more_line :
      ((r : List ℕ) (m : Option (Result (List Text × List ℕ))) → header_turn header line r m ≡ m)
      → Reloads fuel (header ++ line ∷ []) left found payload
      → Reloads (suc fuel) header stream found payload
  one_more_line goes_on h =
      let ls : List Text = h.lines in
      let (c, text, e) = passes-cons header line goes_on in
      record {
        lines = line ∷ ls;
        splits = h.splits ∙ append_assoc header (line ∷ []) ls;
        joins =
            sym (readline-append stream)
            ∙ ap (λ t. line ++ t) h.joins
            ∙ sym (append_assoc line (concat ls) payload);
        filled = refl;
        loads = λ w rest same plain ascii.
            let here : is_data (split line) ≡ false = ground (arith, h.filled, plain) in
            load_turn_of fuel w (line ++ concat ls ++ rest) (
              ap readline (append_assoc line (concat ls) rest)
              ∙ readline_again stream (concat ls ++ rest) (λ none_left.
                let (a, b) = append_empty (concat ls) payload (sym h.joins ∙ none_left) in
                ap₂ (λ t u. t ++ u) a (same b)))
            ∙ of_line w (concat ls ++ rest) _ e (ground (arith, ascii)) here
            ∙ h.loads (w ++ split line ∷ []) rest same (ground (arith, plain))
                (ground (arith, ascii))
            ∙ ap (λ ws. some (ok (ws, rest))) (append_assoc w (split line ∷ []) (map split ls));
      }
    where
      of_line :
          (w : List (List Text)) (rest : List ℕ) (m : Option (Result (List (List Text) × List ℕ)))
          {t : Text} {c : ℕ} {text : Text}
          → t ≡ c ∷ text
          → is_ascii t ≡ true
          → is_data (split t) ≡ false
          → load_turn w t rest m ≡ m
      of_line w rest m {t} {c} {text} e ascii plain =
          ap (λ u. load_turn w u rest m) e
          ∙ load_turn-passes w c text rest m (ap is_ascii (sym e) ∙ ascii)
              (ap (λ u. is_data (split u)) (sym e) ∙ plain)

pub header_loop-Reloads :
    (fuel : ℕ) (header : List Text) (stream : List ℕ) (found : List Text) (payload : List ℕ)
    → header_loop fuel header stream ≡ some (ok (found, payload))
    → Reloads fuel header stream found payload
unfolding header_loop
header_loop-Reloads zero header stream found payload h = absurd (some-ne-none _ (sym h))
header_loop-Reloads (suc fuel) header stream found payload h =
    let line : Text = (readline stream).0 in
    let rest : List ℕ = (readline stream).1 in
    let more = header_loop fuel (header ++ line ∷ []) rest in
    elim (header_turn_cases header line rest more) [
      | inl fails ↦ absurd (not_found (sym (fails rest more) ∙ h))
      | inr (inl ends) ↦
          last_line fuel header stream found payload ends (found_parts (sym (ends rest more) ∙ h))
      | inr (inr goes_on) ↦ one_more_line fuel header stream found payload goes_on (
          header_loop-Reloads fuel (header ++ line ∷ []) rest found payload
            (sym (goes_on rest more) ∙ h))
    ]
