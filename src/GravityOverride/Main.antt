-- ===== src/GravityOverride/Main.antt =====
-- `main` of src/ransac_gravity_override.py: the quaternion from the command line or from the transform, then the
-- node. Texts are bytes; what `float` and scipy's `Rotation.from_quat` compute are parameters.
use humanoid_navigation.Prelude.{
  ℕ, ◌≡◌, ◌≢◌, refl, sym, ap, ap₂, map, length, ◌∙◌, Bool, true, false, ◌&&◌, not, Option, none,
  some, List, [], ◌∷◌, ◌++◌, ◌==◌, if◌then◌else◌, arith,
}
use humanoid_navigation.Prelude.Result.{
  Result, Fault, ok, raised, value_error, ◌>>=◌, from_option, both_return, ok-injective, raised≢ok,
}
use mathlib.Core.Option
use humanoid_navigation.Double.{Double}
use humanoid_navigation.Navigation.{Quaternion}
use humanoid_navigation.Navigation.Geometry.{Matrix}
use humanoid_navigation.Localizer.{Numerics}
use humanoid_navigation.GravityOverride.{FloorTools}
use humanoid_navigation.GravityOverride.Node.{Message, Effect, Settings, Override, init, run}
use humanoid_navigation.GravityOverride.Lookup.{Rounds, lookup_imu_quat}

-- A word in front of the words that follow it.
abbrev lengthen : ℕ → List (List ℕ) → List (List ℕ)
lengthen c [] = (c ∷ []) ∷ []
lengthen c (w ∷ ws) = (c ∷ w) ∷ ws

-- `text.split(",")`, which has one word more than there are commas.
unfoldable pub split_commas : List ℕ → List (List ℕ)
split_commas [] = [] ∷ []
split_commas (c ∷ text) =
    let words = split_commas text in if c == b',' then [] ∷ words else lengthen c words

-- `",".join(words)`
abbrev pub joined : List (List ℕ) → List ℕ
joined [] = []
joined (w ∷ []) = w
joined (w ∷ v ∷ ws) = w ++ (b',' ∷ joined (v ∷ ws))

abbrev pub has_no_comma : List ℕ → Bool
has_no_comma [] = true
has_no_comma (c ∷ w) = not (c == b',') && has_no_comma w

abbrev pub are_plain : List (List ℕ) → Bool
are_plain [] = true
are_plain (w ∷ ws) = has_no_comma w && are_plain ws

split_commas-word : (w : List ℕ) → has_no_comma w ≡ true → split_commas w ≡ w ∷ []
unfolding split_commas
split_commas-word [] h = refl
split_commas-word (c ∷ w) h =
    let other : (c == b',') ≡ false = ground arith in
    rw (other, split_commas-word w (ground arith)) refl

split_commas-append :
    (w rest : List ℕ)
    → has_no_comma w ≡ true
    → split_commas (w ++ (b',' ∷ rest)) ≡ w ∷ split_commas rest
unfolding split_commas
split_commas-append [] rest h = refl
split_commas-append (c ∷ w) rest h =
    let other : (c == b',') ≡ false = ground arith in
    rw (other, split_commas-append w rest (ground arith)) refl

-- Splitting takes a joined text apart.
split_commas-joined :
    (w : List ℕ) (ws : List (List ℕ))
    → are_plain (w ∷ ws) ≡ true
    → split_commas (joined (w ∷ ws)) ≡ w ∷ ws
split_commas-joined w [] h = split_commas-word w (ground arith)
split_commas-joined w (v ∷ ws) h =
    split_commas-append w (joined (v ∷ ws)) (ground arith)
    ∙ ap (λ t. w ∷ t) (split_commas-joined v ws (ground arith))

-- `float(word)`, `none` where it raises, and the matrix of `Rotation.from_quat`, which raises on zero.
pub record Reading (F : Type 0) : Type 0 where
  pub float_of : List ℕ → Option F
  pub from_quat : Quaternion F → Result (Matrix F)

-- How the process ends, or the state and the effects of the node that it spins.
pub data Ending (F : Type 0) : Type 0 where
  -- `sys.exit` with the message on the transform, and with that on `imu_quat`
  timed_out : Ending F
  bad_quat : Ending F
  failed : Fault → Ending F
  ran : Override F → List (Effect F) → Ending F

module _ {F : Type 0} (reading : Reading F) where
  open reading use {float_of, from_quat}

  unfoldable pub floats : List (List ℕ) → Result (List F)
  floats [] = ok []
  floats (w ∷ ws) =
      from_option value_error (float_of w) >>= λ v. floats ws >>= λ (vs : List F). ok (v ∷ vs)

  -- `quat.shape != (4,)`
  unfoldable pub quat_of : List F → Option (Quaternion F)
  quat_of (a ∷ b ∷ c ∷ e ∷ []) = some (record { qx = a; qy = b; qz = c; qw = e })
  quat_of _ = none

  module _ ⦃d : Double F⦄ ⦃num : Numerics F⦄ ⦃tools : FloorTools F⦄ (c : Settings F)
      (msgs : List (Message F)) where
    -- The node over the clouds that it receives.
    unfoldable pub start : Quaternion F → Ending F
    start q = elim (from_quat q) [
      | raised e ↦ failed e
      | ok imu ↦ let (s, effects) = run c msgs (init c imu) in ran s effects
    ]

    unfoldable pub from_text : List ℕ → Ending F
    from_text text = elim (floats (split_commas text)) [
      | raised e ↦ failed e
      | ok vs ↦ elim (quat_of vs) [ none ↦ bad_quat | some q ↦ start q ]
    ]

    -- An empty text makes the process wait for the transform.
    unfoldable pub main : Rounds (Quaternion F) → ℕ → ℕ → List ℕ → Option (Ending F)
    main rounds timeout fuel [] =
        Option.map
          (λ (found : Option (Quaternion F)). elim found [ none ↦ timed_out | some q ↦ start q ])
          (lookup_imu_quat rounds timeout fuel)
    main rounds timeout fuel (ch ∷ text) = some (from_text (ch ∷ text))

    -- What the words of `imu_quat` lead to.
    pub data Starts (words : List (List ℕ)) : Option (Ending F) → Type 0 where
      no_number : (e : Fault) → floats words ≡ raised e → Starts words (some (failed e))
      not_four : (vs : List F) → floats words ≡ ok vs → length vs ≢ 4 → Starts words (some bad_quat)
      four :
          (x y z w : F)
          → map float_of words ≡ some x ∷ some y ∷ some z ∷ some w ∷ []
          → Starts words (some (start (record { qx = x; qy = y; qz = z; qw = w })))

  floats-map :
      (ws : List (List ℕ)) (vs : List F) → floats ws ≡ ok vs → map float_of ws ≡ map some vs
  unfolding floats
  floats-map [] vs h = ap (map some) (ok-injective h)
  floats-map (w ∷ ws) vs h =
      let (v, found, h₁) = both_return (from_option value_error (float_of w)) _ h in
      let (rest, more, same) = both_return (floats ws) _ h₁ in
      ap₂ (λ a b. a ∷ b) (from_option-ok (float_of w) found) (floats-map ws rest more)
      ∙ ap (map some) (ok-injective same)
    where
      from_option-ok : (o : Option F) {v : F} → from_option value_error o ≡ ok v → o ≡ some v
      from_option-ok none h = absurd (raised≢ok h)
      from_option-ok (some v) h = ap some (ok-injective h)

  module _ ⦃d : Double F⦄ ⦃num : Numerics F⦄ ⦃tools : FloorTools F⦄ (c : Settings F)
      (msgs : List (Message F)) (words : List (List ℕ)) where
    -- The numbers of the words, by how many they are.
    values-Starts :
        (vs : List F)
        → floats words ≡ ok vs
        → Starts c msgs words
            (some (elim (quat_of vs) [ none ↦ bad_quat | some q ↦ start c msgs q ]))
    unfolding quat_of
    values-Starts (x ∷ y ∷ z ∷ w ∷ []) found = four x y z w (floats-map words _ found)
    values-Starts [] found = not_four [] found (λ e. omega (arith, e))
    values-Starts (x ∷ []) found = not_four _ found (λ e. omega (arith, e))
    values-Starts (x ∷ y ∷ []) found = not_four _ found (λ e. omega (arith, e))
    values-Starts (x ∷ y ∷ z ∷ []) found = not_four _ found (λ e. omega (arith, e))
    values-Starts (x ∷ y ∷ z ∷ w ∷ v ∷ vs) found = not_four _ found (λ e. omega (arith, e))

    floats-Starts :
        (r : Result (List F))
        → floats words ≡ r
        → Starts c msgs words (
            some (elim r [
              | raised e ↦ failed e
              | ok vs ↦ elim (quat_of vs) [ none ↦ bad_quat | some q ↦ start c msgs q ]
            ]))
    floats-Starts (raised e) found = no_number e found
    floats-Starts (ok vs) found = values-Starts vs found

    text-Starts :
        (text : List ℕ)
        → split_commas text ≡ words
        → Starts c msgs words (some (from_text c msgs text))
    unfolding from_text
    text-Starts text split = floats-Starts (floats (split_commas text)) (ap floats (sym split))

  main-text :
      ⦃d : Double F⦄ ⦃num : Numerics F⦄ ⦃tools : FloorTools F⦄ (c : Settings F)
      (msgs : List (Message F)) (rounds : Rounds (Quaternion F)) (timeout fuel : ℕ) (text : List ℕ)
      → text ≢ []
      → main c msgs rounds timeout fuel text ≡ some (from_text c msgs text)
  unfolding main
  main-text c msgs rounds timeout fuel [] filled = absurd (filled refl)
  main-text c msgs rounds timeout fuel (ch ∷ text) filled = refl

  -- For words without a comma that `imu_quat` joins by commas to a text that is not empty: whatever the
  -- transform is, the process fails where a word is no number, exits with the message on `imu_quat` where
  -- there are not four, and else starts the node with the four numbers as x, y, z and w, in this order.
  pub main-Starts :
      ⦃d : Double F⦄ ⦃num : Numerics F⦄ ⦃tools : FloorTools F⦄ (c : Settings F)
      (msgs : List (Message F)) (rounds : Rounds (Quaternion F)) (timeout fuel : ℕ) (w : List ℕ)
      (ws : List (List ℕ))
      → are_plain (w ∷ ws) ≡ true
      → joined (w ∷ ws) ≢ []
      → Starts c msgs (w ∷ ws) (main c msgs rounds timeout fuel (joined (w ∷ ws)))
  main-Starts c msgs rounds timeout fuel w ws plain filled =
      rw (main-text c msgs rounds timeout fuel (joined (w ∷ ws)) filled)
        (text-Starts c msgs (w ∷ ws) (joined (w ∷ ws)) (split_commas-joined w ws plain))
