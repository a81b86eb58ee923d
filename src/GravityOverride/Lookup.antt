-- ===== src/GravityOverride/Lookup.antt =====
-- `lookup_imu_quat` of src/ransac_gravity_override.py: the wait for Fast-LIO's transform. The clock, the
-- state of rclpy and the transform buffer are read once a round, and are functions of the round.
use humanoid_navigation.Prelude.{
  ℕ, zero, suc, ◌+◌, ◌-◌, ◌<◌, ◌≡◌, ◌⊎◌, inl, inr, refl, Bool, true, false, ◌&&◌, Option, none,
  some, arith, ltb, if◌then◌else◌, Bool-cases, Option-cases,
}

-- What a round sees: the clock in nanoseconds, `rclpy.ok()`, and the lookup after `spin_once`, `none`
-- where it raises.
pub record Rounds (Q : Type 0) : Type 0 where
  pub clock : ℕ → ℕ
  pub is_ok : ℕ → Bool
  pub found : ℕ → Option Q

module _ {Q : Type 0} where
  -- The test of the `while`.
  unfoldable pub is_waiting : Rounds Q → ℕ → ℕ → Bool
  is_waiting w deadline k = w.is_ok k && ltb (w.clock k) deadline

  -- The loop on fuel, from round `k`; the outer `none` means that the fuel ran out. The result is the
  -- transform, or `none` where the process exits with the time-out.
  unfoldable pub wait_loop : Rounds Q → ℕ → ℕ → ℕ → Option (Option Q)
  wait_loop w deadline zero k = none
  wait_loop w deadline (suc fuel) k =
      let rest = wait_loop w deadline fuel (k + 1) in
      if is_waiting w deadline k
      then (elim (w.found k) [ some q ↦ some (some q) | none ↦ rest ])
      else some none

  -- The first reading sets the deadline.
  unfoldable pub lookup_imu_quat : Rounds Q → ℕ → ℕ → Option (Option Q)
  unfolding wait_loop
  lookup_imu_quat w timeout fuel = wait_loop w (w.clock 0 + timeout) fuel 1

  -- The loop waits for `n` rounds from round `k` on, and finds nothing.
  abbrev pub Waits : Rounds Q → ℕ → ℕ → ℕ → Type 0
  Waits w deadline k zero = Unit
  Waits w deadline k (suc n) =
      (is_waiting w deadline k ≡ true) × (w.found k ≡ none) × Waits w deadline (k + 1) n

  -- How the loop ends at a round: with the transform of that round, or because its test fails.
  abbrev pub Ends : Rounds Q → ℕ → ℕ → Option Q → Type 0
  Ends w deadline k r =
      ((is_waiting w deadline k ≡ true) × (q : Q) × (w.found k ≡ some q) × (r ≡ some q))
      ⊎ ((is_waiting w deadline k ≡ false) × (r ≡ none))

  waiting-lt :
      (w : Rounds Q) (deadline k : ℕ) → is_waiting w deadline k ≡ true → w.clock k < deadline
  unfolding is_waiting
  waiting-lt w deadline k on = ground arith

  wait_loop-Ends :
      (w : Rounds Q) (deadline fuel k : ℕ)
      → ((i : ℕ) → w.clock i < w.clock (i + 1))
      → deadline - w.clock k < fuel
      → (n : ℕ) × (r : Option Q) × (wait_loop w deadline fuel k ≡ some r)
        × Waits w deadline k n
        × Ends w deadline (k + n) r
  unfolding wait_loop
  wait_loop-Ends w deadline zero k runs enough = absurd (omega arith)
  wait_loop-Ends w deadline (suc fuel) k runs enough =
      let here : k + 0 ≡ k = omega arith in
      elim (Bool-cases (is_waiting w deadline k)) [
        | inl on ↦ elim (Option-cases (w.found k)) [
          | inl missing ↦
              let (n, r, e, waits, ends) =
                wait_loop-Ends w deadline fuel (k + 1) runs
                  (omega (arith, runs k, waiting-lt w deadline k on)) in
              let later : k + suc n ≡ k + 1 + n = omega arith in
              (suc n, r, rw on (rw missing e), (on, missing, waits), rw later ends)
          | inr (q, hit) ↦ (0, some q, rw on (rw hit refl), tt, rw here (inl (on, q, hit, refl)))
        ]
        | inr off ↦ (0, none, rw off refl, tt, rw here (inr (off, refl)))
      ]

  -- If the clock advances from round to round, the wait ends within as many rounds as the time-out has
  -- nanoseconds, and one more. It finds nothing in the rounds before its last. In the last one either
  -- rclpy runs, the deadline is ahead, and the transform that is found is the result; or one of the
  -- two fails, and the result is the time-out.
  pub lookup_imu_quat-Ends :
      (w : Rounds Q) (timeout : ℕ)
      → ((i : ℕ) → w.clock i < w.clock (i + 1))
      → (n : ℕ) × (r : Option Q) × (lookup_imu_quat w timeout (timeout + 1) ≡ some r)
        × Waits w (w.clock 0 + timeout) 1 n
        × Ends w (w.clock 0 + timeout) (1 + n) r
  unfolding lookup_imu_quat
  lookup_imu_quat-Ends w timeout runs =
      wait_loop-Ends w (w.clock 0 + timeout) (timeout + 1) 1 runs (omega (arith, runs 0))
