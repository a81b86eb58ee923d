-- ===== src/Gateway/FailClosed.antt =====
-- The conditions of `Bridge.tick` of host/g1_cmd_vel_bridge.py for a moving command.
use humanoid_navigation.Prelude.{
  ◌≡◌, ◌≢◌, ◌⊎◌, refl, Bool, true, false, none, some, arith, Bool-cases, Option-cases, inl, inr,
}
use humanoid_navigation.Double.{Double, LibM, nought, le}
use humanoid_navigation.Gateway.{Command, Twist, arm_settle_s, cmd_timeout_s}
use humanoid_navigation.Gateway.Bridge.{Bridge}
use humanoid_navigation.Gateway.Tick.{time_step, arm_edge, is_fresh, is_enabled, velocity, tick}

module _ {F : Type 0} ⦃d : Double F⦄ where
  open d use {sub}

  abbrev pub standing : Command F
  standing = (nought, nought)

  -- What a moving command rests on, in the state before the tick.
  pub record MayMove (now : F) (armed : Bool) (s : Bridge F) : Type 0 where
    pub token : armed ≡ true
    pub token_before : s.was_armed ≡ true
    pub settled : le arm_settle_s (sub now s.armed_since) ≡ true
    pub message : Twist F
    pub message_kept : s.latest ≡ some message
    pub message_fresh : le (sub now s.latest_time) cmd_timeout_s ≡ true

  velocity_moves :
      (now dt : F) (armed : Bool) (s : Bridge F)
      → ((velocity now dt armed s).1 ≡ standing)
        ⊎ ((msg : Twist F) × (s.latest ≡ some msg) × (is_enabled now armed s ≡ true))
  unfolding velocity
  velocity_moves now dt armed s = elim (Option-cases s.latest) [
    | inl e ↦ rw (e, velocity) (inl refl)
    | inr (msg, e) ↦ elim (Bool-cases (is_enabled now armed s)) [
      | inl on ↦ inr (msg, e, on)
      | inr off ↦ rw (e, velocity) (rw off (inl refl))
    ]
  ]

  -- Arming forgets the message, and nothing else brings one.
  arm_edge-unheard :
      (now : F) (armed : Bool) (s : Bridge F)
      → (s.was_armed ≡ false) ⊎ (s.latest ≡ none)
      → ((arm_edge now armed s).0.was_armed ≡ false) ⊎ ((arm_edge now armed s).0.latest ≡ none)
  unfolding arm_edge
  arm_edge-unheard now armed s h = ground arith

  disarmed-disabled : (now : F) (s : Bridge F) → is_enabled now false s ≡ true → ⊥
  unfolding is_enabled
  disarmed-disabled now s h = cc

  arm_edge-was_armed :
      (now : F) (armed : Bool) (s : Bridge F) → (arm_edge now armed s).0.was_armed ≡ armed
  unfolding arm_edge
  arm_edge-was_armed now armed s = ground arith

  unheard_moves {ℓ} :
      {A : Type ℓ} (now : F) (armed : Bool) (s : Bridge F) (msg : Twist F)
      → (s.was_armed ≡ false) ⊎ (s.latest ≡ none)
      → (arm_edge now armed s).0.latest ≡ some msg
      → is_enabled now armed (arm_edge now armed s).0 ≡ true
      → A
  unfolding arm_edge is_enabled
  unheard_moves now armed s msg h kept on = absurd (ground arith)

  enabled-MayMove :
      (now : F) (armed : Bool) (s : Bridge F) (msg : Twist F)
      → let next = (arm_edge now armed (record s { last_tick = now })).0 in
        next.latest ≡ some msg → is_enabled now armed next ≡ true → MayMove now armed s
  unfolding arm_edge is_enabled is_fresh
  enabled-MayMove now armed s msg kept on = record {
    token = ground arith;
    token_before = ground arith;
    settled = ground arith;
    message = msg;
    message_kept = ground arith;
    message_fresh = ground arith;
  }

  module _ ⦃m : LibM F⦄ where
    -- A tick commands a motion only if the arm token is there and was there at the tick before, the
    -- settling time has passed since it appeared, and a message is kept that is no older than the
    -- command timeout. On every other path its command is (0, 0).
    pub tick-MayMove :
        (now : F) (armed : Bool) (s : Bridge F)
        → (tick now armed s).1.command ≢ standing
        → MayMove now armed s
    unfolding tick arm_edge is_enabled is_fresh
    tick-MayMove now armed s moving =
        let ticked : Bridge F = record s { last_tick = now } in
        let next : Bridge F = (arm_edge now armed ticked).0 in
        elim (velocity_moves now (time_step now s) armed next) [
          | inl still ↦ absurd (moving still)
          | inr (msg, kept, on) ↦ enabled-MayMove now armed s msg kept on
        ]

    pub tick-disarmed :
        (now : F) (s : Bridge F)
        → ((tick now false s).1.command ≡ standing) × ((tick now false s).0.was_armed ≡ false)
    unfolding tick
    tick-disarmed now s =
        let next : Bridge F = (arm_edge now false (record s { last_tick = now })).0 in
        (
          elim (velocity_moves now (time_step now s) false next) [
            | inl still ↦ still
            | inr (msg, kept, on) ↦ absurd (disarmed-disabled now next on)
          ],
          arm_edge-was_armed now false (record s { last_tick = now }),
        )

    -- While the robot is disarmed, or no message has come since it was armed, a tick stands still.
    abbrev pub Unheard : Bridge F → Type 0
    Unheard s = (s.was_armed ≡ false) ⊎ (s.latest ≡ none)

    pub Unheard-standing :
        (now : F) (armed : Bool) (s : Bridge F)
        → Unheard s
        → ((tick now armed s).1.command ≡ standing) × Unheard (tick now armed s).0
    unfolding tick
    Unheard-standing now armed s h =
        let ticked : Bridge F = record s { last_tick = now } in
        let next : Bridge F = (arm_edge now armed ticked).0 in
        (
          elim (velocity_moves now (time_step now s) armed next) [
            | inl still ↦ still
            | inr (msg, kept, on) ↦ unheard_moves now armed ticked msg h kept on
          ],
          arm_edge-unheard now armed ticked h,
        )
