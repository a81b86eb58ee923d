-- ===== src/Gateway/Governor.antt =====
-- The gateway of host/g1_cmd_vel_bridge.py seen from outside: one slot for the next command in place of
-- the queue, and rules for what may be put into it and what is sent from it.
use humanoid_navigation.Prelude.{◌≡◌, Bool, true, false, Option, none, some, List, [], ◌∷◌, ◌++◌}
use humanoid_navigation.Double.{Double, nought, IsFinite, ◌≼◌}
use humanoid_navigation.Gateway.{Command, max_dt_s}
use humanoid_navigation.Gateway.Worker.{Call, call_of, final_calls}
use humanoid_navigation.Gateway.Bounds.{InLimits}
use humanoid_navigation.Gateway.Slew.{IsNear}

pub record Governor (F : Type 0) : Type 0 where
  -- the last command that was put into the slot by a tick
  pub speed : Command F
  pub slot : Option (Command F)
  pub stopping : Bool
  pub live : Bool
  pub sent : List (Call F)

module _ {F : Type 0} ⦃d : Double F⦄ where
  abbrev pub still : Command F
  still = (nought, nought)

  -- A new command: zero, or one that a time step of at most 0.25 s reaches from the last.
  pub data IsReachable (old new : Command F) : Type 0 where
    halted : new ≡ still → IsReachable old new
    slewed :
        (dt : F)
        → IsFinite dt
        → nought ≼ dt
        → dt ≼ max_dt_s
        → IsNear dt old new
        → IsReachable old new

  pub data Move : Governor F → Governor F → Type 0 where
    post :
        {g : Governor F} (c : Command F)
        → g.stopping ≡ false
        → InLimits c
        → IsReachable g.speed c
        → Move g (record g { speed = c; slot = some c })
    deliver :
        {g : Governor F} (c : Command F)
        → g.live ≡ true
        → g.slot ≡ some c
        → Move g (record g { slot = none; sent = g.sent ++ call_of c ∷ [] })
    hold :
        {g : Governor F}
        → g.live ≡ true
        → Move g (record g { slot = none; sent = g.sent ++ call_of still ∷ [] })
    leave :
        {g : Governor F}
        → g.live ≡ true
        → Move g (record g { live = false; sent = g.sent ++ final_calls })
    stop : {g : Governor F} → Move g (record g { slot = some still; stopping = true })
    kill : {g : Governor F} → g.stopping ≡ true → Move g (record g { live = false })

  pub data Moves (g : Governor F) : Governor F → Type 0 where
    here : Moves g g
    next : {h k : Governor F} → Moves g h → Move h k → Moves g k

  pub Moves-trans : {g h k : Governor F} → Moves g h → Moves h k → Moves g k
  Moves-trans p here = p
  Moves-trans p (next q m) = next (Moves-trans p q) m
