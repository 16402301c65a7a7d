-- ===== src/Utils/Lb.antt =====
-- src/utils/lb.c: load balancing, over the list of pipes of Utils.Rotor.
pub use msgbroker.Utils.Rotor.{add, rm, activate, deactivate}
use msgbroker.Prelude.{Bool, true, false, List, [], ◌∷◌}
use msgbroker.Memory.Msg.{Msg}
use msgbroker.Core.Pipe.{Pipes}
use msgbroker.Utils.Rotor.{Item, Outcome, rotate}

abbrev pub init : List Item
init = []

-- `mb_list_term` forgets the items, which belong to the caller.
abbrev pub term : List Item → List Item
term items = []

module _ {W : Type 0} (pipes : Pipes W) where
  abbrev pub behind : Item → Bool × List Item × W → Bool × List Item × W
  behind x (b, xs, w) = (b, x ∷ xs, w)

  -- What one pipe answers to `mb_lb_can_send`.
  abbrev pub asked : (W → Bool × List Item × W) → Item → List Item → Bool × W → Bool × List Item × W
  asked rest x xs (true, w) = (true, record x { active = true } ∷ xs, w)
  asked rest x xs (false, w) = behind (record x { active = false }) (rest w)

  unfoldable pub can_send : List Item → W → Bool × List Item × W
  can_send [] w = (false, [], w)
  can_send (x ∷ xs) w = asked (λ w'. can_send xs w') x xs (pipes.can_send x.pipe w)

  abbrev pub send : Msg → List Item → W → Outcome (Unit {0}) × List Item × W
  send m = rotate (pipes.send m)
