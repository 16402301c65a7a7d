-- ===== src/Utils/Fq.antt =====
-- src/utils/fq.c: fair queuing, over the list of pipes of Utils.Rotor. An item of the list is found
-- by its pipe, where the code holds a pointer to it.
pub use msgbroker.Utils.Rotor.{add, rm, activate, deactivate}
use msgbroker.Prelude.{Bool, true, false, List, [], ◌∷◌}
use msgbroker.Memory.Msg.{Msg}
use msgbroker.Core.Pipe.{Pipes}
use msgbroker.Utils.Rotor.{Item, Outcome, rotate}

abbrev pub init : List Item
init = []

-- `mb_list_term` forgets the items, which belong to the caller.
abbrev pub term : List Item → List Item
term items = []

module _ {W : Type 0} (pipes : Pipes W) where
  -- What one pipe answers to `mb_fq_can_recv`.
  abbrev pub asked : (W → Bool × W) → Bool × W → Bool × W
  asked rest (true, w) = (true, w)
  asked rest (false, w) = rest w

  unfoldable pub can_recv : List Item → W → Bool × W
  can_recv [] w = (false, w)
  can_recv (x ∷ xs) w = asked (λ w'. can_recv xs w') (pipes.has_msg x.pipe w)

  abbrev pub recv_pipe : List Item → W → Outcome Msg × List Item × W
  recv_pipe = rotate pipes.recv
