-- ===== src/Protocol/Spread/Tests.antt =====
-- The shared loops: tests and examples.
use msgbroker.Prelude.{ℕ, ◌≡◌, refl, true, false, List, [], ◌∷◌, ◌==◌, if◌then◌else◌}
use msgbroker.Errno.{eagain}
use msgbroker.Core.Pipe.{Answer, yields, refuses}
use msgbroker.Utils.Rotor.{Item, probe}
use msgbroker.Protocol.Spread.{cycle}
use msgbroker.Protocol.Spread.Cycle.{unmarked, cycle-probe}

-- Only pipe `w` has messages.
abbrev pick : ℕ → ℕ → Answer ℕ × ℕ
pick p w = (if p == w then yields p else refuses eagain, w)

abbrev items : List Item
items =
    record { pipe = 4; active = true }
    ∷ record { pipe = 7; active = false }
    ∷ record { pipe = 9; active = true }
    ∷ []

second_cycled : cycle pick [] (4 ∷ 7 ∷ 9 ∷ []) 7 ≡ (yields (7, 7), 4 ∷ 9 ∷ 7 ∷ [], 7)
unfolding cycle
second_cycled = refl

cycle-probe_example : cycle pick [] (4 ∷ 7 ∷ 9 ∷ []) 7 ≡ unmarked pick (probe pick [] items 7)
cycle-probe_example = cycle-probe pick [] items 7
