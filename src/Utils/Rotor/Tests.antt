-- ===== src/Utils/Rotor/Tests.antt =====
-- fq.c, lb.c: tests and examples.
use msgbroker.Prelude.{ℕ, ◌≡◌, refl, ap, sym, List, [], ◌∷◌, ◌==◌, if◌then◌else◌}
use msgbroker.Errno.{eagain}
use msgbroker.Core.Pipe.{Answer, yields, refuses}
use msgbroker.Utils.Rotor.{Item, rotate, add, activate, names}
use msgbroker.Utils.Rotor.Order.{IsQuiet, Ends, rotate-Ends}
use msgbroker.Utils.Rotor.Fair.{turns, turns-round}

-- Only pipe `w` has messages.
abbrev pick : ℕ → ℕ → Answer ℕ × ℕ
pick p w = (if p == w then yields p else refuses eagain, w)

pick-IsQuiet : IsQuiet pick
pick-IsQuiet p w w' e = sym (ap (λ r. r.1) e)

abbrev three : List Item
three = activate 2 (add 2 (add 1 (add 0 [])))

three_taken : (rotate pick three 1).0 ≡ yields (1, 1)
unfolding rotate activate add
three_taken = refl

rotate-Ends_example : Ends pick 1 [] (names three) (rotate pick three 1)
rotate-Ends_example = rotate-Ends pick pick-IsQuiet 1 three

abbrev always : ℕ → ℕ → Answer ℕ × ℕ
always p w = (yields p, w)

turns-round_example : turns always 3 three 7 ≡ 2 ∷ 0 ∷ 1 ∷ []
unfolding activate add
turns-round_example = turns-round always (λ p w. (p, w, refl)) three 7
