-- ===== src/Protocol/Pub/Tests.antt =====
-- pub.c: tests and examples.
use msgbroker.Prelude.{
  ℕ, ◌+◌, ◌≡◌, refl, true, false, none, some, Option, List, [], ◌∷◌, ◌==◌, if◌then◌else◌, ltb,
}
use msgbroker.Errno.{eagain}
use msgbroker.Memory.Msg.{Msg}
use msgbroker.Core.Pipe.{Answer, yields, refuses, Pipes}
use msgbroker.Protocol.Spread.{any_yes, send_copies}
use msgbroker.Protocol.Pub.{
  Pub, create, add, stash, drain_bucket, drain_levels, drain_buckets, publish, send,
}
use msgbroker.Protocol.Pub.Drain.{DrainOutcome, drain_buckets-DrainOutcome}
use msgbroker.Protocol.Pub.Send.{enough}

-- Pipe 1 always takes a message, pipe 2 only while the count of all that were sent is below `limit`.
abbrev slow_take : ℕ → ℕ → ℕ → Answer (Unit {0}) × ℕ
slow_take limit p w =
    if p == 1
    then (yields _, w + 1)
    else if ltb w limit
    then (yields _, w + 1)
    else (refuses eagain, w)

abbrev slow : ℕ → Pipes ℕ
slow limit = record {
  recv = λ p w. (refuses eagain, w);
  send = λ m p w. slow_take limit p w;
  has_msg = λ p w. (false, w);
  can_send = λ p w. ((slow_take limit p w).1 == w + 1, w);
}

abbrev first_byte : List ℕ → Option ℕ
first_byte [] = none
first_byte (b ∷ bs) = some b

abbrev urgent : Msg
urgent = record { sphdr = 6 ∷ 0 ∷ 0 ∷ 0 ∷ []; hdrs = []; body = 9 ∷ [] }

abbrev two : Pub
two = (add true 2 (add true 1 create).1).1

-- Pipe 2 refuses, and the copy is retained; the code is success.
abbrev retained : Pub
retained = record two { buckets = [] ∷ (urgent ∷ []) ∷ [] ∷ [] ∷ [] ∷ [] ∷ [] ∷ [] ∷ [] }

urgent_kept : (send (slow 0) first_byte (enough (slow 0)) urgent two 0).socket ≡ retained
unfolding send publish drain_buckets drain_levels drain_bucket stash any_yes
urgent_kept = refl

-- When both pipes take messages again, the copy goes to both.
urgent_again : drain_buckets (slow 9) retained 1 ≡ (two, 3)
unfolding drain_buckets drain_levels drain_bucket any_yes send_copies
urgent_again = refl

drain_buckets-DrainOutcome_example :
    DrainOutcome (slow 9) retained (true, 1) (drain_buckets (slow 9) retained 1)
unfolding any_yes
drain_buckets-DrainOutcome_example = drain_buckets-DrainOutcome (slow 9) retained 1
