-- ===== src/Protocol/Sub/Tests.antt =====
-- sub.c: tests and examples.
use msgbroker.Prelude.{
  ℕ, ◌≡◌, refl, ap, sym, Bool, true, false, Option, none, some, List, [], ◌∷◌, arith, length,
}
use msgbroker.Errno.{eagain}
use msgbroker.Memory.Msg.{Msg, empty_msg}
use msgbroker.Core.Pipe.{Answer, yields, refuses, Pipes}
use msgbroker.Utils.Rotor.{rotate, probe, activate}
use msgbroker.Utils.Rotor.Order.{IsQuiet}
use msgbroker.Protocol.Sub.{Sub, msg_matches, setopt, recv, add, pull, pull_deliverable}
use msgbroker.Protocol.Sub.Pull.{Received, Drains, recv-Received}
use msgbroker.Utils.Trie.{new_node, subscribed, make_path, count_path, match}
use msgbroker.Utils.Trie
use msgbroker.Utils.Rotor
use msgbroker.Utils.Trie.Counts.{new_node-IsTrie, Bytes}
use msgbroker.Protocol.Sub.Count.{IsSub, SetoptOutcome, setopt-SetoptOutcome}

abbrev topic_msg : ℕ → Msg
topic_msg n = record { sphdr = []; hdrs = []; body = n ∷ [] }

-- Every pipe gives the messages of one list.
abbrev give : List Msg → Answer Msg × List Msg
give [] = (refuses eagain, [])
give (m ∷ ms) = (yields m, ms)

abbrev shared : Pipes (List Msg)
shared = record {
  recv = λ p w. give w;
  send = λ m p w. (refuses eagain, w);
  has_msg = λ p w. (true, w);
  can_send = λ p w. (false, w);
}

abbrev is_yield : Answer Msg × List Msg → Bool
is_yield (yields m, w) = true
is_yield (refuses e, w) = false

tf : true ≡ false → ⊥
tf e = cc

shared-IsQuiet : IsQuiet shared.recv
shared-IsQuiet p [] w' e = sym (ap (λ r. r.1) e)
shared-IsQuiet p (m ∷ ms) w' e = absurd (tf (ap is_yield e))

shared-Drains : Drains shared length
shared-Drains p [] w' m e = absurd (tf (sym (ap is_yield e)))
shared-Drains p (n ∷ ms) w' m e = omega (arith, ap (λ r. length r.1) e)

abbrev fresh : Sub
fresh = record {
  fq = [];
  subscriptions = new_node;
  pending = empty_msg;
  has_pending = false;
  has_subscriptions = false;
  nsubs = 0;
}

fresh-IsSub : IsSub fresh
fresh-IsSub = record {
  trie = new_node-IsTrie.0;
  exact = sym new_node-IsTrie.1;
  flag = refl;
  in_range = omega arith;
}

seven-Bytes : Bytes (7 ∷ [])
seven-Bytes = omega arith

-- A socket on one pipe that is subscribed to the byte 7.
abbrev ready : Sub
ready = (add true 4 (setopt 1 2 1 (some (7 ∷ [])) 1 fresh).1).1

abbrev sent : List Msg
sent = topic_msg 3 ∷ topic_msg 7 ∷ topic_msg 8 ∷ []

abbrev answer_of : Option (Answer Msg × Sub × List Msg) → Option (Answer Msg)
answer_of none = none
answer_of (some (a, s, w)) = some a

ready_recv : answer_of (recv shared 4 ready sent) ≡ some (yields (topic_msg 7))
unfolding recv pull_deliverable pull setopt make_path count_path Trie.subscribed new_node rotate
    probe msg_matches match activate Trie.add Rotor.add
ready_recv = refl

setopt-SetoptOutcome_example :
    SetoptOutcome 1 2 1 (some (7 ∷ [])) 1 fresh (setopt 1 2 1 (some (7 ∷ [])) 1 fresh)
setopt-SetoptOutcome_example =
    setopt-SetoptOutcome 1 2 1 (some (7 ∷ [])) 1 fresh fresh-IsSub seven-Bytes
      (omega (arith, new_node-IsTrie.1))

recv-Received_example :
    (y : Answer Msg × Sub × List Msg) × (recv shared 4 ready sent ≡ some y)
    × Received shared ready sent y
recv-Received_example =
    recv-Received shared shared-IsQuiet length shared-Drains 4 ready sent (omega arith)
