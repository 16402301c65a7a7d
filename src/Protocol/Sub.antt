-- ===== src/Protocol/Sub.antt =====
-- src/protocol/pubsub/sub.c: a SUB socket. It takes messages from its pipes and keeps those of which
-- a prefix of the body is subscribed.
mod Pull
mod Count
mod Tests
use msgbroker.Prelude.{
  ℕ, zero, suc, ◌-◌, Bool, true, false, not, ◌&&◌, Option, none, some, List, [], ◌∷◌, ◌==◌, ltb,
  take, if◌then◌else◌, ◌||◌, ◌^◌, add32,
}
use msgbroker.Errno.{Errno, Rc, ok, err, eagain, enomem, einval, enoprotoopt}
use msgbroker.Protocol.Types.{pub_type, xpub_type}
use msgbroker.Memory.Msg.{Msg, empty_msg}
use msgbroker.Core.Pipe.{Answer, yields, refuses, Pipes}
use msgbroker.Utils.Rotor.{Item, Outcome, has}
use msgbroker.Utils.Fq
use msgbroker.Utils.Trie.{Trie, match}
use msgbroker.Utils.Trie

-- `struct mb_sub`. The `int` nsubs is its word in two's complement.
pub record Sub : Type 0 where
  pub fq : List Item
  pub subscriptions : Trie
  pub pending : Msg
  pub has_pending : Bool
  pub has_subscriptions : Bool
  pub nsubs : ℕ

-- The values of mb_pubsub.h.
abbrev pub sub_proto : ℕ
sub_proto = 2

abbrev pub sub_subscribe : ℕ
sub_subscribe = 1

abbrev pub sub_unsubscribe : ℕ
sub_unsubscribe = 2

unfoldable pub msg_matches : Sub → Msg → Bool
msg_matches s m = if not s.has_subscriptions then false else match s.subscriptions m.body

-- `mem` is the number of allocations that succeed before one fails; without memory there is no
-- socket.
unfoldable pub create : ℕ → Option Sub
create zero = none
create (suc mem) =
    let (rc, t) = Trie.init mem in
    elim rc [
      | err e ↦ none
      | ok n ↦ some (record {
        fq = Fq.init;
        subscriptions = t;
        pending = empty_msg;
        has_pending = false;
        has_subscriptions = false;
        nsubs = 0;
      })
    ]

-- `alloc_ok` is whether `mb_alloc` gives the pipe's item.
abbrev pub add : Bool → ℕ → Sub → Rc × Sub
add false p s = (err enomem, s)
add true p s = (ok 0, record s { fq = Fq.activate p (Fq.add p s.fq) })

abbrev pub rm : ℕ → Sub → Sub
rm p s = record s { fq = Fq.rm p s.fq }

-- `mb_sub_in`.
abbrev pub in_pipe : ℕ → Sub → Sub
in_pipe p s = record s { fq = if has p s.fq then Fq.activate p s.fq else s.fq }

-- The bytes of an option value. A NULL pointer is `none`.
abbrev pub topic : Option (List ℕ) → ℕ → List ℕ
topic none n = []
topic (some bytes) n = take n bytes

abbrev pub is_missing : Option (List ℕ) → ℕ → Bool
is_missing none n = ltb 0 n
is_missing (some bytes) n = false

-- The test `nsubs > 0` on an `int`.
abbrev pub above_zero : ℕ → Bool
above_zero n = ltb 0 n && ltb n (2 ^ 31)

abbrev pub subscribed : Sub → Rc × Trie → Rc × Sub
subscribed s (err e, t) = (err e, record s { subscriptions = t })
subscribed s (ok zero, t) = (ok 0, record s { subscriptions = t })
subscribed s (ok (suc n), t) =
    (ok 0, record s { subscriptions = t; nsubs = add32 s.nsubs 1; has_subscriptions = true })

abbrev pub unsubscribed : Sub → Rc × Trie → Rc × Sub
unsubscribed s (err e, t) = (err e, record s { subscriptions = t })
unsubscribed s (ok n, t) =
    let nsubs = if ltb 0 n && above_zero s.nsubs then s.nsubs - 1 else s.nsubs in
    (ok 0, record s { subscriptions = t; nsubs = nsubs; has_subscriptions = above_zero nsubs })

-- `mem` is the number of allocations that succeed before one fails.
unfoldable pub setopt : ℕ → ℕ → ℕ → Option (List ℕ) → ℕ → Sub → Rc × Sub
setopt mem level option optval optvallen s =
    if not (level == sub_proto)
    then (err enoprotoopt, s)
    else if option == sub_subscribe
    then (if is_missing optval optvallen
        then (err einval, s)
        else subscribed s (Trie.add mem s.subscriptions (topic optval optvallen)))
    else if option == sub_unsubscribe
    then (if is_missing optval optvallen
        then (err einval, s)
        else unsubscribed s (Trie.rm s.subscriptions (topic optval optvallen)))
    else (err enoprotoopt, s)

abbrev pub getopt : Rc
getopt = err enoprotoopt

abbrev pub ispeer : ℕ → Bool
ispeer t = t == pub_type || t == xpub_type

module _ {W : Type 0} (pipes : Pipes W) where
  -- What one `mb_fq_recv` of the loop does: whether the loop found a message, and the state.
  abbrev pub pulled :
      (List Item → W → Option (Bool × Sub × W))
      → Sub
      → Outcome Msg × List Item × W
      → Option (Bool × Sub × W)
  pulled rest s (refuses e, fq, w) = some (false, record s { fq = fq }, w)
  pulled rest s (yields (p, m), fq, w) =
      let again = rest fq w in
      if msg_matches s m
      then some (true, record s { fq = fq; pending = m; has_pending = true }, w)
      else again

  -- The loop of `mb_sub_pull_deliverable`, for at most `fuel` rounds.
  unfoldable pub pull : ℕ → Sub → W → Option (Bool × Sub × W)
  pull zero s w = none
  pull (suc fuel) s w =
      pulled (λ fq w'. pull fuel (record s { fq = fq }) w') s (Fq.recv_pipe pipes s.fq w)

  unfoldable pub pull_deliverable : ℕ → Sub → W → Option (Bool × Sub × W)
  pull_deliverable fuel s w = if s.has_pending then some (true, s, w) else pull fuel s w

  -- Whether the socket has the event IN.
  abbrev pub events : ℕ → Sub → W → Option (Bool × Sub × W)
  events = pull_deliverable

  abbrev pub delivered : Option (Bool × Sub × W) → Option (Answer Msg × Sub × W)
  delivered none = none
  delivered (some (false, s, w)) = some (refuses eagain, s, w)
  delivered (some (true, s, w)) =
      some (yields s.pending, record s { pending = empty_msg; has_pending = false }, w)

  unfoldable pub recv : ℕ → Sub → W → Option (Answer Msg × Sub × W)
  recv fuel s w = delivered (pull_deliverable fuel s w)
