-- ===== src/Protocol/Pub.antt =====
-- src/protocol/pubsub/pub.c: a PUB socket. A message goes to every subscriber; a copy that a pipe does
-- not take is kept in the bucket of its priority, and the buckets are emptied, the highest first, when
-- the next message is sent.
mod Drain
mod Send
mod Tests
use msgbroker.Prelude.{
  ℕ, zero, suc, ◌+◌, ◌-◌, Bool, true, false, ◌||◌, Option, none, some, List, [], ◌∷◌, ◌++◌, ◌==◌,
  ltb, length, take, replicate, if◌then◌else◌,
}
use msgbroker.Errno.{Errno, Rc, ok, err, eagain, enomem, einval, enoprotoopt}
use msgbroker.Memory.Msg.{Msg}
use msgbroker.Core.Pipe.{Answer, yields, refuses, Pipes}
use msgbroker.Protocol.Spread.{attach, erase, any_yes, send_copies}
use msgbroker.Protocol.Types.{sub_type, xsub_type}

-- `MB_PUB_PRIO_LEVELS` and `MB_PUB_PRIO_NORMAL`.
abbrev pub prio_levels : ℕ
prio_levels = 8

abbrev pub prio_normal : ℕ
prio_normal = 4

-- `struct mb_pub`. The buckets stand from the highest level, 7, to the lowest, 0.
pub record Pub : Type 0 where
  pub pipes : List ℕ
  pub buckets : List (List Msg)

abbrev pub create : Pub
create = record { pipes = []; buckets = replicate prio_levels [] }

-- `alloc_ok` is whether `mb_alloc` gives the pipe's item.
abbrev pub add : Bool → ℕ → Pub → Rc × Pub
add alloc_ok p s = let r = attach alloc_ok p s.pipes in (r.0, record s { pipes = r.1 })

abbrev pub rm : ℕ → Pub → Pub
rm p s = record s { pipes = erase p s.pipes }

-- `mb_pub_in` and `mb_pub_out` do nothing.
abbrev pub in_pipe : ℕ → Pub → Pub
in_pipe p s = s

abbrev pub out_pipe : ℕ → Pub → Pub
out_pipe p s = s

abbrev pub setopt : Rc
setopt = err enoprotoopt

abbrev pub getopt : Rc
getopt = err enoprotoopt

abbrev pub ispeer : ℕ → Bool
ispeer t = t == sub_type || t == xsub_type

abbrev pub in_levels : Option ℕ → Option ℕ
in_levels none = none
in_levels (some prio) = if ltb prio prio_levels then some prio else none

-- `int_of` is the machine's reading of four bytes as an `int`: `none` for a negative number. The
-- result `none` is -1.
abbrev pub prio_decode : (List ℕ → Option ℕ) → Msg → Option ℕ
prio_decode int_of m =
    if ltb (length m.sphdr) 4 then some prio_normal else in_levels (int_of (take 4 m.sphdr))

-- `n` copies of the message go to the end of a bucket, counted from the first of the list.
unfoldable pub stash : ℕ → ℕ → Msg → List (List Msg) → List (List Msg)
stash i n m [] = []
stash zero n m (b ∷ bs) = (b ++ replicate n m) ∷ bs
stash (suc i) n m (b ∷ bs) = b ∷ stash i n m bs

-- The level of the first bucket that is not empty, where the list ends with level 0.
abbrev pub highest : List (List Msg) → ℕ
highest [] = 0
highest ([] ∷ bs) = highest bs
highest ((m ∷ ms) ∷ bs) = length bs

-- No peer, or one that accepted, is success.
abbrev pub sent_code : List ℕ → ℕ → Rc
sent_code [] sent = ok 0
sent_code (p ∷ ps) zero = err eagain
sent_code (p ∷ ps) (suc sent) = ok 0

module _ {W : Type 0} (pipes : Pipes W) where
  -- Whether the socket has the event OUT.
  abbrev pub events : Pub → W → Bool × W
  events s w = any_yes pipes.can_send s.pipes w

  -- What becomes of a bucket after `mb_pub_try_drain_one` on its first message.
  abbrev pub tried : (W → List Msg × W) → Msg → List Msg → ℕ × W → List Msg × W
  tried rest m ms (zero, w) = (m ∷ ms, w)
  tried rest m ms (suc n, w) = rest w

  -- The loop over one bucket: what stays in it.
  unfoldable pub drain_bucket : List ℕ → List Msg → W → List Msg × W
  drain_bucket ps [] w = ([], w)
  drain_bucket ps (m ∷ ms) w = tried (λ v. drain_bucket ps ms v) m ms (send_copies pipes m ps w)

  abbrev pub next_level :
      (W → List (List Msg) × W) → List (List Msg) → List Msg × W → List (List Msg) × W
  next_level rest bs ([], w) = let r = rest w in ([] ∷ r.0, r.1)
  next_level rest bs (m ∷ ms, w) = ((m ∷ ms) ∷ bs, w)

  unfoldable pub drain_levels : List ℕ → List (List Msg) → W → List (List Msg) × W
  drain_levels ps [] w = ([], w)
  drain_levels ps (b ∷ bs) w = next_level (λ v. drain_levels ps bs v) bs (drain_bucket ps b w)

  unfoldable pub drain_buckets : Pub → W → Pub × W
  drain_buckets s w =
      let a = any_yes pipes.can_send s.pipes w in
      let r = drain_levels s.pipes s.buckets a.1 in
      if a.0 then (record s { buckets = r.0 }, r.1) else (s, a.1)

  -- One pipe's answer to a copy: `sent` and `retained` grow. `kept` is whether there is memory for it.
  abbrev pub counted : Bool → ℕ × ℕ → Answer (Unit {0}) → ℕ × ℕ
  counted kept (sent, retained) (yields u) = (suc sent, retained)
  counted true (sent, retained) (refuses e) = (sent, suc retained)
  counted false (sent, retained) (refuses e) = (sent, retained)

  -- The loop of `mb_pub_send`. `alloc_ok` is whether `mb_alloc` gives the item for a pipe's copy.
  unfoldable pub publish : (ℕ → Bool) → Msg → List ℕ → W → (ℕ × ℕ) × W
  publish alloc_ok m [] w = ((0, 0), w)
  publish alloc_ok m (p ∷ ps) w =
      let a = pipes.send m p w in
      let rest = publish alloc_ok m ps a.1 in (counted (alloc_ok p) rest.0 a.0, rest.1)

  -- What a call of send leaves: the code, the socket, the caller's message, the priority given to
  -- `mb_sock_set_current_snd_priority`, and the state of the pipes.
  pub record Sent : Type 0 where
    pub code : Rc
    pub socket : Pub
    pub msg : Msg
    pub snd_priority : Option ℕ
    pub world : W

  abbrev pub published : ℕ → Msg → Pub → (ℕ × ℕ) × W → Sent
  published prio m s (c, w) =
      let buckets = stash (prio_levels - 1 - prio) c.1 m s.buckets in
      record {
        code = sent_code s.pipes c.0;
        socket = record s { buckets = buckets };
        msg = record m { sphdr = [] };
        snd_priority = some (highest buckets);
        world = w;
      }

  abbrev pub send_decoded : (ℕ → Bool) → Msg → Option ℕ → Pub × W → Sent
  send_decoded alloc_ok m none (s, w) = record {
    code = err einval;
    socket = s;
    msg = m;
    snd_priority = none;
    world = w;
  }
  send_decoded alloc_ok m (some prio) (s, w) = published prio m s (publish alloc_ok m s.pipes w)

  unfoldable pub send : (List ℕ → Option ℕ) → (ℕ → Bool) → Msg → Pub → W → Sent
  send int_of alloc_ok m s w = send_decoded alloc_ok m (prio_decode int_of m) (drain_buckets s w)
