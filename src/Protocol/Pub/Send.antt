-- ===== src/Protocol/Pub/Send.antt =====
-- pub.c: what a send comes to.
use msgbroker.Prelude.{
  ℕ, zero, suc, ◌-◌, ◌<◌, ◌≡◌, ◌≢◌, ◌⊎◌, Bool, true, Option, none, some, List, [], ◌∷◌, ◌++◌,
  length, replicate,
}
use msgbroker.Errno.{Rc, ok, err, eagain, einval}
use msgbroker.Memory.Msg.{Msg}
use msgbroker.Core.Pipe.{Pipes}
use msgbroker.Protocol.Spread.{send_copies}
use msgbroker.Protocol.Pub.{Pub, Sent}

-- The bucket at a place of the list.
abbrev pub bucket : ℕ → List (List Msg) → List Msg
bucket i [] = []
bucket zero (b ∷ bs) = b
bucket (suc i) (b ∷ bs) = bucket i bs

-- What the code says of `n` pipes that accepted, of the pipes `ps`.
abbrev pub Says : List ℕ → ℕ → Rc → Type 0
Says ps n code = (code ≡ err eagain) × (n ≡ 0) × (ps ≢ []) ⊎ (code ≡ ok 0) × ((0 < n) ⊎ (ps ≡ []))

module _ {W : Type 0} (pipes : Pipes W) where
  abbrev pub enough : ℕ → Bool
  enough p = true

  -- What a send of `m` comes to, from its priority and from the socket after its buckets are emptied.
  abbrev pub SendOutcome : Msg → Option ℕ → Pub × W → Sent pipes → Type 0
  SendOutcome m none (s, v) r = (r.code ≡ err einval) × (r.socket ≡ s) × (r.msg ≡ m) × (r.world ≡ v)
  SendOutcome m (some prio) (s, v) r =
      let c = send_copies pipes m s.pipes v in
      let i = 7 - prio in
      (r.world ≡ c.1)
      × (r.socket.pipes ≡ s.pipes)
      × (bucket i r.socket.buckets ≡ bucket i s.buckets ++ replicate (length s.pipes - c.0) m)
      × ((j : ℕ) → i ≢ j → bucket j r.socket.buckets ≡ bucket j s.buckets)
      × Says s.pipes c.0 r.code
      × (r.msg ≡ record m { sphdr = [] })
