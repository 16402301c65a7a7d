-- ===== src/Protocol/Sub/Pull.antt =====
-- sub.c: the loop that looks for a message to deliver.
use msgbroker.Prelude.{
  ℕ, zero, suc, ◌<◌, ◌≡◌, refl, ap, Bool, true, false, Option, some, List, [], arith, inl, inr,
  Bool-cases, if◌then◌else◌,
}
use msgbroker.Errno.{Errno, eagain}
use msgbroker.Memory.Msg.{Msg, empty_msg}
use msgbroker.Core.Pipe.{Answer, yields, refuses, Pipes}
use msgbroker.Utils.Rotor.{Item, Outcome, names}
use msgbroker.Utils.Rotor.Order.{IsQuiet, Ends, rotate-Ends}
use msgbroker.Utils.Fq
use msgbroker.Protocol.Sub.{Sub, msg_matches, pulled, pull, pull_deliverable, delivered, recv}

module _ {W : Type 0} (pipes : Pipes W) where
  -- The pipes are read some times, and none of the messages matches.
  pub data Skips (matches : Msg → Bool) : List Item → W → List Item → W → Type 0 where
    stay : (fq : List Item) (w : W) → Skips matches fq w fq w
    skip :
        (fq : List Item) (w : W) (p : ℕ) (m : Msg) (fq' : List Item) (w' : W) (fq'' : List Item)
        (w'' : W)
        → Fq.recv_pipe pipes fq w ≡ (yields (p, m), fq', w')
        → matches m ≡ false
        → Skips matches fq' w' fq'' w''
        → Skips matches fq w fq'' w''

  -- What the loop must come to: it has skipped messages that do not match, and then it keeps the
  -- next one, which matches, or the pipes have refused to give one.
  abbrev pub Pulled : Sub → W → Bool × Sub × W → Type 0
  Pulled s w (true, s', w') =
      (fq : List Item) × (v : W) × (p : ℕ) × (m : Msg) × Skips (msg_matches s) s.fq w fq v
      × (Fq.recv_pipe pipes fq v ≡ (yields (p, m), s'.fq, w'))
      × (msg_matches s m ≡ true)
      × (s' ≡ record s { fq = s'.fq; pending = m; has_pending = true })
  Pulled s w (false, s', w') =
      (fq : List Item) × (v : W) × (e : Errno) × Skips (msg_matches s) s.fq w fq v
      × (Fq.recv_pipe pipes fq v ≡ (refuses e, s'.fq, w'))
      × (s' ≡ record s { fq = s'.fq })

  -- The pipes run dry: each message that is received makes `left` smaller.
  abbrev pub Drains : (W → ℕ) → Type 0
  Drains left = (p : ℕ) (w w' : W) (m : Msg) → pipes.recv p w ≡ (yields m, w') → left w' < left w

  PullResult : Sub → W → Option (Bool × Sub × W) → Type 0
  PullResult s w r = (x : Bool × Sub × W) × (r ≡ some x) × Pulled s w x

  Pulled-skip :
      (s : Sub) (w : W) (p : ℕ) (m : Msg) (fq : List Item) (w' : W) (x : Bool × Sub × W)
      → Fq.recv_pipe pipes s.fq w ≡ (yields (p, m), fq, w')
      → msg_matches s m ≡ false
      → Pulled (record s { fq = fq }) w' x
      → Pulled s w x
  unfolding msg_matches
  Pulled-skip s w p m fq w' (true, s'', w'') h k (f, v, q, n, c, d, e, g) =
      (f, v, q, n, skip s.fq w p m fq w' f v h k c, d, e, g)
  Pulled-skip s w p m fq w' (false, s'', w'') h k (f, v, q, c, d, g) =
      (f, v, q, skip s.fq w p m fq w' f v h k c, d, g)

  pulled-PullResult :
      (left : W → ℕ)
      → Drains left
      → (s : Sub) (w : W) (ps : List ℕ) (o : Outcome Msg × List Item × W)
      → Fq.recv_pipe pipes s.fq w ≡ o
      → Ends pipes.recv w [] ps o
      → (rest : List Item → W → Option (Bool × Sub × W))
      → ((fq : List Item) (w' : W)
          → left w' < left w
          → PullResult (record s { fq = fq }) w' (rest fq w'))
      → PullResult s w (pulled pipes rest s o)
  unfolding PullResult
  pulled-PullResult left drains s w ps (refuses e, fq, w') h k rest ih =
      (_, refl, (s.fq, w, e, stay s.fq w, h, refl))
  pulled-PullResult left drains s w ps (yields (p, m), fq, w') h k rest ih =
      elim (Bool-cases (msg_matches s m)) [
        | inl e ↦ rw e (_, refl, (s.fq, w, p, m, stay s.fq w, h, e, refl))
        | inr e ↦
            let r = ih fq w' (drains p w w' m k.0.answers) in
            rw e (r.0, r.1, Pulled-skip s w p m fq w' r.0 h e r.2)
      ]

  pull-PullResult :
      IsQuiet pipes.recv
      → (left : W → ℕ) → Drains left
      → (fuel : ℕ) (s : Sub) (w : W) → left w < fuel
      → PullResult s w (pull pipes fuel s w)
  unfolding pull
  pull-PullResult quiet left drains zero s w h = absurd (omega arith)
  pull-PullResult quiet left drains (suc fuel) s w h =
      pulled-PullResult left drains s w (names s.fq) (Fq.recv_pipe pipes s.fq w) refl
        (rotate-Ends pipes.recv quiet w s.fq) (λ fq w'. pull pipes fuel (record s { fq = fq }) w')
        (λ fq w' k. pull-PullResult quiet left drains fuel (record s { fq = fq }) w' (omega arith))

  -- What `mb_sub_recv` must come to: the pending message, if there is one; or else what the loop
  -- finds, which is delivered at once, or -EAGAIN.
  abbrev pub Received : Sub → W → Answer Msg × Sub × W → Type 0
  Received s w (yields m, s', w') =
      if s.has_pending
      then (m ≡ s.pending) × (w' ≡ w) × (s' ≡ record s { pending = empty_msg; has_pending = false })
      else (q : Sub) × Pulled s w (true, q, w')
        × (m ≡ q.pending)
        × (s' ≡ record s { fq = q.fq; pending = empty_msg; has_pending = false })
  Received s w (refuses e, s', w') =
      (e ≡ eagain) × (s.has_pending ≡ false) × Pulled s w (false, s', w')

  abbrev emptied : Sub → Sub
  emptied s = record s { pending = empty_msg; has_pending = false }

  delivered-Received :
      (s : Sub) (w : W) (x : Bool × Sub × W)
      → s.has_pending ≡ false
      → Pulled s w x
      → (y : Answer Msg × Sub × W) × (delivered pipes (some x) ≡ some y) × Received s w y
  delivered-Received s w (false, q, w') e h = (_, refl, (refl, e, h))
  delivered-Received s w (true, q, w') e h = (_, refl, simp e (q, h, refl, ap emptied h.7))

  -- A receive on a SUB socket ends, with one round more than there can be messages: it gives the
  -- message that was kept before, if there is one. If not, it takes messages from the pipes in turn
  -- and drops those that do not match, and gives the first that matches; or it gives -EAGAIN when the
  -- pipes refuse. The pipes do nothing when they answer -EAGAIN, and each message received leaves
  -- fewer.
  pub recv-Received :
      IsQuiet pipes.recv
      → (left : W → ℕ) → Drains left
      → (fuel : ℕ) (s : Sub) (w : W) → left w < fuel
      → (y : Answer Msg × Sub × W) × (recv pipes fuel s w ≡ some y) × Received s w y
  unfolding recv pull_deliverable PullResult
  recv-Received quiet left drains fuel s w h = elim (Bool-cases s.has_pending) [
    | inl e ↦ simp e (_, refl, simp e (refl, refl, refl))
    | inr e ↦
        let r = pull-PullResult quiet left drains fuel s w h in
        simp (e, r.1) (delivered-Received s w r.0 e r.2)
  ]
