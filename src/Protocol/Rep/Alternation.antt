-- ===== src/Protocol/Rep/Alternation.antt =====
-- rep.c: what a REP socket does over any sequence of calls.
use msgbroker.Prelude.{
  ℕ, ◌≡◌, refl, Bool, true, false, Option, none, some, List, [], ◌∷◌, ◌++◌, Bool-cases, inl, inr,
}
use msgbroker.Errno.{Errno, Rc, err, is_eagain}
use msgbroker.Memory.Msg.{Msg}
use msgbroker.Core.Pipe.{Answer, yields, refuses, Pipes}
use msgbroker.Utils.Rotor.{Item, Outcome}
use msgbroker.Utils.Fq
use msgbroker.Utils.Rotor.Last.{Leaves, Comes, rotate-Comes}
use msgbroker.Protocol.Turns.{
  Event, asked, answered, lost, Phase, idle, asking, waiting, answering, asks, asks_back, answers,
  answers_back, drops, Alternates, phase_of, lost-Alternates, told, handed, watch, watch_send,
  watch_recv, run, all_calls,
}
use msgbroker.Protocol.Rep.{Rep, add, rm, in_pipe, out_pipe, events, recv, received, send, replied}

-- The calls that a socket gets.
pub data Call : Type 0 where
  adds : Bool → Bool → ℕ → Call
  rms ins outs : ℕ → Call
  polls recvs : Call
  sends : Msg → Call

module _ {W : Type 0} (pipes : Pipes W) where
  -- A request comes by a receive, and its reply goes out by a send.
  abbrev pub watched : Pipes (List Event × W)
  watched = watch asked answered pipes

  abbrev sent_events : Msg → Rc × Rep × (List Event × W) → List Event × (Rep × W)
  sent_events m (rc, s, v) = (v.0 ++ told m rc, (s, v.1))

  abbrev received_events : Answer Msg × Rep × (List Event × W) → List Event × (Rep × W)
  received_events (a, s, v) = (v.0 ++ handed a, (s, v.1))

  -- One call, with what is observed of it.
  abbrev pub call : Call → Rep × W → List Event × (Rep × W)
  call (adds a b p) (s, w) = ([], ((add a b p s).1, w))
  call (rms p) (s, w) = (lost p ∷ [], (rm p s, w))
  call (ins p) (s, w) = ([], (in_pipe p s, w))
  call (outs p) (s, w) = ([], (out_pipe p s, w))
  call polls (s, w) = let r = events watched s ([], w) in (r.2.0, (s, r.2.1))
  call recvs (s, w) = received_events (recv watched s ([], w))
  call (sends m) (s, w) = sent_events m (send watched m s ([], w))

abbrev pub phase : Rep → Phase
phase s = phase_of s.last_pipe

module _ {W : Type 0} (pipes : Pipes W) where
  abbrev Goes : Option ℕ → List Event × (Rep × W) → Type 0
  Goes o r = Alternates (phase_of o) r.0 (phase r.1.0)

  abbrev Still : List Event × W → Type 0
  Still v = v.0 ≡ []

  abbrev Took : ℕ → Msg → List Event × W → Type 0
  Took p m v = v.0 ≡ asked p m ∷ []

  recv-Leaves :
      (p : ℕ) (v : List Event × W)
      → Still v
      → Leaves (watched pipes).recv Still Still Took p ((watched pipes).recv p v)
  recv-Leaves p v h = go (pipes.recv p v.1)
    where
      go :
          (o : Answer Msg × W)
          → Leaves (watched pipes).recv Still Still Took p (watch_recv asked answered p v.0 o)
      go (yields m, w) = rw h refl
      go (refuses e, w) = ((λ z. h), h)

  received-Goes :
      (s : Rep) (r : Outcome Msg × List Item × (List Event × W))
      → s.last_pipe ≡ none
      → Comes (watched pipes).recv Still Still Took r
      → Goes none (received_events pipes (received (watched pipes) s r))
  received-Goes s (yields (p, m), items, v) h (t, l) =
      rw t (asking p m, asks p m, (waiting p, asks_back p m, refl))
  received-Goes s (refuses e, items, v) h t = rw (t, h) refl

  recv-Goes :
      (s : Rep) (w : W) (o : Option ℕ)
      → s.last_pipe ≡ o
      → Goes o (
          received_events pipes (elim o [
            | some p ↦ (refuses Errno.efsm, s, ([], w))
            | none ↦ received (watched pipes) s (Fq.recv_pipe (watched pipes) s.fq ([], w))
          ]))
  recv-Goes s w (some q) h = rw h refl
  recv-Goes s w none h = received-Goes s (Fq.recv_pipe (watched pipes) s.fq ([], w)) h (
      rotate-Comes (watched pipes).recv Still Still Took (recv-Leaves) (λ v k. k) s.fq ([], w) refl)

  replied-Goes :
      (m : Msg) (s : Rep) (p : ℕ) (a : Answer (Unit {0}) × W)
      → s.last_pipe ≡ some p
      → Goes
          (some p)
          (sent_events pipes m (replied (watched pipes) s (watch_send asked answered p m [] a)))
  replied-Goes m s p (yields u, w) h = (answering m, answers p m, (idle, answers_back m, refl))
  replied-Goes m s p (refuses e, w) h = elim (Bool-cases (is_eagain (err e))) [
    | inl k ↦ rw k (rw h refl)
    | inr k ↦ rw k (idle, drops p, refl)
  ]

  send-Goes :
      (m : Msg) (s : Rep) (w : W) (o : Option ℕ)
      → s.last_pipe ≡ o
      → Goes o (
          sent_events pipes m (elim o [
            | none ↦ (err Errno.efsm, s, ([], w))
            | some p ↦ replied (watched pipes) s ((watched pipes).send m p ([], w))
          ]))
  send-Goes m s w none h = rw h refl
  send-Goes m s w (some p) h = replied-Goes m s p (pipes.send m p w) h

  -- `mb_fq_can_recv` and the pipes' tests move no message.
  can_recv_silent :
      (xs : List Item) (v : List Event × W) → (Fq.can_recv (watched pipes) xs v).1.0 ≡ v.0
  unfolding Fq.can_recv
  can_recv_silent [] v = refl
  can_recv_silent (x ∷ xs) v = go (pipes.has_msg x.pipe v.1) (λ w. can_recv_silent xs (v.0, w))
    where
      go :
          (a : Bool × W)
          → ((w : W) → (Fq.can_recv (watched pipes) xs (v.0, w)).1.0 ≡ v.0)
          → (Fq.asked (watched pipes) (λ u. Fq.can_recv (watched pipes) xs u) (a.0, (v.0, a.1))).1.0
            ≡ v.0
      go (true, w) ih = refl
      go (false, w) ih = ih w

  polls-Goes :
      (s : Rep) (w : W) (o : Option ℕ)
      → s.last_pipe ≡ o
      → Goes o (
          let r : Bool × Bool × (List Event × W) = elim o [
            | some p ↦ let a = (watched pipes).can_send p ([], w) in (a.0, false, a.1)
            | none ↦ let a = Fq.can_recv (watched pipes) s.fq ([], w) in (false, a.0, a.1)
          ] in
          (r.2.0, (s, r.2.1)))
  polls-Goes s w (some p) h = rw h refl
  polls-Goes s w none h = rw (can_recv_silent s.fq ([], w), h) refl

  call-Goes : (c : Call) (q : Rep × W) → Goes q.0.last_pipe (call pipes c q)
  unfolding rm recv send
  call-Goes (adds true true p) (s, w) = refl
  call-Goes (adds true false p) (s, w) = refl
  call-Goes (adds false b p) (s, w) = refl
  call-Goes (rms p) (s, w) = lost-Alternates p s.last_pipe
  call-Goes (ins p) (s, w) = refl
  call-Goes (outs p) (s, w) = refl
  call-Goes polls (s, w) = polls-Goes s w s.last_pipe refl
  call-Goes recvs (s, w) = recv-Goes s w s.last_pipe refl
  call-Goes (sends m) (s, w) = send-Goes m s w s.last_pipe refl

  -- The pipes are watched: of each it is recorded, outside the socket, which messages it gives and
  -- takes, when it goes away or fails a send with an error other than -EAGAIN, and which calls of the
  -- application return a message or take one. Over any sequence of calls of a REP socket,
  -- connections coming and going among them, each request that a pipe gives is handed to the
  -- caller, then either the next message that any pipe takes is its reply, over that same
  -- pipe, and the caller is told that it is sent, or that pipe is lost; no other request is
  -- taken from a pipe before. At the end a reply is due on the pipe that the socket keeps, and
  -- on no other.
  pub rep_run-Alternates :
      (cs : List Call) (s : Rep) (w : W)
      → Alternates (phase s) (run (call pipes) cs (s, w)).0 (phase (run (call pipes) cs (s, w)).1.0)
  rep_run-Alternates cs s w =
      all_calls (call pipes) (λ q. phase q.0) (λ q. Unit {0}) (λ c q g. (call-Goes c q, tt)) cs
        (s, w) tt
