-- ===== src/Protocol/Turns.antt =====
-- The request-reply order, for the socket types that keep one (src/protocol/reqrep/req.c, rep.c and
-- src/protocol/survey/respondent.c). What happens is observed outside the socket: at its pipes, whose
-- calls are watched, and at the caller, who sees what a call returns.
use msgbroker.Prelude.{
  ℕ, ◌≡◌, refl, false, Option, none, some, List, [], ◌∷◌, ◌++◌, ◌==◌, ==_iff, Bool-cases, inl, inr,
  if◌then◌else◌,
}
use msgbroker.Errno.{Rc, ok, err, is_eagain}
use msgbroker.Memory.Msg.{Msg}
use msgbroker.Core.Pipe.{Answer, yields, refuses, Pipes, points_to}

-- A request or a reply went over a pipe; a pipe went away or failed; a call of the application
-- succeeded with a message.
pub data Event : Type 0 where
  asked answered : ℕ → Msg → Event
  lost : ℕ → Event
  returned : Msg → Event

-- The request went over the pipe, or the reply came, and the call that did so has not returned; a
-- reply is due on the pipe.
pub data Phase : Type 0 where
  idle : Phase
  asking : ℕ → Msg → Phase
  waiting : ℕ → Phase
  answering : Msg → Phase

pub data Step : Phase → Event → Phase → Type 0 where
  asks : (p : ℕ) (m : Msg) → Step idle (asked p m) (asking p m)
  asks_back : (p : ℕ) (m : Msg) → Step (asking p m) (returned m) (waiting p)
  answers : (p : ℕ) (m : Msg) → Step (waiting p) (answered p m) (answering m)
  answers_back : (m : Msg) → Step (answering m) (returned m) idle
  drops : (p : ℕ) → Step (waiting p) (lost p) idle
  passes : (p : ℕ) → Step idle (lost p) idle
  keeps : (p q : ℕ) → (q == p) ≡ false → Step (waiting q) (lost p) (waiting q)

-- The events go from one phase to another in the order of requests and replies.
abbrev pub Alternates : Phase → List Event → Phase → Type 0
Alternates a [] b = a ≡ b
Alternates a (e ∷ es) b = (c : Phase) × Step a e c × Alternates c es b

pub Alternates-append :
    (a b c : Phase) (es fs : List Event)
    → Alternates a es b
    → Alternates b fs c
    → Alternates a (es ++ fs) c
Alternates-append a b c [] fs h k = rw h k
Alternates-append a b c (e ∷ es) fs h k = (h.0, h.1, Alternates-append h.0 b c es fs h.2 k)

-- The phase between two calls, by the pipe that a reply is due on.
abbrev pub phase_of : Option ℕ → Phase
phase_of none = idle
phase_of (some p) = waiting p

-- What the loss of a pipe does to the phase.
pub lost-Alternates :
    (p : ℕ) (o : Option ℕ)
    → Alternates (phase_of o) (lost p ∷ []) (phase_of (if points_to o p then none else o))
lost-Alternates p none = (idle, passes p, refl)
lost-Alternates p (some q) = elim (Bool-cases (q == p)) [
  | inl e ↦ rw (e, (==_iff q p).0 e) (idle, drops p, refl)
  | inr e ↦ rw e (waiting q, keeps p q e, refl)
]

-- The result of a call, as its caller sees it.
abbrev pub told : Msg → Rc → List Event
told m (ok n) = returned m ∷ []
told m (err e) = []

abbrev pub handed : Answer Msg → List Event
handed (yields m) = returned m ∷ []
handed (refuses e) = []

module _ {W : Type 0} (on_recv on_send : ℕ → Msg → Event) where
  abbrev pub watch_recv : ℕ → List Event → Answer Msg × W → Answer Msg × (List Event × W)
  watch_recv p es (yields m, w) = (yields m, (es ++ on_recv p m ∷ [], w))
  watch_recv p es (refuses e, w) = (refuses e, (es, w))

  abbrev pub watch_send :
      ℕ → Msg → List Event → Answer (Unit {0}) × W → Answer (Unit {0}) × (List Event × W)
  watch_send p m es (yields u, w) = (yields u, (es ++ on_send p m ∷ [], w))
  watch_send p m es (refuses e, w) =
      (refuses e, ((if is_eagain (err e) then es else es ++ lost p ∷ []), w))

  -- The same pipes, with a record of what goes over them; a send that fails loses the pipe.
  abbrev pub watch : Pipes W → Pipes (List Event × W)
  watch pipes = record {
    recv = λ p v. watch_recv p v.0 (pipes.recv p v.1);
    send = λ m p v. watch_send p m v.0 (pipes.send m p v.1);
    has_msg = λ p v. let a = pipes.has_msg p v.1 in (a.0, (v.0, a.1));
    can_send = λ p v. let a = pipes.can_send p v.1 in (a.0, (v.0, a.1));
  }

-- A socket of which each call respects the order, as long as its state is good.
module _ {Q C : Type 0} (call : C → Q → List Event × Q) where
  -- The events of a sequence of calls, and the state at its end.
  abbrev pub run : List C → Q → List Event × Q
  run [] q = ([], q)
  run (c ∷ cs) q = let r = call c q in let t = run cs r.1 in (r.0 ++ t.0, t.1)

  pub all_calls :
      (phase : Q → Phase) (IsGood : Q → Type 0)
      → ((c : C) (q : Q)
          → IsGood q
          → Alternates (phase q) (call c q).0 (phase (call c q).1) × IsGood (call c q).1)
      → (cs : List C) (q : Q) → IsGood q
      → Alternates (phase q) (run cs q).0 (phase (run cs q).1)
  all_calls phase IsGood keep [] q g = refl
  all_calls phase IsGood keep (c ∷ cs) q g =
      let h = keep c q g in
      let r = call c q in
      let t = run cs r.1 in
      Alternates-append (phase q) (phase r.1) (phase t.1) r.0 t.0 h.0
        (all_calls phase IsGood keep cs r.1 h.1)
