-- ===== src/Protocol/Req/Alternation.antt =====
-- req.c: what a REQ socket does over any sequence of calls.
use msgbroker.Prelude.{
  ℕ, ◌≡◌, refl, ap, ◌∙◌, Bool, true, false, Option, none, some, List, [], ◌∷◌, ◌++◌, ◌==◌,
  Bool-cases, ◌⊎◌, inl, inr, if◌then◌else◌,
}
use msgbroker.Errno.{Rc, err, is_eagain}
use msgbroker.Memory.Msg.{Msg}
use msgbroker.Core.Pipe.{Answer, yields, refuses, Pipes}
use msgbroker.Utils.Rotor.{Item, Outcome, has, names}
use msgbroker.Utils.Rotor.Last.{Leaves, Comes, rotate-Comes}
use msgbroker.Utils.Lb
use msgbroker.Protocol.Turns.{
  Event, asked, answered, lost, Phase, idle, asking, waiting, answering, asks, asks_back, answers,
  answers_back, passes, Alternates, phase_of, lost-Alternates, told, handed, watch, watch_send,
  watch_recv, run, all_calls,
}
use msgbroker.Protocol.Req.{
  Req, create, add, rm, in_pipe, last_pipe, events, send, sent, recv, received,
}

-- The calls that a socket gets.
pub data Call : Type 0 where
  adds : Bool → ℕ → Call
  rms ins : ℕ → Call
  polls : Call
  sends : Msg → Call
  recvs : Call

-- The pipe that the socket waits for.
abbrev pub owing : Req → Option ℕ
owing s = if s.sending then s.pipe else none

abbrev pub phase : Req → Phase
phase s = phase_of (owing s)

abbrev pub IsReq : Req → Type 0
IsReq s = s.sending ≡ true → (p : ℕ) × (s.pipe ≡ some p)

module _ {W : Type 0} (pipes : Pipes W) where
  -- A request goes out by a send, and its reply comes by a receive.
  abbrev pub watched : Pipes (List Event × W)
  watched = watch answered asked pipes

  abbrev sent_events : Msg → Rc × Req × (List Event × W) → List Event × (Req × W)
  sent_events m (rc, s, v) = (v.0 ++ told m rc, (s, v.1))

  abbrev received_events : Answer Msg × Req × (List Event × W) → List Event × (Req × W)
  received_events (a, s, v) = (v.0 ++ handed a, (s, v.1))

  -- One call, with what is observed of it.
  abbrev pub call : Call → Req × W → List Event × (Req × W)
  call (adds alloc_ok p) (s, w) = ([], ((add alloc_ok p s).1, w))
  call (rms p) (s, w) = (lost p ∷ [], (rm p s, w))
  call (ins p) (s, w) = ([], (in_pipe p s, w))
  call polls (s, w) = let r = events watched s ([], w) in (r.2.0, (r.1, r.2.1))
  call (sends m) (s, w) = sent_events m (send watched m s ([], w))
  call recvs (s, w) = received_events (recv watched s ([], w))

false_ne : false ≡ true → ⊥
false_ne e = cc

pub create-IsReq : IsReq create
create-IsReq e = absurd (false_ne e)

abbrev Good : List Event → Req → Req → Type 0
Good es s s' = Alternates (phase s) es (phase s') × IsReq s'

abbrev req : List Item → Option ℕ → Bool → Req
req lb o on = record { lb = lb; pipe = o; sending = on }

-- A socket that is sending has a pipe.
none_ne : (o : Option ℕ) → o ≡ none → ((p : ℕ) × (o ≡ some p)) → ⊥
none_ne o e (p, f) = cc

add-Good :
    (b : Bool) (p : ℕ) (lb : List Item) (o : Option ℕ) (on : Bool)
    → IsReq (req lb o on)
    → Good [] (req lb o on) (add b p (req lb o on)).1
add-Good false p lb o on g = (refl, g)
add-Good true p lb none false g = (refl, λ e. (p, refl))
add-Good true p lb (some q) false g = (refl, λ e. (q, refl))
add-Good true p lb none true g = absurd (none_ne none refl (g refl))
add-Good true p lb (some q) true g = (refl, λ e. (q, refl))

rm-Good :
    (p : ℕ) (lb : List Item) (o : Option ℕ) (on : Bool)
    → IsReq (req lb o on)
    → Good (lost p ∷ []) (req lb o on) (rm p (req lb o on))
unfolding rm
rm-Good p lb none true g = absurd (none_ne none refl (g refl))
rm-Good p lb none false g = ((idle, passes p, refl), g)
rm-Good p lb (some q) true g =
    let k = lost-Alternates p (some q) in
    elim (Bool-cases (q == p)) [
      | inl e ↦ rw e (rw e at k, λ z. absurd (false_ne z))
      | inr e ↦ rw e (rw e at k, g)
    ]
rm-Good p lb (some q) false g = elim (Bool-cases (q == p)) [
  | inl e ↦ rw e ((idle, passes p, refl), λ z. absurd (false_ne z))
  | inr e ↦ rw e ((idle, passes p, refl), g)
]

in_pipe-Good : (p : ℕ) (s : Req) → IsReq s → Good [] s (in_pipe p s)
unfolding in_pipe
in_pipe-Good p s g = elim (Bool-cases (has p s.lb)) [
  | inl e ↦ simp e (refl, g)
  | inr e ↦ simp e (refl, g)
]

last_of : ℕ → List ℕ → ℕ
last_of d [] = d
last_of d (x ∷ xs) = last_of x xs

last_of-append : (d p : ℕ) (xs : List ℕ) → last_of d (xs ++ p ∷ []) ≡ p
unfolding last_of
last_of-append d p [] = refl
last_of-append d p (x ∷ xs) = last_of-append x p xs

last_of-names : (x : Item) (xs : List Item) → last_pipe x xs ≡ last_of x.pipe (names xs)
unfolding last_of
last_of-names x [] = refl
last_of-names x (y ∷ ys) = last_of-names y ys

snoc_ne : (xs : List ℕ) (p : ℕ) → [] ≡ xs ++ p ∷ [] → ⊥
snoc_ne [] p e = cc
snoc_ne (x ∷ xs) p e = cc

last-snoc :
    (x : Item) (xs : List Item) (l : List ℕ) (p : ℕ)
    → names (x ∷ xs) ≡ l ++ p ∷ []
    → last_pipe x xs ≡ p
unfolding last_of
last-snoc x xs l p e = last_of-names x xs ∙ ap (λ l. last_of 0 l) e ∙ last_of-append 0 p l

module _ {W : Type 0} (pipes : Pipes W) where
  abbrev Still : List Event × W → Type 0
  Still v = v.0 ≡ []

  abbrev Failed : List Event × W → Type 0
  Failed v = (v.0 ≡ []) ⊎ ((p : ℕ) × (v.0 ≡ lost p ∷ []))

  abbrev Took : Msg → ℕ → Unit {0} → List Event × W → Type 0
  Took m p u v = v.0 ≡ asked p m ∷ []

  send-Leaves :
      (m : Msg) (p : ℕ) (es : List Event) (o : Answer (Unit {0}) × W)
      → es ≡ []
      → Leaves ((watched pipes).send m) Still Failed (Took m) p (watch_send answered asked p m es o)
  send-Leaves m p es (yields u, w) h = rw h refl
  send-Leaves m p es (refuses e, w) h = elim (Bool-cases (is_eagain (err e))) [
    | inl q ↦ rw (h, q) ((λ z. refl), inl refl)
    | inr q ↦ rw (h, q) ((λ z. absurd (false_ne z)), inr (p, refl))
  ]

  abbrev GoodCall : Req → List Event × (Req × W) → Type 0
  GoodCall s r = Good r.0 s r.1.0

  sent-Good :
      (m : Msg) (lb : List Item) (o : Option ℕ)
      (r : Outcome (Unit {0}) × List Item × (List Event × W))
      → IsReq (req lb o false)
      → Comes ((watched pipes).send m) Still Failed (Took m) r
      → GoodCall (req lb o false) (sent_events pipes m (sent (watched pipes) (req lb o false) r))
  sent-Good m lb o (yields (p, u), [], v) g (t, (l, e)) = absurd (snoc_ne l p e)
  sent-Good m lb o (yields (p, u), x ∷ xs, v) g (t, (l, e)) =
      rw (t, last-snoc x xs l p e)
        ((asking p m, asks p m, (waiting p, asks_back p m, refl)), λ z. (p, refl))
  sent-Good m lb o (refuses k, items, v) g (inl t) = rw t (refl, g)
  sent-Good m lb o (refuses k, items, v) g (inr (p, t)) = rw t ((idle, passes p, refl), g)

  send-Good :
      (m : Msg) (lb : List Item) (o : Option ℕ) (on : Bool) (w : W)
      → IsReq (req lb o on)
      → GoodCall (req lb o on) (call pipes (sends m) (req lb o on, w))
  unfolding send
  send-Good m lb o true w g = (refl, g)
  send-Good m lb o false w g = sent-Good m lb o (Lb.send (watched pipes) m lb ([], w)) g (
      rotate-Comes ((watched pipes).send m) Still Failed (Took m)
        (λ p v k. send-Leaves m p v.0 (pipes.send m p v.1) k) (λ v k. inl k) lb ([], w) refl)

  received-Good :
      (lb : List Item) (p : ℕ) (a : Answer Msg × W)
      → IsReq (req lb (some p) true)
      → GoodCall (req lb (some p) true) (
          received_events pipes
            (received (watched pipes) (req lb (some p) true) (watch_recv answered asked p [] a)))
  received-Good lb p (yields m, w) g =
      ((answering m, answers p m, (idle, answers_back m, refl)), λ z. absurd (false_ne z))
  received-Good lb p (refuses k, w) g = (refl, g)

  recv-Good :
      (lb : List Item) (o : Option ℕ) (on : Bool) (w : W)
      → IsReq (req lb o on)
      → GoodCall (req lb o on) (call pipes recvs (req lb o on, w))
  unfolding recv
  recv-Good lb none false w g = (refl, g)
  recv-Good lb (some p) false w g = (refl, g)
  recv-Good lb none true w g = absurd (none_ne none refl (g refl))
  recv-Good lb (some p) true w g = received-Good lb p (pipes.recv p w) g

  -- `mb_lb_can_send` sends nothing.
  can_send_silent :
      (lb : List Item) (v : List Event × W) → (Lb.can_send (watched pipes) lb v).2.0 ≡ v.0
  unfolding Lb.can_send
  can_send_silent [] v = refl
  can_send_silent (x ∷ xs) v = go (pipes.can_send x.pipe v.1) (λ w. can_send_silent xs (v.0, w))
    where
      go :
          (a : Bool × W)
          → ((w : W) → (Lb.can_send (watched pipes) xs (v.0, w)).2.0 ≡ v.0)
          → (Lb.asked
              (watched pipes)
              (λ u. Lb.can_send (watched pipes) xs u)
              x
              xs
              (a.0, (v.0, a.1))).2.0
            ≡ v.0
      go (true, w) ih = refl
      go (false, w) ih = ih w

  events-Good :
      (lb : List Item) (o : Option ℕ) (on : Bool) (w : W)
      → IsReq (req lb o on)
      → GoodCall (req lb o on) (call pipes polls (req lb o on, w))
  unfolding events
  events-Good lb none true w g = (refl, g)
  events-Good lb (some p) true w g = (refl, g)
  events-Good lb o false w g = rw (can_send_silent lb ([], w)) (refl, g)

  call-Good : (c : Call) (q : Req × W) → IsReq q.0 → GoodCall q.0 (call pipes c q)
  call-Good (adds b p) (s, w) g = add-Good b p s.lb s.pipe s.sending g
  call-Good (rms p) (s, w) g = rm-Good p s.lb s.pipe s.sending g
  call-Good (ins p) (s, w) g = in_pipe-Good p s g
  call-Good polls (s, w) g = events-Good s.lb s.pipe s.sending w g
  call-Good (sends m) (s, w) g = send-Good m s.lb s.pipe s.sending w g
  call-Good recvs (s, w) g = recv-Good s.lb s.pipe s.sending w g

  -- The pipes are watched: of each it is recorded, outside the socket, which messages it takes and
  -- gives, when it goes away or fails, and which calls of the application return a message or take
  -- one. Over any sequence of calls of a REQ socket, connections coming and going among them, each
  -- request that a pipe takes is returned to its caller as sent, then either the next message that any
  -- pipe gives is its reply, from that same pipe, and is handed to the caller, or that pipe is
  -- lost; no other request goes out before. At the end a reply is due on the pipe that the
  -- socket waits for, and on no other. The socket starts in a state that the code reaches: if it
  -- waits for a reply, it knows from which pipe.
  pub run-Alternates :
      (cs : List Call) (s : Req) (w : W)
      → IsReq s
      → Alternates (phase s) (run (call pipes) cs (s, w)).0 (phase (run (call pipes) cs (s, w)).1.0)
  run-Alternates cs s w g =
      all_calls (call pipes) (λ q. phase q.0) (λ q. IsReq q.0) (λ c q g. call-Good c q g) cs (s, w)
        g
