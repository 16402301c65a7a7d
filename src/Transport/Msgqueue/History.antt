-- ===== src/Transport/Msgqueue/History.antt =====
-- msgqueue.c over time: any sequence of calls from `mb_msgqueue_init` on.
use msgbroker.Prelude.{
  ℕ, ◌+◌, ◌≤◌, ◌<◌, ◌≡◌, sym, ap, ◌∙◌, Bool, true, false, Option, none, some, List, [], ◌∷◌, ◌++◌,
  append_assoc, arith, length, length-append, word64,
}
use msgbroker.Errno.{Rc, ok, err}
use msgbroker.Memory.Msg.{Msg, empty_msg}
use msgbroker.Transport.Msgqueue.{Queue, push, pop, set_maxmem, init, empty, is_nil}
use msgbroker.Transport.Msgqueue.Valid.{IsValid, contents}
use msgbroker.Transport.Msgqueue.Refine.{
  PushStep, full, no_memory, stored, push_refines, PopOutcome, pop_refines, init-IsValid,
  empty-is_nil, set_maxmem-IsValid, fifo_pop,
}

-- One call. A push says whether each of its two allocations succeeds.
pub data Op : Type 0 where
  pushes : Bool → Bool → Msg → Op
  pops : Op
  limits : ℕ → Op

-- The queue, the messages that pushes accepted and the messages that pops handed out, in order.
pub record Run : Type 0 where
  pub queue : Queue
  pub accepted : List Msg
  pub delivered : List Msg

abbrev pub accept : Rc → Msg → List Msg → List Msg
accept (ok n) m xs = xs ++ m ∷ []
accept (err e) m xs = xs

abbrev pub deliver : Bool → Msg → List Msg → List Msg
deliver true m xs = xs
deliver false m xs = xs ++ m ∷ []

-- A pop hands a message out unless `mb_msgqueue_empty` said that there is none.
abbrev after_pop : Run → Option (Queue × Msg) → Option Run
after_pop s none = none
after_pop s (some (q, m)) =
    some (record {
      queue = q;
      accepted = s.accepted;
      delivered = deliver (empty s.queue) m s.delivered;
    })

step : Op → Run → Option Run
step (pushes a b m) s =
    let (rc, q, m') = push a b s.queue m in
    some (record { queue = q; accepted = accept rc m s.accepted; delivered = s.delivered })
step pops s = after_pop s (pop s.queue empty_msg)
step (limits n) s = some (record s { queue = set_maxmem s.queue n })

pub run : List Op → Run → Option Run
run [] s = some s
run (o ∷ os) s = elim (step o s) [ none ↦ none | some s' ↦ run os s' ]

abbrev pub start : ℕ → Run
start maxmem = record { queue = init maxmem; accepted = []; delivered = [] }

record IsFifo (s : Run) : Type 0 where
  fifo_valid : IsValid s.queue
  order : s.accepted ≡ s.delivered ++ contents s.queue

-- The run goes on without a fault, and the queue has grown by at most `n` messages.
abbrev Within : ℕ → Run → Option Run → Type 0
Within n s none = ⊥
Within n s (some t) = IsFifo t × (t.queue.count ≤ s.queue.count + n)

accept_step :
    {room mem_ok : Bool} {xs : List Msg} {m : Msg} {rc : Rc} {ys : List Msg} {m' : Msg}
    (acc del : List Msg)
    → PushStep room mem_ok xs m rc ys m'
    → acc ≡ del ++ xs
    → (accept rc m acc ≡ del ++ ys) × (length ys ≤ length xs + 1)
accept_step acc del (full r) h = (h, omega arith)
accept_step acc del (no_memory r b) h = (h, omega arith)
accept_step {xs = xs} {m = m} acc del (stored r) h = (
  ap (λ t. t ++ m ∷ []) h ∙ append_assoc del xs (m ∷ []),
  omega (arith, length-append xs (m ∷ [])),
)

deliver_step :
    (acc del xs : List Msg) (m : Msg) (ys : List Msg) (m' : Msg)
    → acc ≡ del ++ xs
    → (ys, m') ≡ fifo_pop xs m
    → (acc ≡ deliver (is_nil xs) m' del ++ ys) × (length ys ≤ length xs)
deliver_step acc del [] m ys m' h e =
    (h ∙ ap (λ t. del ++ t) (sym (ap (λ t. t.0) e)), omega (arith, ap (λ t. length t.0) e))
deliver_step acc del (x ∷ xs) m ys m' h e = (
  h ∙ sym (append_assoc del (x ∷ []) xs) ∙ (λ i. (del ++ (sym e i).1 ∷ []) ++ (sym e i).0),
  omega (arith, ap (λ t. length t.0) e),
)

after_pop-Within :
    (s : Run) (o : Option (Queue × Msg))
    → IsFifo s
    → PopOutcome (contents s.queue) empty_msg o
    → Within 1 s (after_pop s o)
after_pop-Within s none f p = p
after_pop-Within s (some (q, m)) f (v, e) = rw (empty-is_nil f.fifo_valid) (
    let d =
      deliver_step s.accepted s.delivered (contents s.queue) empty_msg (contents q) m f.order e in
    (record { fifo_valid = v; order = d.0 }, omega (arith, v.counted, f.fifo_valid.counted, d.1)))

step-Within : (o : Op) (s : Run) → IsFifo s → s.queue.count + 1 < word64 → Within 1 s (step o s)
unfolding step
step-Within (pushes a b m) s f small =
    let (v, p) = push_refines m f.fifo_valid a b small in
    let d = accept_step s.accepted s.delivered p f.order in
    (record { fifo_valid = v; order = d.0 }, omega (arith, v.counted, f.fifo_valid.counted, d.1))
step-Within pops s f small =
    after_pop-Within s (pop s.queue empty_msg) f (pop_refines empty_msg f.fifo_valid)
step-Within (limits n) s f small =
    let (v, e) = set_maxmem-IsValid n f.fifo_valid in
    (
      record { fifo_valid = v; order = f.order ∙ ap (λ t. s.delivered ++ t) (sym e) },
      omega (arith, v.counted, f.fifo_valid.counted, ap length e),
    )

-- The run ended without a fault, and in order.
abbrev pub Fifo : Option Run → Type 0
Fifo none = ⊥
Fifo (some s) = IsValid s.queue × (s.accepted ≡ s.delivered ++ contents s.queue)

run-Fifo_from :
    (os : List Op) (s : Run) → IsFifo s → s.queue.count + length os + 1 < word64 → Fifo (run os s)
unfolding run
run-Fifo_from [] s f h = (f.fifo_valid, f.order)
run-Fifo_from (o ∷ os) s f h = after (run-Fifo_from os) (step o s) (step-Within o s f (omega arith))
  where
    after :
        ((t : Run) → IsFifo t → t.queue.count + length os + 1 < word64 → Fifo (run os t))
        → (r : Option Run) → Within 1 s r
        → Fifo (elim r [ none ↦ none | some t ↦ run os t ])
    after rest none w = w
    after rest (some t) w = rest t w.0 (omega arith)

-- Any sequence of fewer than 2^64 - 1 pushes, pops and changes of the limit on a new queue runs
-- without a fault, whatever allocations fail, and at its end the messages accepted are those
-- delivered followed by those still queued: none is lost, repeated or reordered.
pub run-Fifo : (maxmem : ℕ) (os : List Op) → length os + 1 < word64 → Fifo (run os (start maxmem))
run-Fifo maxmem os h =
    let i = init-IsValid maxmem in
    run-Fifo_from os (start maxmem) (record { fifo_valid = i.0; order = sym i.1 })
      (omega (arith, i.0.counted, ap length i.1))
