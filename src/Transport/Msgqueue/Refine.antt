-- ===== src/Transport/Msgqueue/Refine.antt =====
-- msgqueue.c: push and pop implement a first-in first-out queue with a limit.
use msgbroker.Prelude.{
  ℕ, ◌+◌, ◌<◌, ◌≡◌, refl, ap, ◌∙◌, ◌≢◌, Bool, true, false, ◌||◌, Option, none, some, List, [], ◌∷◌,
  ◌++◌, arith, length, set, get_or, inl, inr, if◌then◌else◌, ltb, ◌==◌, Bool-cases, word64,
}
use native.Mathlib.Decide.{ℕ_discrete}
use msgbroker.Errno.{Rc, ok, err, eagain, enomem}
use msgbroker.Memory.Msg.{Msg, empty_msg, body_size}
use msgbroker.Transport.Msgqueue.{
  Queue, Chunk, granularity, is_nil, settle, fits, writable, prepare, store, take_out, push, pop,
  link_first, alloc_chunk, set_maxmem, init, charge, can_push_sz, empty,
}
use msgbroker.Transport.Msgqueue.Live.{live}
use msgbroker.Transport.Msgqueue.Valid.{
  IsValid, IsReady, Same, contents, Writable, writable-Writable, prepare-IsValid, store-IsValid,
  settle-IsValid, take_out-IsMoved, advance-IsValid,
}

-- The specification of a pop: the oldest message leaves, and an empty queue does nothing.
abbrev pub fifo_pop : List Msg → Msg → List Msg × Msg
fifo_pop [] m = ([], m)
fifo_pop (x ∷ xs) m = (xs, x)

-- The specification of a push: refused for want of room, refused for want of memory, or done. The
-- code 1 says that the queue was empty.
pub data PushStep (room mem_ok : Bool) (xs : List Msg) (m : Msg)
    : Rc → List Msg → Msg → Type 0 where
  full : room ≡ false → PushStep room mem_ok xs m (err eagain) xs m
  no_memory : room ≡ true → mem_ok ≡ false → PushStep room mem_ok xs m (err enomem) xs m
  stored :
      room ≡ true
      → PushStep room mem_ok xs m (ok (if is_nil xs then 1 else 0)) (xs ++ m ∷ []) empty_msg

-- A queue is empty when its counter is 0.
count_is_nil : (n : ℕ) (xs : List Msg) → n ≡ length xs → (n == 0) ≡ is_nil xs
count_is_nil n [] h = ground arith
count_is_nil n (x ∷ xs) h = ground arith

link_first_mem : (q : Queue) (cache : Option Chunk) → link_first q (alloc_chunk true cache) ≢ none
link_first_mem q none e = cc
link_first_mem q (some c) e = cc

pub empty-is_nil : {q : Queue} → IsValid q → empty q ≡ is_nil (contents q)
unfolding empty
empty-is_nil {q} v = count_is_nil q.count (contents q) v.counted

-- With memory at hand a slot is found.
writable_mem : (b : Bool) (q : Queue) → writable b q ≡ none → b ≡ false
unfolding writable
writable_mem false q e = refl
writable_mem true q e = elim (Bool-cases (is_nil q.chunks || q.out_pos == granularity)) [
  | inl t ↦ absurd (link_first_mem q q.cache (rw t at e))
  | inr t ↦ absurd (some_ne (rw t at e))
]
  where
    some_ne : some q ≢ none
    some_ne p = cc

-- What a push must give: a well-formed queue, whose contents follow the specification.
abbrev pub PushOutcome : Bool → Queue → Msg → Bool → Rc × Queue × Msg → Type 0
PushOutcome mem_ok q m room (rc, q', m') =
    IsValid q' × PushStep room mem_ok (contents q) m rc (contents q') m'

module _ {q : Queue} (m : Msg) (v : IsValid q) where
  pub pushed-IsValid :
      (eager_ok : Bool) (sz : ℕ) (q1 : Queue)
      → IsReady q1 × Same q q1
      → q.count + 1 < word64
      → IsValid (prepare eager_ok (settle (store q1 sz m)))
        × (contents (prepare eager_ok (settle (store q1 sz m))) ≡ contents q ++ m ∷ [])
  pushed-IsValid eager_ok sz q1 (r, s) small =
      let st = store-IsValid sz m r (omega (arith, s.same_count)) in
      let se = settle-IsValid st.0 in
      let p = prepare-IsValid se.0 eager_ok in
      (p.0, p.1.same_contents ∙ se.1 ∙ st.1 ∙ ap (λ t. t ++ m ∷ []) s.same_contents)

  stored_step :
      (mem_ok eager_ok : Bool) (sz : ℕ) (found : Option Queue)
      → Writable q found
      → (found ≡ none → mem_ok ≡ false)
      → q.count + 1 < word64
      → PushOutcome mem_ok q m true (elim found [
        | none ↦ (err enomem, q, m)
        | some q1 ↦ (
          ok (if q.count == 0 then 1 else 0),
          prepare eager_ok (settle (store q1 sz m)),
          empty_msg,
        )
      ])
  stored_step mem_ok eager_ok sz none w o small = (v, no_memory refl (o refl))
  stored_step mem_ok eager_ok sz (some q1) w o small =
      let p = pushed-IsValid eager_ok sz q1 w small in
      (p.0, rw (p.1, count_is_nil q.count (contents q) v.counted) (stored refl))

  pending-IsValid : (sz : ℕ) → IsValid (record q { pending_sz = sz })
  pending-IsValid sz = record {
    full = v.full;
    cursors = v.cursors;
    in_lt = v.in_lt;
    out_le = v.out_le;
    counted = v.counted;
    bounded = v.bounded;
    cached = v.cached;
  }

  refused_step :
      (mem_ok b : Bool) (sz : ℕ)
      → PushOutcome mem_ok q m false
          (err eagain, (if b then record q { pending_sz = sz } else q), m)
  refused_step mem_ok true sz = (pending-IsValid sz, full refl)
  refused_step mem_ok false sz = (v, full refl)

  -- On a well-formed queue of fewer than 2^64 - 1 messages, a push returns -EAGAIN exactly when the
  -- charge of the message does not fit the limit, -ENOMEM only when `mb_alloc` fails, and leaves
  -- the contents and the caller's message alone in both cases; otherwise it appends the message,
  -- empties the caller's, and returns 1 exactly when the queue was empty. The queue stays well
  -- formed.
  pub push_refines :
      (mem_ok eager_ok : Bool)
      → q.count + 1 < word64
      → PushOutcome mem_ok q m (can_push_sz q (body_size m)) (push mem_ok eager_ok q m)
  unfolding push can_push_sz
  push_refines mem_ok eager_ok small = elim (Bool-cases (fits q (charge q.maxmem (body_size m)))) [
    | inl e ↦ rw e (
        stored_step mem_ok eager_ok (charge q.maxmem (body_size m)) (writable mem_ok q)
          (writable-Writable v mem_ok) (writable_mem mem_ok q) small)
    | inr e ↦ rw e (refused_step mem_ok (ltb 0 q.maxmem) (charge q.maxmem (body_size m)))
  ]

-- What a pop must give: no fault, a well-formed queue, and the step of the specification.
abbrev pub PopOutcome : List Msg → Msg → Option (Queue × Msg) → Type 0
PopOutcome xs m none = ⊥
PopOutcome xs m (some (q', m')) = IsValid q' × ((contents q', m') ≡ fifo_pop xs m)

fifo_pop_nil : (n : ℕ) (xs : List Msg) (m : Msg) → n ≡ length xs → n ≡ 0 → (xs, m) ≡ fifo_pop xs m
fifo_pop_nil n [] m h e = refl
fifo_pop_nil n (x ∷ xs) m h e = absurd (omega arith)

pub ==_ne : (a b : ℕ) → a ≢ b → (a == b) ≡ false
==_ne a b h = ground arith

pop_filled :
    (q : Queue) (cs : List Chunk) (m : Msg)
    → IsValid (record q { chunks = cs })
    → q.count ≢ 0
    → PopOutcome (live q.in_pos q.out_pos cs) m (pop (record q { chunks = cs }) m)
unfolding pop
pop_filled q [] m v nz = absurd (nz v.counted)
pop_filled q (c ∷ cs) m v nz =
    let t = take_out-IsMoved (record q { chunks = c ∷ cs }) c cs v nz in
    let a =
      advance-IsValid (take_out (record q { chunks = c ∷ cs }) c cs) (set c q.in_pos empty_msg) cs
        t.0 in
    let s = settle-IsValid a.0 in
    rw (==_ne q.count 0 nz) (s.0, rw t.1 (ap (λ t. (t, get_or c q.in_pos empty_msg)) (s.1 ∙ a.1)))

pop_chunks :
    (q : Queue) (cs : List Chunk) (m : Msg)
    → IsValid (record q { chunks = cs })
    → PopOutcome (live q.in_pos q.out_pos cs) m (pop (record q { chunks = cs }) m)
unfolding pop
pop_chunks q cs m v = elim (ℕ_discrete q.count 0) [
  | yes e ↦
      rw (==_refl q.count 0 e) (v, fifo_pop_nil q.count (live q.in_pos q.out_pos cs) m v.counted e)
  | no e ↦ pop_filled q cs m v e
]
  where
    ==_refl : (a b : ℕ) → a ≡ b → (a == b) ≡ true
    ==_refl a b h = ground arith

-- On a well-formed queue a pop never reads through a NULL chunk: it hands out the oldest message
-- and leaves the others in order, or changes nothing if the queue is empty. The queue stays well
-- formed.
pub pop_refines : {q : Queue} (m : Msg) → IsValid q → PopOutcome (contents q) m (pop q m)
pop_refines {q} m v = pop_chunks q q.chunks m v

pub init-IsValid : (maxmem : ℕ) → IsValid (init maxmem) × (contents (init maxmem) ≡ [])
unfolding init
init-IsValid maxmem = (
  record {
    full = tt;
    cursors = (refl, refl);
    in_lt = omega arith;
    out_le = omega arith;
    counted = refl;
    bounded = omega arith;
    cached = tt;
  },
  refl,
)

pub set_maxmem-IsValid :
    {q : Queue} (n : ℕ)
    → IsValid q
    → IsValid (set_maxmem q n) × (contents (set_maxmem q n) ≡ contents q)
unfolding set_maxmem
set_maxmem-IsValid {q} n v = settle-IsValid {q = record q { maxmem = n }} (record {
  full = v.full;
  cursors = v.cursors;
  in_lt = v.in_lt;
  out_le = v.out_le;
  counted = v.counted;
  bounded = v.bounded;
  cached = v.cached;
})
