-- ===== src/Transport/Msgqueue/Cap.antt =====
-- msgqueue.c: the bytes charged against the limit (`mem`, `maxmem`, `pending_sz`).
use msgbroker.Prelude.{
  ℕ, ◌+◌, ◌-◌, ◌%◌, ◌≤◌, ◌<◌, ◌≡◌, refl, sym, ap, ◌∙◌, ◌≢◌, Bool, true, false, not, ◌&&◌, ◌||◌,
  Option, none, some, List, [], ◌∷◌, ◌++◌, arith, set, get_or, All, All-append, inl, inr,
  if◌then◌else◌, ltb, leb, ◌==◌, Bool-cases, word64, add64,
}
use native.Mathlib.Decide.{ℕ_discrete}
use msgbroker.Errno.{Rc, ok, err, eagain, enomem}
use msgbroker.Memory.Msg.{Msg, empty_msg, body_size}
use msgbroker.Transport.Msgqueue.{
  Queue, Chunk, granularity, is_nil, settle, fits, writable, prepare, store, take_out, advance,
  push, pop, set_maxmem, charge, can_push_sz, can_push,
}
use msgbroker.Transport.Msgqueue.Live.{live}
use msgbroker.Transport.Msgqueue.Valid.{
  IsValid, IsReady, Same, contents, Writable, writable-Writable, prepare-IsValid, store-IsValid,
  settle-IsValid, take_out-IsMoved, advance-IsValid,
}
use msgbroker.Transport.Msgqueue.Refine.{pushed-IsValid, ==_ne}

-- The charges of all messages queued.
abbrev pub total : ℕ → List Msg → ℕ
total maxmem [] = 0
total maxmem (m ∷ ms) = charge maxmem (body_size m) + total maxmem ms

total-append :
    (k : ℕ) (xs : List Msg) (m : Msg) → total k (xs ++ m ∷ []) ≡ total k xs + charge k (body_size m)
total-append k [] m = omega arith
total-append k (x ∷ xs) m = omega (arith, total-append k xs m)

-- Every body has a `size_t` size.
abbrev pub Sized : List Msg → Type 0
Sized = All (λ m. body_size m < word64)

-- `mem` is the sum of the charges as a `size_t`, and under a limit the sum is within it.
pub record IsAccounted (q : Queue) : Type 0 where
  pub sized : Sized (contents q)
  pub exact : q.mem ≡ total q.maxmem (contents q) % word64
  pub within : 0 < q.maxmem → total q.maxmem (contents q) ≤ q.maxmem
  pub limit : q.maxmem < word64

mem-settle : (q : Queue) → ((settle q).mem ≡ q.mem) × ((settle q).maxmem ≡ q.maxmem)
mem-settle q = elim (Bool-cases (not (q.pending_sz == 0) && fits q q.pending_sz)) [
  | inl e ↦ rw e (refl, refl)
  | inr e ↦ rw e (refl, refl)
]

mem-advance :
    (q : Queue) (cs : List Chunk)
    → ((advance (record q { chunks = cs })).mem ≡ q.mem)
      × ((advance (record q { chunks = cs })).maxmem ≡ q.maxmem)
unfolding advance
mem-advance q [] = (refl, refl)
mem-advance q (c ∷ cs) =
    elim (Bool-cases ((q.in_pos == granularity) || is_nil cs && (q.in_pos == q.out_pos))) [
      | inl e ↦ rw e (refl, refl)
      | inr e ↦ rw e (refl, refl)
    ]

-- The account after a message is added.
IsAccounted-added :
    (q r : Queue) (m : Msg)
    → IsAccounted q
    → fits q (charge q.maxmem (body_size m)) ≡ true
    → body_size m < word64
    → contents r ≡ contents q ++ m ∷ []
    → r.mem ≡ add64 q.mem (charge q.maxmem (body_size m))
    → r.maxmem ≡ q.maxmem
    → IsAccounted r
IsAccounted-added q r m a f small ec em ek = record {
  sized = rw ec (All-append (λ x. body_size x < word64) (contents q) (m ∷ []) a.sized (small, tt));
  exact = rw (ek, em, ec, total-append q.maxmem (contents q) m) (omega (arith, a.exact));
  within = rw (ek, ec, total-append q.maxmem (contents q) m) (λ p. fits_within p);
  limit = rw ek a.limit;
}
  where
    bound :
        (k mem sz t : ℕ)
        → ((k == 0) || leb sz k && leb mem (k - sz)) ≡ true
        → 0 < k
        → mem ≡ t
        → t + sz ≤ k
    bound k mem sz t e p q = ground arith

    fits_within :
        0 < q.maxmem → total q.maxmem (contents q) + charge q.maxmem (body_size m) ≤ q.maxmem
    fits_within p =
        bound q.maxmem q.mem (charge q.maxmem (body_size m)) (total q.maxmem (contents q)) f p
          (omega (arith, a.exact, a.within p, a.limit))

module _ {q : Queue} (m : Msg) (v : IsValid q) (a : IsAccounted q) where
  mem-pushed :
      (eager_ok : Bool) (sz : ℕ) (q1 : Queue)
      → IsReady q1 × Same q q1
      → q.count + 1 < word64
      → ((prepare eager_ok (settle (store q1 sz m))).mem ≡ add64 q.mem sz)
        × ((prepare eager_ok (settle (store q1 sz m))).maxmem ≡ q.maxmem)
  unfolding store
  mem-pushed eager_ok sz q1 (r, s) small =
      let st = store-IsValid sz m r (omega (arith, s.same_count)) in
      let p = prepare-IsValid (settle-IsValid st.0).0 eager_ok in
      let l = mem-settle (store q1 sz m) in
      (p.1.same_mem ∙ l.0 ∙ ap (λ t. add64 t sz) s.same_mem, p.1.same_maxmem ∙ l.1 ∙ s.same_maxmem)

  pending-IsAccounted :
      (b : Bool) (sz : ℕ) → IsAccounted (if b then record q { pending_sz = sz } else q)
  pending-IsAccounted true sz = record {
    sized = a.sized;
    exact = a.exact;
    within = a.within;
    limit = a.limit;
  }
  pending-IsAccounted false sz = a

  found-IsAccounted :
      (eager_ok : Bool) (found : Option Queue)
      → Writable q found
      → fits q (charge q.maxmem (body_size m)) ≡ true
      → q.count + 1 < word64
      → body_size m < word64
      → IsAccounted
          (elim found as (λ f. Rc × Queue × Msg) [
            | none ↦ (err enomem, q, m)
            | some q1 ↦ (
              ok (if q.count == 0 then 1 else 0),
              prepare eager_ok (settle (store q1 (charge q.maxmem (body_size m)) m)),
              empty_msg,
            )
          ]).1
  found-IsAccounted eager_ok none w f small size = a
  found-IsAccounted eager_ok (some q1) w f small size =
      let sz = charge q.maxmem (body_size m) in
      let l = mem-pushed eager_ok sz q1 w small in
      IsAccounted-added q (prepare eager_ok (settle (store q1 sz m))) m a f size
        (pushed-IsValid m v eager_ok sz q1 w small).1 l.0 l.1

  -- A push, on every branch, keeps `mem` equal to the sum of the charges of the messages queued, and
  -- under a limit keeps that sum within it, if the queue is well formed and the body's size is a
  -- `size_t`.
  pub push-IsAccounted :
      (mem_ok eager_ok : Bool)
      → q.count + 1 < word64
      → body_size m < word64
      → IsAccounted (push mem_ok eager_ok q m).1
  unfolding push
  push-IsAccounted mem_ok eager_ok small size =
      elim (Bool-cases (fits q (charge q.maxmem (body_size m)))) [
        | inl e ↦ rw e (
            found-IsAccounted eager_ok (writable mem_ok q) (writable-Writable v mem_ok) e small
              size)
        | inr e ↦ rw e (pending-IsAccounted (ltb 0 q.maxmem) (charge q.maxmem (body_size m)))
      ]

charge-lt : (k sz : ℕ) → sz < word64 → charge k sz < word64
charge-lt k sz h = ground arith

abbrev pub PopAccounted : Option (Queue × Msg) → Type 0
PopAccounted none = ⊥
PopAccounted (some (q, m)) = IsAccounted q

mem-take_out :
    (q : Queue) (c : Chunk) (cs : List Chunk)
    → IsAccounted (record q { chunks = c ∷ cs })
    → live q.in_pos q.out_pos (c ∷ cs) ≡ get_or c q.in_pos empty_msg ∷ contents (take_out q c cs)
    → IsAccounted (take_out q c cs)
unfolding take_out
mem-take_out q c cs a e = record {
  sized = (rw e at a.sized).1;
  exact = omega (
    arith,
    a.exact,
    ap (total q.maxmem) e,
    (rw e at a.sized).0,
    charge-lt q.maxmem (body_size (get_or c q.in_pos empty_msg)),
  );
  within = λ p. omega (arith, a.within p, ap (total q.maxmem) e);
  limit = a.limit;
}

IsAccounted-kept :
    (q r : Queue)
    → IsAccounted q
    → contents r ≡ contents q
    → (r.mem ≡ q.mem) × (r.maxmem ≡ q.maxmem)
    → IsAccounted r
IsAccounted-kept q r a e l = record {
  sized = rw e a.sized;
  exact = rw (e, l.0, l.1) a.exact;
  within = rw (e, l.1) a.within;
  limit = rw l.1 a.limit;
}

pop_filled-IsAccounted :
    (q : Queue) (cs : List Chunk) (m : Msg)
    → IsValid (record q { chunks = cs })
    → IsAccounted (record q { chunks = cs })
    → q.count ≢ 0
    → PopAccounted (pop (record q { chunks = cs }) m)
unfolding pop
pop_filled-IsAccounted q [] m v a nz = absurd (nz v.counted)
pop_filled-IsAccounted q (c ∷ cs) m v a nz =
    let r = take_out (record q { chunks = c ∷ cs }) c cs in
    let t = take_out-IsMoved (record q { chunks = c ∷ cs }) c cs v nz in
    let d = advance-IsValid r (set c q.in_pos empty_msg) cs t.0 in
    rw (==_ne q.count 0 nz) (
      IsAccounted-kept (advance r) (settle (advance r))
        (IsAccounted-kept r (advance r) (mem-take_out (record q { chunks = c ∷ cs }) c cs a t.1) d.1
          (mem-advance r (set c q.in_pos empty_msg ∷ cs)))
        (settle-IsValid d.0).1 (mem-settle (advance r)))

-- A pop from a well-formed queue takes exactly the charge of the message handed out off `mem`, so
-- that `mem` stays the sum of the charges of the messages queued, and within the limit.
pub pop-IsAccounted : {q : Queue} (m : Msg) → IsValid q → IsAccounted q → PopAccounted (pop q m)
unfolding pop
pop-IsAccounted {q} m v a = elim (ℕ_discrete q.count 0) [
  | yes e ↦ rw (==_eq q.count 0 e) a
  | no e ↦ pop_filled-IsAccounted q q.chunks m v a e
]
  where
    ==_eq : (a b : ℕ) → a ≡ b → (a == b) ≡ true
    ==_eq a b h = ground arith

can_push-settle : (q : Queue) → 0 < q.pending_sz → can_push (settle q) ≡ fits q q.pending_sz
unfolding can_push
can_push-settle q h = elim (Bool-cases (fits q q.pending_sz)) [
  | inl e ↦ rw (pos q.pending_sz h, e) (fits_one q.maxmem q.mem q.pending_sz h e)
  | inr e ↦ rw (pos q.pending_sz h, e) (rw (pos q.pending_sz h, e) refl)
]
  where
    pos : (n : ℕ) → 0 < n → (n == 0) ≡ false
    pos n p = ground arith

    fits_one :
        (k mem sz : ℕ)
        → 0 < sz
        → ((k == 0) || leb sz k && leb mem (k - sz)) ≡ true
        → ((k == 0) || leb 1 k && leb mem (k - 1)) ≡ true
    fits_one k mem sz p e = ground arith

refused_limit :
    (k mem sz : ℕ) → ((k == 0) || leb sz k && leb mem (k - sz)) ≡ false → (0 < k) × (ltb 0 k ≡ true)
refused_limit k mem sz e = ground arith

charge_capped : (k n sz : ℕ) → 0 < k → 0 < n → (charge k sz ≡ charge n sz) × (0 < charge k sz)
charge_capped k n sz h p = ground arith

pub push-refused :
    (mem_ok eager_ok : Bool) (q : Queue) (m : Msg)
    → can_push_sz q (body_size m) ≡ false
    → push mem_ok eager_ok q m
      ≡ (err eagain, record q { pending_sz = charge q.maxmem (body_size m) }, m)
unfolding push can_push_sz
push-refused mem_ok eager_ok q m h =
    rw (h, (refused_limit q.maxmem q.mem (charge q.maxmem (body_size m)) h).1)

fits-settle : (q : Queue) (sz : ℕ) → fits (settle q) sz ≡ fits q sz
fits-settle q sz = rw ((mem-settle q).0, (mem-settle q).1)

-- After a refused push the queue reports no room, and once the limit has been changed to any other
-- limit it reports room exactly when the refused message would now fit.
pub can_push-refused :
    (mem_ok eager_ok : Bool) (q : Queue) (m : Msg) (n : ℕ)
    → can_push_sz q (body_size m) ≡ false
    → 0 < n
    → let q' = (push mem_ok eager_ok q m).1 in
      (can_push q' ≡ false)
      × (can_push (set_maxmem q' n) ≡ can_push_sz (set_maxmem q' n) (body_size m))
unfolding set_maxmem can_push_sz can_push
can_push-refused mem_ok eager_ok q m n h p =
    let k : 0 < q.maxmem = (refused_limit q.maxmem q.mem (charge q.maxmem (body_size m)) h).0 in
    let c = charge_capped q.maxmem n (body_size m) k p in
    let r : Queue = record q { pending_sz = charge q.maxmem (body_size m); maxmem = n } in
    rw (push-refused mem_ok eager_ok q m h) (
      refused (charge q.maxmem (body_size m)) c.1 h,
      can_push-settle r c.1
          ∙ ap (fits r) c.0
          ∙ ap (λ t. fits r (charge t (body_size m))) (sym (mem-settle r).1)
          ∙ sym (fits-settle r (charge (settle r).maxmem (body_size m))),
    )
  where
    refused :
        (sz : ℕ)
        → 0 < sz
        → fits q sz ≡ false
        → (if not (sz == 0) then fits q sz else fits q 1) ≡ false
    refused sz p e = ground arith
