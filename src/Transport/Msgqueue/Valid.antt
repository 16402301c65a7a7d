-- ===== src/Transport/Msgqueue/Valid.antt =====
-- msgqueue.c: when a queue is well formed, and that every function keeps it so.
use msgbroker.Prelude.{
  ℕ, zero, suc, ◌+◌, ◌≤◌, ◌<◌, ◌≡◌, refl, sym, ap, ◌∙◌, ◌≢◌, Bool, true, false, not, ◌&&◌, ◌||◌,
  Option, none, some, List, [], ◌∷◌, ◌++◌, arith, length, set, get_or, take, drop_all, length-take,
  All, All-append, inl, inr, if◌then◌else◌, ◌==◌, length-append, length-set, length-replicate,
  Bool-cases, word64,
}
use native.Mathlib.Decide.{dec_lt}
use msgbroker.Memory.Msg.{Msg, empty_msg}
use msgbroker.Transport.Msgqueue.{
  Queue, Chunk, granularity, write_last, is_nil, settle, fits, writable, prepare, store,
  alloc_chunk, link, link_first, link_next, take_out, advance,
}
use msgbroker.Transport.Msgqueue.Live.{
  live, Full, Cursors, live-write_last, live-link, live-take_out, live-advance,
}

-- The messages queued, oldest first.
abbrev pub contents : Queue → List Msg
contents q = live q.in_pos q.out_pos q.chunks

abbrev pub CacheFull : Option Chunk → Type 0
CacheFull none = Unit
CacheFull (some c) = Full c

pub record IsValid (q : Queue) : Type 0 where
  pub full : All Full q.chunks
  pub cursors : Cursors q.in_pos q.out_pos q.chunks
  pub in_lt : q.in_pos < granularity
  pub out_le : q.out_pos ≤ granularity
  pub counted : q.count ≡ length (contents q)
  pub bounded : q.count < word64
  pub cached : CacheFull q.cache

-- A queue with a slot to write.
pub record IsReady (q : Queue) : Type 0 where
  pub valid : IsValid q
  pub slot : q.out_pos < granularity
  pub chunk : q.chunks ≢ []

-- What `writable` and `prepare` leave alone.
pub record Same (q r : Queue) : Type 0 where
  pub same_contents : contents r ≡ contents q
  pub same_count : r.count ≡ q.count
  pub same_mem : r.mem ≡ q.mem
  pub same_maxmem : r.maxmem ≡ q.maxmem
  pub same_pending : r.pending_sz ≡ q.pending_sz

pub Same-refl : (q : Queue) → Same q q
Same-refl q = record {
  same_contents = refl;
  same_count = refl;
  same_mem = refl;
  same_maxmem = refl;
  same_pending = refl;
}

append-ne-nil : (cs : List Chunk) (n : Chunk) → cs ++ n ∷ [] ≢ []
append-ne-nil [] n e = cc
append-ne-nil (c ∷ cs) n e = cc

Cursors-link : (i o : ℕ) (cs : List Chunk) (n : Chunk) → Cursors i o cs → Cursors i 0 (cs ++ n ∷ [])
Cursors-link i o [] n h = omega arith
Cursors-link i o (c ∷ []) n h = tt
Cursors-link i o (c ∷ d ∷ cs) n h = tt

live-link_nil : (i : ℕ) (n : Chunk) → i ≡ 0 → live i 0 ([] ++ n ∷ []) ≡ []
live-link_nil zero n h = refl
live-link_nil (suc i) n h = absurd (omega arith)

-- The contents stay when a chunk is linked to an empty chain, or to one written to its end.
contents-link :
    (i o : ℕ) (cs : List Chunk) (n : Chunk)
    → All Full cs
    → Cursors i o cs
    → (is_nil cs || o == granularity) ≡ true
    → live i 0 (cs ++ n ∷ []) ≡ live i o cs
contents-link i o [] n f c h = live-link_nil i n c.0
contents-link i o (c ∷ cs) n f k h =
    live-link i (c ∷ cs) n f (cc) ∙ ap (λ t. live i t (c ∷ cs)) (sym (==_to o granularity h))
  where
    ==_to : (a b : ℕ) → (a == b) ≡ true → a ≡ b
    ==_to a b e = ground arith

module _ {q : Queue} (v : IsValid q) where
  link-IsReady :
      (n : Chunk) (cache : Option Chunk)
      → Full n
      → CacheFull cache
      → (is_nil q.chunks || q.out_pos == granularity) ≡ true
      → IsReady (link q n cache) × Same q (link q n cache)
  link-IsReady n cache fn fc h =
      let e : live q.in_pos 0 (q.chunks ++ n ∷ []) ≡ contents q =
        contents-link q.in_pos q.out_pos q.chunks n v.full v.cursors h in
      (
        record {
          valid = record {
            full = All-append Full q.chunks (n ∷ []) v.full (fn, tt);
            cursors = Cursors-link q.in_pos q.out_pos q.chunks n v.cursors;
            in_lt = v.in_lt;
            out_le = omega arith;
            counted = v.counted ∙ ap length (sym e);
            bounded = v.bounded;
            cached = fc;
          };
          slot = omega arith;
          chunk = append-ne-nil q.chunks n;
        },
        record {
          same_contents = e;
          same_count = refl;
          same_mem = refl;
          same_maxmem = refl;
          same_pending = refl;
        },
      )

-- What `alloc_chunk` hands out is a whole chunk, and so is what it leaves in the cache.
abbrev Got : Option Chunk × Option Chunk → Type 0
Got (none, cache) = CacheFull cache
Got (some c, cache) = Full c × CacheFull cache

alloc_chunk-Got : (b : Bool) (cache : Option Chunk) → CacheFull cache → Got (alloc_chunk b cache)
alloc_chunk-Got b (some d) h = (h, tt)
alloc_chunk-Got true none h = (length-replicate granularity empty_msg, tt)
alloc_chunk-Got false none h = tt

-- The queue that `writable` hands on, if any.
abbrev pub Writable : Queue → Option Queue → Type 0
Writable q none = Unit
Writable q (some r) = IsReady r × Same q r

in_pos_first : (i o : ℕ) (cs : List Chunk) → Cursors i o cs → (if is_nil cs then 0 else i) ≡ i
in_pos_first i o [] h = sym h.0
in_pos_first i o (c ∷ cs) h = refl

is_nil-false : (cs : List Chunk) (b : Bool) → (is_nil cs || b) ≡ false → cs ≢ []
is_nil-false [] b e p = cc
is_nil-false (c ∷ cs) b e p = cc

module _ {q : Queue} (v : IsValid q) where
  link_first-Writable :
      (p : Option Chunk × Option Chunk)
      → Got p
      → (is_nil q.chunks || q.out_pos == granularity) ≡ true
      → Writable q (link_first q p)
  link_first-Writable (none, cache) g h = tt
  link_first-Writable (some c, cache) g h =
      rw (in_pos_first q.in_pos q.out_pos q.chunks v.cursors) (link-IsReady v c cache g.0 g.1 h)

  pub writable-Writable : (b : Bool) → Writable q (writable b q)
  unfolding writable
  writable-Writable b = elim (Bool-cases (is_nil q.chunks || q.out_pos == granularity)) [
    | inl e ↦
        rw e (link_first-Writable (alloc_chunk b q.cache) (alloc_chunk-Got b q.cache v.cached) e)
    | inr e ↦ rw e (
      record {
        valid = v;
        slot = ground (arith, v.out_le);
        chunk = λ p. is_nil-false q.chunks (q.out_pos == granularity) e p;
      },
      Same-refl q,
    )
  ]

  link_next-IsValid :
      (p : Option Chunk × Option Chunk)
      → Got p
      → q.out_pos ≡ granularity
      → IsValid (link_next q p) × Same q (link_next q p)
  link_next-IsValid (none, cache) g h = (v, Same-refl q)
  link_next-IsValid (some c, cache) g h =
      let r = link-IsReady v c cache g.0 g.1 (ground arith) in (r.0.valid, r.1)

  pub prepare-IsValid : (b : Bool) → IsValid (prepare b q) × Same q (prepare b q)
  unfolding prepare
  prepare-IsValid b = elim (Bool-cases (q.out_pos == granularity)) [
    | inl e ↦ rw e (
        link_next-IsValid (alloc_chunk b q.cache) (alloc_chunk-Got b q.cache v.cached)
          (ground arith))
    | inr e ↦ rw e (v, Same-refl q)
  ]

write_last-Full : (cs : List Chunk) (i : ℕ) (m : Msg) → All Full cs → All Full (write_last cs i m)
write_last-Full [] i m f = tt
write_last-Full (c ∷ []) i m f = (length-set c i m ∙ f.0, tt)
write_last-Full (c ∷ d ∷ cs) i m f = (f.0, write_last-Full (d ∷ cs) i m f.1)

Cursors-write_last :
    (i o : ℕ) (cs : List Chunk) (m : Msg)
    → Cursors i o cs
    → cs ≢ []
    → Cursors i (o + 1) (write_last cs o m)
Cursors-write_last i o [] m h ne = absurd (ne refl)
Cursors-write_last i o (c ∷ []) m h ne = omega arith
Cursors-write_last i o (c ∷ d ∷ []) m h ne = tt
Cursors-write_last i o (c ∷ d ∷ e ∷ cs) m h ne = tt

-- A message stored is the last of the contents.
pub store-IsValid :
    {q : Queue} (sz : ℕ) (m : Msg)
    → IsReady q
    → q.count + 1 < word64
    → IsValid (store q sz m) × (contents (store q sz m) ≡ contents q ++ m ∷ [])
unfolding store
store-IsValid {q} sz m r small = (
  record {
    full = write_last-Full q.chunks q.out_pos m v.full;
    cursors = Cursors-write_last q.in_pos q.out_pos q.chunks m v.cursors r.chunk;
    in_lt = v.in_lt;
    out_le = omega (arith, r.slot);
    counted = omega (arith, v.counted, length-append (contents q) (m ∷ []), ap length grown);
    bounded = omega arith;
    cached = v.cached;
  },
  grown,
)
  where
    open r use {valid as v}

    grown : contents (store q sz m) ≡ contents q ++ m ∷ []
    grown =
        ap (λ t. live q.in_pos t (write_last q.chunks q.out_pos m)) (omega arith)
        ∙ live-write_last q.in_pos q.out_pos q.chunks m v.full v.cursors r.slot r.chunk

pub settle-IsValid :
    {q : Queue} → IsValid q → IsValid (settle q) × (contents (settle q) ≡ contents q)
settle-IsValid {q} v = elim (Bool-cases (not (q.pending_sz == 0) && fits q q.pending_sz)) [
  | inl e ↦ rw e (
    record {
      full = v.full;
      cursors = v.cursors;
      in_lt = v.in_lt;
      out_le = v.out_le;
      counted = v.counted;
      bounded = v.bounded;
      cached = v.cached;
    },
    refl,
  )
  | inr e ↦ rw e (v, refl)
]

Cursors-take_out :
    (i o : ℕ) (c : Chunk) (cs : List Chunk) (d : Chunk)
    → Cursors i o (c ∷ cs)
    → All Full (c ∷ cs)
    → o ≤ granularity
    → live i o (c ∷ cs) ≢ []
    → Cursors (i + 1) o (d ∷ cs)
Cursors-take_out i o c [] d h f b ne = elim (dec_lt i o) [
  | yes p ↦ omega arith
  | no p ↦ absurd (ne (drop_all i (take o c) (omega (arith, length-take o c))))
]
Cursors-take_out i o c (e ∷ cs) d h f b ne = tt

Cursors-advance :
    (o : ℕ) (cs : List Chunk) → o ≤ granularity → Cursors 0 (if is_nil cs then 0 else o) cs
Cursors-advance o [] h = omega arith
Cursors-advance o (c ∷ []) h = omega arith
Cursors-advance o (c ∷ d ∷ cs) h = tt

-- A queue whose read cursor has just moved, perhaps to the end of its chunk.
pub record IsMoved (q : Queue) : Type 0 where
  pub moved_full : All Full q.chunks
  pub moved_cursors : Cursors q.in_pos q.out_pos q.chunks
  pub moved_in : q.in_pos ≤ granularity
  pub moved_out : q.out_pos ≤ granularity
  pub moved_counted : q.count ≡ length (contents q)
  pub moved_bounded : q.count < word64
  pub moved_cached : CacheFull q.cache

-- Taking the message at the read cursor out leaves the rest.
pub take_out-IsMoved :
    (q : Queue) (c : Chunk) (cs : List Chunk)
    → IsValid (record q { chunks = c ∷ cs })
    → q.count ≢ 0
    → IsMoved (take_out q c cs)
      × (live q.in_pos q.out_pos (c ∷ cs)
          ≡ get_or c q.in_pos empty_msg ∷ contents (take_out q c cs))
unfolding take_out
take_out-IsMoved q c cs v nz = (
  record {
    moved_full = (length-set c q.in_pos empty_msg ∙ v.full.0, v.full.1);
    moved_cursors =
        Cursors-take_out q.in_pos q.out_pos c cs (set c q.in_pos empty_msg) v.cursors v.full
          v.out_le ne;
    moved_in = omega (arith, v.in_lt);
    moved_out = v.out_le;
    moved_counted = omega (arith, v.counted, v.bounded, ap length split);
    moved_bounded = omega arith;
    moved_cached = v.cached;
  },
  split,
)
  where
    ne : live q.in_pos q.out_pos (c ∷ cs) ≢ []
    ne e = nz (omega (arith, v.counted, ap length e))

    split :
        live q.in_pos q.out_pos (c ∷ cs)
        ≡ get_or c q.in_pos empty_msg
          ∷ live (q.in_pos + 1) q.out_pos (set c q.in_pos empty_msg ∷ cs)
    split =
        live-take_out q.in_pos q.out_pos c cs v.full v.in_lt ne
        ∙ ap (λ t. get_or c q.in_pos empty_msg ∷ live t q.out_pos (set c q.in_pos empty_msg ∷ cs))
            (omega arith)

abbrev keep_chunk : Chunk → Option Chunk → Option Chunk
keep_chunk c cache = elim cache [ none ↦ some c | some d ↦ some d ]

CacheFull-keep :
    (c : Chunk) (cache : Option Chunk) → Full c → CacheFull cache → CacheFull (keep_chunk c cache)
CacheFull-keep c none f h = f
CacheFull-keep c (some d) f h = h

in_lt_of_stay :
    (i o : ℕ) (b : Bool) → i ≤ granularity → ((i == granularity) || b) ≡ false → i < granularity
in_lt_of_stay i o b h e = ground arith

pub advance-IsValid :
    (q : Queue) (c : Chunk) (cs : List Chunk)
    → IsMoved (record q { chunks = c ∷ cs })
    → IsValid (advance (record q { chunks = c ∷ cs }))
      × (contents (advance (record q { chunks = c ∷ cs })) ≡ live q.in_pos q.out_pos (c ∷ cs))
unfolding advance
advance-IsValid q c cs v =
    elim (Bool-cases ((q.in_pos == granularity) || is_nil cs && (q.in_pos == q.out_pos))) [
      | inr e ↦ rw e (
        record {
          full = v.moved_full;
          cursors = v.moved_cursors;
          in_lt =
              in_lt_of_stay q.in_pos q.out_pos (is_nil cs && (q.in_pos == q.out_pos)) v.moved_in e;
          out_le = v.moved_out;
          counted = v.moved_counted;
          bounded = v.moved_bounded;
          cached = v.moved_cached;
        },
        refl,
      )
      | inl e ↦
          let l = live-advance q.in_pos q.out_pos c cs v.moved_full v.moved_out e in
          rw e (
            record {
              full = v.moved_full.1;
              cursors = Cursors-advance q.out_pos cs v.moved_out;
              in_lt = omega arith;
              out_le = out_le_if q.out_pos (is_nil cs) v.moved_out;
              counted = v.moved_counted ∙ ap length l;
              bounded = v.moved_bounded;
              cached = CacheFull-keep c q.cache v.moved_full.0 v.moved_cached;
            },
            sym l,
          )
    ]
  where
    out_le_if : (o : ℕ) (b : Bool) → o ≤ granularity → (if b then 0 else o) ≤ granularity
    out_le_if o b h = ground arith
