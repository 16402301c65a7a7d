-- ===== src/Transport/Msgqueue.antt =====
-- src/transport/inproc/msgqueue.c: the queue between two sockets of one process, a chain of chunks
-- of 64 slots with a limit on the bytes queued. Each function runs under the queue's mutex from
-- its first line to its last, so each is one atomic step here.
pub mod Live
pub mod Valid
pub mod Refine
pub mod Cap
pub mod History
mod Tests
use msgbroker.Prelude.{
  ℕ, ◌+◌, ◌-◌, Bool, true, false, not, ◌&&◌, ◌||◌, Option, none, some, List, [], ◌∷◌, ◌++◌, ltb,
  leb, ◌==◌, if◌then◌else◌, set, get_or, replicate, add64, sub64,
}
use msgbroker.Errno.{Rc, ok, err, eagain, enomem}
use msgbroker.Memory.Msg.{Msg, empty_msg, body_size}

abbrev pub granularity : ℕ
granularity = 64

-- The `msgs` of a `struct mb_msgqueue_chunk`. Its `next` is the order of the chain below.
abbrev pub Chunk : Type 0
Chunk = List Msg

-- `chunks` is the chain from `in.chunk` along `next`, and `out.chunk` is its last chunk; the empty
-- chain stands for both pointers being NULL.
pub record Queue : Type 0 where
  pub chunks : List Chunk
  pub in_pos : ℕ
  pub out_pos : ℕ
  pub count : ℕ
  pub mem : ℕ
  pub maxmem : ℕ
  pub pending_sz : ℕ
  pub cache : Option Chunk

abbrev pub fits : Queue → ℕ → Bool
fits q sz = q.maxmem == 0 || leb sz q.maxmem && leb q.mem (q.maxmem - sz)

-- The charge of a body of `sz` bytes under the limit `maxmem`.
abbrev pub charge : ℕ → ℕ → ℕ
charge maxmem sz = if ltb 0 maxmem && sz == 0 then 1 else sz

unfoldable pub init : ℕ → Queue
init maxmem = record {
  chunks = [];
  in_pos = 0;
  out_pos = 0;
  count = 0;
  mem = 0;
  maxmem = maxmem;
  pending_sz = 0;
  cache = none;
}

-- `if (self->pending_sz && fits (self, self->pending_sz)) self->pending_sz = 0;`
abbrev pub settle : Queue → Queue
settle q = if not (q.pending_sz == 0) && fits q q.pending_sz then record q { pending_sz = 0 } else q

unfoldable pub set_maxmem : Queue → ℕ → Queue
set_maxmem q maxmem = settle (record q { maxmem = maxmem })

-- The queue after `mb_msgqueue_term`; what it frees is gone.
unfoldable pub term : Queue → Queue
term q = record q { chunks = []; count = 0; pending_sz = 0; cache = none }

unfoldable pub empty : Queue → Bool
empty q = q.count == 0

unfoldable pub can_push_sz : Queue → ℕ → Bool
can_push_sz q sz = fits q (charge q.maxmem sz)

unfoldable pub can_push : Queue → Bool
can_push q = if not (q.pending_sz == 0) then fits q q.pending_sz else fits q 1

abbrev pub fresh_chunk : Chunk
fresh_chunk = replicate granularity empty_msg

-- The chunk handed out, if any, and the cache left. `mem_ok` says whether `mb_alloc` succeeds.
abbrev pub alloc_chunk : Bool → Option Chunk → Option Chunk × Option Chunk
alloc_chunk mem_ok (some c) = (some c, none)
alloc_chunk mem_ok none = (if mem_ok then some fresh_chunk else none, none)

-- Makes `c` the chunk to write to, from its first slot.
abbrev pub link : Queue → Chunk → Option Chunk → Queue
link q c cache = record q { chunks = q.chunks ++ c ∷ []; out_pos = 0; cache = cache }

abbrev pub is_nil {ℓ} : {A : Type ℓ} → List A → Bool
is_nil [] = true
is_nil (x ∷ xs) = false

abbrev pub link_first : Queue → Option Chunk × Option Chunk → Option Queue
link_first q (none, cache) = none
link_first q (some c, cache) =
    some (link (record q { in_pos = if is_nil q.chunks then 0 else q.in_pos }) c cache)

abbrev pub link_next : Queue → Option Chunk × Option Chunk → Queue
link_next q (none, cache) = q
link_next q (some c, cache) = link q c cache

-- The queue with a slot to write, or `none` when a chunk is needed and there is no memory.
pub writable : Bool → Queue → Option Queue
writable mem_ok q =
    if is_nil q.chunks || q.out_pos == granularity
    then link_first q (alloc_chunk mem_ok q.cache)
    else some q

-- The next chunk is prepared as soon as the last slot is taken; a failure is no error.
pub prepare : Bool → Queue → Queue
prepare mem_ok q = if q.out_pos == granularity then link_next q (alloc_chunk mem_ok q.cache) else q

-- A write to slot `i` of the last chunk.
abbrev pub write_last : List Chunk → ℕ → Msg → List Chunk
write_last [] i m = []
write_last (c ∷ []) i m = set c i m ∷ []
write_last (c ∷ d ∷ cs) i m = c ∷ write_last (d ∷ cs) i m

pub store : Queue → ℕ → Msg → Queue
store q sz m = record q {
  chunks = write_last q.chunks q.out_pos m;
  out_pos = q.out_pos + 1;
  count = add64 q.count 1;
  mem = add64 q.mem sz;
}

-- The code returned, the queue, and what is left of the caller's message. The two Booleans say
-- whether `mb_alloc` succeeds at the first and at the second place that may call it.
unfoldable pub push : Bool → Bool → Queue → Msg → Rc × Queue × Msg
unfolding writable prepare store
push mem_ok eager_ok q m =
    let sz = charge q.maxmem (body_size m) in
    if not (fits q sz)
    then (err eagain, (if ltb 0 q.maxmem then record q { pending_sz = sz } else q), m)
    else elim (writable mem_ok q) [
      | none ↦ (err enomem, q, m)
      | some q1 ↦
          (ok (if q.count == 0 then 1 else 0), prepare eager_ok (settle (store q1 sz m)), empty_msg)
    ]

-- Leaves a chunk that is read to its end, or up to the write cursor if it is the last one. The
-- chunk is kept in the cache, if that is free.
pub advance : Queue → Queue
advance q = elim q.chunks [
  | [] ↦ q
  | c ∷ cs ↦
      if q.in_pos == granularity || is_nil cs && q.in_pos == q.out_pos
      then record q {
        chunks = cs;
        in_pos = 0;
        out_pos = if is_nil cs then 0 else q.out_pos;
        cache = elim q.cache [ none ↦ some c | some d ↦ some d ];
      }
      else q
]

-- The read of slot `in_pos`, which is left empty.
pub take_out : Queue → Chunk → List Chunk → Queue
take_out q c cs = record q {
  chunks = set c q.in_pos empty_msg ∷ cs;
  in_pos = q.in_pos + 1;
  count = sub64 q.count 1;
  mem = sub64 q.mem (charge q.maxmem (body_size (get_or c q.in_pos empty_msg)));
}

-- The queue and the caller's message, which an empty queue leaves as it was. `none` is a read
-- through a NULL `in.chunk`.
unfoldable pub pop : Queue → Msg → Option (Queue × Msg)
unfolding advance take_out
pop q m = if q.count == 0 then some (q, m) else elim q.chunks [
  | [] ↦ none
  | c ∷ cs ↦ some (settle (advance (take_out q c cs)), get_or c q.in_pos empty_msg)
]
