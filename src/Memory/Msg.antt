-- ===== src/Memory/Msg.antt =====
-- src/memory/msg.c: a message is three buffers. A buffer (`mb_chunkref`) is the list of its bytes,
-- whether they stand in the 64 bytes of the structure or in a chunk on the heap.
use msgbroker.Prelude.{ℕ, List, [], length}

pub record Msg : Type 0 where
  pub sphdr : List ℕ
  pub hdrs : List ℕ
  pub body : List ℕ

-- `mb_msg_init (self, 0)`, and what `mb_msg_mv` leaves in its source.
abbrev pub empty_msg : Msg
empty_msg = record { sphdr = []; hdrs = []; body = [] }

-- `mb_chunkref_size (&msg->body)`.
abbrev pub body_size : Msg → ℕ
body_size m = length m.body
