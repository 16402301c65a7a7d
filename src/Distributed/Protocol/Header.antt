-- ===== src/Distributed/Protocol/Header.antt =====
-- protocol.c: the header on the wire.
use msgbroker.Prelude.{ℕ, ◌<◌, ◌≡◌, List, [], ◌++◌, word32}
use msgbroker.Utils.Wire.{put_uint32, get_uint32}
use msgbroker.Utils.Wire.RoundTrip.{get-put_uint32}
use msgbroker.Distributed.Protocol.{DistMsg, hton, ntoh}

-- Every field is a `uint32_t`.
pub record IsDistMsg (m : DistMsg) : Type 0 where
  pub magic : m.magic < word32
  pub version : m.version < word32
  pub type : m.type < word32
  pub src_node_id : m.src_node_id < word32
  pub dst_node_id : m.dst_node_id < word32
  pub payload_len : m.payload_len < word32

-- Equal fields make equal headers.
same_header :
    {m n : DistMsg}
    → m.magic ≡ n.magic
    → m.version ≡ n.version
    → m.type ≡ n.type
    → m.src_node_id ≡ n.src_node_id
    → m.dst_node_id ≡ n.dst_node_id
    → m.payload_len ≡ n.payload_len
    → m ≡ n
same_header a b c d e f = cc

field : (v : ℕ) (rest : List ℕ) → v < word32 → get_uint32 (put_uint32 v ++ rest) ≡ v
field = get-put_uint32

-- A header of 32-bit fields that is put in network order and read back is the same header.
pub ntoh-hton : (m : DistMsg) → IsDistMsg m → ntoh (hton m) ≡ m
ntoh-hton m g =
    same_header (field m.magic [] g.magic) (field m.version [] g.version) (field m.type [] g.type)
      (field m.src_node_id [] g.src_node_id) (field m.dst_node_id [] g.dst_node_id)
      (field m.payload_len [] g.payload_len)
