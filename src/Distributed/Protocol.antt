-- ===== src/Distributed/Protocol.antt =====
-- src/distributed/protocol.c: the header of the messages between nodes.
mod Header
mod Tests
use msgbroker.Prelude.{ℕ, List, ◌++◌, drop}
use msgbroker.Utils.Wire.{put_uint32, get_uint32}

abbrev pub dist_magic : ℕ
dist_magic = 0x4D424452

abbrev pub dist_version : ℕ
dist_version = 1

-- `struct mb_dist_msg`: six 32-bit words, without padding.
pub record DistMsg : Type 0 where
  pub magic : ℕ
  pub version : ℕ
  pub type : ℕ
  pub src_node_id : ℕ
  pub dst_node_id : ℕ
  pub payload_len : ℕ

abbrev pub msg_init : ℕ → ℕ → ℕ → DistMsg
msg_init type src dst = record {
  magic = dist_magic;
  version = dist_version;
  type = type;
  src_node_id = src;
  dst_node_id = dst;
  payload_len = 0;
}

-- The bytes that the structure consists of afterwards.
abbrev pub hton : DistMsg → List ℕ
hton m =
    put_uint32 m.magic
    ++ (put_uint32 m.version
        ++ (put_uint32 m.type
            ++ (put_uint32 m.src_node_id
                ++ (put_uint32 m.dst_node_id ++ put_uint32 m.payload_len))))

-- The structure, from the bytes that it consists of before.
abbrev pub ntoh : List ℕ → DistMsg
ntoh buf = record {
  magic = get_uint32 buf;
  version = get_uint32 (drop 4 buf);
  type = get_uint32 (drop 8 buf);
  src_node_id = get_uint32 (drop 12 buf);
  dst_node_id = get_uint32 (drop 16 buf);
  payload_len = get_uint32 (drop 20 buf);
}

abbrev pub header_size : ℕ
header_size = 24
