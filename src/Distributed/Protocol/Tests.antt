-- ===== src/Distributed/Protocol/Tests.antt =====
-- protocol.c: tests and examples.
use msgbroker.Prelude.{◌≡◌, refl, ◌∷◌, [], take, length, arith}
use msgbroker.Distributed.Protocol.{DistMsg, msg_init, hton, ntoh, header_size}
use msgbroker.Distributed.Protocol.Header.{IsDistMsg, ntoh-hton}

abbrev ping : DistMsg
ping = msg_init 3 1 70000

ping_size : length (hton ping) ≡ header_size
ping_size = refl

-- "MBDR".
ping_magic : take 4 (hton ping) ≡ 77 ∷ 66 ∷ 68 ∷ 82 ∷ []
ping_magic = refl

ping-IsDistMsg : IsDistMsg ping
ping-IsDistMsg = record {
  magic = omega arith;
  version = omega arith;
  type = omega arith;
  src_node_id = omega arith;
  dst_node_id = omega arith;
  payload_len = omega arith;
}

ntoh-hton_example : ntoh (hton ping) ≡ ping
ntoh-hton_example = ntoh-hton ping ping-IsDistMsg
