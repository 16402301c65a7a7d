-- ===== src/Transport/Sws.antt =====
-- src/transport/ws/sws.c: one end of a WebSocket connection, plain or over TLS, as a pipe of its
-- socket. A message goes as a binary frame, of which the payload is the size of the body in four bytes
-- and the body. This file is the state and the frames that go out.
pub mod Out
pub mod In
pub mod Recv
pub mod Stop
pub mod Mask
pub mod Hdr
pub mod Whole
pub mod RoundTrip
mod Tests
use Prim.Native.Nat.{bit_or, bit_xor}
use msgbroker.Prelude.{
  ℕ, zero, suc, ◌+◌, ◌/◌, ◌%◌, ◌^◌, Bool, true, false, Option, none, some, List, [], ◌∷◌, ◌++◌,
  length, get_or, ltb, leb, if◌then◌else◌,
}
use msgbroker.Errno.{Errno, Rc, ok, err, eagain}
use msgbroker.Utils.Wire.{put_uint32}
use msgbroker.Transport.Stream.{Stream, Taken, took, unsent, Got, got, at_end, unread, econnreset}

-- `EPROTO` of errno.h.
abbrev pub eproto : Errno
eproto = Errno.other 71

abbrev pub fin_bit : ℕ
fin_bit = 128

abbrev pub mask_bit : ℕ
mask_bit = 128

abbrev pub opcode_binary : ℕ
opcode_binary = 2

abbrev pub opcode_close : ℕ
opcode_close = 8

abbrev pub opcode_ping : ℕ
opcode_ping = 9

abbrev pub opcode_pong : ℕ
opcode_pong = 10

pub data Instate : Type 0 where
  in_hdr in_body hasmsg in_ctrl : Instate

-- `struct mb_sws`, with what it uses of its socket. `fd` is whether the descriptor is there and `ssl`
-- whether there is a TLS connection. `inhdr` is the bytes of the header that have come, so that
-- `inpos` is its length while the header is read, and counts the bytes of `inmsg` after that; `inlen`
-- is the opcode of a control frame. `pong_buf` is the `pong_len` bytes that are in use of it. Options
-- are as in the session of ipc.
pub record Sws : Type 0 where
  pub fd : Bool
  pub ssl : Bool
  pub is_client : Bool
  pub active : Bool
  pub inhdr : List ℕ
  pub inmsg : List ℕ
  pub inpos : ℕ
  pub inlen : ℕ
  pub instate : Instate
  pub payload_len : ℕ
  pub mask_key : List ℕ
  pub outbuf : Option (List ℕ)
  pub outpos : ℕ
  pub pending_pong : Bool
  pub pong_buf : List ℕ
  pub in_flight : ℕ
  pub disconnected : Bool
  pub on_error : Bool
  pub hwm : ℕ
  pub rcvmaxsize : Option ℕ
  pub linger : ℕ
  pub dropped : ℕ
  pub queue_full : ℕ
  pub linger_outcome : ℕ

-- `mb_sws_create` on an open descriptor, with the options of the socket.
abbrev pub create : Bool → ℕ → Option ℕ → ℕ → Sws
create is_client hwm rcvmaxsize linger = record {
  fd = true;
  ssl = false;
  is_client = is_client;
  active = false;
  inhdr = [];
  inmsg = [];
  inpos = 0;
  inlen = 0;
  instate = in_hdr;
  payload_len = 0;
  mask_key = 0 ∷ 0 ∷ 0 ∷ 0 ∷ [];
  outbuf = none;
  outpos = 0;
  pending_pong = false;
  pong_buf = [];
  in_flight = 0;
  disconnected = false;
  on_error = false;
  hwm = hwm;
  rcvmaxsize = rcvmaxsize;
  linger = linger;
  dropped = 0;
  queue_full = 0;
  linger_outcome = 0;
}

-- `mb_sws_set_on_error` with a callback.
abbrev pub set_on_error : Sws → Sws
set_on_error s = record s { on_error = true }

-- `SSL_read` and `SSL_write`, with what `SSL_get_error` says of a failure.
pub data SslGot : Type 0 where
  ssl_got : ℕ → List ℕ → SslGot
  zero_return read_want read_failed : SslGot

pub data SslTaken : Type 0 where
  ssl_took : ℕ → SslTaken
  write_want write_failed : SslTaken

-- What the session calls: the descriptor, OpenSSL, and `rand`.
pub record Web (W : Type 0) : Type 0 where
  pub os : Stream W
  pub ssl_read : ℕ → W → SslGot × W
  pub ssl_write : List ℕ → W → SslTaken × W
  -- `SSL_pending` is positive; whether SSL_get_fd gives a descriptor; `SSL_shutdown` and `SSL_free`.
  pub ssl_pending : W → Bool
  pub ssl_get_fd : W → Bool
  pub ssl_free : W → W
  pub rand : W → ℕ × W

abbrev pub as_got : SslGot → Got
as_got (ssl_got b bs) = got b bs
as_got zero_return = at_end
as_got read_want = unread eagain
as_got read_failed = at_end

abbrev pub as_taken : SslTaken → Taken
as_taken (ssl_took n) = took n
as_taken write_want = unsent eagain
as_taken write_failed = unsent econnreset

-- `mb_ws_mask` of the bytes from the place `i` on.
unfoldable pub mask : List ℕ → ℕ → List ℕ → List ℕ
mask key i [] = []
mask key i (b ∷ bs) = bit_xor b (get_or key (i % 4) 0) ∷ mask key (suc i) bs

-- The second byte of a header.
abbrev pub len_byte : Bool → ℕ → ℕ
len_byte is_client n = if is_client then bit_or n mask_bit else n

-- The header of a frame up to the mask key.
unfoldable pub frame_hdr : Bool → ℕ → ℕ → List ℕ
frame_hdr is_client opcode len =
    bit_or fin_bit opcode
    ∷ (if ltb len 126
        then len_byte is_client len ∷ []
        else if leb len 65535
        then len_byte is_client 126 ∷ len / 2 ^ 8 % 256 ∷ len % 256 ∷ []
        else len_byte is_client 127 ∷ 0 ∷ 0 ∷ 0 ∷ 0 ∷ put_uint32 len)

-- The bytes of a frame, where the key is used by a client only.
unfoldable pub frame : Bool → List ℕ → ℕ → List ℕ → List ℕ
frame is_client key opcode payload =
    frame_hdr is_client opcode (length payload)
    ++ (if is_client then key ++ mask key 0 payload else payload)

module _ {W : Type 0} (web : Web W) where
  abbrev pub do_recv : Sws → ℕ → W → Got × W
  do_recv s n w =
      if s.ssl then (let (r, w') = web.ssl_read n w in (as_got r, w')) else web.os.recv n w

  abbrev pub do_send : Sws → List ℕ → W → Taken × W
  do_send s bytes w =
      if s.ssl
      then (let (r, w') = web.ssl_write bytes w in (as_taken r, w'))
      else web.os.send bytes w

  -- The mask key of a client: four bytes of `rand`.
  abbrev pub new_key : W → List ℕ × W
  new_key w =
      let (a, w1) = web.rand w in
      let (b, w2) = web.rand w1 in
      let (c, w3) = web.rand w2 in
      let (d, w4) = web.rand w3 in (a % 256 ∷ b % 256 ∷ c % 256 ∷ d % 256 ∷ [], w4)

  abbrev pub key_for : Bool → W → List ℕ × W
  key_for false w = ([], w)
  key_for true w = new_key w

  abbrev pub allocated : List ℕ → Bool × W → Option (List ℕ) × W
  allocated bytes (false, w) = (none, w)
  allocated bytes (true, w) = (some bytes, w)

  -- `mb_sws_build_frame`: `none` is -ENOMEM.
  unfoldable pub build_frame : Bool → ℕ → List ℕ → W → Option (List ℕ) × W
  build_frame is_client opcode payload w =
      let (key, w') = key_for is_client w in
      let bytes = frame is_client key opcode payload in
      allocated bytes (web.os.alloc (length bytes) w')
