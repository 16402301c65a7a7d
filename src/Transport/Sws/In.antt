-- ===== src/Transport/Sws/In.antt =====
-- sws.c: mb_sws_recv.
use Prim.Native.Nat.{bit_or}
use msgbroker.Prelude.{
  ℕ, zero, suc, ◌+◌, ◌-◌, ◌/◌, ◌%◌, ◌^◌, Bool, not, ◌||◌, Option, none, some, List, [], ◌∷◌, ◌++◌,
  length, drop, take, ltb, ◌==◌, if◌then◌else◌,
}
use msgbroker.Errno.{Errno, err, enomem, is_eagain}
use msgbroker.Memory.Msg.{Msg, empty_msg}
use msgbroker.Core.Pipe.{Answer, yields, refuses}
use msgbroker.Utils.Wire.{byte, get_uint16, get_uint32}
use msgbroker.Transport.Sinproc.{emsgsize, msg_too_large}
use msgbroker.Transport.Stream.{Got, got, at_end, unread, econnreset}
use msgbroker.Transport.Sws.{
  Sws, in_hdr, hasmsg, Web, do_recv, mask, eproto, opcode_binary, opcode_close, opcode_ping,
  opcode_pong,
}
use msgbroker.Transport.Sws.Out.{report_error}

abbrev pub int_max : ℕ
int_max = 2 ^ 31 - 1

-- What the loop of mb_sws_recv comes to: it returns; or it reads or writes behind the end of the
-- message's buffer; or the rounds that it is given here are too few.
pub data Result {ℓ} (A : Type ℓ) : Type ℓ where
  returns : A → Result A
  overruns spins : Result A

-- The fields of the first two bytes.
abbrev pub opcode_of : List ℕ → ℕ
opcode_of h = byte h 0 % 16

abbrev pub is_final : List ℕ → Bool
is_final h = byte h 0 / 128 % 2 == 1

abbrev pub rsv_of : List ℕ → ℕ
rsv_of h = byte h 0 / 16 % 8

abbrev pub len_of : List ℕ → ℕ
len_of h = byte h 1 % 128

abbrev pub is_masked : List ℕ → Bool
is_masked h = byte h 1 / 128 % 2 == 1

-- The bytes of the header before the key, and in all.
abbrev pub hdr_used : List ℕ → ℕ
hdr_used h = if len_of h == 126 then 4 else if len_of h == 127 then 10 else 2

abbrev pub need : List ℕ → ℕ
need h = if is_masked h then hdr_used h + 4 else hdr_used h

abbrev pub is_known : ℕ → Bool
is_known opcode =
    (opcode == opcode_binary)
    || (opcode == opcode_close)
    || (opcode == opcode_ping)
    || (opcode == opcode_pong)

-- The length of the payload that a header gives, or the error.
abbrev pub long_len : List ℕ → Answer ℕ
long_len h =
    let plen = get_uint32 (drop 6 h) in
    if not (bit_or (bit_or (bit_or (byte h 2) (byte h 3)) (byte h 4)) (byte h 5) == 0)
    then refuses emsgsize
    else if ltb int_max plen
    then refuses emsgsize
    else yields plen

abbrev pub payload_len_of : List ℕ → Answer ℕ
payload_len_of h =
    if ltb (len_of h) 126
    then yields (len_of h)
    else if len_of h == 126
    then yields (get_uint16 (drop 2 h))
    else long_len h

-- The tests on the first two bytes, of which the first that fails gives the error.
abbrev pub hdr_refused : Bool → List ℕ → Bool
hdr_refused is_client h =
    (if is_client then is_masked h else not (is_masked h))
    || (not (rsv_of h == 0) || not (is_final h))
    || not (is_known (opcode_of h))

abbrev pub key_of : Sws → List ℕ → List ℕ
key_of s h = if is_masked h then take 4 (drop (hdr_used h) h) else s.mask_key

-- A new header is awaited; the message is empty again.
abbrev pub await_hdr : Sws → Sws
await_hdr s = record s { inhdr = []; inmsg = []; inpos = 0; instate = in_hdr; payload_len = 0 }

abbrev pub body_msg : List ℕ → Msg
body_msg bytes = record empty_msg { body = bytes }

module _ {W : Type 0} (web : Web W) (callback : Sws → W → Sws × W) where
  -- A loop of reads of `left` bytes in all: the bytes that have come, and the error that ended it, if
  -- one did. The fuel is `left`, of which each round takes one at least.
  abbrev pub after_read :
      (List ℕ → W → Option Errno × List ℕ × W) → List ℕ → Got × W → Option Errno × List ℕ × W
  after_read next bytes (got b bs, w) = next (b ∷ bs) w
  after_read next bytes (at_end, w) = (some econnreset, bytes, w)
  after_read next bytes (unread e, w) = (some e, bytes, w)

  unfoldable pub fill : ℕ → Sws → ℕ → List ℕ → W → Option Errno × List ℕ × W
  fill f s zero bytes w = (none, bytes, w)
  fill zero s (suc left) bytes w = (none, bytes, w)
  fill (suc f) s (suc left) bytes w =
      after_read (λ bs w'. fill f s (suc left - length bs) (bytes ++ bs) w') bytes
        (do_recv web s (suc left) w)

  abbrev pub broken : Errno → Sws × W → Result (Answer Msg × Sws × W)
  broken e (s, w) = returns (refuses e, s, w)

  -- The end of a read that fails, and of a frame that is refused.
  abbrev pub misread : Errno → Sws → W → Result (Answer Msg × Sws × W)
  misread e s w =
      if is_eagain (err e)
      then returns (refuses e, s, w)
      else broken e (report_error web callback s w)

  abbrev pub refused : Errno → Sws → W → Result (Answer Msg × Sws × W)
  refused e s w = broken e (report_error web callback s w)

  abbrev pub delivered : Sws → W → Result (Answer Msg × Sws × W)
  delivered s w = returns (
    yields (body_msg s.inmsg),
    record s { inhdr = []; inmsg = []; inpos = 0; instate = in_hdr },
    w,
  )

  abbrev pub unpacked : Sws → List ℕ → ℕ → W → Result (Answer Msg × Sws × W)
  unpacked s body n w =
      let (fits, w') = web.os.alloc n w in
      let got_it = record s { inmsg = take n (drop 4 body); instate = hasmsg } in
      if n == 0
      then delivered (record s { inmsg = []; instate = hasmsg }) w
      else if fits
      then delivered got_it w'
      else refused enomem (await_hdr s) w'

  abbrev pub body_checked : Sws → List ℕ → W → Result (Answer Msg × Sws × W)
  body_checked s body w =
      let n = get_uint32 body in
      if ltb s.payload_len 4
      then refused eproto (record s { inmsg = [] }) w
      else if ltb (s.payload_len - 4) n || msg_too_large s.rcvmaxsize n
      then refused emsgsize (record s { inmsg = [] }) w
      else unpacked s body n w

  -- The payload is whole: the mask is taken off in place.
  abbrev pub unmasked : Sws → List ℕ
  unmasked s = if is_masked s.inhdr then mask s.mask_key 0 s.inmsg else s.inmsg

  abbrev pub body_done : Sws → W → Result (Answer Msg × Sws × W)
  body_done s w =
      if ltb (length s.inmsg) s.payload_len then overruns else body_checked s (unmasked s) w

  abbrev pub body_read : Sws → Option Errno × List ℕ × W → Result (Answer Msg × Sws × W)
  body_read s (some e, bytes, w) =
      misread e (record s { inmsg = s.inmsg ++ bytes; inpos = s.inpos + length bytes }) w
  body_read s (none, bytes, w) =
      body_done (record s { inmsg = s.inmsg ++ bytes; inpos = s.inpos + length bytes }) w

  abbrev pub read_body : Sws → W → Result (Answer Msg × Sws × W)
  read_body s w = let left = s.payload_len - s.inpos in body_read s (fill left s left [] w)
