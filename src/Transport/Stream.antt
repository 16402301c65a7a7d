-- ===== src/Transport/Stream.antt =====
-- A descriptor of a connection, as the sessions of src/transport use it: what the operating system
-- and the other parts of the library do when they are called. `W` is the state of all that lies
-- outside the session.

pub mod Bytes
pub mod Line
use msgbroker.Prelude.{ℕ, zero, suc, Bool, List, [], ◌∷◌, if◌then◌else◌}
use msgbroker.Errno.{Errno, Rc, ok, err, is_eagain}
use msgbroker.Core.Pipe.{Answer, yields, refuses}

-- Of errno.h.
abbrev pub econnreset : Errno
econnreset = Errno.other 104

abbrev pub etimedout : Errno
etimedout = Errno.other 110

-- `send` of a buffer that is not empty: `took n` is the result `n + 1`. EWOULDBLOCK is EAGAIN.
pub data Taken : Type 0 where
  took : ℕ → Taken
  unsent : Errno → Taken

-- `recv` of at least one byte: some bytes, the first and the others; 0 at the end of the stream; or
-- an error.
pub data Got : Type 0 where
  got : ℕ → List ℕ → Got
  at_end : Got
  unread : Errno → Got

-- `poll`: 0 or an error; events without the one that was asked for; or that one.
pub data Polled : Type 0 where
  quiet other_events ready : Polled

pub record Stream (W : Type 0) : Type 0 where
  pub send : List ℕ → W → Taken × W
  pub recv : ℕ → W → Got × W
  -- For POLLIN without a timeout, and for POLLOUT with one.
  pub poll_in : W → Polled × W
  pub poll_out : ℕ → W → Polled × W
  pub clock_ms : W → ℕ × W
  -- Whether an allocation of that many bytes succeeds.
  pub alloc : ℕ → W → Bool × W
  -- `mb_net_apply_bufs`, `close`, `mb_pipebase_start` and `mb_pipebase_stop`.
  pub apply_bufs : W → W
  pub close : W → W
  pub pipebase_start : W → Rc × W
  pub pipebase_stop : W → W

-- What a loop over `send` returns on an error, after `sent` bytes.
abbrev pub blocked : Errno → ℕ → Rc
blocked e zero = err e
blocked e (suc n) = if is_eagain (err e) then ok (suc n) else err e

-- What a loop over `recv` returns at the end of the stream, and on an error, after some bytes.
abbrev pub ended : List ℕ → Answer (List ℕ)
ended [] = refuses econnreset
ended (b ∷ bs) = yields (b ∷ bs)

abbrev pub dried : Errno → List ℕ → Answer (List ℕ)
dried e [] = refuses e
dried e (b ∷ bs) = if is_eagain (err e) then yields (b ∷ bs) else refuses e

module _ {W : Type 0} where
  -- One round of such a loop: `next` is the rounds that follow.
  abbrev pub after_send : (ℕ → W → Rc × W) → ℕ → Taken × W → Rc × W
  after_send next sent (took n, w) = next n w
  after_send next sent (unsent e, w) = (blocked e sent, w)

  abbrev pub after_recv :
      (List ℕ → W → Answer (List ℕ) × W) → List ℕ → Got × W → Answer (List ℕ) × W
  after_recv next bytes (got b bs, w) = next (b ∷ bs) w
  after_recv next bytes (at_end, w) = (ended bytes, w)
  after_recv next bytes (unread e, w) = (dried e bytes, w)
