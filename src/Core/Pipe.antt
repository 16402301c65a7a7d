-- ===== src/Core/Pipe.antt =====
-- src/protocol.h, src/core/pipe.c: what a protocol sees of its pipes. A pipe is named by a number.
-- Its operations are those that the transport installs (`mb_pipebase_vfptr`), so they are given as a
-- record; `W` is the state of all transports, which each call may change.
use msgbroker.Prelude.{ℕ, Bool, false, Option, none, some, ◌==◌}
use msgbroker.Errno.{Errno}
use msgbroker.Memory.Msg.{Msg}

-- A call that succeeds with a value, or returns an error code.
pub data Answer {ℓ} (R : Type ℓ) : Type ℓ where
  yields : R → Answer R
  refuses : Errno → Answer R

pub record Pipes (W : Type 0) : Type 0 where
  -- `mb_pipe_recv`: the message received.
  pub recv : ℕ → W → Answer Msg × W
  -- `mb_pipe_send`: on success the message is taken.
  pub send : Msg → ℕ → W → Answer (Unit {0}) × W
  -- `mb_pipe_has_msg` and `mb_pipe_can_send`.
  pub has_msg : ℕ → W → Bool × W
  pub can_send : ℕ → W → Bool × W

-- The test that a pointer to a pipe, which may be NULL, is the pipe `p`.
abbrev pub points_to : Option ℕ → ℕ → Bool
points_to none p = false
points_to (some q) p = q == p
