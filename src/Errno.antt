-- ===== src/Errno.antt =====
-- The codes that the C functions return. The source returns an `int`: 0 or a positive count on
-- success, `-E…` on an error (include/msgbroker/mb.h lists its own codes beside errno.h's).
use msgbroker.Prelude.{ℕ, Bool, true, false}

-- `minus_one` is the plain -1 that a few helpers return when they run out of memory.
pub data Errno : Type 0 where
  eagain enomem eexist enoent einval enoprotoopt efsm minus_one : Errno
  other : ℕ → Errno

pub data Rc : Type 0 where
  ok : ℕ → Rc
  err : Errno → Rc

-- The test `rc == -EAGAIN`.
abbrev pub is_eagain : Rc → Bool
is_eagain (ok n) = false
is_eagain (err eagain) = true
is_eagain (err enomem) = false
is_eagain (err eexist) = false
is_eagain (err enoent) = false
is_eagain (err einval) = false
is_eagain (err enoprotoopt) = false
is_eagain (err efsm) = false
is_eagain (err minus_one) = false
is_eagain (err (other n)) = false
