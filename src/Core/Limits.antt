-- ===== src/Core/Limits.antt =====
-- src/core/limits.c: the caps on the options of sockets.
mod Tests
use msgbroker.Prelude.{ℕ, zero, suc, ◌*◌, Bool, true, false, Option, none, some, ltb, if◌then◌else◌}
use msgbroker.Errno.{Errno, Rc, ok, err, einval}

-- `MB_LIMITS_DEFAULT_RCVBUF`, `MB_LIMITS_DEFAULT_TIMEO_MS` and `MB_LIMITS_DEFAULT_BACKLOG`.
abbrev pub default_rcvbuf : ℕ
default_rcvbuf = 16 * 1024 * 1024

abbrev pub default_timeo_ms : ℕ
default_timeo_ms = 60 * 1000

abbrev pub default_backlog : ℕ
default_backlog = 128

-- `EPERM` of errno.h.
abbrev pub eperm : Errno
eperm = Errno.other 1

-- The variables of the file.
pub record Limits : Type 0 where
  pub rcvbuf : ℕ
  pub sndtimeo : ℕ
  pub rcvtimeo : ℕ
  pub backlog : ℕ
  pub installed : Bool

-- `mb_limits_install_defaults`.
abbrev pub install_defaults : Limits → Limits
install_defaults l = if l.installed then l else record {
  rcvbuf = default_rcvbuf;
  sndtimeo = default_timeo_ms;
  rcvtimeo = default_timeo_ms;
  backlog = default_backlog;
  installed = true;
}

-- An `int`: `below_zero n` is -(n + 1).
pub data Requested : Type 0 where
  below_zero : ℕ → Requested
  amount : ℕ → Requested

-- `set_cap_int`, on the value of a cap: `none` is a pointer that is NULL, or an argument of another
-- size. The result is the code and the cap.
abbrev pub set_cap_int : Option Requested → ℕ → Rc × ℕ
set_cap_int none slot = (err einval, slot)
set_cap_int (some (below_zero n)) slot = (err einval, slot)
set_cap_int (some (amount zero)) slot = (err einval, slot)
set_cap_int (some (amount (suc n))) slot = (ok 0, suc n)

abbrev pub set_rcvbuf : Option Requested → Limits → Rc × Limits
set_rcvbuf v l = let r = set_cap_int v l.rcvbuf in (r.0, record l { rcvbuf = r.1 })

abbrev pub set_sndtimeo : Option Requested → Limits → Rc × Limits
set_sndtimeo v l = let r = set_cap_int v l.sndtimeo in (r.0, record l { sndtimeo = r.1 })

abbrev pub set_rcvtimeo : Option Requested → Limits → Rc × Limits
set_rcvtimeo v l = let r = set_cap_int v l.rcvtimeo in (r.0, record l { rcvtimeo = r.1 })

abbrev pub set_backlog : Option Requested → Limits → Rc × Limits
set_backlog v l = let r = set_cap_int v l.backlog in (r.0, record l { backlog = r.1 })

-- A negative number passes any cap.
abbrev pub check_cap : ℕ → Requested → Rc
check_cap cap (below_zero n) = ok 0
check_cap cap (amount n) = if ltb cap n then err eperm else ok 0

abbrev pub check_rcvbuf : Limits → Requested → Rc
check_rcvbuf l v = check_cap l.rcvbuf v

abbrev pub check_sndtimeo : Limits → Requested → Rc
check_sndtimeo l v = check_cap l.sndtimeo v

abbrev pub check_rcvtimeo : Limits → Requested → Rc
check_rcvtimeo l v = check_cap l.rcvtimeo v

abbrev pub check_backlog : Limits → Requested → Rc
check_backlog l v = check_cap l.backlog v
