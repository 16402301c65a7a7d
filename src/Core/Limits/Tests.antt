-- ===== src/Core/Limits/Tests.antt =====
-- limits.c: tests.
use msgbroker.Prelude.{◌≡◌, refl, false, some}
use msgbroker.Errno.{ok, err, einval}
use msgbroker.Core.Limits.{
  Limits, amount, below_zero, install_defaults, set_rcvbuf, check_rcvbuf, check_backlog, eperm,
}

abbrev fresh : Limits
fresh =
    install_defaults
      (record { rcvbuf = 0; sndtimeo = 0; rcvtimeo = 0; backlog = 0; installed = false })

cap_at_limit : check_backlog fresh (amount 128) ≡ ok 0
cap_at_limit = refl

cap_above : check_backlog fresh (amount 129) ≡ err eperm
cap_above = refl

forever_passes : check_backlog fresh (below_zero 1) ≡ ok 0
forever_passes = refl

raised : check_rcvbuf (set_rcvbuf (some (amount 99)) fresh).1 (amount 100) ≡ err eperm
raised = refl

cap_zero : (set_rcvbuf (some (amount 0)) fresh).0 ≡ err einval
cap_zero = refl
