-- ===== src/Protocol/Surveyor/Late.antt =====
-- surveyor.c: what a receiver is told behind the deadline.
use msgbroker.Prelude.{ℕ, ◌<◌, ◌≤◌, ◌≡◌, refl, ◌&&◌, true, false, some, ltb, leb, arith}
use msgbroker.Errno.{efsm}
use msgbroker.Core.Pipe.{refuses, Pipes}
use msgbroker.Utils.Rotor.{names}
use msgbroker.Protocol.Surveyor.{Surveyor, check_deadline, recv, etimedout}
use msgbroker.Protocol.Surveyor.Drain.{RunsDry, AllEmptied, drain-Ends}

late_test : (d e now : ℕ) → 0 < d → e ≤ now → ltb 0 d && leb e now ≡ true
late_test d e now a b = ground arith

module _ {W : Type 0} (pipes : Pipes W) (left : W → ℕ) where
  -- When each message received makes the pipes' stock smaller and the loop that drains has that many
  -- rounds: if a survey with a deadline is open, and the clock has reached the deadline, a receive takes
  -- every message of every pipe, pipe after pipe, each until it refuses, and drops them; it closes
  -- the survey, keeps the pipes, and returns -ETIMEDOUT. Every later receive returns -EFSM and changes
  -- nothing.
  pub recv_late :
      RunsDry pipes left
      → (fuel now : ℕ) (s : Surveyor) (w : W) → left w < fuel
      → s.surveying ≡ true
      → 0 < s.deadline_ms
      → s.survey_expire_ms ≤ now
      → (s' : Surveyor) × (w' : W) × (recv pipes fuel now s w ≡ some (refuses etimedout, s', w'))
        × AllEmptied pipes left (names s.pipes) w w'
        × (names s'.pipes ≡ names s.pipes)
        × (s'.surveying ≡ false)
        × ((fuel' now' : ℕ) (v : W) → recv pipes fuel' now' s' v ≡ some (refuses efsm, s', v))
  unfolding recv check_deadline
  recv_late dry fuel now s w h on a b =
      let d = drain-Ends pipes left dry fuel s.pipes w h in
      let s' = record s { pipes = d.0; surveying = false; timed_out = false } in
      let e = late_test s.deadline_ms s.survey_expire_ms now a b in
      (s', d.1, simp (on, e, d.2) refl, d.5, d.4, refl, λ fuel' now' v. refl)
