-- ===== src/Protocol/Respondent/Tests.antt =====
-- respondent.c: tests and examples.
use msgbroker.Prelude.{ℕ, ◌≡◌, refl, true, List, [], ◌∷◌, ◌==◌, if◌then◌else◌}
use msgbroker.Errno.{eagain}
use msgbroker.Memory.Msg.{empty_msg}
use msgbroker.Core.Pipe.{yields, refuses, Pipes}
use msgbroker.Utils.Rotor.{rotate, probe, activate, add}
use msgbroker.Protocol.Turns.{asked, answered, lost, returned, idle, Alternates, run}
use msgbroker.Protocol.Respondent.{create, recv, send, rm}
use msgbroker.Protocol.Respondent.Alternation.{
  Call, adds, rms, recvs, sends, call, phase, respondent_run-Alternates,
}

-- Only pipe `w` has messages and takes them.
abbrev only : Pipes ℕ
only = record {
  recv = λ p w. (if p == w then yields empty_msg else refuses eagain, w);
  send = λ m p w. (if p == w then yields _ else refuses eagain, w);
  has_msg = λ p w. (p == w, w);
  can_send = λ p w. (p == w, w);
}

abbrev calls : List Call
calls =
    adds true 5
    ∷ adds true 6
    ∷ sends empty_msg
    ∷ recvs
    ∷ recvs
    ∷ sends empty_msg
    ∷ recvs
    ∷ rms 6
    ∷ []

calls_events :
    (run (call only) calls (create, 6)).0
    ≡ asked 6 empty_msg
      ∷ returned empty_msg
      ∷ answered 6 empty_msg
      ∷ returned empty_msg
      ∷ asked 6 empty_msg
      ∷ returned empty_msg
      ∷ lost 6
      ∷ []
unfolding rotate probe activate add recv send rm
calls_events = refl

respondent_run-Alternates_example :
    Alternates idle
      (run (call only) calls (create, 6)).0
      (phase (run (call only) calls (create, 6)).1.0)
respondent_run-Alternates_example = respondent_run-Alternates only calls create 6
