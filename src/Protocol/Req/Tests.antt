-- ===== src/Protocol/Req/Tests.antt =====
-- req.c: tests and examples.
use msgbroker.Prelude.{ℕ, ◌≡◌, refl, true, List, [], ◌∷◌, ◌==◌, if◌then◌else◌}
use msgbroker.Errno.{eagain}
use msgbroker.Memory.Msg.{empty_msg}
use msgbroker.Core.Pipe.{yields, refuses, Pipes}
use msgbroker.Protocol.Turns.{asked, answered, lost, returned, idle, Alternates, run}
use msgbroker.Protocol.Req.{create, send, recv, events, rm}
use msgbroker.Utils.Rotor.{rotate, activate, add}
use msgbroker.Utils.Lb.{can_send}
use msgbroker.Protocol.Req.Alternation.{
  Call, adds, rms, sends, recvs, polls, call, phase, run-Alternates, create-IsReq,
}

-- Only pipe `w` takes requests, and every pipe has a reply.
abbrev only : Pipes ℕ
only = record {
  recv = λ p w. (yields empty_msg, w);
  send = λ m p w. (if p == w then yields _ else refuses eagain, w);
  has_msg = λ p w. (true, w);
  can_send = λ p w. (p == w, w);
}

abbrev calls : List Call
calls =
    adds true 5
    ∷ adds true 6
    ∷ sends empty_msg
    ∷ sends empty_msg
    ∷ recvs
    ∷ polls
    ∷ sends empty_msg
    ∷ rms 5
    ∷ []

calls_events :
    (run (call only) calls (create, 5)).0
    ≡ asked 5 empty_msg
      ∷ returned empty_msg
      ∷ answered 5 empty_msg
      ∷ returned empty_msg
      ∷ asked 5 empty_msg
      ∷ returned empty_msg
      ∷ lost 5
      ∷ []
unfolding rotate send activate add recv events can_send rm
calls_events = refl

calls_end : phase (run (call only) calls (create, 5)).1.0 ≡ idle
unfolding rotate send activate add recv events can_send rm
calls_end = refl

run-Alternates_example :
    Alternates idle
      (run (call only) calls (create, 5)).0
      (phase (run (call only) calls (create, 5)).1.0)
run-Alternates_example = run-Alternates only calls create 5 create-IsReq
