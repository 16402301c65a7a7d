-- ===== src/Protocol/Surveyor/Tests.antt =====
-- surveyor.c: tests and examples.
use msgbroker.Prelude.{ℕ, zero, suc, ◌<◌, ◌≤◌, ◌≡◌, refl, arith, true, false, some, List, [], ◌∷◌}
use msgbroker.Errno.{Errno, eagain, efsm}
use msgbroker.Memory.Msg.{Msg, empty_msg}
use msgbroker.Core.Pipe.{Answer, yields, refuses, Pipes}
use msgbroker.Utils.Rotor.{names, add, probe}
use msgbroker.Utils.Rotor
use msgbroker.Protocol.Spread.{send_copies, any_yes}
use msgbroker.Protocol.Surveyor.{
  Surveyor, create, rm, drain, drain_pipe, check_deadline, recv, send, events, etimedout,
}
use msgbroker.Protocol.Surveyor.Drain.{AllEmptied, RunsDry}
use msgbroker.Protocol.Surveyor.Calls.{
  Call, run, adds, rms, polls, recvs, sends, opened, replied, closed, told, abandoned,
}
use msgbroker.Protocol.Surveyor.Late.{recv_late}

abbrev take_one : ℕ → Answer Msg × ℕ
take_one zero = (refuses eagain, zero)
take_one (suc n) = (yields empty_msg, n)

-- Every pipe gives from a common stock, to which each survey that a pipe takes adds one.
abbrev echo : Pipes ℕ
echo = record {
  recv = λ p w. take_one w;
  send = λ m p w. (yields _, suc w);
  has_msg = λ p w. (true, w);
  can_send = λ p w. (true, w);
}

take_one_falls : (w w' : ℕ) (m : Msg) → take_one w ≡ (yields m, w') → w' < w
take_one_falls zero w' m h = ground arith
take_one_falls (suc n) w' m h = ground arith

take_one_stays : (w w' : ℕ) (e : Errno) → take_one w ≡ (refuses e, w') → w' ≤ w
take_one_stays zero w' e h = ground arith
take_one_stays (suc n) w' e h = ground arith

echo_dry : RunsDry echo (λ w. w)
echo_dry = record {
  falls = λ p w w' m h. take_one_falls w w' m h;
  stays = λ p w w' e h. take_one_stays w w' e h;
}

-- A survey with two replies pending and one read, its end by the deadline, and the next survey, which
-- ends with the last respondent.
abbrev calls : List Call
calls =
    adds true 5
    ∷ sends 100 101 empty_msg
    ∷ sends 150 151 empty_msg
    ∷ recvs 200
    ∷ polls 1500
    ∷ recvs 1600
    ∷ recvs 1700
    ∷ sends 2000 2001 empty_msg
    ∷ rms 5
    ∷ []

calls_events :
    run echo (λ w. suc w) calls create 0
    ≡ some (
      opened ∷ replied ∷ closed ∷ told ∷ opened ∷ abandoned ∷ [],
      record create { survey_expire_ms = 3001 },
      1,
    )
unfolding add rm Rotor.rm probe drain drain_pipe check_deadline recv send events send_copies any_yes
calls_events = refl

abbrev stale : Surveyor
stale = record {
  pipes = add 5 [];
  surveying = true;
  timed_out = false;
  deadline_ms = 1000;
  survey_expire_ms = 1101;
}

recv_late_example :
    (s' : Surveyor) × (w' : ℕ) × (recv echo 4 1500 stale 3 ≡ some (refuses etimedout, s', w'))
    × AllEmptied echo (λ w. w) (names stale.pipes) 3 w'
    × (names s'.pipes ≡ names stale.pipes)
    × (s'.surveying ≡ false)
    × ((fuel' now' : ℕ) (v : ℕ) → recv echo fuel' now' s' v ≡ some (refuses efsm, s', v))
recv_late_example =
    recv_late echo (λ w. w) echo_dry 4 1500 stale 3 (omega arith) refl (omega arith) (omega arith)
