-- ===== src/Transport/Sipc/Tests.antt =====
-- sipc.c: tests.
use msgbroker.Prelude.{ℕ, ◌≡◌, refl, none, some, List, [], ◌∷◌, ◌++◌, arith}
use msgbroker.Errno.{err}
use msgbroker.Memory.Msg.{Msg, empty_msg}
use msgbroker.Core.Pipe.{refuses}
use msgbroker.Transport.Sinproc.{emsgsize}
use msgbroker.Transport.Stream.Line.{Line, line, taken_of, to_come_of, line-IsStream}
use msgbroker.Transport.Sipc.{
  Sipc, create, send_fd, recv_fd, flush_from, flush_outbuf, report_error, sync_bufs,
}
use msgbroker.Transport.Sipc.Calls.{send, recv}
use msgbroker.Transport.Sipc.Send.{SendOutcome, sipc_send-SendOutcome}
use msgbroker.Transport.Sipc.Coming.{RecvOutcome}
use msgbroker.Transport.Sipc.Recv.{sipc_recv-RecvOutcome}
use msgbroker.Transport.Sipc.Course.{Call, to_send, to_recv, Course, run, run_in_order}

abbrev ignore : Sipc → Line → Sipc × Line
ignore s w = (s, w)

abbrev fresh : Line
fresh = record { taken = []; to_come = [] }

abbrev say : List ℕ → Call
say b = to_send (record empty_msg { body = b })

abbrev sends : List Call
sends = say (7 ∷ 8 ∷ []) ∷ say [] ∷ to_recv ∷ say (9 ∷ []) ∷ []

abbrev sent : Course × Sipc × Line
sent = run line ignore sends (create 1 none 0) fresh

abbrev reads : List Call
reads = to_recv ∷ to_recv ∷ to_recv ∷ []

-- Two frames and a half have come.
abbrev arrived : Line
arrived = record { taken = []; to_come = 0 ∷ 0 ∷ 0 ∷ 2 ∷ 7 ∷ 8 ∷ 0 ∷ 0 ∷ 0 ∷ 0 ∷ 0 ∷ 0 ∷ [] }

abbrev received : Course × Sipc × Line
received = run line ignore reads (create 0 (some 5) 0) arrived

sent_bytes : sent.2.taken ≡ 0 ∷ 0 ∷ 0 ∷ 2 ∷ 7 ∷ 8 ∷ 0 ∷ 0 ∷ 0 ∷ 0 ∷ 0 ∷ 0 ∷ 0 ∷ 1 ∷ 9 ∷ []
unfolding run send recv flush_outbuf flush_from send_fd recv_fd sync_bufs
sent_bytes = refl

received_two : received.0.delivered ≡ (7 ∷ 8 ∷ []) ∷ [] ∷ []
unfolding run send recv flush_outbuf flush_from send_fd recv_fd sync_bufs
received_two = refl

run_in_order_example :
    (more : List (List ℕ)) × ((run line ignore reads (create 0 (some 5) 0) arrived).0.delivered
        ++ more
      ≡ (run line ignore sends (create 1 none 0) fresh).0.accepted)
unfolding run send recv flush_outbuf flush_from send_fd recv_fd sync_bufs
run_in_order_example =
    run_in_order line ignore taken_of to_come_of line-IsStream line ignore taken_of to_come_of
      line-IsStream sends reads 1 0 0 0 none (some 5) fresh arrived (0 ∷ 1 ∷ 9 ∷ []) refl refl refl

abbrev hello : Msg
hello = record empty_msg { body = 1 ∷ 2 ∷ [] }

sipc_send-SendOutcome_example :
    SendOutcome taken_of to_come_of hello
      (create 0 (some 5) 0)
      arrived
      (send line ignore hello (create 0 (some 5) 0) arrived)
sipc_send-SendOutcome_example =
    sipc_send-SendOutcome line ignore taken_of to_come_of line-IsStream hello (create 0 (some 5) 0)
      arrived

sipc_recv-RecvOutcome_example :
    RecvOutcome taken_of to_come_of
      (create 0 (some 5) 0)
      arrived
      (recv line ignore (create 0 (some 5) 0) arrived)
sipc_recv-RecvOutcome_example =
    sipc_recv-RecvOutcome line ignore taken_of to_come_of line-IsStream (create 0 (some 5) 0)
      arrived (omega arith)

-- A message above the limit is refused, and a header that announces one breaks the session.
too_long :
    (send line ignore (record empty_msg { body = 1 ∷ 2 ∷ [] }) (create 0 (some 1) 0) fresh).0
    ≡ err emsgsize
unfolding send flush_outbuf sync_bufs
too_long = refl

bad_size : (recv line ignore (create 0 (some 1) 0) arrived).0 ≡ refuses emsgsize
unfolding recv flush_outbuf recv_fd report_error sync_bufs
bad_size = refl
