-- ===== src/Transport/Msgqueue/Tests.antt =====
-- msgqueue.c on concrete queues.
use msgbroker.Prelude.{◌≡◌, refl, true, false, none, List, [], ◌∷◌, arith, replicate}
use msgbroker.Memory.Msg.{Msg, empty_msg}
use msgbroker.Transport.Msgqueue.{Queue, push, pop, init, can_push_sz}
use msgbroker.Transport.Msgqueue.Valid.{IsValid}
use msgbroker.Transport.Msgqueue.Refine.{PushOutcome, PopOutcome, push_refines, pop_refines}
use msgbroker.Transport.Msgqueue.Cap.{IsAccounted, PopAccounted, push-IsAccounted, pop-IsAccounted}
use msgbroker.Transport.Msgqueue.History.{Op, pushes, pops, limits, run, start, Fifo, run-Fifo}

abbrev hello : Msg
hello = record { sphdr = []; hdrs = []; body = b'h' ∷ b'i' ∷ [] }

-- A queue of 10 bytes that holds one message of 2, in the first slot.
abbrev holding : Queue
holding = record {
  chunks = (hello ∷ replicate 63 empty_msg) ∷ [];
  in_pos = 0;
  out_pos = 1;
  count = 1;
  mem = 2;
  maxmem = 10;
  pending_sz = 0;
  cache = none;
}

push-init : (push true true (init 10) hello).1 ≡ holding
unfolding push init
push-init = refl

holding-IsValid : IsValid holding
holding-IsValid = record {
  full = (refl, tt);
  cursors = omega arith;
  in_lt = omega arith;
  out_le = omega arith;
  counted = refl;
  bounded = omega arith;
  cached = tt;
}

holding-IsAccounted : IsAccounted holding
holding-IsAccounted = record {
  sized = (omega arith, tt);
  exact = refl;
  within = λ h. omega arith;
  limit = omega arith;
}

abbrev script : List Op
script = pushes true true hello ∷ pops ∷ pops ∷ limits 1 ∷ pushes true true hello ∷ []

push_refines_example :
    PushOutcome true holding hello (can_push_sz holding 2) (push true false holding hello)
push_refines_example = push_refines hello holding-IsValid true false (omega arith)

pop_refines_example : PopOutcome (hello ∷ []) empty_msg (pop holding empty_msg)
pop_refines_example = pop_refines empty_msg holding-IsValid

push-IsAccounted_example : IsAccounted (push true true holding hello).1
push-IsAccounted_example =
    push-IsAccounted hello holding-IsValid holding-IsAccounted true true (omega arith) (omega arith)

pop-IsAccounted_example : PopAccounted (pop holding empty_msg)
pop-IsAccounted_example = pop-IsAccounted empty_msg holding-IsValid holding-IsAccounted

full_queue : can_push_sz (record holding { mem = 9 }) 2 ≡ false
unfolding can_push_sz
full_queue = refl

run-Fifo_example : Fifo (run script (start 10))
run-Fifo_example = run-Fifo 10 script (omega arith)
