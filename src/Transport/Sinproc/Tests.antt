-- ===== src/Transport/Sinproc/Tests.antt =====
-- sinproc.c: tests.
use msgbroker.Prelude.{◌≡◌, refl, true, none, some, [], ◌∷◌}
use msgbroker.Errno.{err, eagain}
use msgbroker.Memory.Msg.{Msg, empty_msg}
use msgbroker.Transport.Msgqueue
use msgbroker.Transport.Sinproc.{Ends, create, emsgsize, send, recv}

abbrev ends : Ends
ends = record { self = create 0 none; peer = some (create 100 (some 3)) }

abbrev hello : Msg
hello = record { sphdr = []; hdrs = []; body = 1 ∷ 2 ∷ [] }

abbrev long : Msg
long = record { sphdr = []; hdrs = []; body = 1 ∷ 2 ∷ 3 ∷ 4 ∷ [] }

too_long : (send true true long ends).0 ≡ err emsgsize
unfolding send
too_long = refl

no_peer : (send true true hello (record ends { peer = none })).0 ≡ err eagain
unfolding send
no_peer = refl

nothing_there : recv empty_msg ends ≡ some (err eagain, ends, empty_msg)
unfolding recv Msgqueue.empty Msgqueue.init
nothing_there = refl
