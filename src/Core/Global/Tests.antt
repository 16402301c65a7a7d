-- ===== src/Core/Global/Tests.antt =====
-- global.c: tests and examples.
use msgbroker.Prelude.{◌≡◌, refl, true, false, Option, none, some, List, [], ◌∷◌}
use msgbroker.Errno.{Rc, ok, err}
use msgbroker.Core.Socktypes.{Socktype, find_socktype}
use msgbroker.Core.Global.{
  Global, af_mb, af_mb_raw, global_init, global_term, create_socket, socket, close, ebadf,
  eprotonosupport, etimedout,
}
use msgbroker.Core.Global.Calls.{opened, IsKept}
use msgbroker.Core.Global.History.{Call, sockets, closes, run, Accepts, run-Accepts}
use msgbroker.Protocol.Pair
use msgbroker.Protocol.Req
use msgbroker.Protocol.Types.{pair_type, req_type}

abbrev fresh : Global
fresh = record { table = none; inited = false; terming = false; termed = false }

abbrev pair_socktype : Socktype
pair_socktype = record { protocol = pair_type; ispeer = Pair.ispeer }

abbrev req_socktype : Socktype
req_socktype = record { protocol = req_type; ispeer = Req.ispeer }

-- Two sockets, the first closed and its number given out again, a number that is not open, and the
-- domain of raw sockets, in which no type is found.
abbrev calls : List Call
calls =
    sockets true (ok 0) af_mb req_type
    ∷ sockets true (ok 0) af_mb pair_type
    ∷ closes false 0
    ∷ sockets true (ok 0) af_mb pair_type
    ∷ closes false 7
    ∷ sockets true (ok 0) af_mb_raw pair_type
    ∷ closes true 1
    ∷ closes false 0
    ∷ []

abbrev codes_of : Option (List Rc × Global) → List Rc
codes_of none = []
codes_of (some (rcs, g)) = rcs

calls_codes :
    codes_of (run calls fresh)
    ≡ ok 0 ∷ ok 1 ∷ ok 0 ∷ ok 0 ∷ err ebadf ∷ err eprotonosupport ∷ err etimedout ∷ ok 0 ∷ []
unfolding socket close global_init global_term create_socket find_socktype
calls_codes = refl

run-Accepts_example :
    (rcs : List Rc) × (g' : Global) × (run calls fresh ≡ some (rcs, g'))
    × Accepts calls (opened none) rcs (opened g'.table)
    × IsKept g'.table
run-Accepts_example = run-Accepts calls fresh tt
