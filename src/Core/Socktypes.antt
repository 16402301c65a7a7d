-- ===== src/Core/Socktypes.antt =====
-- src/core/global.c: the table of the socket types, of src/protocol.h's `struct mb_socktype`.
mod Peers
mod Tests
use msgbroker.Prelude.{ℕ, Bool, Option, none, some, List, [], ◌∷◌, ◌==◌, if◌then◌else◌}
use msgbroker.Protocol.Pair
use msgbroker.Protocol.Push
use msgbroker.Protocol.Pull
use msgbroker.Protocol.Req
use msgbroker.Protocol.Rep
use msgbroker.Protocol.Pub
use msgbroker.Protocol.Sub
use msgbroker.Protocol.Bus
use msgbroker.Protocol.Surveyor
use msgbroker.Protocol.Respondent
use msgbroker.Protocol.Xpair
use msgbroker.Protocol.Xpush
use msgbroker.Protocol.Xpull
use msgbroker.Protocol.Xreq
use msgbroker.Protocol.Xrep
use msgbroker.Protocol.Xpub
use msgbroker.Protocol.Xsub
use msgbroker.Protocol.Xbus
use msgbroker.Protocol.Xsurveyor
use msgbroker.Protocol.Xrespondent
use msgbroker.Protocol.Types.{
  pair_type, push_type, pull_type, req_type, rep_type, pub_type, sub_type, bus_type, surveyor_type,
  respondent_type, xpair_type, xpush_type, xpull_type, xreq_type, xrep_type, xpub_type, xsub_type,
  xbus_type, xsurveyor_type, xrespondent_type,
}

-- The number of the protocol, and `ispeer`.
pub record Socktype : Type 0 where
  pub protocol : ℕ
  pub ispeer : ℕ → Bool

-- `mb_socktypes`, in its order.
abbrev pub socktypes : List Socktype
socktypes =
    record { protocol = pair_type; ispeer = Pair.ispeer }
    ∷ record { protocol = push_type; ispeer = Push.ispeer }
    ∷ record { protocol = pull_type; ispeer = Pull.ispeer }
    ∷ record { protocol = req_type; ispeer = Req.ispeer }
    ∷ record { protocol = rep_type; ispeer = Rep.ispeer }
    ∷ record { protocol = pub_type; ispeer = Pub.ispeer }
    ∷ record { protocol = sub_type; ispeer = Sub.ispeer }
    ∷ record { protocol = bus_type; ispeer = Bus.ispeer }
    ∷ record { protocol = surveyor_type; ispeer = Surveyor.ispeer }
    ∷ record { protocol = respondent_type; ispeer = Respondent.ispeer }
    ∷ record { protocol = xpair_type; ispeer = Xpair.ispeer }
    ∷ record { protocol = xpush_type; ispeer = Xpush.ispeer }
    ∷ record { protocol = xpull_type; ispeer = Xpull.ispeer }
    ∷ record { protocol = xreq_type; ispeer = Xreq.ispeer }
    ∷ record { protocol = xrep_type; ispeer = Xrep.ispeer }
    ∷ record { protocol = xpub_type; ispeer = Xpub.ispeer }
    ∷ record { protocol = xsub_type; ispeer = Xsub.ispeer }
    ∷ record { protocol = xbus_type; ispeer = Xbus.ispeer }
    ∷ record { protocol = xsurveyor_type; ispeer = Xsurveyor.ispeer }
    ∷ record { protocol = xrespondent_type; ispeer = Xrespondent.ispeer }
    ∷ []

-- The loop of `mb_global_create_socket` that looks for the protocol. The domain of every type of the
-- table is `AF_MB`.
unfoldable pub find_socktype : ℕ → List Socktype → Option Socktype
find_socktype protocol [] = none
find_socktype protocol (t ∷ ts) =
    if t.protocol == protocol then some t else find_socktype protocol ts
