-- ===== src/Core/Socktypes/Tests.antt =====
-- global.c: tests and examples.
use msgbroker.Prelude.{◌≡◌, refl, some}
use msgbroker.Core.Socktypes.{Socktype, socktypes, find_socktype}
use msgbroker.Core.Socktypes.Peers.{ispeer_comm}
use msgbroker.Protocol.Req
use msgbroker.Protocol.Xrep
use msgbroker.Protocol.Types.{req_type, xrep_type}

abbrev req_socktype : Socktype
req_socktype = record { protocol = req_type; ispeer = Req.ispeer }

abbrev xrep_socktype : Socktype
xrep_socktype = record { protocol = xrep_type; ispeer = Xrep.ispeer }

req_found : find_socktype req_type socktypes ≡ some req_socktype
unfolding find_socktype
req_found = refl

xrep_found : find_socktype xrep_type socktypes ≡ some xrep_socktype
unfolding find_socktype
xrep_found = refl

ispeer_comm_example : req_socktype.ispeer xrep_type ≡ xrep_socktype.ispeer req_type
ispeer_comm_example = ispeer_comm req_type xrep_type req_socktype xrep_socktype req_found xrep_found
