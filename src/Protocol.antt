-- ===== src/Protocol.antt =====
-- src/protocol: the socket types.
pub mod Types
pub mod Turns
pub mod Spread
pub mod Req
pub mod Rep
pub mod Sub
pub mod Respondent
pub mod Push
pub mod Xpush
pub mod Pull
pub mod Xpull
pub mod Xreq
pub mod Xsub
pub mod Xbus
pub mod Xpair
pub mod Xsurveyor
pub mod Xpub
pub mod Xrespondent
pub mod Bus
pub mod Pair
pub mod Xrep
pub mod Surveyor
pub mod Pub
