-- ===== src/Protocol/Types.antt =====
-- include/msgbroker/mb_*.h: the numbers of the socket types.
use msgbroker.Prelude.{ℕ}

abbrev pub pair_type : ℕ
pair_type = 16

abbrev pub xpair_type : ℕ
xpair_type = 24

abbrev pub pub_type : ℕ
pub_type = 32

abbrev pub sub_type : ℕ
sub_type = 33

abbrev pub xpub_type : ℕ
xpub_type = 40

abbrev pub xsub_type : ℕ
xsub_type = 41

abbrev pub req_type : ℕ
req_type = 48

abbrev pub rep_type : ℕ
rep_type = 49

abbrev pub xreq_type : ℕ
xreq_type = 56

abbrev pub xrep_type : ℕ
xrep_type = 57

abbrev pub surveyor_type : ℕ
surveyor_type = 64

abbrev pub respondent_type : ℕ
respondent_type = 65

abbrev pub xsurveyor_type : ℕ
xsurveyor_type = 72

abbrev pub xrespondent_type : ℕ
xrespondent_type = 73

abbrev pub push_type : ℕ
push_type = 80

abbrev pub pull_type : ℕ
pull_type = 81

abbrev pub xpush_type : ℕ
xpush_type = 88

abbrev pub xpull_type : ℕ
xpull_type = 89

abbrev pub bus_type : ℕ
bus_type = 96

abbrev pub xbus_type : ℕ
xbus_type = 104
