-- ===== src/Core/Global.antt =====
-- src/core/global.c: the table of the open sockets, and the calls that fill and empty it. A socket is
-- known here by its type: the rest of `struct mb_sock` is the socket's own.
mod Count
mod Numbers
mod Calls
mod Close
mod History
mod Tests
use msgbroker.Prelude.{
  ℕ, zero, suc, ◌+◌, ◌-◌, Bool, true, false, not, ◌&&◌, ◌||◌, Option, none, some, ◌==◌, ltb, leb,
  if◌then◌else◌,
}
use msgbroker.Errno.{Errno, Rc, ok, err, enomem}
use msgbroker.Core.Socktypes.{Socktype, socktypes, find_socktype}

-- `MB_MAX_SOCKETS`.
abbrev pub max_sockets : ℕ
max_sockets = 1024

-- `AF_MB` and `AF_MB_RAW` of include/msgbroker/mb.h.
abbrev pub af_mb : ℕ
af_mb = 1

abbrev pub af_mb_raw : ℕ
af_mb_raw = 2

-- Codes of errno.h and, for `ETERM`, of include/msgbroker/mb.h.
abbrev pub ebadf : Errno
ebadf = Errno.other 9

abbrev pub emfile : Errno
emfile = Errno.other 24

abbrev pub eprotonosupport : Errno
eprotonosupport = Errno.other 93

abbrev pub eafnosupport : Errno
eafnosupport = Errno.other 97

abbrev pub etimedout : Errno
etimedout = Errno.other 110

abbrev pub eterm : Errno
eterm = Errno.other 156384765

-- The arrays `socks` and `unused`, by their index.
pub record Table : Type 0 where
  pub socks : ℕ → Option Socktype
  pub unused : ℕ → ℕ
  pub nsocks : ℕ

-- `struct mb_global`: `table` is `none` while `socks` is NULL, and the last two are the bits of `flags`.
pub record Global : Type 0 where
  pub table : Option Table
  pub inited : Bool
  pub terming : Bool
  pub termed : Bool

abbrev pub update {ℓ} : {A : Type ℓ} → (ℕ → A) → ℕ → A → ℕ → A
update f i a j = if i == j then a else f j

abbrev pub empty_table : Table
empty_table = record { socks = λ i. none; unused = λ i. max_sockets - i - 1; nsocks = 0 }

-- `mb_global_init`. `alloc_ok` is whether `mb_alloc` gives the arrays.
unfoldable pub global_init : Bool → Global → Global
global_init alloc_ok g = elim g.table [
  | some t ↦ g
  | none ↦
      if alloc_ok then record g { table = some empty_table; terming = false; termed = false } else g
]

-- `mb_global_term`: the arrays go with the last socket.
abbrev pub dropped : Option Table → Option Table
dropped none = none
dropped (some t) = if ltb 0 t.nsocks then some t else none

unfoldable pub global_term : Global → Global
global_term g = record g { table = dropped g.table }

-- The number that the next socket gets, and what becomes of the table then.
abbrev pub next_socket : Table → ℕ
next_socket t = t.unused (max_sockets - t.nsocks - 1)

abbrev pub taken : Socktype → Table → Table
taken ty t = record t { socks = update t.socks (next_socket t) (some ty); nsocks = t.nsocks + 1 }

-- `alloc_ok` is whether `mb_alloc` gives the socket, and `rc` what `mb_sock_init` returns.
abbrev pub init_socket : Bool → Rc → Socktype → Table → Rc × Table
init_socket false rc ty t = (err enomem, t)
init_socket true (err e) ty t = (err e, t)
init_socket true (ok n) ty t = (ok (next_socket t), taken ty t)

abbrev pub create_found : Bool → Rc → Option Socktype → Table → Rc × Table
create_found alloc_ok rc none t = (err eprotonosupport, t)
create_found alloc_ok rc (some ty) t = init_socket alloc_ok rc ty t

-- `mb_global_create_socket`.
unfoldable pub create_socket : Bool → Rc → ℕ → ℕ → Table → Rc × Table
create_socket alloc_ok rc domain protocol t =
    if not (domain == af_mb || domain == af_mb_raw)
    then (err eafnosupport, t)
    else if leb max_sockets t.nsocks
    then (err emfile, t)
    else create_found alloc_ok rc
        (if domain == af_mb then find_socktype protocol socktypes else none) t

-- A result of `mb_global_create_socket` in `mb_socket`.
abbrev pub created : Global → Rc × Table → Rc × Global
created g (ok s, t) = (ok s, record g { table = some t })
created g (err e, t) = (err e, global_term (record g { table = some t }))

abbrev pub create_in : Bool → Rc → ℕ → ℕ → Global → Option Table → Option (Rc × Global)
create_in alloc_ok rc domain protocol g none =
    if domain == af_mb || domain == af_mb_raw then none else some (err eafnosupport, g)
create_in alloc_ok rc domain protocol g (some t) =
    some (created g (create_socket alloc_ok rc domain protocol t))

-- `mb_socket`, with the error for -1 and `errno`; `none` is a read through the pointer `unused` of a
-- table that is not there.
unfoldable pub socket : Bool → Bool → Rc → ℕ → ℕ → Global → Option (Rc × Global)
socket table_ok alloc_ok rc domain protocol g =
    let h = record g { inited = true } in
    let i = global_init table_ok h in
    if g.terming || g.termed
    then some (err eterm, h)
    else create_in alloc_ok rc domain protocol i i.table

-- A socket leaves the table.
abbrev pub released : ℕ → Table → Table
released s t = record {
  socks = update t.socks s none;
  unused = update t.unused (max_sockets - t.nsocks) s;
  nsocks = t.nsocks - 1;
}

abbrev pub close_open : Bool → ℕ → Global → Table → Option Socktype → Rc × Global
close_open lingered s g t none = (err ebadf, g)
close_open lingered s g t (some ty) = (
  (if lingered then err etimedout else ok 0),
  global_term (record g { table = some (released s t) }),
)

abbrev pub close_in : Bool → ℕ → Global → Option Table → Rc × Global
close_in lingered s g none = (err ebadf, g)
close_in lingered s g (some t) =
    if leb max_sockets s then (err ebadf, g) else close_open lingered s g t (t.socks s)

-- `mb_close` for a number that is not negative. `lingered` is whether the socket's `linger_outcome` is 2
-- once it has stopped.
unfoldable pub close : Bool → ℕ → Global → Rc × Global
close lingered s g = close_in lingered s g g.table
