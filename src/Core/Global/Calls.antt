-- ===== src/Core/Global/Calls.antt =====
-- global.c: the open sockets over any sequence of calls.
use msgbroker.Prelude.{
  ℕ, ◌-◌, ◌<◌, ◌≡◌, refl, ap, ◌∙◌, Bool, true, false, not, ◌||◌, Option, none, some, ◌==◌, ==_iff,
  ltb, leb, lt→ltb, Bool-cases, Option-cases, inl, inr, if◌then◌else◌, arith,
}
use msgbroker.Errno.{Rc, ok, err}
use msgbroker.Core.Socktypes.{Socktype, socktypes, find_socktype}
use msgbroker.Core.Global.{
  update, max_sockets, Table, Global, empty_table, global_init, global_term, dropped, next_socket,
  taken, init_socket, create_found, create_socket, created, create_in, socket, released, close_open,
  close_in, close, af_mb, af_mb_raw, ebadf, etimedout, eterm,
}
use msgbroker.Core.Global.Numbers.{IsTable, empty_table-IsTable, taken-IsTable}

-- The sockets that are open, by their number.
abbrev pub opened : Option Table → ℕ → Option Socktype
opened none s = none
opened (some t) s = if ltb s max_sockets then t.socks s else none

abbrev pub IsKept : Option Table → Type 0
IsKept none = Unit
IsKept (some t) = IsTable t × (0 < t.nsocks)

-- What `mb_global_create_socket` comes to.
abbrev pub Creates : ℕ → Table → Rc × Table → Type 0
Creates protocol t (err e, t') = t' ≡ t
Creates protocol t (ok s, t') =
    (ty : Socktype) × (find_socktype protocol socktypes ≡ some ty)
    × (s ≡ next_socket t)
    × (t' ≡ taken ty t)
    × (t.nsocks < max_sockets)

init_socket-Creates :
    (alloc_ok : Bool) (rc : Rc) (protocol : ℕ) (ty : Socktype) (t : Table)
    → find_socktype protocol socktypes ≡ some ty
    → t.nsocks < max_sockets
    → Creates protocol t (init_socket alloc_ok rc ty t)
init_socket-Creates false rc protocol ty t h k = refl
init_socket-Creates true (err e) protocol ty t h k = refl
init_socket-Creates true (ok n) protocol ty t h k = (ty, h, refl, refl, k)

create_found-Creates :
    (alloc_ok : Bool) (rc : Rc) (protocol : ℕ) (o : Option Socktype) (t : Table)
    → find_socktype protocol socktypes ≡ o
    → t.nsocks < max_sockets
    → Creates protocol t (create_found alloc_ok rc o t)
create_found-Creates alloc_ok rc protocol none t h k = refl
create_found-Creates alloc_ok rc protocol (some ty) t h k =
    init_socket-Creates alloc_ok rc protocol ty t h k

create_tests :
    (a b c alloc_ok : Bool) (rc : Rc) (protocol : ℕ) (t : Table)
    → (b ≡ false → t.nsocks < max_sockets)
    → Creates protocol t (
        if a
        then (err msgbroker.Core.Global.eafnosupport, t)
        else if b
        then (err msgbroker.Core.Global.emfile, t)
        else create_found alloc_ok rc (if c then find_socktype protocol socktypes else none) t)
create_tests true b c alloc_ok rc protocol t h = refl
create_tests false true c alloc_ok rc protocol t h = refl
create_tests false false false alloc_ok rc protocol t h = refl
create_tests false false true alloc_ok rc protocol t h =
    create_found-Creates alloc_ok rc protocol (find_socktype protocol socktypes) t refl (h refl)

leb-false : (a b : ℕ) → leb a b ≡ false → b < a
leb-false a b h = ground arith

create_socket-Creates :
    (alloc_ok : Bool) (rc : Rc) (domain protocol : ℕ) (t : Table)
    → Creates protocol t (create_socket alloc_ok rc domain protocol t)
unfolding create_socket
create_socket-Creates alloc_ok rc domain protocol t =
    create_tests (not (domain == af_mb || domain == af_mb_raw)) (leb max_sockets t.nsocks)
      (domain == af_mb) alloc_ok rc protocol t (λ e. leb-false max_sockets t.nsocks e)

-- What a call of socket comes to.
abbrev pub SocketOutcome : ℕ → Option Table → Rc × Global → Type 0
SocketOutcome protocol o (err e, g') = g'.table ≡ o
SocketOutcome protocol o (ok s, g') =
    (ty : Socktype) × (find_socktype protocol socktypes ≡ some ty)
    × (s < max_sockets)
    × (opened o s ≡ none)
    × ((j : ℕ) → opened g'.table j ≡ update (opened o) s (some ty) j)
    × IsKept g'.table

opened-taken :
    (ty : Socktype) (t : Table) (j : ℕ)
    → next_socket t < max_sockets
    → opened (some (taken ty t)) j ≡ update (opened (some t)) (next_socket t) (some ty) j
opened-taken ty t j h = elim (Bool-cases (next_socket t == j)) [
  | inl e ↦
      let q = (==_iff (next_socket t) j).0 e in
      let l : ltb j max_sockets ≡ true = lt→ltb j max_sockets (omega (arith, q, h)) in
      rw (e, l) refl
  | inr e ↦ rw e refl
]

-- The table that a call of socket works on.
abbrev pub start : Option Table → Table
start none = empty_table
start (some t) = t

start-IsTable : (o : Option Table) → IsKept o → IsTable (start o)
start-IsTable none k = empty_table-IsTable
start-IsTable (some t) k = k.0

opened-start : (o : Option Table) (j : ℕ) → opened (some (start o)) j ≡ opened o j
opened-start none j = elim (Bool-cases (ltb j max_sockets)) [
  | inl e ↦ rw e refl
  | inr e ↦ rw e refl
]
opened-start (some t) j = refl

dropped-start : (o : Option Table) → IsKept o → dropped (some (start o)) ≡ o
dropped-start none k = refl
dropped-start (some t) k = rw (lt→ltb 0 t.nsocks k.1) refl

opened_free : (o : Option Table) (s : ℕ) → (start o).socks s ≡ none → opened o s ≡ none
opened_free none s h = refl
opened_free (some t) s h = elim (Bool-cases (ltb s max_sockets)) [
  | inl e ↦ rw e h
  | inr e ↦ rw e refl
]

update-start :
    (o : Option Table) (ty : Socktype) (i j : ℕ)
    → update (opened (some (start o))) i (some ty) j ≡ update (opened o) i (some ty) j
update-start o ty i j = ap (λ x. if i == j then some ty else x) (opened-start o j)

created-SocketOutcome :
    (protocol : ℕ) (g : Global) (o : Option Table) (r : Rc × Table)
    → IsKept o
    → Creates protocol (start o) r
    → SocketOutcome protocol o (created g r)
unfolding global_term
created-SocketOutcome protocol g o (err e, t') k c =
    ap (λ t. dropped (some t)) c ∙ dropped-start o k
created-SocketOutcome protocol g o (ok s, t') k (ty, f, q, c, n) =
    let v = start-IsTable o k in
    let top : max_sockets - (start o).nsocks - 1 < max_sockets - (start o).nsocks = omega arith in
    let l : next_socket (start o) < max_sockets = v.in_range _ top in
    rw (q, c)
      (
        ty,
        f,
        l,
        opened_free o _ (v.free _ top),
        (λ j. opened-taken ty (start o) j l ∙ update-start o ty _ j),
        (taken-IsTable ty (start o) v n, omega arith),
      )

-- A call of socket that has memory for the table.
pub socket-SocketOutcome :
    (alloc_ok : Bool) (rc : Rc) (domain protocol : ℕ) (g : Global)
    → IsKept g.table
    → (r : Rc × Global) × (socket true alloc_ok rc domain protocol g ≡ some r)
      × SocketOutcome protocol g.table r
unfolding socket global_init
socket-SocketOutcome alloc_ok rc domain protocol g k = elim (Bool-cases (g.terming || g.termed)) [
  | inl e ↦ simp e ((err eterm, record g { inited = true }), refl, refl)
  | inr e ↦ elim (Option-cases g.table) [
    | inl q ↦
        let c = create_socket-Creates alloc_ok rc domain protocol empty_table in
        simp (e, q)
          (
            _,
            refl,
            created-SocketOutcome protocol
                (record {
                  table = some empty_table;
                  inited = true;
                  terming = false;
                  termed = false;
                })
                none _ tt c,
          )
    | inr (t, q) ↦
        let c = create_socket-Creates alloc_ok rc domain protocol t in
        simp (e, q)
          (
            _,
            refl,
            created-SocketOutcome protocol
                (record { table = some t; inited = true; terming = g.terming; termed = g.termed })
                (some t) _ (rw q at k) c,
          )
  ]
]
