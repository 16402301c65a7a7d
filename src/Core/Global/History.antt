-- ===== src/Core/Global/History.antt =====
-- global.c: the numbers that sockets get, over any sequence of calls.
use msgbroker.Prelude.{
  ℕ, ◌<◌, ◌≡◌, refl, ap, sym, fun_ext, Bool, true, Option, none, some, List, [], ◌∷◌, if◌then◌else◌,
}
use msgbroker.Errno.{Rc, ok, err}
use msgbroker.Core.Socktypes.{Socktype, socktypes, find_socktype}
use msgbroker.Core.Global.{update, max_sockets, Global, socket, close, close_in, ebadf, etimedout}
use msgbroker.Core.Global.Calls.{opened, IsKept, SocketOutcome, socket-SocketOutcome}
use msgbroker.Core.Global.Close.{Closes, close_in-Closes}

-- What the application calls: `mb_socket` with memory for the table, and `mb_close`.
pub data Call : Type 0 where
  sockets : Bool → Rc → ℕ → ℕ → Call
  closes : Bool → ℕ → Call

-- The sockets that are open, by their number: all that an application can know of the table.
abbrev pub Opens : Type 0
Opens = ℕ → Option Socktype

-- What a close must return and do, when `o` is the socket of that number.
abbrev pub Shuts : Bool → ℕ → Opens → Option Socktype → Rc → Opens → Type 0
Shuts lingered s m none rc m' = (rc ≡ err ebadf) × (m' ≡ m)
Shuts lingered s m (some ty) rc m' =
    (rc ≡ (if lingered then err etimedout else ok 0)) × (m' ≡ update m s none)

-- What a call that returns `rc` must do to the open sockets.
abbrev pub Serves : Call → Opens → Rc → Opens → Type 0
Serves (sockets alloc_ok rc domain protocol) m (ok s) m' =
    (ty : Socktype) × (find_socktype protocol socktypes ≡ some ty)
    × (s < max_sockets)
    × (m s ≡ none)
    × (m' ≡ update m s (some ty))
Serves (sockets alloc_ok rc domain protocol) m (err e) m' = m' ≡ m
Serves (closes lingered s) m rc m' = Shuts lingered s m (m s) rc m'

-- The codes `rcs` of the calls, and the sockets that are open before and after them.
abbrev pub Accepts : List Call → Opens → List Rc → Opens → Type 0
Accepts [] m [] m' = m' ≡ m
Accepts [] m (rc ∷ rcs) m' = ⊥
Accepts (c ∷ cs) m [] m' = ⊥
Accepts (c ∷ cs) m (rc ∷ rcs) m' = (n : Opens) × Serves c m rc n × Accepts cs n rcs m'

abbrev pub call : Call → Global → Option (Rc × Global)
call (sockets alloc_ok rc domain protocol) g = socket true alloc_ok rc domain protocol g
call (closes lingered s) g = some ((close lingered s g).0, (close lingered s g).1)

abbrev pub followed : Rc → Option (List Rc × Global) → Option (List Rc × Global)
followed rc none = none
followed rc (some (rcs, g)) = some (rc ∷ rcs, g)

abbrev pub run_on :
    (Global → Option (List Rc × Global)) → Option (Rc × Global) → Option (List Rc × Global)
run_on rest none = none
run_on rest (some (rc, g)) = followed rc (rest g)

-- The codes that the calls return, and the state at the end.
abbrev pub run : List Call → Global → Option (List Rc × Global)
run [] g = some ([], g)
run (c ∷ cs) g = run_on (λ g'. run cs g') (call c g)

abbrev Stepped : Call → Global → Option (Rc × Global) → Type 0
Stepped c g o =
    (r : Rc × Global) × (o ≡ some r)
    × Serves c (opened g.table) r.0 (opened r.1.table)
    × IsKept r.1.table

socket-Stepped :
    (alloc_ok : Bool) (rc : Rc) (domain protocol : ℕ) (g : Global) (r : Rc × Global)
    → IsKept g.table
    → SocketOutcome protocol g.table r
    → Serves (sockets alloc_ok rc domain protocol) (opened g.table) r.0 (opened r.1.table)
      × IsKept r.1.table
socket-Stepped alloc_ok rc domain protocol g (err e, g') k h = (ap opened h, rw (sym h) at k)
socket-Stepped alloc_ok rc domain protocol g (ok s, g') k (ty, f, l, n, m, v) =
    ((ty, f, l, n, fun_ext m), v)

close-Stepped :
    (lingered : Bool) (s : ℕ) (g : Global) (o : Option Socktype) (r : Rc × Global)
    → IsKept g.table
    → Closes lingered s g g.table o r
    → Shuts lingered s (opened g.table) o r.0 (opened r.1.table) × IsKept r.1.table
close-Stepped lingered s g none r k h =
    let e : r.1 ≡ g = ap (λ x. x.1) h in
    ((ap (λ x. x.0) h, ap (λ x. opened x.table) e), rw (sym (ap (λ x. x.table) e)) at k)
close-Stepped lingered s g (some ty) r k (c, m, v) = ((c, fun_ext m), v)

call-Stepped : (c : Call) (g : Global) → IsKept g.table → Stepped c g (call c g)
unfolding close
call-Stepped (sockets alloc_ok rc domain protocol) g k =
    let t = socket-SocketOutcome alloc_ok rc domain protocol g k in
    let u = socket-Stepped alloc_ok rc domain protocol g t.0 k t.2 in (t.0, t.1, u.0, u.1)
call-Stepped (closes lingered s) g k =
    let u =
      close-Stepped lingered s g (opened g.table s) (close_in lingered s g g.table) k
        (close_in-Closes lingered s g g.table k) in
    (_, refl, u.0, u.1)

-- Over any sequence of calls of mb_socket and mb_close from a table that is in order, where memory for
-- the table is there, all calls return, and the sockets that are open change as the codes say:
-- mb_socket either fails and changes none, or gives a number below the limit that is not open, and
-- then that number alone is opened, with the type asked for; mb_close of a number that is open closes
-- it and no other, and returns 0, or -ETIMEDOUT if its messages lingered too long; of a number that
-- is not open it returns -EBADF and changes none. The table at the end, which is in order, holds
-- the sockets that are open after the last call.
pub run-Accepts :
    (cs : List Call) (g : Global)
    → IsKept g.table
    → (rcs : List Rc) × (g' : Global) × (run cs g ≡ some (rcs, g'))
      × Accepts cs (opened g.table) rcs (opened g'.table)
      × IsKept g'.table
run-Accepts [] g k = ([], g, refl, refl, k)
run-Accepts (c ∷ cs) g k =
    let a = call-Stepped c g k in
    let b = run-Accepts cs a.0.1 a.3 in
    (a.0.0 ∷ b.0, b.1, rw (a.1, b.2) refl, (opened a.0.1.table, a.2, b.3), b.4)
