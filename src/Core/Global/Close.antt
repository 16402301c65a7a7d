-- ===== src/Core/Global/Close.antt =====
-- global.c: a socket is closed.
use msgbroker.Prelude.{
  ℕ, ◌<◌, ◌≡◌, refl, sym, ◌∙◌, Bool, true, false, Option, none, some, ◌==◌, ltb, leb, ltb→lt,
  Bool-cases, inl, inr, if◌then◌else◌, arith,
}
use msgbroker.Errno.{Rc, ok, err}
use msgbroker.Core.Socktypes.{Socktype}
use msgbroker.Core.Global.{
  update, max_sockets, Table, Global, global_term, dropped, released, close_open, close_in, ebadf,
  etimedout,
}
use msgbroker.Core.Global.Count.{open_below_zero}
use msgbroker.Core.Global.Numbers.{IsTable, released-IsTable}
use msgbroker.Core.Global.Calls.{opened, IsKept}

-- What closing the number `s` comes to, where `o` is the table before.
abbrev pub Closes : Bool → ℕ → Global → Option Table → Option Socktype → Rc × Global → Type 0
Closes lingered s g o none r = r ≡ (err ebadf, g)
Closes lingered s g o (some ty) r =
    (r.0 ≡ (if lingered then err etimedout else ok 0))
    × ((j : ℕ) → opened r.1.table j ≡ update (opened o) s none j)
    × IsKept r.1.table

opened-released :
    (s : ℕ) (t : Table) (j : ℕ) → opened (some (released s t)) j ≡ update (opened (some t)) s none j
opened-released s t j = elim (Bool-cases (ltb j max_sockets)) [
  | inl e ↦ rw e refl
  | inr e ↦ elim (Bool-cases (s == j)) [ inl q ↦ rw (e, q) refl | inr q ↦ rw (e, q) refl ]
]

opened-none : (t : Table) → IsTable t → t.nsocks ≡ 0 → (j : ℕ) → opened (some t) j ≡ none
opened-none t v h j = elim (Bool-cases (ltb j max_sockets)) [
  | inl e ↦ rw e (open_below_zero max_sockets j t.socks (v.counted ∙ h) (ltb→lt j max_sockets e))
  | inr e ↦ rw e refl
]

-- Dropping an empty table changes nothing that shows.
dropped_lem :
    (t : Table)
    → IsTable t
    → ((j : ℕ) → opened (dropped (some t)) j ≡ opened (some t) j) × IsKept (dropped (some t))
dropped_lem t v = elim (Bool-cases (ltb 0 t.nsocks)) [
  | inl e ↦ rw e ((λ j. refl), (v, ltb→lt 0 t.nsocks e))
  | inr e ↦ let z : t.nsocks ≡ 0 = ground arith in rw e ((λ j. sym (opened-none t v z j)), tt)
]

close_open-Closes :
    (lingered : Bool) (s : ℕ) (g : Global) (t : Table) (o : Option Socktype)
    → IsTable t
    → s < max_sockets
    → t.socks s ≡ o
    → Closes lingered s g (some t) o (close_open lingered s g t o)
unfolding global_term
close_open-Closes lingered s g t none v h k = refl
close_open-Closes lingered s g t (some ty) v h k =
    let d = dropped_lem (released s t) (released-IsTable s ty t v h k) in
    (refl, (λ j. d.0 j ∙ opened-released s t j), d.1)

leb-ltb : (a b : ℕ) → leb a b ≡ false → ltb b a ≡ true
leb-ltb a b h = ground arith

ltb-leb : (a b : ℕ) → leb a b ≡ true → ltb b a ≡ false
ltb-leb a b h = ground arith

pub close_in-Closes :
    (lingered : Bool) (s : ℕ) (g : Global) (o : Option Table)
    → IsKept o
    → Closes lingered s g o (opened o s) (close_in lingered s g o)
close_in-Closes lingered s g none k = refl
close_in-Closes lingered s g (some t) k = elim (Bool-cases (leb max_sockets s)) [
  | inl e ↦ rw (e, ltb-leb max_sockets s e) refl
  | inr e ↦
      let l = leb-ltb max_sockets s e in
      rw (e, l) (close_open-Closes lingered s g t (t.socks s) k.0 (ltb→lt s max_sockets l) refl)
]
