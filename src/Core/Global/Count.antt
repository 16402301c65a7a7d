-- ===== src/Core/Global/Count.antt =====
-- global.c: how many sockets are open.
use msgbroker.Prelude.{
  ℕ, zero, suc, ◌+◌, ◌<◌, ◌≤◌, ◌≡◌, refl, ap, sym, ◌∙◌, false, Option, none, some, ◌==◌, ==_iff,
  Bool-cases, inl, inr, arith,
}
use msgbroker.Core.Socktypes.{Socktype}
use msgbroker.Core.Global.{update}

abbrev pub held : Option Socktype → ℕ
held none = 0
held (some t) = 1

-- The open sockets of the numbers below `n`.
unfoldable pub open_below : ℕ → (ℕ → Option Socktype) → ℕ
open_below zero f = 0
open_below (suc n) f = held (f n) + open_below n f

open_below-update_out :
    (n s : ℕ) (f : ℕ → Option Socktype) (o : Option Socktype)
    → n ≤ s
    → open_below n (update f s o) ≡ open_below n f
unfolding open_below
open_below-update_out zero s f o h = refl
open_below-update_out (suc n) s f o h =
    let k : (s == n) ≡ false = ground arith in
    let t = open_below-update_out n s f o (omega arith) in rw (k, t) refl

-- A number changes hands, and the others stay.
pub open_below-update :
    (n s : ℕ) (f : ℕ → Option Socktype) (o : Option Socktype)
    → s < n
    → open_below n (update f s o) + held (f s) ≡ open_below n f + held o
unfolding open_below
open_below-update zero s f o h = absurd (omega arith)
open_below-update (suc n) s f o h = elim (Bool-cases (s == n)) [
  | inl e ↦
      let q = (==_iff s n).0 e in
      let t = open_below-update_out n s f o (omega (arith, q)) in
      let u : held (f s) ≡ held (f n) = ap (λ k. held (f k)) q in rw e (omega (arith, t, u))
  | inr e ↦
      let k : s < n = ground arith in let t = open_below-update n s f o k in rw e (omega (arith, t))
]

pub open_below-none : (n : ℕ) → open_below n (λ i. none) ≡ 0
unfolding open_below
open_below-none zero = refl
open_below-none (suc n) = omega (arith, open_below-none n)

held_zero : (o : Option Socktype) → held o ≡ 0 → o ≡ none
held_zero none h = refl
held_zero (some t) h = absurd (omega (arith, h))

pub open_below_zero : (n j : ℕ) (f : ℕ → Option Socktype) → open_below n f ≡ 0 → j < n → f j ≡ none
unfolding open_below
open_below_zero zero j f h k = absurd (omega arith)
open_below_zero (suc n) j f h k = elim (Bool-cases (n == j)) [
  | inl e ↦ ap f (sym ((==_iff n j).0 e)) ∙ held_zero (f n) (omega (arith, h))
  | inr e ↦ open_below_zero n j f (omega (arith, h)) (ground arith)
]
