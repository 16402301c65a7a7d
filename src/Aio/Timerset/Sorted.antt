-- ===== src/Aio/Timerset/Sorted.antt =====
-- timerset.c: the order of the list.
use msgbroker.Prelude.{
  ℕ, ◌≤◌, ◌<◌, ◌≡◌, refl, ap, true, false, List, [], ◌∷◌, ◌++◌, leb, All, inl, inr, arith,
  Bool-cases,
}
use msgbroker.Aio.Timerset.{Timer, insert_sorted}

abbrev pub NotAfter : ℕ → Timer → Type 0
NotAfter e t = t.expiry ≤ e

abbrev pub From : ℕ → Timer → Type 0
From e t = e ≤ t.expiry

abbrev pub After : ℕ → Timer → Type 0
After e t = e < t.expiry

abbrev pub IsSorted : List Timer → Type 0
IsSorted [] = Unit
IsSorted (t ∷ ts) = All (From t.expiry) ts × IsSorted ts

-- The timer stands behind all that expire no later and before all that expire later, and these are
-- the timers that were there, in their order.
pub record Inserted (t : Timer) (ts us : List Timer) : Type 0 where
  pub before : List Timer
  pub after : List Timer
  pub old : ts ≡ before ++ after
  pub new : us ≡ before ++ t ∷ after
  pub not_after : All (NotAfter t.expiry) before
  pub later : All (After t.expiry) after
  pub sorted : IsSorted us

pub le_true : (a b : ℕ) → leb a b ≡ true → a ≤ b
le_true a b h = ground arith

pub le_false : (a b : ℕ) → leb a b ≡ false → b < a
le_false a b h = ground arith

pub From-le : (a b : ℕ) (ts : List Timer) → a < b → All (From b) ts → All (After a) ts
From-le a b [] h g = tt
From-le a b (t ∷ ts) h g = let k = g.0 in (omega (arith, k), From-le a b ts h g.1)

From-After : (a : ℕ) (ts : List Timer) → All (After a) ts → All (From a) ts
From-After a [] g = tt
From-After a (t ∷ ts) g = let k = g.0 in (omega (arith, k), From-After a ts g.1)

From-insert :
    (e : ℕ) (t : Timer) (ts : List Timer)
    → e ≤ t.expiry
    → All (From e) ts
    → All (From e) (insert_sorted t ts)
unfolding insert_sorted
From-insert e t [] h g = (h, tt)
From-insert e t (x ∷ xs) h g = elim (Bool-cases (leb x.expiry t.expiry)) [
  | inl k ↦ simp k (g.0, From-insert e t xs h g.1)
  | inr k ↦ simp k (h, g)
]

-- On a sorted list the insertion puts the timer behind all that expire no later, so that timers of
-- the same time keep the order in which they came, and before the others; the list stays sorted.
pub insert_sorted-Inserted :
    (t : Timer) (ts : List Timer) → IsSorted ts → Inserted t ts (insert_sorted t ts)
unfolding insert_sorted
insert_sorted-Inserted t [] s = record {
  before = [];
  after = [];
  old = refl;
  new = refl;
  not_after = tt;
  later = tt;
  sorted = (tt, tt);
}
insert_sorted-Inserted t (x ∷ xs) s = elim (Bool-cases (leb x.expiry t.expiry)) [
  | inl k ↦
      let r = insert_sorted-Inserted t xs s.1 in
      simp k (record {
        before = x ∷ r.before;
        after = r.after;
        old = ap (λ l. x ∷ l) r.old;
        new = ap (λ l. x ∷ l) r.new;
        not_after = (le_true x.expiry t.expiry k, r.not_after);
        later = r.later;
        sorted = (From-insert x.expiry t xs (le_true x.expiry t.expiry k) s.0, r.sorted);
      })
  | inr k ↦
      let h = le_false x.expiry t.expiry k in
      let l = From-le t.expiry x.expiry xs h s.0 in
      simp k (record {
        before = [];
        after = x ∷ xs;
        old = refl;
        new = refl;
        not_after = tt;
        later = (h, l);
        sorted = (From-After t.expiry (x ∷ xs) (h, l), s);
      })
]
