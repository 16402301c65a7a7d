-- ===== src/Distributed/Ring/Sorted.antt =====
-- ring.c: the vnodes stand in ascending order, and which ones an insertion or a compaction leaves.
use msgbroker.Prelude.{
  ℕ, suc, ◌≤◌, ◌≡◌, refl, ap, ◌≢◌, true, false, List, [], ◌∷◌, arith, length, All, inl, inr, ltb,
  ◌==◌, Bool-cases,
}
use msgbroker.Distributed.Ring.{Vnode, insert_vnode_sorted, drop_vnodes}

abbrev pub Above : ℕ → List Vnode → Type 0
Above p = All (λ v. p ≤ v.point)

abbrev pub IsSorted : List Vnode → Type 0
IsSorted [] = Unit
IsSorted (x ∷ xs) = Above x.point xs × IsSorted xs

-- `P` holds of a list with `v` put in if it holds of `v` and the list.
pub All-insert {κ} :
    (P : Vnode → Type κ) (v : Vnode) (xs : List Vnode)
    → P v
    → All P xs
    → All P (insert_vnode_sorted v xs)
unfolding insert_vnode_sorted
All-insert P v [] p h = (p, tt)
All-insert P v (x ∷ xs) p h = elim (Bool-cases (ltb x.point v.point)) [
  | inl e ↦ rw e (h.0, All-insert P v xs p h.1)
  | inr e ↦ rw e (p, h)
]

pub All-drop {κ} :
    (P : Vnode → Type κ) (id : ℕ) (xs : List Vnode) → All P xs → All P (drop_vnodes id xs)
unfolding drop_vnodes
All-drop P id [] h = tt
All-drop P id (x ∷ xs) h = elim (Bool-cases (x.owner == id)) [
  | inl e ↦ rw e (All-drop P id xs h.1)
  | inr e ↦ rw e (h.0, All-drop P id xs h.1)
]

Above-trans : (p q : ℕ) (xs : List Vnode) → p ≤ q → Above q xs → Above p xs
Above-trans p q [] h k = tt
Above-trans p q (x ∷ xs) h k = (omega arith, Above-trans p q xs h k.1)

pub insert-IsSorted :
    (v : Vnode) (xs : List Vnode) → IsSorted xs → IsSorted (insert_vnode_sorted v xs)
unfolding insert_vnode_sorted
insert-IsSorted v [] h = (tt, tt)
insert-IsSorted v (x ∷ xs) h = elim (Bool-cases (ltb x.point v.point)) [
  | inl e ↦ rw e (
    All-insert (λ y. x.point ≤ y.point) v xs (lt_le x.point v.point e) h.0,
    insert-IsSorted v xs h.1,
  )
  | inr e ↦
      rw e (
        (not_lt x.point v.point e, Above-trans v.point x.point xs (not_lt x.point v.point e) h.0),
        h,
      )
]
  where
    lt_le : (a b : ℕ) → ltb a b ≡ true → a ≤ b
    lt_le a b e = ground arith

    not_lt : (a b : ℕ) → ltb a b ≡ false → b ≤ a
    not_lt a b e = ground arith

pub drop-IsSorted : (id : ℕ) (xs : List Vnode) → IsSorted xs → IsSorted (drop_vnodes id xs)
unfolding drop_vnodes
drop-IsSorted id [] h = tt
drop-IsSorted id (x ∷ xs) h = elim (Bool-cases (x.owner == id)) [
  | inl e ↦ rw e (drop-IsSorted id xs h.1)
  | inr e ↦ rw e (All-drop (λ y. x.point ≤ y.point) id xs h.0, drop-IsSorted id xs h.1)
]

-- No vnode of the node.
abbrev pub Free : ℕ → List Vnode → Type 0
Free id = All (λ v. v.owner ≢ id)

pub drop-Free : (id : ℕ) (xs : List Vnode) → Free id (drop_vnodes id xs)
unfolding drop_vnodes
drop-Free id [] = tt
drop-Free id (x ∷ xs) = elim (Bool-cases (x.owner == id)) [
  | inl e ↦ rw e (drop-Free id xs)
  | inr e ↦ rw e (==_ne x.owner id e, drop-Free id xs)
]
  where
    ==_ne : (a b : ℕ) → (a == b) ≡ false → a ≢ b
    ==_ne a b e = ground arith

-- Nothing is lost where the node has no vnode.
pub drop-of_Free : (id : ℕ) (xs : List Vnode) → Free id xs → drop_vnodes id xs ≡ xs
unfolding drop_vnodes
drop-of_Free id [] h = refl
drop-of_Free id (x ∷ xs) h = rw (ne_== x.owner id h.0) (ap (◌∷◌ x) (drop-of_Free id xs h.1))
  where
    ne_== : (a b : ℕ) → a ≢ b → (a == b) ≡ false
    ne_== a b e = ground arith

-- The compaction undoes an insertion of the node's vnode.
pub drop-insert :
    (id : ℕ) (v : Vnode) (xs : List Vnode)
    → v.owner ≡ id
    → drop_vnodes id (insert_vnode_sorted v xs) ≡ drop_vnodes id xs
unfolding insert_vnode_sorted drop_vnodes
drop-insert id v [] h = rw (eq_== v.owner id h)
  where
    eq_== : (a b : ℕ) → a ≡ b → (a == b) ≡ true
    eq_== a b e = ground arith
drop-insert id v (x ∷ xs) h = elim (Bool-cases (ltb x.point v.point)) [
  | inl e ↦ rw (e, drop-insert id v xs h) refl
  | inr e ↦ rw (e, eq_== v.owner id h) refl
]
  where
    eq_== : (a b : ℕ) → a ≡ b → (a == b) ≡ true
    eq_== a b e = ground arith

pub length-insert :
    (v : Vnode) (xs : List Vnode) → length (insert_vnode_sorted v xs) ≡ suc (length xs)
unfolding insert_vnode_sorted
length-insert v [] = refl
length-insert v (x ∷ xs) = elim (Bool-cases (ltb x.point v.point)) [
  | inl e ↦ rw e (ap suc (length-insert v xs))
  | inr e ↦ rw e refl
]
