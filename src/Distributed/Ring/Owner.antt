-- ===== src/Distributed/Ring/Owner.antt =====
-- ring.c: which node owns a hash, and how little that changes when a node comes or goes.
use msgbroker.Prelude.{
  ℕ, suc, ◌≡◌, refl, sym, ap, ◌∙◌, ◌≢◌, ◌⊎◌, inl, inr, false, Option, none, some, List, [], ◌∷◌,
  arith, length, if◌then◌else◌, ltb, ◌==◌, Bool-cases, get_or,
}
use msgbroker.Distributed.Ring.{
  Ring, Vnode, no_vnode, primary, lookup, hash, insert_vnode_sorted, drop_vnodes, remove,
}
use msgbroker.Distributed.Ring.Sorted.{IsSorted, drop-IsSorted}
use msgbroker.Distributed.Ring.Search.{rank, search-rank}

-- The first vnode at `h` or past it.
pub succ? : ℕ → List Vnode → Option Vnode
succ? h [] = none
succ? h (v ∷ vs) = if ltb v.point h then succ? h vs else some v

abbrev pub first_owner : List Vnode → ℕ
first_owner [] = 0
first_owner (v ∷ vs) = v.owner

-- Past the last vnode the ring begins again.
abbrev pub owner_or : List Vnode → Option Vnode → ℕ
owner_or vs none = first_owner vs
owner_or vs (some v) = v.owner

-- The node that owns `h`; 0 if there is no vnode.
unfoldable pub owner : ℕ → List Vnode → ℕ
owner h vs = owner_or vs (succ? h vs)

rank-succ? :
    (h : ℕ) (vs : List Vnode)
    → succ? h vs ≡ (if rank h vs == length vs then none else some (get_or vs (rank h vs) no_vnode))
unfolding rank succ?
rank-succ? h [] = refl
rank-succ? h (v ∷ vs) = elim (Bool-cases (ltb v.point h)) [
  | inl e ↦ rw e (rank-succ? h vs ∙ shift (rank h vs) (length vs))
  | inr e ↦ rw (e, zero_ne (length vs)) refl
]
  where
    zero_ne : (b : ℕ) → (0 == suc b) ≡ false
    zero_ne b = ground arith

    shift :
        (a b : ℕ)
        → (if a == b then none else some (get_or vs a no_vnode))
          ≡ (if suc a == suc b then none else some (get_or vs a no_vnode))
    shift a b = ground arith

get_or-owner :
    (r n : ℕ) (vs : List Vnode) (o : Option Vnode)
    → n ≡ length vs
    → o ≡ (if r == n then none else some (get_or vs r no_vnode))
    → (if n == 0 then 0 else (get_or vs (if r == n then 0 else r) no_vnode).owner) ≡ owner_or vs o
get_or-owner r n [] o h e = rw e (ground arith)
get_or-owner r n (v ∷ vs) o h e = elim (Bool-cases (r == n)) [
  | inl t ↦ rw (e, t, nz n (length vs) h) refl
  | inr t ↦ rw (e, t, nz n (length vs) h) refl
]
  where
    nz : (a b : ℕ) → a ≡ suc b → (a == 0) ≡ false
    nz a b p = ground arith

-- On a sorted ring `mb_ring_lookup` returns the owner of the first vnode at or past the hash of the
-- key, or of the very first vnode if the hash is past them all; 0 on an empty ring.
pub lookup-owner :
    (r : Ring) (key : List ℕ) → IsSorted r.vnodes → lookup r key ≡ owner (hash key) r.vnodes
unfolding lookup primary owner
lookup-owner r key s = rw (search-rank r.vnodes (hash key) s) (
    get_or-owner (rank (hash key) r.vnodes) (length r.vnodes) r.vnodes (succ? (hash key) r.vnodes)
      refl (rank-succ? (hash key) r.vnodes))

succ?-drop :
    (h id : ℕ) (vs : List Vnode) (v : Vnode)
    → succ? h vs ≡ some v
    → v.owner ≢ id
    → succ? h (drop_vnodes id vs) ≡ some v
unfolding succ? drop_vnodes
succ?-drop h id [] v e ne = cc
succ?-drop h id (x ∷ xs) v e ne = elim (Bool-cases (ltb x.point h)) [
  | inl t ↦ elim (Bool-cases (x.owner == id)) [
    | inl u ↦ rw u (succ?-drop h id xs v (rw t at e) ne)
    | inr u ↦ rw (u, t) (succ?-drop h id xs v (rw t at e) ne)
  ]
  | inr t ↦
      let same : some x ≡ some v = rw t at e in
      rw (other x.owner id (λ p. ne (sym (owner_eq same) ∙ p)), t) same
]
  where
    other : (a b : ℕ) → a ≢ b → (a == b) ≡ false
    other a b p = ground arith

    owner_eq : some x ≡ some v → x.owner ≡ v.owner
    owner_eq p = ap (λ (o : Option Vnode). owner_or [] o) p

succ?-drop_none :
    (h id : ℕ) (vs : List Vnode) → succ? h vs ≡ none → succ? h (drop_vnodes id vs) ≡ none
unfolding succ? drop_vnodes
succ?-drop_none h id [] e = refl
succ?-drop_none h id (x ∷ xs) e = elim (Bool-cases (ltb x.point h)) [
  | inl t ↦ elim (Bool-cases (x.owner == id)) [
    | inl u ↦ rw u (succ?-drop_none h id xs (rw t at e))
    | inr u ↦ rw (u, t) (succ?-drop_none h id xs (rw t at e))
  ]
  | inr t ↦ absurd (some_ne (rw t at e))
]
  where
    some_ne : some x ≢ none
    some_ne p = cc

first_owner-drop :
    (id : ℕ) (vs : List Vnode)
    → first_owner vs ≢ id
    → first_owner (drop_vnodes id vs) ≡ first_owner vs
unfolding drop_vnodes
first_owner-drop id [] ne = refl
first_owner-drop id (x ∷ xs) ne = rw (other x.owner id ne)
  where
    other : (a b : ℕ) → a ≢ b → (a == b) ≡ false
    other a b p = ground arith

-- A hash that another node owns keeps its owner when the vnodes of `id` go.
pub owner-drop :
    (h id : ℕ) (vs : List Vnode) → owner h vs ≢ id → owner h (drop_vnodes id vs) ≡ owner h vs
unfolding owner
owner-drop h id vs ne = go (succ? h vs) refl ne
  where
    go :
        (o : Option Vnode)
        → succ? h vs ≡ o
        → owner_or vs o ≢ id
        → owner_or (drop_vnodes id vs) (succ? h (drop_vnodes id vs)) ≡ owner_or vs o
    go none e k = rw (succ?-drop_none h id vs e) (first_owner-drop id vs k)
    go (some v) e k = rw (succ?-drop h id vs v e k)

-- Where a new vnode goes, it is the new successor or changes none.
succ?-insert :
    (h : ℕ) (v : Vnode) (vs : List Vnode)
    → (succ? h (insert_vnode_sorted v vs) ≡ succ? h vs)
      ⊎ (succ? h (insert_vnode_sorted v vs) ≡ some v)
unfolding succ? insert_vnode_sorted
succ?-insert h v [] = elim (Bool-cases (ltb v.point h)) [
  | inl t ↦ inl (rw t refl)
  | inr t ↦ inr (rw t refl)
]
succ?-insert h v (x ∷ xs) = elim (Bool-cases (ltb x.point v.point)) [
  | inl e ↦ elim (Bool-cases (ltb x.point h)) [
    | inl t ↦ rw (e, t) (succ?-insert h v xs)
    | inr t ↦ rw (e, t) (inl refl)
  ]
  | inr e ↦ elim (Bool-cases (ltb v.point h)) [
    | inl t ↦ rw (e, t) (inl refl)
    | inr t ↦ rw (e, t) (inr refl)
  ]
]

first_owner-insert :
    (v : Vnode) (vs : List Vnode)
    → vs ≢ []
    → (first_owner (insert_vnode_sorted v vs) ≡ first_owner vs)
      ⊎ (first_owner (insert_vnode_sorted v vs) ≡ v.owner)
unfolding insert_vnode_sorted
first_owner-insert v [] ne = absurd (ne refl)
first_owner-insert v (x ∷ xs) ne = elim (Bool-cases (ltb x.point v.point)) [
  | inl e ↦ rw e (inl refl)
  | inr e ↦ rw e (inr refl)
]

-- A vnode put in takes some hashes over and leaves all others with their owner.
pub owner-insert :
    (h : ℕ) (v : Vnode) (vs : List Vnode)
    → vs ≢ []
    → (owner h (insert_vnode_sorted v vs) ≡ owner h vs)
      ⊎ (owner h (insert_vnode_sorted v vs) ≡ v.owner)
unfolding owner
owner-insert h v vs ne = elim (succ?-insert h v vs) [
  | inr e ↦ inr (rw e refl)
  | inl e ↦ rw e (kept (succ? h vs))
]
  where
    kept :
        (o : Option Vnode)
        → (owner_or (insert_vnode_sorted v vs) o ≡ owner_or vs o)
          ⊎ (owner_or (insert_vnode_sorted v vs) o ≡ v.owner)
    kept none = first_owner-insert v vs ne
    kept (some w) = inl refl

pub insert-ne_nil : (v : Vnode) (vs : List Vnode) → insert_vnode_sorted v vs ≢ []
unfolding insert_vnode_sorted
insert-ne_nil v [] e = cc
insert-ne_nil v (x ∷ xs) e = ground arith

-- Removing a node moves no key that another node owns.
pub lookup-remove :
    (r : Ring) (id : ℕ) (key : List ℕ)
    → IsSorted r.vnodes
    → lookup r key ≢ id
    → lookup (remove id r).1 key ≡ lookup r key
unfolding remove
lookup-remove r id key s ne =
    lookup-owner (remove id r).1 key (drop-IsSorted id r.vnodes s)
    ∙ owner-drop (hash key) id r.vnodes (λ p. ne (lookup-owner r key s ∙ p))
    ∙ sym (lookup-owner r key s)
