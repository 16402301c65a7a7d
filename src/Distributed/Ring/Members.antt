-- ===== src/Distributed/Ring/Members.antt =====
-- ring.c: the nodes and their shares of vnodes; adding is all or nothing, and removing undoes it.
use msgbroker.Prelude.{
  ℕ, ◌+◌, ◌≡◌, refl, ap, inl, inr, Bool, true, false, ◌||◌, Option, none, some, List, [], ◌∷◌, ◌++◌,
  arith, length, if◌then◌else◌, ltb, ◌==◌, Bool-cases,
}
use native.Mathlib.Decide.{ℕ_discrete}
use msgbroker.Distributed.Ring.{
  Ring, Vnode, Node, init, remove, grow, grow_vnodes, has_node, drop_node, drop_last,
  insert_vnode_sorted, drop_vnodes,
}
use msgbroker.Distributed.Ring.Sorted.{IsSorted, Free, drop-IsSorted}

-- How many vnodes a node has.
unfoldable pub owner_count : ℕ → List Vnode → ℕ
owner_count id [] = 0
owner_count id (v ∷ vs) = (if v.owner == id then 1 else 0) + owner_count id vs

abbrev pub Distinct : List Node → Type 0
Distinct [] = Unit
Distinct (x ∷ xs) = (has_node x.node_id xs ≡ false) × Distinct xs

-- The vnodes are sorted, no node is entered twice, and each node has `virtual_count` vnodes and no
-- one else has any.
pub record IsRing (r : Ring) : Type 0 where
  pub sorted : IsSorted r.vnodes
  pub distinct : Distinct r.nodes
  pub share :
      (id : ℕ) → owner_count id r.vnodes ≡ (if has_node id r.nodes then r.virtual_count else 0)

pub owner_count-insert :
    (id : ℕ) (v : Vnode) (vs : List Vnode)
    → owner_count id (insert_vnode_sorted v vs)
      ≡ (if v.owner == id then 1 else 0) + owner_count id vs
unfolding owner_count insert_vnode_sorted
owner_count-insert id v [] = refl
owner_count-insert id v (x ∷ xs) = elim (Bool-cases (ltb x.point v.point)) [
  | inl e ↦ rw e (omega (arith, owner_count-insert id v xs))
  | inr e ↦ rw e refl
]

owner_count-drop :
    (j id : ℕ) (vs : List Vnode)
    → owner_count j (drop_vnodes id vs) ≡ (if j == id then 0 else owner_count j vs)
unfolding owner_count drop_vnodes
owner_count-drop j id [] = ground arith
owner_count-drop j id (x ∷ xs) = elim (Bool-cases (x.owner == id)) [
  | inl e ↦ rw e (ground (arith, owner_count-drop j id xs))
  | inr e ↦ rw e (ground (arith, owner_count-drop j id xs))
]

pub owner_count-Free : (id : ℕ) (vs : List Vnode) → owner_count id vs ≡ 0 → Free id vs
unfolding owner_count
owner_count-Free id [] h = tt
owner_count-Free id (x ∷ xs) h = (ground arith, owner_count-Free id xs (ground arith))

pub has_node-append :
    (j : ℕ) (ns : List Node) (n : Node)
    → has_node j (ns ++ n ∷ []) ≡ has_node j ns || n.node_id == j
unfolding has_node
has_node-append j [] n = ground arith
has_node-append j (x ∷ xs) n = ground (arith, has_node-append j xs n)

pub drop_last-append : (ns : List Node) (n : Node) → drop_last (ns ++ n ∷ []) ≡ ns
drop_last-append [] n = refl
drop_last-append (x ∷ []) n = refl
drop_last-append (x ∷ y ∷ xs) n = ap (◌∷◌ x) (drop_last-append (y ∷ xs) n)

pub Distinct-append :
    (ns : List Node) (n : Node)
    → Distinct ns
    → has_node n.node_id ns ≡ false
    → Distinct (ns ++ n ∷ [])
unfolding has_node
Distinct-append [] n d h = (refl, tt)
Distinct-append (x ∷ xs) n d h =
    (ground (arith, has_node-append x.node_id xs n), Distinct-append xs n d.1 (ground arith))

pub has_node-drop :
    (j id : ℕ) (ns : List Node)
    → Distinct ns
    → has_node j (drop_node id ns) ≡ (if j == id then false else has_node j ns)
unfolding has_node drop_node
has_node-drop j id [] d = ground arith
has_node-drop j id (x ∷ xs) d = elim (Bool-cases (x.node_id == id)) [
  | inl e ↦ rw e (gone x.node_id e)
  | inr e ↦ rw e (ground (arith, has_node-drop j id xs d.1))
]
  where
    same : j ≡ x.node_id → has_node j xs ≡ false
    same p = rw p d.0

    gone :
        (n : ℕ)
        → (x.node_id == id) ≡ true
        → has_node j xs ≡ (if j == id then false else x.node_id == j || has_node j xs)
    gone n e = elim (ℕ_discrete j x.node_id) [
      | yes p ↦ ground (arith, same p)
      | no p ↦ ground arith
    ]

Distinct-drop : (id : ℕ) (ns : List Node) → Distinct ns → Distinct (drop_node id ns)
unfolding has_node drop_node
Distinct-drop id [] d = tt
Distinct-drop id (x ∷ xs) d = elim (Bool-cases (x.node_id == id)) [
  | inl e ↦ rw e d.1
  | inr e ↦ rw e (ground (arith, has_node-drop x.node_id id xs d.1, d.0), Distinct-drop id xs d.1)
]

pub drop_node-append :
    (ns : List Node) (n : Node)
    → has_node n.node_id ns ≡ false
    → drop_node n.node_id (ns ++ n ∷ []) ≡ ns
unfolding has_node drop_node
drop_node-append [] n h = ground arith
drop_node-append (x ∷ xs) n h = ground (arith, drop_node-append xs n)

pub init-IsRing : (n : ℕ) → IsRing (init n)
unfolding init owner_count has_node
init-IsRing n = record { sorted = tt; distinct = tt; share = λ id. refl }

-- What `mb_ring_remove` leaves is a ring.
pub remove-IsRing : (id : ℕ) {r : Ring} → IsRing r → IsRing (remove id r).1
unfolding remove
remove-IsRing id {r} g = record {
  sorted = drop-IsSorted id r.vnodes g.sorted;
  distinct = Distinct-drop id r.nodes g.distinct;
  share = λ j.
      ground
        (arith, owner_count-drop j id r.vnodes, has_node-drop j id r.nodes g.distinct, g.share j);
}

pub grow_vnodes_same :
    (can : ℕ → Bool) (r s : Ring)
    → grow_vnodes can r ≡ some s
    → (s.vnodes ≡ r.vnodes) × (s.nodes ≡ r.nodes) × (s.virtual_count ≡ r.virtual_count)
unfolding grow_vnodes
grow_vnodes_same can r s = go (grow can 16 (length r.vnodes) r.vnode_cap)
  where
    go :
        (o : Option ℕ)
        → (elim o [ none ↦ none | some cap ↦ some (record r { vnode_cap = cap }) ]) ≡ some s
        → (s.vnodes ≡ r.vnodes) × (s.nodes ≡ r.nodes) × (s.virtual_count ≡ r.virtual_count)
    go none e = ground arith
    go (some cap) e = ground arith
