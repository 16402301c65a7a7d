-- ===== src/Distributed/Gossip/Nodes.antt =====
-- gossip.c: the list of nodes.
use msgbroker.Prelude.{
  ℕ, ◌≡◌, ◌≢◌, refl, sym, ◌∙◌, Bool, true, false, none, some, List, [], ◌∷◌, ◌++◌, ◌==◌, ==_iff,
  arith, inl, inr, Bool-cases,
}
use msgbroker.Errno.{Rc, ok, err, eexist, enoent, enomem}
use msgbroker.Distributed.Gossip.{
  GossipNode, Gossip, node_init, is_id, has_id, add_node, erase, remove_node, find,
}

-- No id stands twice.
abbrev pub Uniq : List GossipNode → Type 0
Uniq [] = Unit
Uniq (x ∷ xs) = (has_id x.node_id xs ≡ false) × Uniq xs

-- What `mb_gossip_add_node` must come to.
abbrev pub Added : ℕ → GossipNode → Gossip → Rc × Gossip → Type 0
Added id y g (ok n, g') =
    (find id g.nodes ≡ none)
    × (find id g'.nodes ≡ some y)
    × ((i : ℕ) → i ≢ id → find i g'.nodes ≡ find i g.nodes)
    × Uniq g'.nodes
Added id y g (err e, g') = (g' ≡ g) × (e ≡ eexist → has_id id g.nodes ≡ true)

-- What `mb_gossip_remove_node` must come to.
abbrev pub Removed : ℕ → Gossip → Rc × Gossip → Type 0
Removed id g (ok n, g') =
    (has_id id g.nodes ≡ true)
    × (find id g'.nodes ≡ none)
    × ((i : ℕ) → i ≢ id → find i g'.nodes ≡ find i g.nodes)
    × Uniq g'.nodes
Removed id g (err e, g') = (g' ≡ g) × (e ≡ enoent) × (find id g.nodes ≡ none)

tf : true ≡ false → ⊥
tf e = cc

enomem_ne : enomem ≡ eexist → ⊥
enomem_ne e = cc

find_absent : (id : ℕ) (xs : List GossipNode) → has_id id xs ≡ false → find id xs ≡ none
unfolding find has_id
find_absent id [] h = refl
find_absent id (x ∷ xs) h = elim (Bool-cases (is_id id x)) [
  | inl e ↦ absurd (tf (rw e at h))
  | inr e ↦ rw e (find_absent id xs (rw e at h))
]

find-snoc :
    (id : ℕ) (xs : List GossipNode) (y : GossipNode)
    → has_id id xs ≡ false
    → is_id id y ≡ true
    → find id (xs ++ y ∷ []) ≡ some y
unfolding find has_id
find-snoc id [] y h e = rw e refl
find-snoc id (x ∷ xs) y h k = elim (Bool-cases (is_id id x)) [
  | inl e ↦ absurd (tf (rw e at h))
  | inr e ↦ rw e (find-snoc id xs y (rw e at h) k)
]

find-snoc_other :
    (id : ℕ) (xs : List GossipNode) (y : GossipNode)
    → is_id id y ≡ false
    → find id (xs ++ y ∷ []) ≡ find id xs
unfolding find
find-snoc_other id [] y e = rw e refl
find-snoc_other id (x ∷ xs) y k = elim (Bool-cases (is_id id x)) [
  | inl e ↦ rw e refl
  | inr e ↦ rw e (find-snoc_other id xs y k)
]

==_ne : (a b : ℕ) → a ≢ b → (a == b) ≡ false
==_ne a b h = elim (Bool-cases (a == b)) [ inl e ↦ absurd (h ((==_iff a b).0 e)) | inr e ↦ e ]

==_refl : (a : ℕ) → (a == a) ≡ true
==_refl a = (==_iff a a).1 refl

==_sym : (a b : ℕ) → (a == b) ≡ false → (b == a) ≡ false
==_sym a b h = ground arith

has_id-snoc :
    (i : ℕ) (xs : List GossipNode) (y : GossipNode)
    → has_id i xs ≡ false
    → is_id i y ≡ false
    → has_id i (xs ++ y ∷ []) ≡ false
unfolding has_id
has_id-snoc i [] y h e = rw e refl
has_id-snoc i (x ∷ xs) y h k = elim (Bool-cases (is_id i x)) [
  | inl e ↦ absurd (tf (rw e at h))
  | inr e ↦ rw e (has_id-snoc i xs y (rw e at h) k)
]

Uniq-snoc :
    (xs : List GossipNode) (y : GossipNode)
    → Uniq xs
    → has_id y.node_id xs ≡ false
    → Uniq (xs ++ y ∷ [])
unfolding has_id
Uniq-snoc [] y u h = (refl, tt)
Uniq-snoc (x ∷ xs) y u h = elim (Bool-cases (is_id y.node_id x)) [
  | inl e ↦ absurd (tf (rw e at h))
  | inr e ↦ (
    has_id-snoc x.node_id xs y u.0 (==_sym x.node_id y.node_id e),
    Uniq-snoc xs y u.1 (rw e at h),
  )
]

-- On a list without a repeated id, adding a node makes its id lead to that node and leaves what all
-- other ids lead to, and no id is repeated; it is refused, and nothing changes, without memory, or
-- with -EEXIST only if the id is there.
pub add_node-Added :
    (alloc_ok : Bool) (now id : ℕ) (addr : List ℕ) (g : Gossip)
    → Uniq g.nodes
    → Added id (node_init now id addr) g (add_node alloc_ok now id addr g)
unfolding add_node
add_node-Added false now id addr g u = (refl, λ e. absurd (enomem_ne e))
add_node-Added true now id addr g u = elim (Bool-cases (has_id id g.nodes)) [
  | inl e ↦ simp e (refl, λ h. refl)
  | inr e ↦ simp e (
    find_absent id g.nodes e,
    find-snoc id g.nodes _ e (==_refl id),
    (λ i h. find-snoc_other i g.nodes _ (==_ne id i (λ k. h (sym k)))),
    Uniq-snoc g.nodes _ u e,
  )
]

pub find-erase : (id : ℕ) (xs : List GossipNode) → Uniq xs → find id (erase id xs) ≡ none
unfolding find erase
find-erase id [] u = refl
find-erase id (x ∷ xs) u = elim (Bool-cases (is_id id x)) [
  | inl e ↦ let h = u.0 in simp e (find_absent id xs (rw ((==_iff x.node_id id).0 e) at h))
  | inr e ↦ simp e (find-erase id xs u.1)
]

find-erase_other : (i id : ℕ) (xs : List GossipNode) → i ≢ id → find i (erase id xs) ≡ find i xs
unfolding find erase
find-erase_other i id [] h = refl
find-erase_other i id (x ∷ xs) h = elim (Bool-cases (is_id id x)) [
  | inl e ↦
      let k = ==_ne x.node_id i (λ z. h (sym z ∙ (==_iff x.node_id id).0 e)) in simp (e, k) refl
  | inr e ↦ elim (Bool-cases (is_id i x)) [
    | inl k ↦ simp (e, k) refl
    | inr k ↦ simp (e, k) (find-erase_other i id xs h)
  ]
]

pub has_id-erase :
    (i id : ℕ) (xs : List GossipNode) → has_id i xs ≡ false → has_id i (erase id xs) ≡ false
unfolding has_id erase
has_id-erase i id [] h = refl
has_id-erase i id (x ∷ xs) h = elim (Bool-cases (is_id i x)) [
  | inl k ↦ absurd (tf (rw k at h))
  | inr k ↦ elim (Bool-cases (is_id id x)) [
    | inl e ↦ simp e (rw k at h)
    | inr e ↦ simp (e, k) (has_id-erase i id xs (rw k at h))
  ]
]

pub Uniq-erase : (id : ℕ) (xs : List GossipNode) → Uniq xs → Uniq (erase id xs)
unfolding erase
Uniq-erase id [] u = tt
Uniq-erase id (x ∷ xs) u = elim (Bool-cases (is_id id x)) [
  | inl e ↦ simp e u.1
  | inr e ↦ simp e (has_id-erase x.node_id id xs u.0, Uniq-erase id xs u.1)
]

-- On a list without a repeated id, removing a node makes its id lead nowhere and leaves what all other
-- ids lead to; with -ENOENT, which is the only error, the id was not there and nothing changes.
pub remove_node-Removed : (id : ℕ) (g : Gossip) → Uniq g.nodes → Removed id g (remove_node id g)
unfolding remove_node
remove_node-Removed id g u = elim (Bool-cases (has_id id g.nodes)) [
  | inl e ↦ simp e (
    refl,
    find-erase id g.nodes u,
    (λ i h. find-erase_other i id g.nodes h),
    Uniq-erase id g.nodes u,
  )
  | inr e ↦ simp e (refl, refl, find_absent id g.nodes e)
]
