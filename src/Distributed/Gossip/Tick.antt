-- ===== src/Distributed/Gossip/Tick.antt =====
-- gossip.c: what a tick changes, and what it reports.
use msgbroker.Prelude.{
  ℕ, suc, ◌+◌, ◌≤◌, ◌≡◌, refl, sym, ap, ap₂, ◌∙◌, true, false, List, [], ◌∷◌, ◌++◌, length, ltb,
  map, arith, inl, inr, Bool-cases, sub64,
}
use msgbroker.Distributed.Gossip.{
  NodeState, unknown, alive, suspect, dead, GossipNode, Config, Gossip, Change, is_id, max_nodes,
  suspect_after, dead_after, aged, is_same, tick_node, change, tick_nodes, tick,
}

-- The nodes of which the state differs between two lists of the same nodes, in their order.
abbrev pub diffs : List GossipNode → List GossipNode → List Change
diffs [] ys = []
diffs (x ∷ xs) [] = []
diffs (x ∷ xs) (y ∷ ys) = change x y ++ diffs xs ys

length-change : (x y : GossipNode) → length (change x y) ≤ 1
unfolding change
length-change x y = elim (Bool-cases (is_same x.state y.state)) [
  | inl e ↦ simp e (omega arith)
  | inr e ↦ simp e (omega arith)
]

room : (n k : ℕ) → n + suc k ≤ 256 → ltb n max_nodes ≡ true
room n k h = ground arith

room_later : (n k l : ℕ) → n + suc k ≤ 256 → l ≤ 1 → n + l + k ≤ 256
room_later n k l h i = omega arith

tick_nodes_lem :
    (c : Config) (now n : ℕ) (xs : List GossipNode)
    → n + length xs ≤ 256
    → tick_nodes c now n xs ≡ (map (tick_node c now) xs, diffs xs (map (tick_node c now) xs))
unfolding tick_nodes
tick_nodes_lem c now n [] h = refl
tick_nodes_lem c now n (x ∷ xs) h =
    let k = length (change x (tick_node c now x)) in
    let ih =
      tick_nodes_lem c now (n + k) xs
        (room_later n (length xs) k h (length-change x (tick_node c now x))) in
    rw (room n (length xs) h, ih) refl

abbrev rank : NodeState → ℕ
rank unknown = 0
rank alive = 1
rank suspect = 2
rank dead = 3

aged_twice : (c : Config) (e : ℕ) (s : NodeState) → aged c e (aged c e s) ≡ aged c e s
unfolding aged
aged_twice c e unknown = refl
aged_twice c e dead = refl
aged_twice c e suspect = elim (Bool-cases (ltb (dead_after c) e)) [
  | inl h ↦ rw h refl
  | inr h ↦ rw h refl
]
aged_twice c e alive = elim (Bool-cases (ltb (suspect_after c) e)) [
  | inr k ↦ rw k refl
  | inl k ↦ elim (Bool-cases (ltb (dead_after c) e)) [
    | inl h ↦ rw (h, k) refl
    | inr h ↦ rw (h, k) refl
  ]
]

tick_node_twice :
    (c : Config) (now : ℕ) (x : GossipNode)
    → tick_node c now (tick_node c now x) ≡ tick_node c now x
unfolding tick_node
tick_node_twice c now x = elim (Bool-cases (is_id c.local_node_id x)) [
  | inl e ↦ simp e refl
  | inr e ↦
      simp e (ap (λ s. record x { state = s }) (aged_twice c (sub64 now x.last_seen_ms) x.state))
]

is_same_refl : (s : NodeState) → is_same s s ≡ true
is_same_refl unknown = refl
is_same_refl alive = refl
is_same_refl suspect = refl
is_same_refl dead = refl

diffs_refl : (xs : List GossipNode) → diffs xs xs ≡ []
unfolding change
diffs_refl [] = refl
diffs_refl (x ∷ xs) = rw (is_same_refl x.state) (diffs_refl xs)

map_twice :
    (c : Config) (now : ℕ) (xs : List GossipNode)
    → map (tick_node c now) (map (tick_node c now) xs) ≡ map (tick_node c now) xs
map_twice c now [] = refl
map_twice c now (x ∷ xs) = ap₂ (λ y ys. y ∷ ys) (tick_node_twice c now x) (map_twice c now xs)

length-map :
    (c : Config) (now : ℕ) (xs : List GossipNode) → length (map (tick_node c now) xs) ≡ length xs
length-map c now [] = refl
length-map c now (x ∷ xs) = ap suc (length-map c now xs)

-- With at most 256 nodes and a callback, the callback is called for exactly the nodes of which the
-- state differs after the tick, once each, in the order of the list, with the state before and after.
pub tick-diffs :
    (now : ℕ) (g : Gossip)
    → length g.nodes ≤ 256
    → g.on_change ≡ true
    → (tick now g).0 ≡ diffs g.nodes (tick now g).1.nodes
unfolding tick
tick-diffs now g h e = simp (e, tick_nodes_lem g.config now 0 g.nodes (omega arith)) refl

settled :
    (c : Config) (now : ℕ) (xs : List GossipNode)
    → length xs ≤ 256
    → tick_nodes c now 0 (map (tick_node c now) xs) ≡ (map (tick_node c now) xs, [])
settled c now xs h =
    tick_nodes_lem c now 0 (map (tick_node c now) xs) (omega (arith, length-map c now xs))
    ∙ rw (map_twice c now xs)
        (ap (λ l. (map (tick_node c now) xs, l)) (diffs_refl (map (tick_node c now) xs)))

-- With at most 256 nodes, a second tick at the same time reports nothing and changes nothing: what a
-- silence means is settled by one tick.
pub tick-tick :
    (now : ℕ) (g : Gossip) → length g.nodes ≤ 256 → tick now (tick now g).1 ≡ ([], (tick now g).1)
unfolding tick
tick-tick now g h =
    simp (tick_nodes_lem g.config now 0 g.nodes (omega arith), settled g.config now g.nodes h)
      (elim (Bool-cases g.on_change) [ inl e ↦ simp e refl | inr e ↦ simp e refl ])

-- The node that the tick leaves: the same node, of which the state has not gone back towards alive,
-- and which is as it was if it is the local node.
abbrev pub Aged : Config → GossipNode → GossipNode → Type 0
Aged c x y =
    (y ≡ record x { state = y.state })
    × (rank x.state ≤ rank y.state)
    × (is_id c.local_node_id x ≡ true → y ≡ x)

rank-aged : (c : Config) (e : ℕ) (s : NodeState) → rank s ≤ rank (aged c e s)
unfolding aged
rank-aged c e unknown = omega arith
rank-aged c e dead = omega arith
rank-aged c e suspect = elim (Bool-cases (ltb (dead_after c) e)) [
  | inl h ↦ rw h (omega arith)
  | inr h ↦ rw h (omega arith)
]
rank-aged c e alive = elim (Bool-cases (ltb (suspect_after c) e)) [
  | inr k ↦ rw k (omega arith)
  | inl k ↦ elim (Bool-cases (ltb (dead_after c) e)) [
    | inl h ↦ rw (h, k) (omega arith)
    | inr h ↦ rw (h, k) (omega arith)
  ]
]

tf : true ≡ false → ⊥
tf e = cc

tick_node-Aged : (c : Config) (now : ℕ) (x : GossipNode) → Aged c x (tick_node c now x)
unfolding tick_node
tick_node-Aged c now x = elim (Bool-cases (is_id c.local_node_id x)) [
  | inl e ↦ simp e (refl, omega arith, λ h. refl)
  | inr e ↦
      let k = rank-aged c (sub64 now x.last_seen_ms) x.state in
      simp e (refl, k, λ h. absurd (tf (sym h)))
]

-- The relation holds of the elements of two lists in turn.
abbrev pub Pairwise :
    (GossipNode → GossipNode → Type 0) → List GossipNode → List GossipNode → Type 0
Pairwise R [] [] = Unit
Pairwise R (x ∷ xs) (y ∷ ys) = R x y × Pairwise R xs ys
Pairwise R [] (y ∷ ys) = ⊥
Pairwise R (x ∷ xs) [] = ⊥

tick_nodes-Aged :
    (c : Config) (now : ℕ) (xs : List GossipNode) (n : ℕ)
    → Pairwise (Aged c) xs (tick_nodes c now n xs).0
unfolding tick_nodes
tick_nodes-Aged c now [] n = tt
tick_nodes-Aged c now (x ∷ xs) n = (tick_node-Aged c now x, tick_nodes-Aged c now xs _)

-- A tick keeps every node in its place with all but its state; the state of a node never goes back,
-- from dead to suspect or alive or from suspect to alive; and the local node is left as it was.
pub tick-Aged : (now : ℕ) (g : Gossip) → Pairwise (Aged g.config) g.nodes (tick now g).1.nodes
unfolding tick
tick-Aged now g = tick_nodes-Aged g.config now g.nodes 0
