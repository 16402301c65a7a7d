-- ===== src/Distributed/Cluster/Leave.antt =====
-- cluster.c: the nodes that leave.
use msgbroker.Prelude.{
  ℕ, ◌≡◌, refl, ◌∙◌, Bool, true, false, none, some, List, [], ◌∷◌, ◌==◌, ==_iff, All, inl, inr,
  Bool-cases, if◌then◌else◌,
}
use msgbroker.Errno.{Rc, ok, err, enoent}
use msgbroker.Distributed.Gossip.{
  GossipNode, Gossip, Config, Change, is_id, has_id, erase, find, remove_node, tick_node,
  tick_nodes, tick,
}
use msgbroker.Distributed.Gossip.Nodes.{Uniq, Uniq-erase, has_id-erase, find-erase}
use msgbroker.Distributed.Ring.{has_node, remove}
use msgbroker.Distributed.Ring.Members.{IsRing, remove-IsRing, has_node-drop}
use msgbroker.Distributed.Cluster.{
  Cluster, leave_node, is_dead, on_gossip_change, on_changes, tick_cluster,
}

-- No id stands twice among the members, and the routing table is a ring.
pub record IsCluster (c : Cluster) : Type 0 where
  pub uniq : Uniq c.gossip.nodes
  pub ring : IsRing c.routing

-- The node is neither a member nor in the routing table.
abbrev pub Gone : ℕ → Cluster → Type 0
Gone id c = (has_id id c.gossip.nodes ≡ false) × (has_node id c.routing.nodes ≡ false)

some_ne : (x : GossipNode) → some x ≡ none → ⊥
some_ne x e = cc

find-none : (id : ℕ) (xs : List GossipNode) → find id xs ≡ none → has_id id xs ≡ false
unfolding find has_id
find-none id [] h = refl
find-none id (x ∷ xs) h = elim (Bool-cases (is_id id x)) [
  | inl e ↦ absurd (some_ne x (simp e at h))
  | inr e ↦ simp e (find-none id xs (simp e at h))
]

abbrev after_remove : ℕ → Gossip → List GossipNode
after_remove id g = (remove_node id g).1.nodes

remove_node-nodes :
    (id : ℕ) (g : Gossip) (P : List GossipNode → Type 0)
    → (has_id id g.nodes ≡ false → P g.nodes)
    → P (erase id g.nodes)
    → P (after_remove id g)
unfolding remove_node
remove_node-nodes id g P h k = go (has_id id g.nodes) h
  where
    chosen : Bool → Rc × Gossip
    chosen b = if b then (ok 0, record g { nodes = erase id g.nodes }) else (err enoent, g)

    go : (b : Bool) → (b ≡ false → P g.nodes) → P (chosen b).1.nodes
    go true h' = k
    go false h' = h' refl

leave-IsCluster : (id : ℕ) (c : Cluster) → IsCluster c → IsCluster (leave_node id c).1
unfolding leave_node
leave-IsCluster id c g = record {
  uniq = remove_node-nodes id c.gossip Uniq (λ e. g.uniq) (Uniq-erase id c.gossip.nodes g.uniq);
  ring = remove-IsRing id g.ring;
}

leave-Gone : (id : ℕ) (c : Cluster) → IsCluster c → Gone id (leave_node id c).1
unfolding leave_node remove
leave-Gone id c g = (
  remove_node-nodes id c.gossip (λ l. has_id id l ≡ false) (λ e. e)
      (find-none id (erase id c.gossip.nodes) (find-erase id c.gossip.nodes g.uniq)),
  has_node-drop id id c.routing.nodes g.ring.distinct ∙ rw ((==_iff id id).1 refl) refl,
)

if_gone : (t b : Bool) → b ≡ false → (if t then false else b) ≡ false
if_gone true b h = refl
if_gone false b h = h

Gone-leave : (j id : ℕ) (c : Cluster) → IsCluster c → Gone j c → Gone j (leave_node id c).1
unfolding leave_node remove
Gone-leave j id c g h = (
  remove_node-nodes id c.gossip (λ l. has_id j l ≡ false) (λ e. h.0)
      (has_id-erase j id c.gossip.nodes h.0),
  has_node-drop j id c.routing.nodes g.ring.distinct ∙ if_gone (j == id) _ h.1,
)

on_change-IsCluster : (x : Change) (c : Cluster) → IsCluster c → IsCluster (on_gossip_change x c)
unfolding on_gossip_change
on_change-IsCluster x c g = elim (Bool-cases (is_dead x.new_state)) [
  | inl e ↦ simp e (leave-IsCluster x.node_id c g)
  | inr e ↦ simp e g
]

Gone-on_change :
    (j : ℕ) (x : Change) (c : Cluster) → IsCluster c → Gone j c → Gone j (on_gossip_change x c)
unfolding on_gossip_change
Gone-on_change j x c g h = elim (Bool-cases (is_dead x.new_state)) [
  | inl e ↦ simp e (Gone-leave j x.node_id c g h)
  | inr e ↦ simp e h
]

Gone-on_changes :
    (j : ℕ) (xs : List Change) (c : Cluster) → IsCluster c → Gone j c → Gone j (on_changes xs c)
unfolding on_changes
Gone-on_changes j [] c g h = h
Gone-on_changes j (x ∷ xs) c g h =
    Gone-on_changes j xs (on_gossip_change x c) (on_change-IsCluster x c g)
      (Gone-on_change j x c g h)

-- The node of the change is gone, if the change is a death.
abbrev pub Buried : Cluster → Change → Type 0
Buried c x = is_dead x.new_state ≡ true → Gone x.node_id c

on_changes-Buried :
    (xs : List Change) (c : Cluster)
    → IsCluster c
    → All (Buried (on_changes xs c)) xs × IsCluster (on_changes xs c)
unfolding on_changes on_gossip_change
on_changes-Buried [] c g = (tt, g)
on_changes-Buried (x ∷ xs) c g =
    let ih = on_changes-Buried xs (on_gossip_change x c) (on_change-IsCluster x c g) in
    (
      (
        λ e.
            Gone-on_changes x.node_id xs (on_gossip_change x c) (on_change-IsCluster x c g)
              (simp e (leave-Gone x.node_id c g)),
        ih.0,
      ),
      ih.1,
    )

tick_node-is_id :
    (i : ℕ) (c : Config) (now : ℕ) (x : GossipNode) → (tick_node c now x).node_id ≡ x.node_id
unfolding tick_node
tick_node-is_id i c now x = elim (Bool-cases (is_id c.local_node_id x)) [
  | inl e ↦ simp e refl
  | inr e ↦ simp e refl
]

tick_nodes-has_id :
    (i : ℕ) (c : Config) (now : ℕ) (xs : List GossipNode) (n : ℕ)
    → has_id i (tick_nodes c now n xs).0 ≡ has_id i xs
unfolding has_id tick_nodes
tick_nodes-has_id i c now [] n = refl
tick_nodes-has_id i c now (x ∷ xs) n =
    rw (tick_node-is_id i c now x, tick_nodes-has_id i c now xs _) refl

tick_nodes-Uniq :
    (c : Config) (now : ℕ) (xs : List GossipNode) (n : ℕ) → Uniq xs → Uniq (tick_nodes c now n xs).0
unfolding tick_nodes
tick_nodes-Uniq c now [] n u = tt
tick_nodes-Uniq c now (x ∷ xs) n u = (
  rw (tick_node-is_id 0 c now x) (tick_nodes-has_id x.node_id c now xs _ ∙ u.0),
  tick_nodes-Uniq c now xs _ u.1,
)

-- After a tick of a consistent cluster, every node that the tick reports dead is gone from the
-- members and from the routing table, and the cluster is consistent again.
pub tick_cluster-Buried :
    (now : ℕ) (c : Cluster)
    → IsCluster c
    → All (Buried (tick_cluster now c)) (tick now c.gossip).0 × IsCluster (tick_cluster now c)
unfolding tick_cluster tick
tick_cluster-Buried now c g =
    on_changes-Buried _ (record c { gossip = (tick now c.gossip).1 })
      (record { uniq = tick_nodes-Uniq c.gossip.config now c.gossip.nodes 0 g.uniq; ring = g.ring })
