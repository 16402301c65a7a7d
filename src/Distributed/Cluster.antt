-- ===== src/Distributed/Cluster.antt =====
-- src/distributed/cluster.c and routing.c: membership by gossip, and the ring that routes keys.
mod Leave
mod Tests
use msgbroker.Prelude.{ℕ, Bool, true, false, ◌&&◌, ◌||◌, not, List, [], ◌∷◌, take, if◌then◌else◌}
use msgbroker.Errno.{Errno, Rc, ok, err, eexist}
use msgbroker.Distributed.Ring.{Ring, lookup}
use msgbroker.Distributed.Ring
use msgbroker.Distributed.Gossip.{
  Gossip, Config, Change, NodeState, dead, unknown, alive, suspect, addr_len, default_interval_ms,
  add_node, remove_node, node_count, set_callback, tick,
}
use msgbroker.Distributed.Gossip

-- `enum mb_cluster_state`.
pub data ClusterState : Type 0 where
  starting joining active leaving stopped : ClusterState

-- `struct mb_cluster`, less the discovery. `routing` is the ring of `struct mb_routing`, of which each
-- function is the ring's under a lock.
pub record Cluster : Type 0 where
  pub state : ClusterState
  pub local_node_id : ℕ
  pub local_addr : List ℕ
  pub gossip : Gossip
  pub routing : Ring

-- `MB_RING_VIRTUAL_NODES`.
abbrev pub virtual_nodes : ℕ
virtual_nodes = 150

-- `alloc_ok` is whether `mb_alloc` gives the local node, and `now` what `mb_clock_ms` gives.
abbrev pub init : Bool → ℕ → ℕ → List ℕ → Cluster
init alloc_ok now id addr =
    let here = take 63 addr in
    let config : Config = record {
      local_node_id = id;
      local_addr = here;
      interval_ms = default_interval_ms;
      suspect_timeout_ms = 0;
      dead_timeout_ms = 0;
    } in
    record {
      state = starting;
      local_node_id = id;
      local_addr = here;
      gossip = set_callback true (Gossip.init alloc_ok now config);
      routing = Ring.init virtual_nodes;
    }

-- `gossip_rc` and `discovery_rc` are what starting the two threads gives.
abbrev pub start : Rc → Rc → Cluster → Rc × Cluster
start (err e) discovery_rc c = (err e, c)
start (ok n) (err e) c = (err e, c)
start (ok n) (ok m) c = (ok 0, record c { state = active })

abbrev pub is_running : ClusterState → Bool
is_running active = true
is_running joining = true
is_running starting = false
is_running leaving = false
is_running stopped = false

abbrev pub stop : Cluster → Cluster
stop c = record c { state = if is_running c.state then stopped else c.state }

unfoldable pub leave_node : ℕ → Cluster → Rc × Cluster
leave_node id c = (
  ok 0,
  record c { gossip = (remove_node id c.gossip).1; routing = (Ring.remove id c.routing).1 },
)

unfoldable pub route_key : Cluster → List ℕ → ℕ
route_key c key = lookup c.routing key

abbrev pub cluster_count : Cluster → ℕ
cluster_count c = node_count c.gossip

abbrev pub is_dead : NodeState → Bool
is_dead dead = true
is_dead unknown = false
is_dead alive = false
is_dead suspect = false

unfoldable pub on_gossip_change : Change → Cluster → Cluster
on_gossip_change x c = if is_dead x.new_state then (leave_node x.node_id c).1 else c

-- The calls of the callback that a tick makes.
unfoldable pub on_changes : List Change → Cluster → Cluster
on_changes [] c = c
on_changes (x ∷ xs) c = on_changes xs (on_gossip_change x c)

-- One `mb_gossip_tick` of the cluster's gossip.
unfoldable pub tick_cluster : ℕ → Cluster → Cluster
tick_cluster now c =
    let (calls, g) = tick now c.gossip in on_changes calls (record c { gossip = g })

module _ (vnode_key : ℕ → ℕ → List ℕ) (can : ℕ → Bool) where
  -- Whether `mb_cluster_join_node` goes on after `mb_gossip_add_node`.
  abbrev pub goes_on : Rc → Bool
  goes_on (ok n) = true
  goes_on (err eexist) = true
  goes_on (err e) = false

  unfoldable pub join_node : Bool → ℕ → ℕ → List ℕ → Cluster → Rc × Cluster
  join_node alloc_ok now id addr c =
      let (rc, g) = add_node alloc_ok now id addr c.gossip in
      let (rc', r) = Ring.add vnode_key can id addr c.routing in
      if goes_on rc
      then (rc', record c { gossip = g; routing = r })
      else (rc, record c { gossip = g })

  -- A node that discovery has found.
  abbrev pub on_discovery : Bool → ℕ → ℕ → List ℕ → Cluster → Cluster
  on_discovery alloc_ok now id addr c = (join_node alloc_ok now id addr c).1
