-- ===== src/Distributed/Gossip.antt =====
-- src/distributed/gossip.c: the failure detector. The functions run under the lock `sync`, so each is
-- one step here.
pub mod Tick
pub mod Nodes
mod Tests
use msgbroker.Prelude.{
  ℕ, zero, suc, ◌+◌, ◌-◌, ◌*◌, Bool, true, false, not, ◌&&◌, ◌||◌, Option, none, some, List, [],
  ◌∷◌, ◌++◌, ◌==◌, ltb, take, length, if◌then◌else◌, sub64,
}
use msgbroker.Errno.{Rc, ok, err, eexist, enoent, enomem}

abbrev pub max_nodes : ℕ
max_nodes = 256

abbrev pub addr_len : ℕ
addr_len = 64

abbrev pub default_interval_ms : ℕ
default_interval_ms = 1000

-- `enum mb_gossip_node_state`.
pub data NodeState : Type 0 where
  unknown alive suspect dead : NodeState

-- `struct mb_gossip_node`. An address is the list of its characters before the NUL.
pub record GossipNode : Type 0 where
  pub node_id : ℕ
  pub addr : List ℕ
  pub incarnation : ℕ
  pub state : NodeState
  pub last_seen_ms : ℕ

-- `struct mb_gossip_config`. The code treats a timeout below 0 like 0, and 0 stands for both here.
pub record Config : Type 0 where
  pub local_node_id : ℕ
  pub local_addr : List ℕ
  pub interval_ms : ℕ
  pub suspect_timeout_ms : ℕ
  pub dead_timeout_ms : ℕ

-- `struct mb_gossip`. `on_change` is whether a callback is set.
pub record Gossip : Type 0 where
  pub config : Config
  pub nodes : List GossipNode
  pub on_change : Bool

-- `now` is what `mb_clock_ms` gives.
abbrev pub node_init : ℕ → ℕ → List ℕ → GossipNode
node_init now id addr = record {
  node_id = id;
  addr = take (addr_len - 1) addr;
  incarnation = 0;
  state = alive;
  last_seen_ms = now;
}

abbrev pub is_id : ℕ → GossipNode → Bool
is_id id x = x.node_id == id

unfoldable pub has_id : ℕ → List GossipNode → Bool
has_id id [] = false
has_id id (x ∷ xs) = is_id id x || has_id id xs

-- `alloc_ok` is whether `mb_alloc` gives the node.
unfoldable pub add_node : Bool → ℕ → ℕ → List ℕ → Gossip → Rc × Gossip
add_node false now id addr g = (err enomem, g)
add_node true now id addr g =
    if has_id id g.nodes
    then (err eexist, g)
    else (ok 0, record g { nodes = g.nodes ++ node_init now id addr ∷ [] })

-- The result of `mb_gossip_add_node` is not looked at.
abbrev pub init : Bool → ℕ → Config → Gossip
init alloc_ok now config =
    (add_node alloc_ok now config.local_node_id config.local_addr
      (record { config = config; nodes = []; on_change = false })).1

abbrev pub term : Gossip → Gossip
term g = record g { nodes = [] }

unfoldable pub erase : ℕ → List GossipNode → List GossipNode
erase id [] = []
erase id (x ∷ xs) = if is_id id x then xs else x ∷ erase id xs

unfoldable pub remove_node : ℕ → Gossip → Rc × Gossip
remove_node id g =
    if has_id id g.nodes then (ok 0, record g { nodes = erase id g.nodes }) else (err enoent, g)

unfoldable pub find : ℕ → List GossipNode → Option GossipNode
find id [] = none
find id (x ∷ xs) = if is_id id x then some x else find id xs

abbrev pub find_node : Gossip → ℕ → Option GossipNode
find_node g id = find id g.nodes

abbrev pub node_count : Gossip → ℕ
node_count g = length g.nodes

abbrev pub set_callback : Bool → Gossip → Gossip
set_callback cb g = record g { on_change = cb }

-- One element of `changes`.
pub record Change : Type 0 where
  pub node_id : ℕ
  pub addr : List ℕ
  pub old_state : NodeState
  pub new_state : NodeState

abbrev pub suspect_after : Config → ℕ
suspect_after c =
    if ltb 0 c.suspect_timeout_ms then c.suspect_timeout_ms else default_interval_ms * 3

abbrev pub dead_after : Config → ℕ
dead_after c = if ltb 0 c.dead_timeout_ms then c.dead_timeout_ms else default_interval_ms * 10

abbrev pub to_suspect : Bool → NodeState → NodeState
to_suspect late alive = if late then suspect else alive
to_suspect late unknown = unknown
to_suspect late suspect = suspect
to_suspect late dead = dead

abbrev pub to_dead : Bool → NodeState → NodeState
to_dead late suspect = if late then dead else suspect
to_dead late unknown = unknown
to_dead late alive = alive
to_dead late dead = dead

-- The two tests on a node whose silence has the length `elapsed`.
unfoldable pub aged : Config → ℕ → NodeState → NodeState
aged c elapsed s =
    to_dead (ltb (dead_after c) elapsed) (to_suspect (ltb (suspect_after c) elapsed) s)

abbrev pub is_same : NodeState → NodeState → Bool
is_same unknown unknown = true
is_same alive alive = true
is_same suspect suspect = true
is_same dead dead = true
is_same s t = false

-- What the loop does to one node.
unfoldable pub tick_node : Config → ℕ → GossipNode → GossipNode
tick_node c now x =
    if is_id c.local_node_id x
    then x
    else record x { state = aged c (sub64 now x.last_seen_ms) x.state }

-- The node's element of `changes`, if it has one.
unfoldable pub change : GossipNode → GossipNode → List Change
change x y =
    if is_same x.state y.state
    then []
    else record { node_id = x.node_id; addr = x.addr; old_state = x.state; new_state = y.state }
      ∷ []

-- The loop; `n` is `nchanges`, and a change beyond the size of the array is not kept.
unfoldable pub tick_nodes : Config → ℕ → ℕ → List GossipNode → List GossipNode × List Change
tick_nodes c now n [] = ([], [])
tick_nodes c now n (x ∷ xs) =
    let y = tick_node c now x in
    let kept = if ltb n max_nodes then change x y else [] in
    let rest = tick_nodes c now (n + length kept) xs in (y ∷ rest.0, kept ++ rest.1)

-- The calls of the callback, and the state.
unfoldable pub tick : ℕ → Gossip → List Change × Gossip
tick now g =
    let (nodes, changes) = tick_nodes g.config now 0 g.nodes in
    (if g.on_change then changes else [], record g { nodes = nodes })
