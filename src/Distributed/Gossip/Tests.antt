-- ===== src/Distributed/Gossip/Tests.antt =====
-- gossip.c: tests and examples.
use msgbroker.Prelude.{◌≤◌, ◌≡◌, refl, true, [], ◌∷◌, length, arith}
use msgbroker.Distributed.Gossip.{
  alive, suspect, dead, Config, Gossip, init, add_node, set_callback, tick, tick_nodes, tick_node,
  change, aged, has_id,
}
use msgbroker.Distributed.Gossip.Tick.{Aged, Pairwise, tick-Aged}
use msgbroker.Distributed.Gossip.Nodes.{Uniq}

abbrev config : Config
config = record {
  local_node_id = 1;
  local_addr = 65 ∷ [];
  interval_ms = 1000;
  suspect_timeout_ms = 0;
  dead_timeout_ms = 0;
}

-- Node 1, and node 2, which was seen at 100.
abbrev two : Gossip
two = set_callback true (add_node true 100 2 (66 ∷ []) (init true 0 config)).1

two_suspect :
    (tick 4000 two).0
    ≡ record { node_id = 2; addr = 66 ∷ []; old_state = alive; new_state = suspect } ∷ []
unfolding tick tick_nodes tick_node change aged add_node has_id
two_suspect = refl

two_dead :
    (tick 20000 two).0
    ≡ record { node_id = 2; addr = 66 ∷ []; old_state = alive; new_state = dead } ∷ []
unfolding tick tick_nodes tick_node change aged add_node has_id
two_dead = refl

two-small : length two.nodes ≤ 256
unfolding add_node has_id
two-small = omega arith

two-Uniq : Uniq two.nodes
unfolding add_node has_id
two-Uniq = (refl, (refl, tt))

tick-Aged_example : Pairwise (Aged config) two.nodes (tick 4000 two).1.nodes
unfolding add_node has_id
tick-Aged_example = tick-Aged 4000 two
