-- ===== src/Distributed/Cluster/Tests.antt =====
-- cluster.c: tests and examples.
use msgbroker.Prelude.{refl, true, [], ◌∷◌, All}
use msgbroker.Distributed.Gossip.{tick, add_node, has_id}
use msgbroker.Distributed.Ring.Members.{init-IsRing}
use msgbroker.Distributed.Cluster.{Cluster, init, tick_cluster}
use msgbroker.Distributed.Cluster.Leave.{IsCluster, Buried, tick_cluster-Buried}

-- Node 1 knows node 2, which was last seen at 0.
abbrev two : Cluster
two =
    let c = init true 0 1 (65 ∷ []) in
    record c { gossip = (add_node true 0 2 (66 ∷ []) c.gossip).1 }

two-IsCluster : IsCluster two
unfolding add_node has_id
two-IsCluster = record { uniq = (refl, (refl, tt)); ring = init-IsRing 150 }

tick_cluster-Buried_example :
    All (Buried (tick_cluster 20000 two)) (tick 20000 two.gossip).0
    × IsCluster (tick_cluster 20000 two)
tick_cluster-Buried_example = tick_cluster-Buried 20000 two two-IsCluster
