-- ===== src/Distributed.antt =====
-- src/distributed: membership and routing of a cluster.
pub mod Ring
pub mod Gossip
pub mod Cluster
pub mod Protocol
