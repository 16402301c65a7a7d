-- ===== src/Utils.antt =====
-- src/utils: the data structures that the protocols stand on.
pub mod Trie
pub mod Rotor
pub mod Fq
pub mod Lb
pub mod Wire
pub mod Hash
pub mod Queue
pub mod Chain
