-- ===== src/Distributed/Ring.antt =====
-- src/distributed/ring.c: the consistent-hashing ring. `snprintf (buf, 128, "%u:%d", node_id, i)` is
-- the parameter `vnode_key` and the success of `mb_realloc` for a number of entries the parameter
-- `can`; addresses are lists of bytes, without the terminating NUL.
pub mod Sorted
pub mod Search
pub mod Owner
pub mod Members
pub mod Add
mod Room
pub mod Walk
mod Tests
use Prim.Native.Nat.{bit_xor, bit_or}
use msgbroker.Prelude.{
  ℕ, zero, suc, ◌+◌, ◌-◌, ◌*◌, ◌/◌, ◌^◌, Bool, true, false, not, ◌||◌, Option, none, some, List, [],
  ◌∷◌, ◌++◌, ltb, leb, ◌==◌, if◌then◌else◌, length, get_or, take, mul32,
}
use msgbroker.Errno.{Rc, ok, err, eexist, minus_one}

-- One round: `h ^= k; h *= 0x5bd1e995; h ^= h >> 15;`
abbrev pub shift_mix : ℕ → ℕ
shift_mix h = bit_xor h (h / 2 ^ 15)

abbrev pub round : ℕ → ℕ → ℕ
round h k = shift_mix (mul32 (bit_xor h k) 0x5bd1e995)

-- The little-endian word of up to four bytes.
abbrev pub word : ℕ → ℕ → ℕ → ℕ → ℕ
word a b c d = bit_or (bit_or (bit_or a (b * 2 ^ 8)) (c * 2 ^ 16)) (d * 2 ^ 24)

-- The loop over whole words, then the round for the bytes left.
unfoldable pub hash_from : ℕ → List ℕ → ℕ
hash_from h (a ∷ b ∷ c ∷ d ∷ rest) = hash_from (round h (word a b c d)) rest
hash_from h (a ∷ b ∷ c ∷ []) = round h (word a b c 0)
hash_from h (a ∷ b ∷ []) = round h (word a b 0 0)
hash_from h (a ∷ []) = round h (word a 0 0 0)
hash_from h [] = round h 0

unfoldable pub hash : List ℕ → ℕ
unfolding hash_from
hash bytes = hash_from 0x4D424452 bytes

pub record Vnode : Type 0 where
  pub point : ℕ
  pub owner : ℕ

pub record Node : Type 0 where
  pub node_id : ℕ
  pub addr : List ℕ

-- `nodes` and `vnodes` are the used parts of the arrays; their lengths are `node_count` and
-- `vnode_count`.
pub record Ring : Type 0 where
  pub nodes : List Node
  pub node_cap : ℕ
  pub vnodes : List Vnode
  pub vnode_cap : ℕ
  pub virtual_count : ℕ

-- 0 stands for every `virtual_count` that is not positive.
unfoldable pub init : ℕ → Ring
init n = record {
  nodes = [];
  node_cap = 0;
  vnodes = [];
  vnode_cap = 0;
  virtual_count = if ltb 0 n then n else 150;
}

unfoldable pub term : Ring → Ring
term r = record r { nodes = []; node_cap = 0; vnodes = []; vnode_cap = 0 }

unfoldable pub count : Ring → ℕ
count r = length r.nodes

-- The capacity after the array must hold one more entry, `none` when `mb_realloc` fails.
abbrev pub grow : (ℕ → Bool) → ℕ → ℕ → ℕ → Option ℕ
grow can first used cap =
    if ltb used cap
    then some cap
    else let cap' = if cap == 0 then first else cap * 2 in if can cap' then some cap' else none

pub grow_nodes : (ℕ → Bool) → Ring → Option Ring
grow_nodes can r = elim (grow can 4 (length r.nodes) r.node_cap) [
  | none ↦ none
  | some cap ↦ some (record r { node_cap = cap })
]

pub grow_vnodes : (ℕ → Bool) → Ring → Option Ring
grow_vnodes can r = elim (grow can 16 (length r.vnodes) r.vnode_cap) [
  | none ↦ none
  | some cap ↦ some (record r { vnode_cap = cap })
]

unfoldable pub insert_vnode_sorted : Vnode → List Vnode → List Vnode
insert_vnode_sorted v [] = v ∷ []
insert_vnode_sorted v (x ∷ xs) =
    if ltb x.point v.point then x ∷ insert_vnode_sorted v xs else v ∷ x ∷ xs

-- The compaction loop: every vnode of the node goes.
unfoldable pub drop_vnodes : ℕ → List Vnode → List Vnode
drop_vnodes id [] = []
drop_vnodes id (x ∷ xs) = if x.owner == id then drop_vnodes id xs else x ∷ drop_vnodes id xs

unfoldable pub has_node : ℕ → List Node → Bool
has_node id [] = false
has_node id (x ∷ xs) = x.node_id == id || has_node id xs

unfoldable pub drop_node : ℕ → List Node → List Node
drop_node id [] = []
drop_node id (x ∷ xs) = if x.node_id == id then xs else x ∷ drop_node id xs

-- `self->node_count--`: the last node goes.
abbrev pub drop_last : List Node → List Node
drop_last [] = []
drop_last (x ∷ []) = []
drop_last (x ∷ y ∷ xs) = x ∷ drop_last (y ∷ xs)

module _ (vnode_key : ℕ → ℕ → List ℕ) (can : ℕ → Bool) where
  abbrev pub vnode : ℕ → ℕ → Vnode
  vnode id i = record { point = hash (vnode_key id i); owner = id }

  -- The loop over the `n` vnodes from the `i`-th on.
  pub add_vnodes : ℕ → ℕ → ℕ → Ring → Rc × Ring
  add_vnodes id zero i r = (ok 0, r)
  add_vnodes id (suc n) i r = elim (grow_vnodes can r) [
    | none ↦
        (err minus_one, record r { vnodes = drop_vnodes id r.vnodes; nodes = drop_last r.nodes })
    | some s ↦
        add_vnodes id n (i + 1) (record s { vnodes = insert_vnode_sorted (vnode id i) s.vnodes })
  ]

  -- At most 63 bytes of the address are kept.
  unfoldable pub add : ℕ → List ℕ → Ring → Rc × Ring
  unfolding grow_nodes grow_vnodes add_vnodes
  add id addr r = if has_node id r.nodes then (err eexist, r) else elim (grow_nodes can r) [
    | none ↦ (err minus_one, r)
    | some s ↦
        add_vnodes id s.virtual_count 0
          (record s { nodes = s.nodes ++ record { node_id = id; addr = take 63 addr } ∷ [] })
  ]

unfoldable pub remove : ℕ → Ring → Rc × Ring
remove id r = (ok 0, record r { nodes = drop_node id r.nodes; vnodes = drop_vnodes id r.vnodes })

abbrev pub no_vnode : Vnode
no_vnode = record { point = 0; owner = 0 }

-- `while (lo < hi)`, with `hi - lo` rounds at most.
pub search : ℕ → List Vnode → ℕ → ℕ → ℕ → ℕ
search zero vs h lo hi = lo
search (suc fuel) vs h lo hi = elim (ltb lo hi) [
  | false ↦ lo
  | true ↦
      let mid = lo + (hi - lo) / 2 in
      elim (ltb (get_or vs mid no_vnode).point h) [
        | true ↦ search fuel vs h (mid + 1) hi
        | false ↦ search fuel vs h lo mid
      ]
]

-- The index of the first vnode at `h` or past it, 0 if there is none.
pub primary : List Vnode → ℕ → ℕ
primary vs h = let lo = search (length vs) vs h 0 (length vs) in if lo == length vs then 0 else lo

unfoldable pub lookup : Ring → List ℕ → ℕ
unfolding primary search
lookup r key =
    if length r.vnodes == 0
    then 0
    else (get_or r.vnodes (primary r.vnodes (hash key)) no_vnode).owner

unfoldable pub contains : ℕ → List ℕ → Bool
contains a [] = false
contains a (x ∷ xs) = x == a || contains a xs

-- The index after `i`, round the ring.
abbrev pub next : List Vnode → ℕ → ℕ
next vs i = if i + 1 == length vs then 0 else i + 1

-- `n` steps of the walk from `idx`; `ids` are the nodes collected so far.
pub walk : List Vnode → ℕ → ℕ → ℕ → List ℕ → List ℕ
walk vs max_count zero idx ids = ids
walk vs max_count (suc n) idx ids = elim (contains (get_or vs idx no_vnode).owner ids) [
  | true ↦ walk vs max_count n (next vs idx) ids
  | false ↦
      let ids' = ids ++ (get_or vs idx no_vnode).owner ∷ [] in
      elim (leb max_count (length ids')) [
        | true ↦ ids'
        | false ↦ walk vs max_count n (next vs idx) ids'
      ]
]

-- The nodes collected; the count returned is their number. 0 stands for every `max_count` that is
-- not positive.
unfoldable pub lookup_n : Ring → List ℕ → ℕ → List ℕ
unfolding primary search walk
lookup_n r key max_count =
    if max_count == 0 || length r.vnodes == 0
    then []
    else walk r.vnodes max_count (length r.vnodes) (primary r.vnodes (hash key)) []
