-- ===== src/Distributed/Ring/Tests.antt =====
-- ring.c on concrete rings: single-digit node ids, two vnodes each.
use msgbroker.Prelude.{
  ℕ, ◌+◌, ◌≡◌, ◌≢◌, ◌<◌, ◌≤◌, refl, Bool, true, false, List, [], ◌∷◌, arith, length,
}
use msgbroker.Errno.{err, eexist, minus_one}
use msgbroker.Distributed.Ring.{
  Ring, init, add, remove, lookup, lookup_n, hash, contains, search, has_node, insert_vnode_sorted,
  drop_vnodes,
}
use msgbroker.Distributed.Ring.Sorted.{IsSorted}
use msgbroker.Distributed.Ring.Search.{rank, search-rank}
use msgbroker.Distributed.Ring.Owner.{owner, lookup-owner, lookup-remove}
use msgbroker.Distributed.Ring.Members.{IsRing, owner_count, remove-IsRing}
use msgbroker.Distributed.Ring.Add.{AddOutcome, add-Outcome}
use msgbroker.Distributed.Ring.Walk.{Nodup, owner_at, lookup_n_lem}

-- "%u:%d" at numbers of one digit.
abbrev printed : ℕ → ℕ → List ℕ
printed id i = (b'0' + id) ∷ b':' ∷ (b'0' + i) ∷ []

abbrev plenty : ℕ → Bool
plenty n = true

abbrev two : Ring
two = record {
  nodes = record { node_id = 1; addr = [] } ∷ record { node_id = 2; addr = [] } ∷ [];
  node_cap = 4;
  vnodes =
      record { point = 2124222683; owner = 2 }
      ∷ record { point = 2450689720; owner = 1 }
      ∷ record { point = 2500446193; owner = 2 }
      ∷ record { point = 2826959458; owner = 1 }
      ∷ [];
  vnode_cap = 16;
  virtual_count = 2;
}

add_twice : (add printed plenty 2 [] (add printed plenty 1 [] (init 2)).1).1 ≡ two
unfolding add init has_node insert_vnode_sorted hash
add_twice = refl

add_again : add printed plenty 2 [] two ≡ (err eexist, two)
unfolding add has_node
add_again = refl

add_no_memory : (add printed (λ n. false) 3 [] (record two { vnode_cap = 4 })).0 ≡ err minus_one
unfolding add has_node drop_vnodes
add_no_memory = refl

abbrev key : List ℕ
key = b'k' ∷ []

two_IsSorted : IsSorted two.vnodes
two_IsSorted = omega arith

two-IsRing : IsRing two
unfolding owner_count has_node
two-IsRing = record {
  sorted = omega arith;
  distinct = (refl, (refl, tt));
  share = λ id. ground arith;
}

two_ne_nil : two.vnodes ≢ []
two_ne_nil e = cc

search-rank_example : search 4 two.vnodes (hash key) 0 4 ≡ rank (hash key) two.vnodes
search-rank_example = search-rank two.vnodes (hash key) two_IsSorted

lookup-owner_example : lookup two key ≡ owner (hash key) two.vnodes
lookup-owner_example = lookup-owner two key two_IsSorted

lookup-two : lookup two key ≡ 2
unfolding lookup hash
lookup-two = refl

lookup-remove_example : lookup (remove 1 two).1 key ≡ lookup two key
lookup-remove_example =
    lookup-remove two 1 key two_IsSorted (λ e. absurd (omega (arith, e, lookup-two)))

remove-IsRing_example : IsRing (remove 1 two).1
remove-IsRing_example = remove-IsRing 1 two-IsRing

add-Outcome_example : AddOutcome printed plenty 3 [] two (add printed plenty 3 [] two)
add-Outcome_example = add-Outcome printed plenty 3 [] two-IsRing

lookup_n_lem_example :
    let out = lookup_n two key 3 in
    Nodup out
    × (length out ≤ 3)
    × ((rest : List ℕ) × (out ≡ lookup two key ∷ rest))
    × (length out < 3 → (i : ℕ) → i < 4 → contains (owner_at two.vnodes i) out ≡ true)
lookup_n_lem_example = lookup_n_lem two key 3 two_IsSorted two_ne_nil (omega arith)
