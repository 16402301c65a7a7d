-- ===== src/Utils/Hash/Tests.antt =====
-- hash.c: tests and examples.
use msgbroker.Prelude.{◌≡◌, refl, true, none, some, [], ◌∷◌, arith, length}
use msgbroker.Utils.Hash.{
  HashItem, Hash, hash_fn, find_in, find, push, rehash, rehash_all, grow, insert, unlink, erase,
}
use msgbroker.Utils.Hash.Table.{IsHash, inserts, change, Maps, change-Maps}

abbrev first : HashItem
first = record { key = 7; id = 1 }

abbrev second : HashItem
second = record { key = 70000; id = 2 }

-- One bucket that is full already, so that the insertion makes sixteen of it.
abbrev full : Hash
full = record { buckets = (first ∷ []) ∷ []; count = 1 }

full_grows : length (insert true second full).buckets ≡ 16
unfolding insert grow rehash_all rehash push hash_fn
full_grows = refl

both_found : find 7 (insert true second full) ≡ some first
unfolding insert grow rehash_all rehash push hash_fn find find_in
both_found = refl

erased : find 7 (erase 7 (insert true second full)) ≡ none
unfolding insert erase unlink grow rehash_all rehash push hash_fn find find_in
erased = refl

full-IsHash : IsHash full
unfolding find_in hash_fn
full-IsHash = record { has_buckets = omega arith; chains = (((refl, tt), tt), ((refl, tt), tt)) }

second_new : find 70000 full ≡ none
unfolding find find_in hash_fn
second_new = refl

change-Maps_example : Maps (inserts second) full (change (inserts second) full)
change-Maps_example = change-Maps (inserts second) full full-IsHash (second_new, omega arith)
