-- ===== src/Utils/Hash.antt =====
-- src/utils/hash.c: a hash table of chained items under 32-bit keys. An item is known by a number; the
-- table that is not there, `buckets` NULL, has no buckets.
mod Chains
mod Rehash
mod Kept
mod Unlink
mod Table
mod Tests
use msgbroker.Prelude.{
  ℕ, zero, suc, ◌+◌, ◌-◌, ◌*◌, ◌/◌, ◌%◌, ◌^◌, Bool, true, false, Option, none, some, List, [], ◌∷◌,
  ◌==◌, ltb, leb, length, get_or, set, replicate, if◌then◌else◌,
}
use msgbroker.Errno.{Errno, Rc, ok, err, einval, enomem}
use Prim.Native.Nat.{bit_xor}

-- `struct mb_hash_item`.
pub record HashItem : Type 0 where
  pub key : ℕ
  pub id : ℕ

-- `struct mb_hash`; `nbuckets` is the length of `buckets`.
pub record Hash : Type 0 where
  pub buckets : List (List HashItem)
  pub count : ℕ

abbrev hash_round : ℕ → ℕ
hash_round key = (bit_xor (key / 2 ^ 16) key * 0x45d9f3b) % 2 ^ 32

-- `mb_hash_fn`.
unfoldable pub hash_fn : ℕ → ℕ
hash_fn key = let k = hash_round (hash_round key) in bit_xor (k / 2 ^ 16) k

abbrev pub size_max : ℕ
size_max = 2 ^ 64 - 1

-- `alloc_ok` is whether `mb_alloc` gives the buckets.
abbrev pub init : Bool → ℕ → Rc × Hash
init alloc_ok nbuckets =
    let empty : Hash = record { buckets = []; count = 0 } in
    if nbuckets == 0
    then (err einval, empty)
    else if ltb (size_max / 8) nbuckets
    then (err enomem, empty)
    else if alloc_ok
    then (ok 0, record { buckets = replicate nbuckets []; count = 0 })
    else (err enomem, empty)

abbrev pub term : Hash → Hash
term h = record { buckets = []; count = 0 }

-- The first item with the key in a chain.
unfoldable pub find_in : ℕ → List HashItem → Option HashItem
find_in key [] = none
find_in key (it ∷ its) = if it.key == key then some it else find_in key its

abbrev pub chain : ℕ → List (List HashItem) → List HashItem
chain key bs = get_or bs (hash_fn key % length bs) []

-- `mb_hash_find`.
unfoldable pub find : ℕ → Hash → Option HashItem
find key h = find_in key (chain key h.buckets)

-- The item becomes the first of its chain.
unfoldable pub push : HashItem → List (List HashItem) → List (List HashItem)
push it bs = set bs (hash_fn it.key % length bs) (it ∷ chain it.key bs)

-- The inner loop of `mb_hash_grow`, over one chain of the old table.
unfoldable pub rehash : List HashItem → List (List HashItem) → List (List HashItem)
rehash [] bs = bs
rehash (it ∷ its) bs = rehash its (push it bs)

-- The outer loop.
unfoldable pub rehash_all : List (List HashItem) → List (List HashItem) → List (List HashItem)
rehash_all [] bs = bs
rehash_all (c ∷ cs) bs = rehash_all cs (rehash c bs)

abbrev pub new_nbuckets : ℕ → ℕ
new_nbuckets n = if ltb (n * 2) 16 then 16 else n * 2

-- `mb_hash_grow`: `none` is the error -ENOMEM.
unfoldable pub grow : Bool → Hash → Option Hash
grow alloc_ok h =
    let n = length h.buckets in
    let new = replicate (new_nbuckets n) [] in
    if ltb (size_max / 2 / 8) n
    then none
    else if alloc_ok
    then some (record h { buckets = rehash_all h.buckets new })
    else none

abbrev pub put : HashItem → Hash → Hash
put it h = record { buckets = push it h.buckets; count = h.count + 1 }

abbrev pub grown : HashItem → Hash → Option Hash → Hash
grown it h none = h
grown it h (some h') = put it h'

-- `mb_hash_insert`.
unfoldable pub insert : Bool → HashItem → Hash → Hash
insert alloc_ok it h =
    if length h.buckets == 0
    then h
    else if leb (length h.buckets) h.count
    then grown it h (grow alloc_ok h)
    else put it h

-- The chain without its first item of the key, if there is one.
unfoldable pub unlink : ℕ → List HashItem → List HashItem
unlink key [] = []
unlink key (it ∷ its) = if it.key == key then its else it ∷ unlink key its

abbrev pub unlinked : ℕ → Hash → Option HashItem → Hash
unlinked key h none = h
unlinked key h (some it) = record {
  buckets = set h.buckets (hash_fn key % length h.buckets) (unlink key (chain key h.buckets));
  count = h.count - 1;
}

-- `mb_hash_erase`.
unfoldable pub erase : ℕ → Hash → Hash
erase key h = unlinked key h (find key h)

abbrev pub count_of : Hash → ℕ
count_of h = h.count
