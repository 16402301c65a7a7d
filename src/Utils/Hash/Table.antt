-- ===== src/Utils/Hash/Table.antt =====
-- hash.c: the table is a map.
use msgbroker.Prelude.{
  ℕ, ◌%◌, ◌/◌, ◌<◌, ◌≤◌, ◌≡◌, ◌≢◌, refl, ap, sym, ◌∙◌, true, false, Option, none, some, List, [],
  ◌∷◌, ◌==◌, ==_iff, ltb, leb, length, set, length-set, replicate, length-replicate, Bool-cases,
  inl, inr, if◌then◌else◌, arith,
}
use msgbroker.Utils.Hash.{
  HashItem, Hash, hash_fn, chain, find, push, rehash_all, new_nbuckets, grow, put, insert, unlink,
  unlinked, erase, size_max,
}
use msgbroker.Utils.Hash.Chains.{eq_false, find_at, find_at-push, get_or-set_self, get_or-set_ne}
use msgbroker.Utils.Hash.Rehash.{items, rehash_all-items, find_at-rehash_all, length-rehash}
use msgbroker.Utils.Hash.Kept.{IsChains, Distinct-get_or, push-IsChains, rehash_all-IsChains}
use msgbroker.Utils.Hash.Unlink.{find_in-unlink, unlink-IsChains}

-- A table that is there, with every item in the chain of its hash and no key twice.
pub record IsHash (h : Hash) : Type 0 where
  pub has_buckets : 0 < length h.buckets
  pub chains : IsChains h.buckets

-- The calls that change a table.
pub data Change : Type 0 where
  inserts : HashItem → Change
  erases : ℕ → Change

-- With memory.
abbrev pub change : Change → Hash → Hash
change (inserts it) h = insert true it h
change (erases k) h = erase k h

-- Only an item with a new key is inserted, into a table that can still double.
abbrev pub Allowed : Change → Hash → Type 0
Allowed (inserts it) h = (find it.key h ≡ none) × (length h.buckets ≤ size_max / 2 / 8)
Allowed (erases k) h = Unit {0}

-- The change of a map from keys to items.
abbrev pub changed : Change → (ℕ → Option HashItem) → ℕ → Option HashItem
changed (inserts it) m k = if it.key == k then some it else m k
changed (erases j) m k = if j == k then none else m k

abbrev pub Maps : Change → Hash → Hash → Type 0
Maps c h h' = IsHash h' × ((k : ℕ) → find k h' ≡ changed c (λ j. find j h) k)

ltb-false : (a b : ℕ) → b ≤ a → ltb a b ≡ false
ltb-false a b h = ground arith

new_nbuckets_pos : (n : ℕ) → 0 < new_nbuckets n
new_nbuckets_pos n = ground arith

put-Maps :
    (it : HashItem) (h : Hash) → IsHash h → find it.key h ≡ none → Maps (inserts it) h (put it h)
unfolding find push
put-Maps it h v f = (
  record {
    has_buckets = omega (
      arith,
      v.has_buckets,
      length-set h.buckets (hash_fn it.key % length h.buckets) (it ∷ chain it.key h.buckets),
    );
    chains = push-IsChains it h.buckets v.chains f;
  },
  λ k. find_at-push k it h.buckets v.has_buckets,
)

-- The table that `grow` gives when there is memory.
abbrev doubled : Hash → Hash
doubled h = record h {
  buckets = rehash_all h.buckets (replicate (new_nbuckets (length h.buckets)) []);
}

find-doubled : (k : ℕ) (h : Hash) → IsHash h → find k (doubled h) ≡ find k h
unfolding find
find-doubled k h v =
    find_at-rehash_all k (new_nbuckets (length h.buckets)) h.buckets
      (new_nbuckets_pos (length h.buckets)) v.chains.0 v.chains.1

length-rehash_all :
    (bs : List (List HashItem)) (m : ℕ) → length (rehash_all bs (replicate m [])) ≡ m
length-rehash_all bs m =
    ap length (rehash_all-items bs (replicate m []))
    ∙ length-rehash (items bs) (replicate m [])
    ∙ length-replicate {A = List HashItem} m []

doubled-IsHash : (h : Hash) → IsHash h → IsHash (doubled h)
doubled-IsHash h v =
    let m = new_nbuckets (length h.buckets) in
    record {
      has_buckets =
          omega (arith, new_nbuckets_pos (length h.buckets), length-rehash_all h.buckets m);
      chains = rehash_all-IsChains h.buckets m (new_nbuckets_pos (length h.buckets)) v.chains;
    }

grow-doubled : (h : Hash) → length h.buckets ≤ size_max / 2 / 8 → grow true h ≡ some (doubled h)
unfolding grow
grow-doubled h l =
    let e : ltb (size_max / 2 / 8) (length h.buckets) ≡ false = ltb-false _ _ l in rw e refl

find_missing :
    (j k : ℕ) (h : Hash) → find k h ≡ none → find j h ≡ (if k == j then none else find j h)
find_missing j k h e = elim (Bool-cases (k == j)) [
  | inl f ↦ rw f (rw ((==_iff k j).0 f) at e)
  | inr f ↦ rw f refl
]

find_unlinked :
    (j k : ℕ) (h : Hash)
    → IsHash h
    → find_at j (set h.buckets (hash_fn k % length h.buckets) (unlink k (chain k h.buckets)))
      ≡ (if k == j then none else find j h)
unfolding find
find_unlinked j k h v =
    let bs = h.buckets in
    let i = hash_fn k % length bs in
    let i' = hash_fn j % length bs in
    let c = unlink k (chain k bs) in
    let l : i < length bs = grind (arith, v.has_buckets) in
    elim (Bool-cases (i == i')) [
      | inl e ↦
          let q : i ≡ i' = (==_iff i i').0 e in
          let d = find_in-unlink j k (chain k bs) (Distinct-get_or i bs v.chains.1) in
          rw (length-set bs i c) (rw (← q) (rw (get_or-set_self bs i c [] l) d))
      | inr e ↦
          let q : i ≢ i' = λ z. cc (sym ((==_iff i i').1 z) ∙ e) in
          let d = eq_false k j (λ z. q (ap (λ x. hash_fn x % length bs) z)) in
          rw (length-set bs i c) (rw (get_or-set_ne bs i i' c [] q, d) refl)
    ]

erase-Maps :
    (k : ℕ) (h : Hash) (o : Option HashItem)
    → IsHash h
    → find k h ≡ o
    → Maps (erases k) h (unlinked k h o)
unfolding find
erase-Maps k h none v e = (v, λ j. find_missing j k h e)
erase-Maps k h (some it) v e = (
  record {
    has_buckets = omega (
      arith,
      v.has_buckets,
      length-set h.buckets (hash_fn k % length h.buckets) (unlink k (chain k h.buckets)),
    );
    chains = unlink-IsChains k h.buckets v.chains;
  },
  λ j. find_unlinked j k h v,
)

-- With memory, a change of a table in order that adds no key twice, and that inserts only while the
-- number of buckets can still be doubled, keeps the table in order, and then it finds for every key what
-- the same change of a map from keys to items gives, also when an insertion doubles the buckets
-- first.
pub change-Maps : (c : Change) (h : Hash) → IsHash h → Allowed c h → Maps c h (change c h)
unfolding insert erase
change-Maps (erases k) h v a = erase-Maps k h (find k h) v refl
change-Maps (inserts it) h v a =
    let n = eq_false (length h.buckets) 0 (λ z. absurd (omega (arith, z, v.has_buckets))) in
    elim (Bool-cases (leb (length h.buckets) h.count)) [
      | inl e ↦
          let d = doubled-IsHash h v in
          let p = put-Maps it (doubled h) d (find-doubled it.key h v ∙ a.0) in
          rw (n, e, grow-doubled h a.1)
            (p.0, λ k. p.1 k ∙ ap (λ o. if it.key == k then some it else o) (find-doubled k h v))
      | inr e ↦ rw (n, e) (put-Maps it h v a.0)
    ]
