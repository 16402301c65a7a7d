-- ===== src/Utils/Hash/Rehash.antt =====
-- hash.c: a table that grows.
use msgbroker.Prelude.{
  ℕ, zero, suc, ◌+◌, ◌%◌, ◌<◌, ◌≡◌, ◌≢◌, refl, ap, ap₂, sym, ◌∙◌, Bool, true, false, Option, none,
  some, List, [], ◌∷◌, ◌++◌, ◌==◌, ==_iff, length, get_or, replicate, length-replicate, All,
  Bool-cases, inl, inr, if◌then◌else◌, arith,
}
use msgbroker.Utils.Hash.{HashItem, hash_fn, find_in, push, rehash, rehash_all}
use msgbroker.Utils.Hash.Chains.{
  or_else, or_else_assoc, or_else-none, last, last-append, eq_false, find_at, length-push,
  find_at-push,
}

-- All items, bucket after bucket.
abbrev pub items : List (List HashItem) → List HashItem
items [] = []
items (c ∷ cs) = c ++ items cs

rehash-append :
    (xs ys : List HashItem) (bs : List (List HashItem))
    → rehash (xs ++ ys) bs ≡ rehash ys (rehash xs bs)
unfolding rehash
rehash-append [] ys bs = refl
rehash-append (x ∷ xs) ys bs = rehash-append xs ys (push x bs)

pub rehash_all-items : (cs bs : List (List HashItem)) → rehash_all cs bs ≡ rehash (items cs) bs
unfolding rehash_all rehash
rehash_all-items [] bs = refl
rehash_all-items (c ∷ cs) bs =
    rehash_all-items cs (rehash c bs) ∙ sym (rehash-append c (items cs) bs)

pub length-rehash :
    (its : List HashItem) (bs : List (List HashItem)) → length (rehash its bs) ≡ length bs
unfolding rehash
length-rehash [] bs = refl
length-rehash (it ∷ its) bs = length-rehash its (push it bs) ∙ length-push it bs

if_or_else :
    (b : Bool) (it : HashItem) (o : Option HashItem)
    → (if b then some it else o) ≡ or_else (if b then some it else none) o
if_or_else true it o = refl
if_or_else false it o = refl

get_or-replicate : (n i : ℕ) → get_or {A = List HashItem} (replicate n []) i [] ≡ []
get_or-replicate zero i = refl
get_or-replicate (suc n) zero = refl
get_or-replicate (suc n) (suc i) = get_or-replicate n i

find_at-rehash :
    (k : ℕ) (its : List HashItem) (bs : List (List HashItem))
    → 0 < length bs
    → find_at k (rehash its bs) ≡ or_else (last k its) (find_at k bs)
unfolding rehash last
find_at-rehash k [] bs h = refl
find_at-rehash k (it ∷ its) bs h =
    let l : 0 < length (push it bs) = omega (arith, length-push it bs) in
    find_at-rehash k its (push it bs) l
    ∙ ap (or_else (last k its)) (find_at-push k it bs h)
    ∙ ap (or_else (last k its)) (if_or_else (it.key == k) it (find_at k bs))
    ∙ sym (or_else_assoc (last k its) (if it.key == k then some it else none) (find_at k bs))

pub find_at-replicate : (k n : ℕ) → find_at k (replicate n []) ≡ none
unfolding find_in
find_at-replicate k n =
    rw (get_or-replicate n (hash_fn k % length {A = List HashItem} (replicate n []))) refl

-- The items of the chain `j` and those behind it, of `n` buckets, have their place by their hash.
abbrev pub Placed : ℕ → ℕ → List (List HashItem) → Type 0
Placed n j [] = Unit
Placed n j (c ∷ cs) = All (λ it. hash_fn it.key % n ≡ j) c × Placed n (suc j) cs

-- No two items of a chain have the same key.
abbrev pub Distinct : List HashItem → Type 0
Distinct [] = Unit
Distinct (it ∷ its) = (find_in it.key its ≡ none) × Distinct its

find_in_same : (k j : ℕ) (its : List HashItem) → j ≡ k → find_in j its ≡ none → find_in k its ≡ none
find_in_same k j its e h = rw e at h

last-find_in : (k : ℕ) (its : List HashItem) → Distinct its → last k its ≡ find_in k its
unfolding last find_in
last-find_in k [] d = refl
last-find_in k (it ∷ its) d = elim (Bool-cases (it.key == k)) [
  | inl e ↦
      let q = find_in_same k it.key its ((==_iff it.key k).0 e) d.0 in
      rw (last-find_in k its d.1, q, e) refl
  | inr e ↦ rw (last-find_in k its d.1, e) (or_else-none (find_in k its))
]

last_elsewhere :
    (n j k : ℕ) (its : List HashItem)
    → hash_fn k % n ≢ j
    → All (λ it. hash_fn it.key % n ≡ j) its
    → last k its ≡ none
unfolding last
last_elsewhere n j k [] h a = refl
last_elsewhere n j k (it ∷ its) h a =
    let q = eq_false it.key k (λ z. h (ap (λ x. hash_fn x % n) (sym z) ∙ a.0)) in
    rw (last_elsewhere n j k its h a.1, q) refl

pub last_before :
    (n j k : ℕ) (cs : List (List HashItem))
    → hash_fn k % n < j
    → Placed n j cs
    → last k (items cs) ≡ none
unfolding last
last_before n j k [] h p = refl
last_before n j k (c ∷ cs) h p =
    last-append k c (items cs)
    ∙ ap₂ or_else (last_before n (suc j) k cs (omega arith) p.1)
        (last_elsewhere n j k c (λ z. absurd (omega (arith, z))) p.0)

-- The items of a key stand in its chain, `d` places behind the first of these.
last_there :
    (n j d k : ℕ) (cs : List (List HashItem))
    → hash_fn k % n ≡ d + j
    → Placed n j cs
    → All Distinct cs
    → last k (items cs) ≡ find_in k (get_or cs d [])
unfolding last find_in
last_there n j d k [] h p q = refl
last_there n j zero k (c ∷ cs) h p q =
    last-append k c (items cs)
    ∙ ap₂ or_else (last_before n (suc j) k cs (omega arith) p.1) (last-find_in k c q.0)
last_there n j (suc d) k (c ∷ cs) h p q =
    last-append k c (items cs)
    ∙ ap₂ or_else (last_there n (suc j) d k cs (omega arith) p.1 q.1)
        (last_elsewhere n j k c (λ z. absurd (omega (arith, z, h))) p.0)
    ∙ or_else-none _

-- Growing keeps what is found.
pub find_at-rehash_all :
    (k m : ℕ) (bs : List (List HashItem))
    → 0 < m
    → Placed (length bs) 0 bs
    → All Distinct bs
    → find_at k (rehash_all bs (replicate m [])) ≡ find_at k bs
find_at-rehash_all k m bs h p q =
    ap (find_at k) (rehash_all-items bs (replicate m []))
    ∙ find_at-rehash k (items bs) (replicate m [])
        (omega (arith, length-replicate {A = List HashItem} m []))
    ∙ ap₂ or_else (last_there (length bs) 0 (hash_fn k % length bs) k bs (omega arith) p q)
        (find_at-replicate k m)
    ∙ or_else-none _
