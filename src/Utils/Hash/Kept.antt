-- ===== src/Utils/Hash/Kept.antt =====
-- hash.c: the chains stay in order.
use msgbroker.Prelude.{
  ℕ, zero, suc, ◌+◌, ◌%◌, ◌<◌, ◌≡◌, refl, sym, ◌∙◌, Option, none, some, List, [], ◌∷◌, ◌++◌, ◌==◌,
  ==_iff, length, get_or, set, length-set, replicate, length-replicate, All, Bool-cases, inl, inr,
  arith,
}
use mathlib.Core.Path.{subst}
use msgbroker.Utils.Hash.{HashItem, hash_fn, find_in, chain, push, rehash, rehash_all}
use msgbroker.Utils.Hash.Chains.{or_else, last, eq_false, find_at, length-push, find_at-push}
use msgbroker.Utils.Hash.Rehash.{
  items, Placed, Distinct, rehash_all-items, last_before, find_at-replicate,
}

-- Every item has its place, and no key is there twice.
abbrev pub IsChains : List (List HashItem) → Type 0
IsChains bs = Placed (length bs) 0 bs × All Distinct bs

abbrev pub InPlace : ℕ → ℕ → HashItem → Type 0
InPlace n j it = hash_fn it.key % n ≡ j

-- A chain is replaced by one that is in order too.
Placed-set :
    (n j d : ℕ) (c : List HashItem) (cs : List (List HashItem))
    → Placed n j cs
    → All (InPlace n (d + j)) c
    → Placed n j (set cs d c)
Placed-set n j d c [] p a = tt
Placed-set n j zero c (b ∷ cs) p a = (subst (λ x. All (InPlace n x) c) (omega arith) a, p.1)
Placed-set n j (suc d) c (b ∷ cs) p a =
    (p.0, Placed-set n (suc j) d c cs p.1 (subst (λ x. All (InPlace n x) c) (omega arith) a))

Distinct-set :
    (d : ℕ) (c : List HashItem) (cs : List (List HashItem))
    → All Distinct cs
    → Distinct c
    → All Distinct (set cs d c)
Distinct-set d c [] p a = tt
Distinct-set zero c (b ∷ cs) p a = (a, p.1)
Distinct-set (suc d) c (b ∷ cs) p a = (p.0, Distinct-set d c cs p.1 a)

Placed-get_or :
    (n j d : ℕ) (cs : List (List HashItem))
    → Placed n j cs
    → All (InPlace n (d + j)) (get_or cs d [])
Placed-get_or n j d [] p = tt
Placed-get_or n j zero (c ∷ cs) p = subst (λ x. All (InPlace n x) c) (omega arith) p.0
Placed-get_or n j (suc d) (c ∷ cs) p =
    subst (λ x. All (InPlace n x) (get_or cs d [])) (omega arith) (Placed-get_or n (suc j) d cs p.1)

pub Distinct-get_or :
    (d : ℕ) (cs : List (List HashItem)) → All Distinct cs → Distinct (get_or cs d [])
Distinct-get_or d [] p = tt
Distinct-get_or zero (c ∷ cs) p = p.0
Distinct-get_or (suc d) (c ∷ cs) p = Distinct-get_or d cs p.1

pub set-IsChains :
    (k : ℕ) (c : List HashItem) (bs : List (List HashItem))
    → IsChains bs
    → All (InPlace (length bs) (hash_fn k % length bs)) c
    → Distinct c
    → IsChains (set bs (hash_fn k % length bs) c)
set-IsChains k c bs v a d =
    let i = hash_fn k % length bs in
    (
      subst (λ x. Placed x 0 (set bs i c)) (sym (length-set bs i c))
          (Placed-set (length bs) 0 i c bs v.0
            (subst (λ x. All (InPlace (length bs) x) c) (omega arith) a)),
      Distinct-set i c bs v.1 d,
    )

pub chain-InPlace :
    (k : ℕ) (bs : List (List HashItem))
    → IsChains bs
    → All (InPlace (length bs) (hash_fn k % length bs)) (chain k bs)
chain-InPlace k bs v =
    subst (λ x. All (InPlace (length bs) x) (chain k bs)) (omega arith)
      (Placed-get_or (length bs) 0 (hash_fn k % length bs) bs v.0)

pub push-IsChains :
    (it : HashItem) (bs : List (List HashItem))
    → IsChains bs
    → find_at it.key bs ≡ none
    → IsChains (push it bs)
unfolding push
push-IsChains it bs v h =
    set-IsChains it.key (it ∷ chain it.key bs) bs v (refl, chain-InPlace it.key bs v)
      (h, Distinct-get_or (hash_fn it.key % length bs) bs v.1)

-- Items of which none has a key of the table, nor the key of another.
fresh_after :
    (it : HashItem) (its : List HashItem) (bs : List (List HashItem))
    → 0 < length bs
    → find_in it.key its ≡ none
    → All (λ x. find_at x.key bs ≡ none) its
    → All (λ x. find_at x.key (push it bs) ≡ none) its
unfolding find_in
fresh_after it [] bs l h a = tt
fresh_after it (x ∷ xs) bs l h a = elim (Bool-cases (x.key == it.key)) [
  | inl e ↦ let c : some x ≡ none = rw e at h in cc
  | inr e ↦
      let d = eq_false it.key x.key (λ z. cc (sym ((==_iff x.key it.key).1 (sym z)) ∙ e)) in
      (find_at-push x.key it bs l ∙ rw d a.0, fresh_after it xs bs l (rw e at h) a.1)
]

rehash-IsChains :
    (its : List HashItem) (bs : List (List HashItem))
    → 0 < length bs
    → IsChains bs
    → Distinct its
    → All (λ x. find_at x.key bs ≡ none) its
    → IsChains (rehash its bs)
unfolding rehash
rehash-IsChains [] bs l v d a = v
rehash-IsChains (it ∷ its) bs l v d a =
    rehash-IsChains its (push it bs) (omega (arith, l, length-push it bs))
      (push-IsChains it bs v a.0) d.1 (fresh_after it its bs l d.0 a.1)

or_else-some : (o : Option HashItem) (it : HashItem) → or_else o (some it) ≡ none → ⊥
or_else-some none it h = cc
or_else-some (some x) it h = cc

or_else_left : (a b : Option HashItem) → or_else a b ≡ none → a ≡ none
or_else_left none b h = refl
or_else_left (some x) b h = h

find_in-append :
    (k : ℕ) (xs ys : List HashItem)
    → find_in k xs ≡ none
    → find_in k ys ≡ none
    → find_in k (xs ++ ys) ≡ none
unfolding find_in
find_in-append k [] ys h g = g
find_in-append k (x ∷ xs) ys h g = elim (Bool-cases (x.key == k)) [
  | inl e ↦ let c : some x ≡ none = rw e at h in cc
  | inr e ↦ rw e (find_in-append k xs ys (rw e at h) g)
]

last-none : (k : ℕ) (its : List HashItem) → last k its ≡ none → find_in k its ≡ none
unfolding last find_in
last-none k [] h = refl
last-none k (it ∷ its) h = elim (Bool-cases (it.key == k)) [
  | inl e ↦ absurd (or_else-some (last k its) it (rw e at h))
  | inr e ↦ rw e (last-none k its (or_else_left (last k its) none (rw e at h)))
]

Distinct-append :
    (xs ys : List HashItem)
    → Distinct xs
    → Distinct ys
    → All (λ x. find_in x.key ys ≡ none) xs
    → Distinct (xs ++ ys)
Distinct-append [] ys d e a = e
Distinct-append (x ∷ xs) ys d e a =
    (find_in-append x.key xs ys d.0 a.0, Distinct-append xs ys d.1 e a.1)

fresh_behind :
    (n j : ℕ) (c : List HashItem) (cs : List (List HashItem))
    → All (InPlace n j) c
    → Placed n (suc j) cs
    → All (λ x. find_in x.key (items cs) ≡ none) c
fresh_behind n j [] cs a p = tt
fresh_behind n j (it ∷ c) cs a p = (
  last-none it.key (items cs) (last_before n (suc j) it.key cs (omega (arith, a.0)) p),
  fresh_behind n j c cs a.1 p,
)

Distinct-items :
    (n j : ℕ) (cs : List (List HashItem)) → Placed n j cs → All Distinct cs → Distinct (items cs)
Distinct-items n j [] p d = tt
Distinct-items n j (c ∷ cs) p d =
    Distinct-append c (items cs) d.0 (Distinct-items n (suc j) cs p.1 d.1)
      (fresh_behind n j c cs p.0 p.1)

Placed-replicate : (n j m : ℕ) → Placed n j (replicate m [])
Placed-replicate n j zero = tt
Placed-replicate n j (suc m) = (tt, Placed-replicate n (suc j) m)

Distinct-replicate : (m : ℕ) → All Distinct (replicate m [])
Distinct-replicate zero = tt
Distinct-replicate (suc m) = (tt, Distinct-replicate m)

all_fresh : (its : List HashItem) (m : ℕ) → All (λ x. find_at x.key (replicate m []) ≡ none) its
all_fresh [] m = tt
all_fresh (it ∷ its) m = (find_at-replicate it.key m, all_fresh its m)

pub rehash_all-IsChains :
    (bs : List (List HashItem)) (m : ℕ)
    → 0 < m
    → IsChains bs
    → IsChains (rehash_all bs (replicate m []))
rehash_all-IsChains bs m h v = subst IsChains (sym (rehash_all-items bs (replicate m []))) (
    rehash-IsChains (items bs) (replicate m [])
      (omega (arith, h, length-replicate {A = List HashItem} m []))
      (Placed-replicate (length {A = List HashItem} (replicate m [])) 0 m, Distinct-replicate m)
      (Distinct-items (length bs) 0 bs v.0 v.1) (all_fresh (items bs) m))
