-- ===== src/Utils/Hash/Unlink.antt =====
-- hash.c: a key is taken out.
use msgbroker.Prelude.{
  ℕ, ◌%◌, ◌≡◌, refl, sym, ◌∙◌, Bool, true, false, Option, none, List, [], ◌∷◌, ◌==◌, ==_iff, length,
  set, All, Bool-cases, inl, inr, if◌then◌else◌,
}
use msgbroker.Utils.Hash.{HashItem, hash_fn, find_in, chain, unlink}
use msgbroker.Utils.Hash.Chains.{eq_false}
use msgbroker.Utils.Hash.Rehash.{Distinct}
use msgbroker.Utils.Hash.Kept.{IsChains, InPlace, set-IsChains, chain-InPlace, Distinct-get_or}

abbrev find_in_none : Option HashItem
find_in_none = none

if_none : (b : Bool) → find_in_none ≡ (if b then none else none)
if_none true = refl
if_none false = refl

if_same : (b : Bool) (o : Option HashItem) → o ≡ none → (if b then none else o) ≡ none
if_same true o h = refl
if_same false o h = h

-- A key is taken out of a chain.
pub find_in-unlink :
    (j k : ℕ) (c : List HashItem)
    → Distinct c
    → find_in j (unlink k c) ≡ (if k == j then none else find_in j c)
unfolding find_in unlink
find_in-unlink j k [] d = if_none (k == j)
find_in-unlink j k (it ∷ its) d = elim (Bool-cases (it.key == k)) [
  | inl e ↦
      let q = (==_iff it.key k).0 e in
      elim (Bool-cases (k == j)) [
        | inl f ↦ rw (e, f) (rw (q ∙ (==_iff k j).0 f) at (d.0))
        | inr f ↦ let g : (it.key == j) ≡ false = rw q f in rw (e, f, g) refl
      ]
  | inr e ↦ elim (Bool-cases (it.key == j)) [
    | inl f ↦
        let g =
          eq_false k j (λ z. cc (sym ((==_iff it.key k).1 ((==_iff it.key j).0 f ∙ sym z)) ∙ e)) in
        rw (e, f, g) refl
    | inr f ↦ rw (e, f) (find_in-unlink j k its d.1)
  ]
]

All-unlink : (P : HashItem → Type 0) (k : ℕ) (c : List HashItem) → All P c → All P (unlink k c)
unfolding unlink
All-unlink P k [] a = tt
All-unlink P k (it ∷ its) a = elim (Bool-cases (it.key == k)) [
  | inl e ↦ rw e a.1
  | inr e ↦ rw e (a.0, All-unlink P k its a.1)
]

still_none :
    (k : ℕ) (it : HashItem) (its : List HashItem)
    → Distinct (it ∷ its)
    → find_in it.key (unlink k its) ≡ none
still_none k it its d =
    find_in-unlink it.key k its d.1 ∙ if_same (k == it.key) (find_in it.key its) d.0

Distinct-unlink : (k : ℕ) (c : List HashItem) → Distinct c → Distinct (unlink k c)
unfolding unlink
Distinct-unlink k [] d = tt
Distinct-unlink k (it ∷ its) d = elim (Bool-cases (it.key == k)) [
  | inl e ↦ rw e d.1
  | inr e ↦ rw e (still_none k it its d, Distinct-unlink k its d.1)
]

pub unlink-IsChains :
    (k : ℕ) (bs : List (List HashItem))
    → IsChains bs
    → IsChains (set bs (hash_fn k % length bs) (unlink k (chain k bs)))
unlink-IsChains k bs v =
    set-IsChains k (unlink k (chain k bs)) bs v
      (All-unlink (InPlace (length bs) (hash_fn k % length bs)) k (chain k bs)
        (chain-InPlace k bs v))
      (Distinct-unlink k (chain k bs) (Distinct-get_or (hash_fn k % length bs) bs v.1))
