-- ===== src/Utils/Trie/Counts.antt =====
-- trie.c: the reference counts. A node counts the subscriptions at and below it.
use msgbroker.Prelude.{
  ℕ, zero, suc, ◌+◌, ◌≤◌, ◌<◌, ◌≡◌, ◌≢◌, refl, sym, ap, ◌∙◌, Bool, true, false, not, ◌&&◌, List, [],
  ◌∷◌, arith, All, ◌==◌, if◌then◌else◌, Bool-cases, inl, inr,
}
use native.Mathlib.Decide.{ℕ_discrete}
use msgbroker.Utils.Trie.{
  Trie, Forest, null, node, nil, cons, child, set_child, nulls, subscribed, prune, new_node,
}

-- How many subscriptions there are.
unfoldable mutual
  pub count : Trie → ℕ
  count null = 0
  count (node r s f) = (if s then 1 else 0) + counts f

  pub counts : Forest → ℕ
  counts nil = 0
  counts (cons t f) = count t + counts f

abbrev pub size : Forest → ℕ
size nil = 0
size (cons t f) = suc (size f)

-- Every node has its 256 children and counts what is at and below it.
unfoldable mutual
  pub IsTrie : Trie → Type 0
  IsTrie null = Unit
  IsTrie (node r s f) = (r ≡ (if s then 1 else 0) + counts f) × (size f ≡ 256) × AreTries f

  pub AreTries : Forest → Type 0
  AreTries nil = Unit
  AreTries (cons t f) = IsTrie t × AreTries f

child-set_child :
    (f : Forest) (b a : ℕ) (t : Trie)
    → b < size f
    → child (set_child f b t) a ≡ (if a == b then t else child f a)
child-set_child nil b a t h = absurd (omega arith)
child-set_child (cons u f) zero zero t h = refl
child-set_child (cons u f) zero (suc a) t h = ground arith
child-set_child (cons u f) (suc b) zero t h = ground arith
child-set_child (cons u f) (suc b) (suc a) t h =
    child-set_child f b a t (omega arith) ∙ shift (a == b) (suc a == suc b) (ground arith)
  where
    shift : (x y : Bool) → x ≡ y → (if x then t else child f a) ≡ (if y then t else child f a)
    shift x y e = rw e

pub size-set_child : (f : Forest) (b : ℕ) (t : Trie) → size (set_child f b t) ≡ size f
size-set_child nil b t = refl
size-set_child (cons u f) zero t = refl
size-set_child (cons u f) (suc b) t = ap suc (size-set_child f b t)

pub counts-set_child :
    (f : Forest) (b : ℕ) (t : Trie)
    → b < size f
    → counts (set_child f b t) + count (child f b) ≡ counts f + count t
unfolding counts
counts-set_child nil b t h = absurd (omega arith)
counts-set_child (cons u f) zero t h = omega arith
counts-set_child (cons u f) (suc b) t h = omega (arith, counts-set_child f b t)

pub count-child-le : (f : Forest) (b : ℕ) → count (child f b) ≤ counts f
unfolding count counts
count-child-le nil b = omega arith
count-child-le (cons t f) zero = omega arith
count-child-le (cons t f) (suc b) = omega (arith, count-child-le f b)

pub AreTries-child : (f : Forest) (b : ℕ) → AreTries f → IsTrie (child f b)
unfolding IsTrie AreTries
AreTries-child nil b h = tt
AreTries-child (cons t f) zero h = h.0
AreTries-child (cons t f) (suc b) h = AreTries-child f b h.1

pub AreTries-set_child :
    (f : Forest) (b : ℕ) (t : Trie) → AreTries f → IsTrie t → AreTries (set_child f b t)
unfolding AreTries
AreTries-set_child nil b t h k = tt
AreTries-set_child (cons u f) zero t h k = (k, h.1)
AreTries-set_child (cons u f) (suc b) t h k = (h.0, AreTries-set_child f b t h.1 k)

nulls_lem : (n : ℕ) → (counts (nulls n) ≡ 0) × (size (nulls n) ≡ n) × AreTries (nulls n)
unfolding count counts IsTrie AreTries
nulls_lem zero = (refl, refl, tt)
nulls_lem (suc n) = let h = nulls_lem n in (omega (arith, h.0), ap suc h.1, (tt, h.2))

pub new_node-IsTrie : IsTrie new_node × (count new_node ≡ 0)
unfolding IsTrie count new_node
new_node-IsTrie = let h = nulls_lem 256 in ((omega (arith, h.0), h.1, h.2), omega (arith, h.0))

-- Without subscriptions nothing is subscribed.
pub count_zero : (t : Trie) (key : List ℕ) → count t ≡ 0 → subscribed t key ≡ false
unfolding count subscribed
count_zero null key h = refl
count_zero (node r s f) [] h = ground arith
count_zero (node r s f) (b ∷ bs) h = count_zero (child f b) bs (omega (arith, count-child-le f b))

-- The child that is freed holds no subscription.
pub prune_lem :
    (c : Trie)
    → IsTrie c
    → IsTrie (prune c)
      × (count (prune c) ≡ count c)
      × ((key : List ℕ) → subscribed (prune c) key ≡ subscribed c key)
unfolding IsTrie count
prune_lem null h = (tt, refl, λ key. refl)
prune_lem (node r s f) h = elim (Bool-cases (r == 0 && not s)) [
  | inl e ↦ rw e (
    tt,
    ground (arith, h.0),
    λ key. freed key ∙ sym (count_zero (node r s f) key (ground (arith, h.0, e))),
  )
  | inr e ↦ rw e (h, refl, λ key. refl)
]
  where
    freed : (key : List ℕ) → subscribed null key ≡ false
    freed key = count_zero null key refl

-- What is subscribed after a child is put in the place of another.
pub subscribed-set_child :
    (r r' : ℕ) (s : Bool) (f : Forest) (b : ℕ) (t : Trie) (a : ℕ) (key : List ℕ)
    → b < size f
    → subscribed (node r' s (set_child f b t)) (a ∷ key)
      ≡ (if a == b then subscribed t key else subscribed (node r s f) (a ∷ key))
unfolding subscribed
subscribed-set_child r r' s f b t a key h =
    ap (λ u. subscribed u key) (child-set_child f b a t h) ∙ pick (a == b)
  where
    pick :
        (x : Bool)
        → subscribed (if x then t else child f a) key
          ≡ (if x then subscribed t key else subscribed (child f a) key)
    pick true = refl
    pick false = refl

-- Two keys are the same bytes.
unfoldable pub key_eq : List ℕ → List ℕ → Bool
key_eq [] [] = true
key_eq [] (b ∷ y) = false
key_eq (a ∷ x) [] = false
key_eq (a ∷ x) (b ∷ y) = a == b && key_eq x y

abbrev pub Bytes : List ℕ → Type 0
Bytes = All (λ b. b < 256)

-- At the child that was put in place, what the child says; elsewhere, what was said before.
pub subscribed-set_child_cases :
    (r r' : ℕ) (s : Bool) (f : Forest) (b : ℕ) (t : Trie) (a : ℕ) (key : List ℕ) (now : Bool)
    → b < size f
    → (a ≡ b → subscribed t key ≡ now)
    → (a ≢ b → subscribed (node r s f) (a ∷ key) ≡ now)
    → subscribed (node r' s (set_child f b t)) (a ∷ key) ≡ now
subscribed-set_child_cases r r' s f b t a key now h p q = elim (ℕ_discrete a b) [
  | yes e ↦
      subscribed-set_child r r' s f b t a key h
      ∙ ap (λ x. if x then subscribed t key else subscribed (node r s f) (a ∷ key)) (==_true e)
      ∙ p e
  | no e ↦
      subscribed-set_child r r' s f b t a key h
      ∙ ap (λ x. if x then subscribed t key else subscribed (node r s f) (a ∷ key)) (==_false e)
      ∙ q e
]
  where
    ==_true : a ≡ b → (a == b) ≡ true
    ==_true e = ground arith

    ==_false : a ≢ b → (a == b) ≡ false
    ==_false e = ground arith
