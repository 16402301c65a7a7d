-- ===== src/Utils/Hash/Chains.antt =====
-- hash.c: what is found in a table of chains.
use msgbroker.Prelude.{
  ℕ, zero, suc, ◌%◌, ◌<◌, ◌≡◌, ◌≢◌, refl, ap, sym, ◌∙◌, false, Option, none, some, List, [], ◌∷◌,
  ◌++◌, ◌==◌, ==_iff, length, get_or, set, length-set, Bool-cases, inl, inr, if◌then◌else◌, arith,
}
use msgbroker.Utils.Hash.{HashItem, hash_fn, find_in, chain, push}

module _ {A : Type 0} where
  pub get_or-set_self :
      (xs : List A) (i : ℕ) (v d : A) → i < length xs → get_or (set xs i v) i d ≡ v
  get_or-set_self [] i v d h = absurd (omega arith)
  get_or-set_self (x ∷ xs) zero v d h = refl
  get_or-set_self (x ∷ xs) (suc i) v d h = get_or-set_self xs i v d (omega arith)

  pub get_or-set_ne :
      (xs : List A) (i j : ℕ) (v d : A) → i ≢ j → get_or (set xs i v) j d ≡ get_or xs j d
  get_or-set_ne [] i j v d h = refl
  get_or-set_ne (x ∷ xs) zero zero v d h = absurd (h refl)
  get_or-set_ne (x ∷ xs) zero (suc j) v d h = refl
  get_or-set_ne (x ∷ xs) (suc i) zero v d h = refl
  get_or-set_ne (x ∷ xs) (suc i) (suc j) v d h = get_or-set_ne xs i j v d (λ e. h (ap suc e))

-- The first answer, or else the second.
abbrev pub or_else : Option HashItem → Option HashItem → Option HashItem
or_else none o = o
or_else (some x) o = some x

pub or_else_assoc : (a b c : Option HashItem) → or_else (or_else a b) c ≡ or_else a (or_else b c)
or_else_assoc none b c = refl
or_else_assoc (some x) b c = refl

pub or_else-none : (a : Option HashItem) → or_else a none ≡ a
or_else-none none = refl
or_else-none (some x) = refl

-- The last item of the key.
unfoldable pub last : ℕ → List HashItem → Option HashItem
last k [] = none
last k (it ∷ its) = or_else (last k its) (if it.key == k then some it else none)

pub last-append :
    (k : ℕ) (xs ys : List HashItem) → last k (xs ++ ys) ≡ or_else (last k ys) (last k xs)
unfolding last
last-append k [] ys = sym (or_else-none (last k ys))
last-append k (x ∷ xs) ys =
    ap (λ o. or_else o (if x.key == k then some x else none)) (last-append k xs ys)
    ∙ or_else_assoc (last k ys) (last k xs) (if x.key == k then some x else none)

pub eq_false : (a b : ℕ) → a ≢ b → (a == b) ≡ false
eq_false a b h = elim (Bool-cases (a == b)) [ inl e ↦ absurd (h ((==_iff a b).0 e)) | inr e ↦ e ]

abbrev pub find_at : ℕ → List (List HashItem) → Option HashItem
find_at k bs = find_in k (chain k bs)

pub length-push : (it : HashItem) (bs : List (List HashItem)) → length (push it bs) ≡ length bs
unfolding push
length-push it bs = length-set bs _ _

pub find_at-push :
    (k : ℕ) (it : HashItem) (bs : List (List HashItem))
    → 0 < length bs
    → find_at k (push it bs) ≡ (if it.key == k then some it else find_at k bs)
unfolding push find_in
find_at-push k it bs h =
    let i = hash_fn it.key % length bs in
    let j = hash_fn k % length bs in
    let l : i < length bs = grind arith in
    elim (Bool-cases (i == j)) [
      | inl e ↦
          let q : i ≡ j = (==_iff i j).0 e in
          rw (length-set bs i (it ∷ chain it.key bs))
            (rw (← q) (rw (get_or-set_self bs i (it ∷ chain it.key bs) [] l) refl))
      | inr e ↦
          let q : i ≢ j = λ z. cc (sym ((==_iff i j).1 z) ∙ e) in
          let d : (it.key == k) ≡ false =
            eq_false it.key k (λ z. q (ap (λ x. hash_fn x % length bs) z)) in
          rw (length-set bs i (it ∷ chain it.key bs))
            (rw (get_or-set_ne bs i j (it ∷ chain it.key bs) [] q, d) refl)
    ]
