-- ===== src/Utils/Trie/Path.antt =====
-- trie.c: the first loop of `mb_trie_add` makes the nodes of the path, if there is memory for them.
use msgbroker.Prelude.{
  ℕ, zero, suc, ◌<◌, ◌≡◌, refl, sym, ap, ◌∙◌, Bool, true, false, List, [], ◌∷◌, arith, leb, length,
}
use msgbroker.Utils.Trie.{
  Trie, Forest, null, node, nil, cons, child, set_child, subscribed, new_node, nulls, make_path,
  step_path,
}
use msgbroker.Utils.Trie.Counts.{
  count, size, IsTrie, size-set_child, counts-set_child, AreTries-child, AreTries-set_child,
  new_node-IsTrie, count_zero, subscribed-set_child_cases, Bytes,
}

-- The nodes of the path are there.
abbrev pub HasPath : Trie → List ℕ → Type 0
HasPath null key = ⊥
HasPath (node r s f) [] = Unit
HasPath (node r s f) (b ∷ bs) = HasPath (child f b) bs

HasPath-child :
    (f : Forest) (b : ℕ) (u : Trie) (key : List ℕ)
    → b < size f
    → HasPath u key
    → HasPath (child (set_child f b u) b) key
HasPath-child nil b u key h p = absurd (omega arith)
HasPath-child (cons t f) zero u key h p = p
HasPath-child (cons t f) (suc b) u key h p = HasPath-child f b u key (omega arith) p

-- The number of nodes that the path lacks.
abbrev pub missing : Trie → List ℕ → ℕ
missing null key = suc (length key)
missing (node r s f) [] = 0
missing (node r s f) (b ∷ bs) = missing (child f b) bs

child-nulls : (n b : ℕ) → child (nulls n) b ≡ null
child-nulls zero b = refl
child-nulls (suc n) zero = refl
child-nulls (suc n) (suc b) = child-nulls n b

missing-new_node : (key : List ℕ) → missing new_node key ≡ length key
unfolding new_node
missing-new_node [] = refl
missing-new_node (b ∷ bs) = ap (λ t. missing t bs) (child-nulls 256 b)

-- The path is made exactly when the memory is enough for the nodes that it lacks.
pub make_path-enough :
    (mem r : ℕ) (s : Bool) (f : Forest) (key : List ℕ)
    → (make_path mem (node r s f) key).1 ≡ leb (missing (node r s f) key) mem
unfolding make_path new_node
make_path-enough mem r s f [] = ground arith
make_path-enough mem r s f (b ∷ bs) =
    go (λ m r' s' f'. make_path-enough m r' s' f' bs) mem (child f b)
  where
    go :
        ((m r' : ℕ) (s' : Bool) (f' : Forest)
          → (make_path m (node r' s' f') bs).1 ≡ leb (missing (node r' s' f') bs) m)
        → (m : ℕ) (c : Trie)
        → (step_path (λ k u. make_path k u bs) m r s f b c).1 ≡ leb (missing c bs) m
    go rest m (node r' s' f') = rest m r' s' f'
    go rest zero null = ground arith
    go rest (suc m) null =
        rest m 0 false (nulls 256) ∙ ap (λ k. leb k m) (missing-new_node bs) ∙ ground arith

-- `u` subscribes to what `t` does, and counts as much.
pub record PathMade (t : Trie) (key : List ℕ) (u : Trie) (made : Bool) : Type 0 where
  pub made_trie : IsTrie u
  pub made_count : count u ≡ count t
  pub made_same : (x : List ℕ) → subscribed u x ≡ subscribed t x
  pub made_path : made ≡ true → HasPath u key

module _ (r : ℕ) (s : Bool) (f : Forest) (b : ℕ) (g : IsTrie (node r s f)) (byte : b < 256) where
  extend :
      (c : Trie) (bs : List ℕ) (u : Trie) (made : Bool)
      → child f b ≡ c
      → PathMade c bs u made
      → PathMade (node r s f) (b ∷ bs) (node r s (set_child f b u)) made
  unfolding IsTrie count subscribed
  extend c bs u made e p = record {
    made_trie = (
      omega (arith, g.0, counts-set_child f b u (omega (arith, g.1)), ap count e, p.made_count),
      size-set_child f b u ∙ g.1,
      AreTries-set_child f b u g.2 p.made_trie,
    );
    made_count =
        omega (arith, counts-set_child f b u (omega (arith, g.1)), ap count e, p.made_count);
    made_same = same;
    made_path = λ m. HasPath-child f b u bs (omega (arith, g.1)) (p.made_path m);
  }
    where
      same : (x : List ℕ) → subscribed (node r s (set_child f b u)) x ≡ subscribed (node r s f) x
      same [] = refl
      same (a ∷ x) =
          subscribed-set_child_cases r r s f b u a x (subscribed (node r s f) (a ∷ x))
            (omega (arith, g.1))
            (λ q. p.made_same x ∙ ap (λ t. subscribed t x) (sym e ∙ ap (child f) (sym q)))
            (λ q. refl)

unchanged :
    (r : ℕ) (s : Bool) (f : Forest) (key : List ℕ)
    → IsTrie (node r s f)
    → PathMade (node r s f) key (node r s f) false
unchanged r s f key g = record {
  made_trie = g;
  made_count = refl;
  made_same = λ x. refl;
  made_path = λ e. cc;
}

-- From a new node as from none.
PathMade-new :
    (bs : List ℕ) (u : Trie) (made : Bool) → PathMade new_node bs u made → PathMade null bs u made
unfolding count subscribed
PathMade-new bs u made p = record {
  made_trie = p.made_trie;
  made_count = p.made_count ∙ new_node-IsTrie.1;
  made_same = λ x. p.made_same x ∙ count_zero new_node x new_node-IsTrie.1;
  made_path = p.made_path;
}

pub make_path-PathMade :
    (mem : ℕ) (t : Trie) (key : List ℕ)
    → IsTrie t
    → Bytes key
    → PathMade t key (make_path mem t key).0 (make_path mem t key).1
unfolding make_path IsTrie
make_path-PathMade mem null key g h = record {
  made_trie = tt;
  made_count = refl;
  made_same = λ x. refl;
  made_path = λ e. cc;
}
make_path-PathMade mem (node r s f) [] g h = record {
  made_trie = g;
  made_count = refl;
  made_same = λ x. refl;
  made_path = λ e. tt;
}
make_path-PathMade mem (node r s f) (b ∷ bs) g h =
    go (λ m u gu. make_path-PathMade m u bs gu h.1) mem (child f b) refl
  where
    go :
        ((m : ℕ) (u : Trie) → IsTrie u → PathMade u bs (make_path m u bs).0 (make_path m u bs).1)
        → (m : ℕ) (c : Trie) → child f b ≡ c
        → PathMade
            (node r s f)
            (b ∷ bs)
            (step_path (λ k u. make_path k u bs) m r s f b c).0
            (step_path (λ k u. make_path k u bs) m r s f b c).1
    go rest m (node r' s' f') e =
        extend r s f b g h.0 (node r' s' f') bs (make_path m (node r' s' f') bs).0
          (make_path m (node r' s' f') bs).1 e
          (rest m (node r' s' f') (rw e at (AreTries-child f b g.2)))
    go rest zero null e = unchanged r s f (b ∷ bs) g
    go rest (suc m) null e =
        extend r s f b g h.0 null bs (make_path m new_node bs).0 (make_path m new_node bs).1 e (
          PathMade-new bs (make_path m new_node bs).0 (make_path m new_node bs).1
            (rest m new_node new_node-IsTrie.0))
