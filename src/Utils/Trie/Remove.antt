-- ===== src/Utils/Trie/Remove.antt =====
-- trie.c: `mb_trie_rm` takes one subscription back, and frees what nothing refers to.
use msgbroker.Prelude.{
  ℕ, suc, ◌+◌, ◌<◌, ◌≡◌, refl, ◌∙◌, Bool, true, false, not, ◌&&◌, List, [], ◌∷◌, arith,
  if◌then◌else◌,
}
use msgbroker.Errno.{Rc, ok, err, enoent}
use msgbroker.Utils.Trie.{
  Trie, Forest, null, node, child, set_child, subscribed, prune, less, rm_rec, rm,
}
use msgbroker.Utils.Trie.Counts.{
  count, counts, size, IsTrie, size-set_child, counts-set_child, AreTries-child, AreTries-set_child,
  prune_lem, subscribed-set_child_cases, key_eq, Bytes,
}

-- What `mb_trie_rm` must give.
abbrev pub RmOutcome : Trie → List ℕ → Rc × Trie → Type 0
RmOutcome t key (ok n, u) =
    (n ≡ 1)
    × (subscribed t key ≡ true)
    × IsTrie u
    × (count u + 1 ≡ count t)
    × ((x : List ℕ) → subscribed u x ≡ not (key_eq key x) && subscribed t x)
RmOutcome t key (err e, u) = (e ≡ enoent) × (subscribed t key ≡ false) × (u ≡ t)

less-suc : (r k : ℕ) → r ≡ suc k → less r ≡ k
less-suc r k h = ground arith

-- A path to a subscription is counted at its end.
shrunk :
    (r r' : ℕ) (s : Bool) (f : Forest) (b : ℕ) (bs : List ℕ) (u : Trie)
    → b < size f
    → ((x : List ℕ) → subscribed u x ≡ not (key_eq bs x) && subscribed (child f b) x)
    → (x : List ℕ)
    → subscribed (node r' s (set_child f b u)) x
      ≡ not (key_eq (b ∷ bs) x) && subscribed (node r s f) x
unfolding key_eq subscribed
shrunk r r' s f b bs u h k [] = refl
shrunk r r' s f b bs u h k (a ∷ x) =
    subscribed-set_child_cases r r' s f b u a x
      (not (key_eq (b ∷ bs) (a ∷ x)) && subscribed (node r s f) (a ∷ x)) h
      (λ q. rw q (ground (arith, k x))) (λ q. ground arith)

unmarked :
    (r r' : ℕ) (f : Forest) (x : List ℕ)
    → subscribed (node r' false f) x ≡ not (key_eq [] x) && subscribed (node r true f) x
unfolding key_eq subscribed
unmarked r r' f [] = refl
unmarked r r' f (a ∷ x) = refl

rm_rec-RmOutcome : (t : Trie) (key : List ℕ) → IsTrie t → Bytes key → RmOutcome t key (rm_rec t key)
unfolding rm_rec IsTrie count subscribed
rm_rec-RmOutcome null key g h = (refl, refl, refl)
rm_rec-RmOutcome (node r true f) [] g h = (
  refl,
  refl,
  (less-suc r (0 + counts f) (omega (arith, g.0)), g.1, g.2),
  omega arith,
  unmarked r (less r) f,
)
rm_rec-RmOutcome (node r false f) [] g h = (refl, refl, refl)
rm_rec-RmOutcome (node r s f) (b ∷ bs) g h =
    go (rm_rec (child f b) bs).0 (rm_rec (child f b) bs).1
      (rm_rec-RmOutcome (child f b) bs (AreTries-child f b g.2) h.1)
  where
    go :
        (rc : Rc) (c : Trie)
        → RmOutcome (child f b) bs (rc, c)
        → RmOutcome (node r s f) (b ∷ bs) (elim rc [
          | err e ↦ (err e, node r s f)
          | ok n ↦ (ok 1, node (less r) s (set_child f b (prune c)))
        ])
    go (err e) c o = (o.0, o.1, refl)
    go (ok n) c o =
        let p = prune_lem c o.2 in
        let k = counts-set_child f b (prune c) (omega (arith, g.1)) in
        (
          refl,
          o.1,
          (
            less-suc r ((if s then 1 else 0) + counts (set_child f b (prune c)))
                (omega (arith, g.0, k, p.1, o.3)),
            size-set_child f b (prune c) ∙ g.1,
            AreTries-set_child f b (prune c) g.2 p.0,
          ),
          omega (arith, k, p.1, o.3),
          shrunk r (less r) s f b bs (prune c) (omega (arith, g.1)) (λ x. p.2 x ∙ o.4 x),
        )

-- On a trie that counts rightly, `mb_trie_rm` returns 1 and takes the key out of the subscriptions,
-- and nothing else, if it was there, whatever nodes it frees; otherwise it returns -ENOENT and
-- changes nothing. The counts stay right.
pub rm-RmOutcome : (t : Trie) (key : List ℕ) → IsTrie t → Bytes key → RmOutcome t key (rm t key)
unfolding rm
rm-RmOutcome t key g h = rm_rec-RmOutcome t key g h
