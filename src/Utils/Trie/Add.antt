-- ===== src/Utils/Trie/Add.antt =====
-- trie.c: `mb_trie_add` adds one subscription, or says that it was there, or has no memory.
use msgbroker.Prelude.{
  ℕ, zero, suc, ◌+◌, ◌<◌, ◌≡◌, refl, sym, ap, ◌∙◌, Bool, true, false, not, ◌||◌, List, [], ◌∷◌,
  arith, if◌then◌else◌, word32, add32, Bool-cases, inl, inr, ◌⊎◌, ◌≤◌, leb,
}
use msgbroker.Errno.{Rc, ok, err, enomem}
use msgbroker.Utils.Trie.{
  Trie, Forest, null, node, child, set_child, subscribed, make_path, count_path, add,
}
use msgbroker.Utils.Trie.Path.{HasPath, missing, PathMade, make_path-PathMade, make_path-enough}
use msgbroker.Utils.Trie.Counts.{
  count, size, IsTrie, size-set_child, counts-set_child, AreTries-child, count-child-le,
  AreTries-set_child, subscribed-set_child_cases, key_eq, Bytes,
}

-- `u` subscribes to the key besides what `t` does, and counts one more.
record Counted (t : Trie) (key : List ℕ) (u : Trie) : Type 0 where
  counted_trie : IsTrie u
  counted_count : count u ≡ count t + 1
  counted_same : (x : List ℕ) → subscribed u x ≡ key_eq key x || subscribed t x

key_eq-nil :
    (x : List ℕ) (s : Bool) (f : Forest) (r r' : ℕ)
    → subscribed (node r true f) x ≡ key_eq [] x || subscribed (node r' s f) x
unfolding key_eq subscribed
key_eq-nil [] s f r r' = refl
key_eq-nil (a ∷ x) s f r r' = refl

grown :
    (r : ℕ) (s : Bool) (f : Forest) (b : ℕ) (bs : List ℕ) (u : Trie)
    → b < size f
    → ((x : List ℕ) → subscribed u x ≡ key_eq bs x || subscribed (child f b) x)
    → (x : List ℕ)
    → subscribed (node (add32 r 1) s (set_child f b u)) x
      ≡ key_eq (b ∷ bs) x || subscribed (node r s f) x
unfolding key_eq subscribed
grown r s f b bs u h k [] = refl
grown r s f b bs u h k (a ∷ x) =
    subscribed-set_child_cases r (add32 r 1) s f b u a x
      (key_eq (b ∷ bs) (a ∷ x) || subscribed (node r s f) (a ∷ x)) h
      (λ q. rw q (ground (arith, k x))) (λ q. ground arith)

count_path-Counted :
    (t : Trie) (key : List ℕ)
    → IsTrie t
    → Bytes key
    → HasPath t key
    → subscribed t key ≡ false
    → count t + 1 < word32
    → Counted t key (count_path t key)
unfolding count_path IsTrie count subscribed
count_path-Counted null key g h p n small = absurd p
count_path-Counted (node r s f) [] g h p n small = record {
  counted_trie = (ground (arith, g.0, n), g.1, g.2);
  counted_count = ground (arith, n);
  counted_same = λ x. key_eq-nil x s f (add32 r 1) r;
}
count_path-Counted (node r s f) (b ∷ bs) g h p n small =
    let c = child f b in
    let k =
      count_path-Counted c bs (AreTries-child f b g.2) h.1 p n
        (omega (arith, count-child-le f b)) in
    record {
      counted_trie = (
        omega (
          arith,
          g.0,
          counts-set_child f b (count_path c bs) (omega (arith, g.1)),
          k.counted_count,
        ),
        size-set_child f b (count_path c bs) ∙ g.1,
        AreTries-set_child f b (count_path c bs) g.2 k.counted_trie,
      );
      counted_count =
          omega
            (arith, counts-set_child f b (count_path c bs) (omega (arith, g.1)), k.counted_count);
      counted_same = grown r s f b bs (count_path c bs) (omega (arith, g.1)) k.counted_same;
    }

-- What `mb_trie_add` must give, when `mem` allocations succeed before one fails.
abbrev pub AddOutcome : ℕ → Trie → List ℕ → Rc × Trie → Type 0
AddOutcome mem t key (ok zero, u) =
    (subscribed t key ≡ true)
    × IsTrie u
    × (count u ≡ count t)
    × ((x : List ℕ) → subscribed u x ≡ subscribed t x)
    × (missing t key ≤ mem)
AddOutcome mem t key (ok (suc n), u) =
    (n ≡ 0)
    × (subscribed t key ≡ false)
    × IsTrie u
    × (count u ≡ count t + 1)
    × ((x : List ℕ) → subscribed u x ≡ key_eq key x || subscribed t x)
    × (missing t key ≤ mem)
AddOutcome mem t key (err e, u) =
    (e ≡ enomem)
    × IsTrie u
    × (count u ≡ count t)
    × ((x : List ℕ) → subscribed u x ≡ subscribed t x)
    × ((t ≡ null) ⊎ (mem < missing t key))

made-AddOutcome :
    (mem : ℕ) (t : Trie) (key : List ℕ) (u : Trie)
    → PathMade t key u true
    → Bytes key
    → count t + 1 < word32
    → missing t key ≤ mem
    → AddOutcome mem t key (if subscribed u key then (ok 0, u) else (ok 1, count_path u key))
made-AddOutcome mem t key u p h small room = elim (Bool-cases (subscribed u key)) [
  | inl e ↦ rw e (sym (p.made_same key) ∙ e, p.made_trie, p.made_count, p.made_same, room)
  | inr e ↦
      let k =
        count_path-Counted u key p.made_trie h (p.made_path refl) e (omega (arith, p.made_count)) in
      rw e (
        refl,
        sym (p.made_same key) ∙ e,
        k.counted_trie,
        omega (arith, k.counted_count, p.made_count),
        (λ x. k.counted_same x ∙ ap (λ b. key_eq key x || b) (p.made_same x)),
        room,
      )
]

leb_fails : (a b : ℕ) → false ≡ leb a b → b < a
leb_fails a b h = ground arith

leb_holds : (a b : ℕ) → true ≡ leb a b → a ≤ b
leb_holds a b h = ground arith

-- On a trie that counts rightly and holds fewer than 2^32 - 1 subscriptions, `mb_trie_add` returns 1
-- and adds the key to the subscriptions, and nothing else, if it was not there; and returns 0 and
-- changes no subscription if it was. Either way there was memory for the nodes that the key's path
-- lacks. It returns -ENOMEM, and changes no subscription, only if there is memory for fewer, or if
-- there is no trie. The counts stay right.
pub add-AddOutcome :
    (mem : ℕ) (t : Trie) (key : List ℕ)
    → IsTrie t
    → Bytes key
    → count t + 1 < word32
    → AddOutcome mem t key (add mem t key)
unfolding add IsTrie
add-AddOutcome mem null key g h small = (refl, tt, refl, (λ x. refl), inl refl)
add-AddOutcome mem (node r s f) key g h small =
    go (make_path mem (node r s f) key).0 (make_path mem (node r s f) key).1
      (make_path-PathMade mem (node r s f) key g h) (make_path-enough mem r s f key)
  where
    go :
        (u : Trie) (made : Bool)
        → PathMade (node r s f) key u made
        → made ≡ leb (missing (node r s f) key) mem
        → AddOutcome mem (node r s f) key (
            if not made
            then (err enomem, u)
            else (if subscribed u key then (ok 0, u) else (ok 1, count_path u key)))
    go u false p q = (refl, p.made_trie, p.made_count, p.made_same, inr (leb_fails _ mem q))
    go u true p q = made-AddOutcome mem (node r s f) key u p h small (leb_holds _ mem q)
