-- ===== src/Utils/Trie.antt =====
-- src/utils/trie.c: the subscriptions of a SUB socket, one node to each byte of a topic.
pub mod Counts
pub mod Match
pub mod Path
pub mod Add
pub mod Remove
mod Tests
use msgbroker.Prelude.{
  ℕ, zero, suc, ◌+◌, ◌-◌, Bool, true, false, not, ◌&&◌, ◌||◌, List, [], ◌∷◌, ltb, ◌==◌,
  if◌then◌else◌, add32,
}
use msgbroker.Errno.{Rc, ok, err, enomem, enoent}

-- `null` is the NULL pointer; a node has its `refcount`, `subscribed` and the array `children`.
mutual
  pub data Trie : Type 0 where
    null : Trie
    node : ℕ → Bool → Forest → Trie

  pub data Forest : Type 0 where
    nil : Forest
    cons : Trie → Forest → Forest

abbrev pub child : Forest → ℕ → Trie
child nil b = null
child (cons t f) zero = t
child (cons t f) (suc b) = child f b

abbrev pub set_child : Forest → ℕ → Trie → Forest
set_child nil b t = nil
set_child (cons u f) zero t = cons t f
set_child (cons u f) (suc b) t = cons u (set_child f b t)

abbrev pub nulls : ℕ → Forest
nulls zero = nil
nulls (suc n) = cons null (nulls n)

-- `mb_trie_node_alloc`, when there is memory.
unfoldable pub new_node : Trie
new_node = node 0 false (nulls 256)

-- `mem` is the number of allocations that succeed before one fails.
unfoldable pub init : ℕ → Rc × Trie
unfolding new_node
init zero = (err enomem, null)
init (suc mem) = (ok 0, new_node)

unfoldable pub term : Trie → Trie
term t = null

abbrev pub is_null : Trie → Bool
is_null null = true
is_null (node r s f) = false

-- One round of the first loop of `mb_trie_add` at the byte `b`, whose child is `c`: a missing child
-- is made first. `rest` does the rounds for the bytes after it.
abbrev pub step_path : (ℕ → Trie → Trie × Bool) → ℕ → ℕ → Bool → Forest → ℕ → Trie → Trie × Bool
step_path rest mem r s f b (node r' s' f') =
    let (t, made) = rest mem (node r' s' f') in (node r s (set_child f b t), made)
step_path rest zero r s f b null = (node r s f, false)
step_path rest (suc mem) r s f b null =
    let (t, made) = rest mem new_node in (node r s (set_child f b t), made)

-- The first loop: the nodes of the path are made where they are missing. False when an allocation
-- fails.
unfoldable pub make_path : ℕ → Trie → List ℕ → Trie × Bool
unfolding new_node
make_path mem null key = (null, false)
make_path mem (node r s f) [] = (node r s f, true)
make_path mem (node r s f) (b ∷ bs) = step_path (λ m u. make_path m u bs) mem r s f b (child f b)

-- Whether the node at the end of the path is there and subscribed.
unfoldable pub subscribed : Trie → List ℕ → Bool
subscribed null key = false
subscribed (node r s f) [] = s
subscribed (node r s f) (b ∷ bs) = subscribed (child f b) bs

-- The second loop: every node of the path counts the subscription.
unfoldable pub count_path : Trie → List ℕ → Trie
count_path null key = null
count_path (node r s f) [] = node (add32 r 1) true f
count_path (node r s f) (b ∷ bs) = node (add32 r 1) s (set_child f b (count_path (child f b) bs))

unfoldable pub add : ℕ → Trie → List ℕ → Rc × Trie
add mem t key =
    if is_null t
    then (err enomem, t)
    else let (u, made) = make_path mem t key in
      if not made
      then (err enomem, u)
      else (if subscribed u key then (ok 0, u) else (ok 1, count_path u key))

-- `if (n->refcount > 0) n->refcount--;`
abbrev pub less : ℕ → ℕ
less r = if ltb 0 r then r - 1 else r

-- A child that nothing refers to goes.
abbrev pub prune : Trie → Trie
prune null = null
prune (node r s f) = if r == 0 && not s then null else node r s f

unfoldable pub rm_rec : Trie → List ℕ → Rc × Trie
rm_rec null key = (err enoent, null)
rm_rec (node r s f) [] = if s then (ok 1, node (less r) false f) else (err enoent, node r s f)
rm_rec (node r s f) (b ∷ bs) =
    let (rc, c) = rm_rec (child f b) bs in
    elim rc [
      | err e ↦ (err e, node r s f)
      | ok n ↦ (ok 1, node (less r) s (set_child f b (prune c)))
    ]

-- A NULL root is -ENOENT, as a NULL child is.
unfoldable pub rm : Trie → List ℕ → Rc × Trie
unfolding rm_rec
rm t key = rm_rec t key

-- The loop stops at the first node that is subscribed or has no child for the next byte.
unfoldable pub match : Trie → List ℕ → Bool
match null bytes = false
match (node r s f) [] = s
match (node r s f) (b ∷ bs) =
    let rest = match (child f b) bs in if s then true else (if is_null (child f b) then s else rest)
