-- ===== src/Distributed/Ring/Add.antt =====
-- ring.c: what `mb_ring_add` does on each of its three ways out.
use msgbroker.Prelude.{
  ℕ, zero, suc, ◌+◌, ◌≤◌, ◌≡◌, refl, ap, ◌∙◌, ◌≢◌, ◌⊎◌, inl, inr, Bool, true, false, ◌||◌, Option,
  none, some, List, [], ◌∷◌, ◌++◌, arith, length, if◌then◌else◌, ◌==◌, Bool-cases, take,
}
use mathlib.Core.Path.{subst}
use native.Mathlib.Decide.{ℕ_discrete}
use msgbroker.Errno.{Rc, ok, err, eexist, minus_one}
use msgbroker.Distributed.Ring.{
  Ring, Vnode, Node, vnode, add, add_vnodes, remove, lookup, hash, grow, grow_nodes, grow_vnodes,
  has_node, drop_last, insert_vnode_sorted, drop_vnodes,
}
use msgbroker.Distributed.Ring.Sorted.{
  IsSorted, Free, insert-IsSorted, length-insert, drop-insert, drop-of_Free,
}
use msgbroker.Distributed.Ring.Owner.{owner, owner-insert, insert-ne_nil, lookup-owner}
use msgbroker.Distributed.Ring.Room.{NoMemory, grow_vnodes-NoMemory, grow_nodes-NoMemory}
use msgbroker.Distributed.Ring.Members.{
  IsRing, owner_count, owner_count-insert, owner_count-Free, has_node-append, drop_last-append,
  Distinct-append, drop_node-append, grow_vnodes_same,
}

-- The vnodes `vs` are `old` with `k` vnodes of the node put in.
record Grown (id : ℕ) (old : List Vnode) (k : ℕ) (vs : List Vnode) : Type 0 where
  grown_sorted : IsSorted vs
  grown_count : (j : ℕ) → owner_count j vs ≡ (if id == j then k else 0) + owner_count j old
  grown_drop : drop_vnodes id vs ≡ drop_vnodes id old
  grown_owner : old ≢ [] → (h : ℕ) → (owner h vs ≡ owner h old) ⊎ (owner h vs ≡ id)
  grown_some : old ≢ [] → vs ≢ []

Grown-none : (id : ℕ) (old : List Vnode) → IsSorted old → Grown id old 0 old
Grown-none id old s = record {
  grown_sorted = s;
  grown_count = λ j. ground arith;
  grown_drop = refl;
  grown_owner = λ ne h. inl refl;
  grown_some = λ ne. ne;
}

Grown-insert :
    (id k : ℕ) (v : Vnode) (old vs : List Vnode)
    → v.owner ≡ id
    → Grown id old k vs
    → Grown id old (k + 1) (insert_vnode_sorted v vs)
Grown-insert id k v old vs e g = record {
  grown_sorted = insert-IsSorted v vs g.grown_sorted;
  grown_count = λ j. ground (arith, owner_count-insert j v vs, g.grown_count j, e);
  grown_drop = drop-insert id v vs e ∙ g.grown_drop;
  grown_owner = λ ne h. elim (owner-insert h v vs (g.grown_some ne)) [
    | inr p ↦ inr (p ∙ e)
    | inl p ↦ elim (g.grown_owner ne h) [ inl q ↦ inl (p ∙ q) | inr q ↦ inr (p ∙ q) ]
  ];
  grown_some = λ ne. insert-ne_nil v vs;
}

-- After the loop either all vnodes are in, or those of the node are all out again.
abbrev LoopOutcome : (ℕ → Bool) → ℕ → ℕ → List Vnode → ℕ → Ring → Rc × Ring → Type 0
LoopOutcome can most id old k r (ok n, t) =
    (n ≡ 0) × Grown id old k t.vnodes × (t.nodes ≡ r.nodes) × (t.virtual_count ≡ r.virtual_count)
LoopOutcome can most id old k r (err e, t) =
    ((e ≡ minus_one) × NoMemory can most)
    × (t.vnodes ≡ drop_vnodes id old)
    × (t.nodes ≡ drop_last r.nodes)
    × (t.virtual_count ≡ r.virtual_count)

LoopOutcome-from :
    (can : ℕ → Bool) (most id : ℕ) (old : List Vnode) (k m : ℕ) (r s : Ring) (x : Rc × Ring)
    → k ≡ m
    → s.nodes ≡ r.nodes
    → s.virtual_count ≡ r.virtual_count
    → LoopOutcome can most id old k s x
    → LoopOutcome can most id old m r x
LoopOutcome-from can most id old k m r s (ok n, t) e p q o =
    (o.0, subst (λ i. Grown id old i t.vnodes) e o.1, o.2 ∙ p, o.3 ∙ q)
LoopOutcome-from can most id old k m r s (err x, t) e p q o =
    (o.0, o.1, o.2 ∙ ap drop_last p, o.3 ∙ q)

module _ (vnode_key : ℕ → ℕ → List ℕ) (can : ℕ → Bool) where
  add_vnodes-Outcome :
      (most id : ℕ) (old : List Vnode) (n i k : ℕ) (r : Ring)
      → length r.vnodes + n ≤ most
      → Grown id old k r.vnodes
      → LoopOutcome can most id old (k + n) r (add_vnodes vnode_key can id n i r)
  unfolding add_vnodes
  add_vnodes-Outcome most id old zero i k r l g =
      (refl, subst (λ t. Grown id old t r.vnodes) (omega arith) g, refl, refl)
  add_vnodes-Outcome most id old (suc n) i k r l g =
      go (add_vnodes-Outcome most id old n (i + 1)) (grow_vnodes can r) refl
    where
      after : (s : Ring) → Ring
      after s = record s { vnodes = insert_vnode_sorted (vnode vnode_key can id i) s.vnodes }

      go :
          ((m : ℕ) (s : Ring)
            → length s.vnodes + n ≤ most
            → Grown id old m s.vnodes
            → LoopOutcome can most id old (m + n) s (add_vnodes vnode_key can id n (i + 1) s))
          → (o : Option Ring) → grow_vnodes can r ≡ o
          → LoopOutcome can most id old (k + suc n) r (elim o [
            | none ↦ (
              err minus_one,
              record r { vnodes = drop_vnodes id r.vnodes; nodes = drop_last r.nodes },
            )
            | some s ↦ add_vnodes vnode_key can id n (i + 1) (after s)
          ])
      go rest none e =
          ((refl, grow_vnodes-NoMemory can r most (omega arith) e), g.grown_drop, refl, refl)
      go rest (some s) e =
          let f = grow_vnodes_same can r s e in
          LoopOutcome-from can most id old (k + 1 + n) (k + suc n) r (after s)
            (add_vnodes vnode_key can id n (i + 1) (after s)) (omega arith) f.1 f.2
            (rest (k + 1) (after s)
              (omega (arith, length-insert (vnode vnode_key can id i) s.vnodes, ap length f.0))
              (rw f.0 (Grown-insert id k (vnode vnode_key can id i) old r.vnodes refl g)))

  -- What `mb_ring_add` gives: on success a ring with the node and its vnodes, from which removing
  -- the node leads back, and in which no key has moved but to the node; on an error, the nodes and
  -- vnodes as they were.
  abbrev pub AddOutcome : ℕ → List ℕ → Ring → Rc × Ring → Type 0
  AddOutcome id addr r (ok n, t) =
      (n ≡ 0)
      × (has_node id r.nodes ≡ false)
      × IsRing t
      × (t.nodes ≡ r.nodes ++ record { node_id = id; addr = take 63 addr } ∷ [])
      × ((remove id t).1.nodes ≡ r.nodes)
      × ((remove id t).1.vnodes ≡ r.vnodes)
      × (r.vnodes ≢ [] → (key : List ℕ) → (lookup t key ≡ lookup r key) ⊎ (lookup t key ≡ id))
  AddOutcome id addr r (err e, t) =
      ((e ≡ eexist) × (has_node id r.nodes ≡ true)
        ⊎ (e ≡ minus_one)
          × (has_node id r.nodes ≡ false)
          × NoMemory can (length r.nodes + length r.vnodes + r.virtual_count))
      × IsRing t
      × (t.nodes ≡ r.nodes)
      × (t.vnodes ≡ r.vnodes)

  module _ (id : ℕ) (addr : List ℕ) {r : Ring} (g : IsRing r)
      (new : has_node id r.nodes ≡ false) where
    abbrev entry : Node
    entry = record { node_id = id; addr = take 63 addr }

    free : Free id r.vnodes
    free = owner_count-Free id r.vnodes (rw new at (g.share id))

    share_with :
        (j c : ℕ)
        → c ≡ (if id == j then r.virtual_count else 0) + owner_count j r.vnodes
        → c ≡ (if has_node j r.nodes || id == j then r.virtual_count else 0)
    share_with j c e = elim (ℕ_discrete id j) [
      | yes p ↦ ground (arith, e, g.share j, at p)
      | no p ↦ ground (arith, e, g.share j)
    ]
      where
        at : id ≡ j → has_node j r.nodes ≡ false
        at p = rw (← p) new

    loop-Outcome :
        (s : Ring) (x : Rc × Ring)
        → s.nodes ≡ r.nodes ++ entry ∷ []
        → s.virtual_count ≡ r.virtual_count
        → LoopOutcome can
            (length r.nodes + length r.vnodes + r.virtual_count)
            id
            r.vnodes
            s.virtual_count
            s
            x
        → AddOutcome id addr r x
    unfolding remove
    loop-Outcome s (ok n, t) p q (z, gr, en, ev) = (
      z,
      new,
      record {
        sorted = gr.grown_sorted;
        distinct = rw (en, p) (Distinct-append r.nodes entry g.distinct new);
        share = λ j.
            rw (en, p, has_node-append j r.nodes entry, ev, q)
              (share_with j (owner_count j t.vnodes) (rw q at (gr.grown_count j)));
      },
      en ∙ p,
      rw (en, p) (drop_node-append r.nodes entry new),
      gr.grown_drop ∙ drop-of_Free id r.vnodes free,
      λ ne key.
          rw (lookup-owner t key gr.grown_sorted, lookup-owner r key g.sorted)
            (gr.grown_owner ne (hash key)),
    )
    loop-Outcome s (err e, t) p q (z, ev, en, ec) =
        let nodes : t.nodes ≡ r.nodes = en ∙ ap drop_last p ∙ drop_last-append r.nodes entry in
        let vnodes : t.vnodes ≡ r.vnodes = ev ∙ drop-of_Free id r.vnodes free in
        (
          inr (z.0, new, z.1),
          record {
            sorted = rw vnodes g.sorted;
            distinct = rw nodes g.distinct;
            share = λ j. rw (vnodes, nodes, ec, q) (g.share j);
          },
          nodes,
          vnodes,
        )

  grow_nodes_same :
      (r s : Ring)
      → grow_nodes can r ≡ some s
      → (s.nodes ≡ r.nodes) × (s.vnodes ≡ r.vnodes) × (s.virtual_count ≡ r.virtual_count)
  unfolding grow_nodes
  grow_nodes_same r s = go (grow can 4 (length r.nodes) r.node_cap)
    where
      go :
          (o : Option ℕ)
          → (elim o [ none ↦ none | some cap ↦ some (record r { node_cap = cap }) ]) ≡ some s
          → (s.nodes ≡ r.nodes) × (s.vnodes ≡ r.vnodes) × (s.virtual_count ≡ r.virtual_count)
      go none e = ground arith
      go (some cap) e = ground arith

  -- Adding to a ring either enters a new node with `virtual_count` vnodes, moves no key but to it,
  -- and is undone by removing it; or fails with -EEXIST for a node that is in; or fails with -1, for
  -- a node that is not, only when the memory for an array is refused, whose length is at most 16 and
  -- twice the nodes, the vnodes and the vnodes to come. When it fails it leaves the nodes and vnodes
  -- as they were, however many vnodes had gone in. What it leaves is a ring.
  pub add-Outcome :
      (id : ℕ) (addr : List ℕ) {r : Ring}
      → IsRing r
      → AddOutcome id addr r (add vnode_key can id addr r)
  unfolding add
  add-Outcome id addr {r} g = elim (Bool-cases (has_node id r.nodes)) [
    | inl e ↦ rw e (inl (refl, e), g, refl, refl)
    | inr e ↦ rw e (go e (grow_nodes can r) refl (grow_nodes_same r))
  ]
    where
      entered : Ring → Ring
      entered s = record s { nodes = s.nodes ++ record { node_id = id; addr = take 63 addr } ∷ [] }

      go :
          has_node id r.nodes ≡ false
          → (o : Option Ring) → grow_nodes can r ≡ o
          → ((s : Ring)
              → o ≡ some s
              → (s.nodes ≡ r.nodes) × (s.vnodes ≡ r.vnodes) × (s.virtual_count ≡ r.virtual_count))
          → AddOutcome id addr r (elim o [
            | none ↦ (err minus_one, r)
            | some s ↦ add_vnodes vnode_key can id s.virtual_count 0 (entered s)
          ])
      go new none q h = (
        inr (
          refl,
          new,
          grow_nodes-NoMemory can r (length r.nodes + length r.vnodes + r.virtual_count)
              (omega arith) q,
        ),
        g,
        refl,
        refl,
      )
      go new (some s) q h =
          let f = h s refl in
          let most = length r.nodes + length r.vnodes + r.virtual_count in
          loop-Outcome id addr g new (entered s)
            (add_vnodes vnode_key can id s.virtual_count 0 (entered s))
            (ap (λ t. t ++ record { node_id = id; addr = take 63 addr } ∷ []) f.0) f.2
            (LoopOutcome-from can most id r.vnodes (0 + s.virtual_count) s.virtual_count (entered s)
              (entered s) (add_vnodes vnode_key can id s.virtual_count 0 (entered s)) (omega arith)
              refl refl
              (add_vnodes-Outcome most id r.vnodes s.virtual_count 0 0 (entered s)
                (omega (arith, ap length f.1, f.2)) (rw f.1 (Grown-none id r.vnodes g.sorted))))
