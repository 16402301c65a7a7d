-- ===== src/Distributed/Ring/Walk.antt =====
-- ring.c: `mb_ring_lookup_n` collects distinct nodes, the primary first, and as many as there are.
use msgbroker.Prelude.{
  ℕ, zero, suc, ◌+◌, ◌-◌, ◌≤◌, ◌<◌, ◌≡◌, refl, sym, ◌∙◌, ◌≢◌, inl, inr, true, false, ◌||◌, List, [],
  ◌∷◌, ◌++◌, arith, length, if◌then◌else◌, ltb, leb, ◌==◌, Bool-cases, get_or, leb→le,
  length-append, append-nil, append_assoc,
}
use msgbroker.Distributed.Ring.{
  Ring, Vnode, no_vnode, lookup, lookup_n, hash, contains, walk, next, primary,
}
use msgbroker.Distributed.Ring.Sorted.{IsSorted}
use msgbroker.Distributed.Ring.Search.{primary-lt, length_pos}

-- No node twice.
abbrev pub Nodup : List ℕ → Type 0
Nodup [] = Unit
Nodup (x ∷ xs) = (contains x xs ≡ false) × Nodup xs

contains-append : (a x : ℕ) (xs : List ℕ) → contains a (xs ++ x ∷ []) ≡ contains a xs || x == a
unfolding contains
contains-append a x [] = ground arith
contains-append a x (y ∷ ys) = ground (arith, contains-append a x ys)

Nodup-append : (xs : List ℕ) (x : ℕ) → Nodup xs → contains x xs ≡ false → Nodup (xs ++ x ∷ [])
unfolding contains
Nodup-append [] x d h = (refl, tt)
Nodup-append (y ∷ ys) x d h =
    (ground (arith, contains-append y x ys), Nodup-append ys x d.1 (ground arith))

abbrev pub owner_at : List Vnode → ℕ → ℕ
owner_at vs i = (get_or vs i no_vnode).owner

-- The index after `k` steps round the ring.
pub index_after : List Vnode → ℕ → ℕ → ℕ
index_after vs idx zero = idx
index_after vs idx (suc k) = index_after vs (next vs idx) k

index_after_lem :
    (vs : List Vnode) (idx k : ℕ)
    → idx < length vs
    → k ≤ length vs
    → index_after vs idx k ≡ (if ltb (idx + k) (length vs) then idx + k else idx + k - length vs)
unfolding index_after
index_after_lem vs idx zero h q = ground arith
index_after_lem vs idx (suc k) h q = elim (Bool-cases (idx + 1 == length vs)) [
  | inl e ↦ rw e (index_after_lem vs 0 k (omega arith) (omega arith) ∙ wrap (length vs) q e)
  | inr e ↦
      rw e (index_after_lem vs (idx + 1) k (inside (length vs) e h) (omega arith) ∙ on (length vs))
]
  where
    wrap :
        (n : ℕ)
        → suc k ≤ n
        → (idx + 1 == n) ≡ true
        → (if ltb (0 + k) n then 0 + k else 0 + k - n)
          ≡ (if ltb (idx + suc k) n then idx + suc k else idx + suc k - n)
    wrap n b e = ground arith

    inside : (n : ℕ) → (idx + 1 == n) ≡ false → idx < n → idx + 1 < n
    inside n e p = ground arith

    on :
        (n : ℕ)
        → (if ltb (idx + 1 + k) n then idx + 1 + k else idx + 1 + k - n)
          ≡ (if ltb (idx + suc k) n then idx + suc k else idx + suc k - n)
    on n = ground arith

-- What a walk of `n` steps from `idx` makes of `ids`: distinct nodes, at most `max_count`, `ids` at
-- the front; and if there is room left at the end, every node that it came by.
record Walked (vs : List Vnode) (max_count n idx : ℕ) (ids out : List ℕ) : Type 0 where
  walked_nodup : Nodup out
  walked_le : length out ≤ max_count
  walked_front : (rest : List ℕ) × (out ≡ ids ++ rest)
  walked_keeps : (a : ℕ) → contains a ids ≡ true → contains a out ≡ true
  walked_covers :
      length out < max_count
      → (k : ℕ) → k < n
      → contains (owner_at vs (index_after vs idx k)) out ≡ true

grown_keeps : (ids : List ℕ) (x a : ℕ) → contains a ids ≡ true → contains a (ids ++ x ∷ []) ≡ true
grown_keeps ids x a p = ground (arith, contains-append a x ids)

grown_last : (ids : List ℕ) (x : ℕ) → contains x (ids ++ x ∷ []) ≡ true
grown_last ids x = ground (arith, contains-append x x ids)

module _ (vs : List Vnode) (max_count : ℕ) where
  covers_suc :
      (n idx : ℕ) (out : List ℕ)
      → contains (owner_at vs idx) out ≡ true
      → ((k : ℕ) → k < n → contains (owner_at vs (index_after vs (next vs idx) k)) out ≡ true)
      → (k : ℕ) → k < suc n
      → contains (owner_at vs (index_after vs idx k)) out ≡ true
  unfolding index_after
  covers_suc n idx out h r zero p = h
  covers_suc n idx out h r (suc k) p = r k (omega arith)

  room_left : (n : ℕ) → leb max_count n ≡ false → n < max_count
  room_left n e = ground arith

  walk_stop :
      (n idx : ℕ) (ids : List ℕ)
      → Nodup ids
      → contains (owner_at vs idx) ids ≡ false
      → length ids < max_count
      → leb max_count (length (ids ++ owner_at vs idx ∷ [])) ≡ true
      → Walked vs max_count (suc n) idx ids (ids ++ owner_at vs idx ∷ [])
  walk_stop n idx ids d e h t = record {
    walked_nodup = Nodup-append ids (owner_at vs idx) d e;
    walked_le = omega (arith, length-append ids (owner_at vs idx ∷ []));
    walked_front = (owner_at vs idx ∷ [], refl);
    walked_keeps = grown_keeps ids (owner_at vs idx);
    walked_covers =
        λ l k p. absurd (omega (arith, leb→le max_count (length (ids ++ owner_at vs idx ∷ [])) t));
  }

  walk-Walked :
      (n idx : ℕ) (ids : List ℕ)
      → Nodup ids
      → length ids < max_count
      → Walked vs max_count n idx ids (walk vs max_count n idx ids)
  unfolding walk index_after contains
  walk-Walked zero idx ids d h = record {
    walked_nodup = d;
    walked_le = omega arith;
    walked_front = ([], sym (append-nil ids));
    walked_keeps = λ a p. p;
    walked_covers = λ l k p. absurd (omega arith);
  }
  walk-Walked (suc n) idx ids d h = elim (Bool-cases (contains (owner_at vs idx) ids)) [
    | inl e ↦
        rw (e, walk)
          (let w = walk-Walked n (next vs idx) ids d h in
            record {
              walked_nodup = w.walked_nodup;
              walked_le = w.walked_le;
              walked_front = w.walked_front;
              walked_keeps = w.walked_keeps;
              walked_covers = λ l.
                  covers_suc n idx (walk vs max_count n (next vs idx) ids)
                    (w.walked_keeps (owner_at vs idx) e) (w.walked_covers l);
            })
    | inr e ↦
        rw (e, walk)
          (elim (Bool-cases (leb max_count (length (ids ++ owner_at vs idx ∷ [])))) [
            | inl t ↦ rw (t, walk) (walk_stop n idx ids d e h t)
            | inr t ↦
                rw (t, walk)
                  (let x = owner_at vs idx in
                    let w =
                      walk-Walked n (next vs idx) (ids ++ x ∷ []) (Nodup-append ids x d e)
                        (room_left (length (ids ++ x ∷ [])) t) in
                    record {
                      walked_nodup = w.walked_nodup;
                      walked_le = w.walked_le;
                      walked_front = (
                        x ∷ w.walked_front.0,
                        w.walked_front.1 ∙ append_assoc ids (x ∷ []) w.walked_front.0,
                      );
                      walked_keeps = λ a p. w.walked_keeps a (grown_keeps ids x a p);
                      walked_covers = λ l.
                          covers_suc n idx (walk vs max_count n (next vs idx) (ids ++ x ∷ []))
                            (w.walked_keeps x (grown_last ids x)) (w.walked_covers l);
                    })
          ])
  ]

-- The walk from the primary comes by every vnode.
every_index :
    (vs : List Vnode) (p i : ℕ)
    → p < length vs
    → i < length vs
    → (k : ℕ) × (k < length vs) × (index_after vs p k ≡ i)
every_index vs p i h q = elim (Bool-cases (ltb i p)) [
  | inl e ↦ (
    length vs - p + i,
    before (length vs) e h,
    index_after_lem vs p (length vs - p + i) h (before_le (length vs) e h)
        ∙ before_eq (length vs) e h q,
  )
  | inr e ↦
      (i - p, omega arith, index_after_lem vs p (i - p) h (omega arith) ∙ after_eq (length vs) e q)
]
  where
    before : (n : ℕ) → ltb i p ≡ true → p < n → n - p + i < n
    before n e a = ground arith

    before_le : (n : ℕ) → ltb i p ≡ true → p < n → n - p + i ≤ n
    before_le n e a = ground arith

    before_eq :
        (n : ℕ)
        → ltb i p ≡ true
        → p < n
        → i < n
        → (if ltb (p + (n - p + i)) n then p + (n - p + i) else p + (n - p + i) - n) ≡ i
    before_eq n e a b = ground arith

    after_eq :
        (n : ℕ)
        → ltb i p ≡ false
        → i < n
        → (if ltb (p + (i - p)) n then p + (i - p) else p + (i - p) - n) ≡ i
    after_eq n e a = ground arith

-- The first node collected is the primary.
walk_head :
    (vs : List Vnode) (max_count n p : ℕ)
    → 0 < n
    → 0 < max_count
    → (rest : List ℕ) × (walk vs max_count n p [] ≡ owner_at vs p ∷ rest)
unfolding walk contains
walk_head vs max_count zero p h q = absurd (omega arith)
walk_head vs max_count (suc n) p h q = elim (Bool-cases (leb max_count 1)) [
  | inl e ↦ ([], rw (e, walk) refl)
  | inr e ↦
      let w =
        walk-Walked vs max_count n (next vs p) (owner_at vs p ∷ []) (refl, tt)
          (room_left vs max_count 1 e) in
      (w.walked_front.0, rw (e, walk) w.walked_front.1)
]

-- On a sorted ring that is not empty, `mb_ring_lookup_n` with a positive `max_count` collects
-- distinct nodes, the owner of the key first, at most `max_count` of them; and fewer only when
-- every node that has a vnode is among them.
pub lookup_n_lem :
    (r : Ring) (key : List ℕ) (max_count : ℕ)
    → IsSorted r.vnodes
    → r.vnodes ≢ []
    → 0 < max_count
    → let out = lookup_n r key max_count in
      Nodup out
      × (length out ≤ max_count)
      × ((rest : List ℕ) × (out ≡ lookup r key ∷ rest))
      × (length out < max_count
          → (i : ℕ) → i < length r.vnodes
          → contains (owner_at r.vnodes i) out ≡ true)
unfolding lookup_n lookup
lookup_n_lem r key max_count s ne pos =
    let vs = r.vnodes in
    let p = primary vs (hash key) in
    let lt = primary-lt vs (hash key) s ne in
    let w = walk-Walked vs max_count (length vs) p [] tt pos in
    rw
      (no_stop max_count (length vs) pos (length_pos vs ne), ne_zero (length vs) (length_pos vs ne))
      (
        w.walked_nodup,
        w.walked_le,
        walk_head vs max_count (length vs) p (length_pos vs ne) pos,
        λ l i q. let (k, kl, ke) = every_index vs p i lt q in rw ke at (w.walked_covers l k kl),
      )
  where
    ne_zero : (n : ℕ) → 0 < n → (n == 0) ≡ false
    ne_zero n h = ground arith

    no_stop : (m n : ℕ) → 0 < m → 0 < n → (m == 0 || n == 0) ≡ false
    no_stop m n h k = ground arith
