-- ===== src/Distributed/Ring/Room.antt =====
-- ring.c: why an array of the ring does not grow.
use msgbroker.Prelude.{
  ℕ, ◌+◌, ◌*◌, ◌≤◌, ◌≡◌, refl, Bool, false, Option, none, some, arith, length, if◌then◌else◌, ◌==◌,
  ltb, Bool-cases, inl, inr,
}
use msgbroker.Distributed.Ring.{Ring, grow, grow_nodes, grow_vnodes}

some_ne {ℓ} : {A : Type ℓ} (x : A) (o : Option A) → o ≡ some x → o ≡ none → ⊥
some_ne x o p q = cc

module _ (can : ℕ → Bool) where
  -- An array is refused, which is no longer than the doubling of `n` entries makes it.
  abbrev pub NoMemory : ℕ → Type 0
  NoMemory n = (c : ℕ) × (can c ≡ false) × (c ≤ 16 + 2 * n)

  -- The length that is asked for.
  abbrev wanted : ℕ → ℕ → ℕ
  wanted first cap = if cap == 0 then first else cap * 2

  wanted-le :
      (first used cap n : ℕ)
      → first ≤ 16
      → used ≤ n
      → ltb used cap ≡ false
      → wanted first cap ≤ 16 + 2 * n
  wanted-le first used cap n a b e = ground arith

  grow-NoMemory :
      (first used cap n : ℕ) → first ≤ 16 → used ≤ n → grow can first used cap ≡ none → NoMemory n
  grow-NoMemory first used cap n a b h = elim (Bool-cases (ltb used cap)) [
    | inl e ↦ absurd (some_ne cap (grow can first used cap) (rw e refl) h)
    | inr e ↦ elim (Bool-cases (can (wanted first cap))) [
      | inl q ↦ absurd (some_ne (wanted first cap) (grow can first used cap) (rw (e, q) refl) h)
      | inr q ↦ (wanted first cap, q, wanted-le first used cap n a b e)
    ]
  ]

  pub grow_vnodes-NoMemory :
      (r : Ring) (n : ℕ) → length r.vnodes ≤ n → grow_vnodes can r ≡ none → NoMemory n
  unfolding grow_vnodes
  grow_vnodes-NoMemory r n l h =
      grow-NoMemory 16 (length r.vnodes) r.vnode_cap n (omega arith) l
        (go (grow can 16 (length r.vnodes) r.vnode_cap) h)
    where
      go :
          (o : Option ℕ)
          → (elim o [ none ↦ none | some cap ↦ some (record r { vnode_cap = cap }) ]) ≡ none
          → o ≡ none
      go none e = refl
      go (some cap) e = cc

  pub grow_nodes-NoMemory :
      (r : Ring) (n : ℕ) → length r.nodes ≤ n → grow_nodes can r ≡ none → NoMemory n
  unfolding grow_nodes
  grow_nodes-NoMemory r n l h =
      grow-NoMemory 4 (length r.nodes) r.node_cap n (omega arith) l
        (go (grow can 4 (length r.nodes) r.node_cap) h)
    where
      go :
          (o : Option ℕ)
          → (elim o [ none ↦ none | some cap ↦ some (record r { node_cap = cap }) ]) ≡ none
          → o ≡ none
      go none e = refl
      go (some cap) e = cc
