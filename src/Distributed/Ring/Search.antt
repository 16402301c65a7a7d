-- ===== src/Distributed/Ring/Search.antt =====
-- ring.c: the binary search finds the first vnode at or past a hash.
use msgbroker.Prelude.{
  ℕ, zero, suc, ◌+◌, ◌-◌, ◌/◌, ◌≤◌, ◌<◌, ◌≡◌, refl, ◌≢◌, true, false, List, [], ◌∷◌, arith, length,
  inl, inr, if◌then◌else◌, ltb, ◌==◌, Bool-cases, get_or,
}
use msgbroker.Distributed.Ring.{Vnode, no_vnode, search, primary}
use msgbroker.Distributed.Ring.Sorted.{Above, IsSorted}

-- The hash of the vnode at an index.
abbrev pub point_at : List Vnode → ℕ → ℕ
point_at vs i = (get_or vs i no_vnode).point

-- How many vnodes at the front are below `h`: the linear search for the first at or past it.
unfoldable pub rank : ℕ → List Vnode → ℕ
rank h [] = 0
rank h (v ∷ vs) = if ltb v.point h then suc (rank h vs) else 0

rank-le : (h : ℕ) (vs : List Vnode) → rank h vs ≤ length vs
unfolding rank
rank-le h [] = omega arith
rank-le h (v ∷ vs) = elim (Bool-cases (ltb v.point h)) [
  | inl e ↦ rw e (omega (arith, rank-le h vs))
  | inr e ↦ rw e (omega arith)
]

pub length_pos {ℓ} : {A : Type ℓ} (xs : List A) → xs ≢ [] → 0 < length xs
length_pos [] h = absurd (h refl)
length_pos (x ∷ xs) h = omega arith

point_at-Above : (p : ℕ) (vs : List Vnode) (i : ℕ) → Above p vs → i < length vs → p ≤ point_at vs i
point_at-Above p [] i a h = absurd (omega arith)
point_at-Above p (v ∷ vs) zero a h = a.0
point_at-Above p (v ∷ vs) (suc i) a h = point_at-Above p vs i a.1 (omega arith)

point_at_mono :
    (vs : List Vnode) (i j : ℕ)
    → IsSorted vs
    → i ≤ j
    → j < length vs
    → point_at vs i ≤ point_at vs j
point_at_mono [] i j s h k = absurd (omega arith)
point_at_mono (v ∷ vs) zero zero s h k = omega arith
point_at_mono (v ∷ vs) zero (suc j) s h k = point_at-Above v.point vs j s.0 (omega arith)
point_at_mono (v ∷ vs) (suc i) zero s h k = absurd (omega arith)
point_at_mono (v ∷ vs) (suc i) (suc j) s h k = point_at_mono vs i j s.1 (omega arith) (omega arith)

-- The index `r` parts the vnodes into those below `h` and those not.
abbrev Parts : List Vnode → ℕ → ℕ → Type 0
Parts vs h r =
    (r ≤ length vs)
    × ((i : ℕ) → i < r → point_at vs i < h)
    × ((i : ℕ) → r ≤ i → i < length vs → h ≤ point_at vs i)

rank-Parts : (h : ℕ) (vs : List Vnode) → IsSorted vs → Parts vs h (rank h vs)
unfolding rank
rank-Parts h [] s = (omega arith, λ i p. absurd (omega arith), λ i p q. absurd (omega arith))
rank-Parts h (v ∷ vs) s = elim (Bool-cases (ltb v.point h)) [
  | inl e ↦ rw e (let p = rank-Parts h vs s.1 in (omega (arith, p.0), below e p.1, above e p.2))
  | inr e ↦ rw e (
    omega arith,
    λ i p. absurd (omega arith),
    λ i p q. le_of v.point h (point_at (v ∷ vs) i) e (point_at_mono (v ∷ vs) 0 i s p q),
  )
]
  where
    lt_of : (a b : ℕ) → ltb a b ≡ true → a < b
    lt_of a b e = ground arith

    le_of : (a b c : ℕ) → ltb a b ≡ false → a ≤ c → b ≤ c
    le_of a b c e k = ground arith

    below :
        ltb v.point h ≡ true
        → ((i : ℕ) → i < rank h vs → point_at vs i < h)
        → (i : ℕ) → i < suc (rank h vs)
        → point_at (v ∷ vs) i < h
    below e p zero q = lt_of v.point h e
    below e p (suc i) q = p i (omega arith)

    above :
        ltb v.point h ≡ true
        → ((i : ℕ) → rank h vs ≤ i → i < length vs → h ≤ point_at vs i)
        → (i : ℕ) → suc (rank h vs) ≤ i
        → i < length (v ∷ vs)
        → h ≤ point_at (v ∷ vs) i
    above e p zero q r = absurd (omega arith)
    above e p (suc i) q r = p i (omega arith) (omega arith)

Parts-unique : (vs : List Vnode) (h r s : ℕ) → Parts vs h r → Parts vs h s → r ≡ s
Parts-unique vs h r s p q = ground (arith, p.1 s, p.2 r, q.1 r, q.2 s)

module _ (vs : List Vnode) (h : ℕ) (sorted : IsSorted vs) where
  search-Parts :
      (fuel lo hi : ℕ)
      → hi - lo ≤ fuel
      → lo ≤ hi
      → hi ≤ length vs
      → ((i : ℕ) → i < lo → point_at vs i < h)
      → ((i : ℕ) → hi ≤ i → i < length vs → h ≤ point_at vs i)
      → Parts vs h (search fuel vs h lo hi)
  unfolding search
  search-Parts zero lo hi f o b below above = (omega arith, below, λ i p q. above i (omega arith) q)
  search-Parts (suc fuel) lo hi f o b below above = elim (Bool-cases (ltb lo hi)) [
    | inr e ↦ rw (e, search) (omega arith, below, λ i p q. above i (ge_of lo hi i e p) q)
    | inl e ↦
        rw (e, search)
          (let k = lt_of lo hi e in
            let mid = lo + (hi - lo) / 2 in
            elim (Bool-cases (ltb (point_at vs mid) h)) [
              | inl t ↦
                  rw (t, search)
                    (search-Parts fuel (mid + 1) hi (omega arith) (omega arith) b
                      (λ i p.
                        le_lt (point_at vs i) (point_at vs mid) h
                          (point_at_mono vs i mid sorted (omega arith) (omega arith)) t)
                      above)
              | inr t ↦
                  rw (t, search)
                    (search-Parts fuel lo mid (omega arith) (omega arith) (omega arith) below
                      (λ i p q.
                        ge_le (point_at vs mid) h (point_at vs i) t
                          (point_at_mono vs mid i sorted p q)))
            ])
  ]
    where
      lt_of : (a c : ℕ) → ltb a c ≡ true → a < c
      lt_of a c e = ground arith

      ge_of : (a c i : ℕ) → ltb a c ≡ false → a ≤ i → c ≤ i
      ge_of a c i e p = ground arith

      le_lt : (a c d : ℕ) → a ≤ c → ltb c d ≡ true → a < d
      le_lt a c d p e = ground arith

      ge_le : (a c d : ℕ) → ltb a c ≡ false → a ≤ d → c ≤ d
      ge_le a c d e p = ground arith

  -- The loop of `mb_ring_lookup` finds the index that a linear search finds.
  pub search-rank : search (length vs) vs h 0 (length vs) ≡ rank h vs
  search-rank =
      Parts-unique vs h (search (length vs) vs h 0 (length vs)) (rank h vs)
        (search-Parts (length vs) 0 (length vs) (omega arith) (omega arith) (omega arith)
          (λ i p. absurd (omega arith)) (λ i p q. absurd (omega arith)))
        (rank-Parts h vs sorted)

  pub primary-lt : vs ≢ [] → primary vs h < length vs
  unfolding primary
  primary-lt ne = rw search-rank (inside (rank h vs) (length vs) (rank-le h vs) (length_pos vs ne))
    where
      inside : (a n : ℕ) → a ≤ n → 0 < n → (if a == n then 0 else a) < n
      inside a n p q = ground arith
