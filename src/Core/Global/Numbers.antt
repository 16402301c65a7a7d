-- ===== src/Core/Global/Numbers.antt =====
-- global.c: the numbers of the sockets. `unused` is a stack of those that are free.
use msgbroker.Prelude.{
  ℕ, ◌-◌, ◌<◌, ◌≤◌, ◌≡◌, ◌≢◌, ◌⊎◌, refl, ap, sym, ◌∙◌, true, none, some, ◌==◌, ==_iff, Bool-cases,
  inl, inr, arith,
}
use msgbroker.Core.Socktypes.{Socktype}
use msgbroker.Core.Global.{update, max_sockets, Table, empty_table, next_socket, taken, released}
use msgbroker.Core.Global.Count.{held, open_below, open_below-update, open_below-none}

pub update_self {ℓ} : {A : Type ℓ} (f : ℕ → A) (i j : ℕ) (a : A) → i ≡ j → update f i a j ≡ a
update_self f i j a h = let e : (i == j) ≡ true = (==_iff i j).1 h in rw e refl

pub update_ne {ℓ} : {A : Type ℓ} (f : ℕ → A) (i j : ℕ) (a : A) → i ≢ j → update f i a j ≡ f j
update_ne f i j a h = elim (Bool-cases (i == j)) [
  | inl e ↦ absurd (h ((==_iff i j).0 e))
  | inr e ↦ rw e refl
]

-- The first entries of `unused` are numbers in range of no open socket, and all differ; `nsocks` is how
-- many sockets are open.
pub record IsTable (t : Table) : Type 0 where
  pub counted : open_below max_sockets t.socks ≡ t.nsocks
  pub within : t.nsocks ≤ max_sockets
  pub in_range : (i : ℕ) → i < max_sockets - t.nsocks → t.unused i < max_sockets
  pub free : (i : ℕ) → i < max_sockets - t.nsocks → t.socks (t.unused i) ≡ none
  pub distinct :
      (i j : ℕ)
      → i < max_sockets - t.nsocks
      → j < max_sockets - t.nsocks
      → t.unused i ≡ t.unused j
      → i ≡ j

pub empty_table-IsTable : IsTable empty_table
empty_table-IsTable = record {
  counted = open_below-none max_sockets;
  within = omega arith;
  in_range = λ i h. omega arith;
  free = λ i h. refl;
  distinct = λ i j h k e. omega arith;
}

pub taken-IsTable :
    (ty : Socktype) (t : Table) → IsTable t → t.nsocks < max_sockets → IsTable (taken ty t)
taken-IsTable ty t v h =
    let top : max_sockets - t.nsocks - 1 < max_sockets - t.nsocks = omega arith in
    let c = open_below-update max_sockets (next_socket t) t.socks (some ty) (v.in_range _ top) in
    let e : held (t.socks (next_socket t)) ≡ 0 = ap held (v.free _ top) in
    record {
      counted = omega (arith, c, e, v.counted);
      within = omega (arith, h);
      in_range = λ i k. v.in_range i (omega arith);
      free = λ i k.
          update_ne t.socks (next_socket t) (t.unused i) (some ty)
            (λ q. absurd (omega (arith, v.distinct _ i top (omega arith) q)))
          ∙ v.free i (omega arith);
      distinct = λ i j k l e. v.distinct i j (omega arith) (omega arith) e;
    }

-- The place of a number that is given back.
abbrev place : Table → ℕ
place t = max_sockets - t.nsocks

none-some : {x : Socktype} → none ≡ some x → ⊥
none-some h = cc

-- The place is free or it is the one of the new number.
module _ (s : ℕ) (t : Table) (v : IsTable t) where
  stack_cases :
      (i : ℕ)
      → i ≤ place t
      → (place t ≡ i) × (update t.unused (place t) s i ≡ s)
        ⊎ (place t ≢ i) × (i < place t) × (update t.unused (place t) s i ≡ t.unused i)
  stack_cases i h = elim (Bool-cases (place t == i)) [
    | inl e ↦ let q = (==_iff (place t) i).0 e in inl (q, update_self t.unused (place t) i s q)
    | inr e ↦
        let q : place t ≢ i = λ z. cc (sym ((==_iff (place t) i).1 z) ∙ e) in
        inr (q, omega arith, update_ne t.unused (place t) i s q)
  ]

  released_in_range :
      s < max_sockets → (i : ℕ) → i ≤ place t → update t.unused (place t) s i < max_sockets
  released_in_range h i k = elim (stack_cases i k) [
    | inl (q, e) ↦ rw e h
    | inr (q, l, e) ↦ rw e (v.in_range i l)
  ]

  closed_none : (x : ℕ) → (x ≡ s) ⊎ (t.socks x ≡ none) → update t.socks s none x ≡ none
  closed_none x (inl e) = update_self t.socks s x none (sym e)
  closed_none x (inr e) = elim (Bool-cases (s == x)) [ inl q ↦ rw q refl | inr q ↦ rw q e ]

  released_free :
      (i : ℕ) → i ≤ place t → update t.socks s none (update t.unused (place t) s i) ≡ none
  released_free i k = elim (stack_cases i k) [
    | inl (q, e) ↦ closed_none _ (inl e)
    | inr (q, l, e) ↦ closed_none _ (inr (ap t.socks e ∙ v.free i l))
  ]

  -- The number of an open socket is not on the stack.
  not_stacked : (ty : Socktype) (i : ℕ) → t.socks s ≡ some ty → i < place t → t.unused i ≢ s
  not_stacked ty i k l e = none-some (sym (v.free i l) ∙ ap t.socks e ∙ k)

  released_distinct :
      (ty : Socktype)
      → t.socks s ≡ some ty
      → (i j : ℕ) → i ≤ place t
      → j ≤ place t
      → update t.unused (place t) s i ≡ update t.unused (place t) s j
      → i ≡ j
  released_distinct ty k i j hi hj e = elim (stack_cases i hi) [
    | inl (q, a) ↦ elim (stack_cases j hj) [
      | inl (r, b) ↦ sym q ∙ r
      | inr (r, l, b) ↦ absurd (not_stacked ty j k l (sym b ∙ sym e ∙ a))
    ]
    | inr (q, l, a) ↦ elim (stack_cases j hj) [
      | inl (r, b) ↦ absurd (not_stacked ty i k l (sym a ∙ e ∙ b))
      | inr (r, m, b) ↦ v.distinct i j l m (sym a ∙ e ∙ b)
    ]
  ]

pub released-IsTable :
    (s : ℕ) (ty : Socktype) (t : Table)
    → IsTable t
    → s < max_sockets
    → t.socks s ≡ some ty
    → IsTable (released s t)
released-IsTable s ty t v h k =
    let c = open_below-update max_sockets s t.socks none h in
    let e : held (t.socks s) ≡ 1 = ap held k in
    let pos : 0 < t.nsocks = omega (arith, c, e, v.counted) in
    record {
      counted = omega (arith, c, e, v.counted);
      within = omega (arith, v.within);
      in_range = λ i l. released_in_range s t v h i (omega (arith, pos, v.within, l));
      free = λ i l. released_free s t v i (omega (arith, pos, v.within, l));
      distinct = λ i j l m e.
          released_distinct s t v ty k i j (omega (arith, pos, v.within, l))
            (omega (arith, pos, v.within, m)) e;
    }
