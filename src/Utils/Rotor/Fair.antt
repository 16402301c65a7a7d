-- ===== src/Utils/Rotor/Fair.antt =====
-- src/utils/fq.c, src/utils/lb.c: the turns that the pipes get.
use msgbroker.Prelude.{
  ℕ, zero, suc, ◌≡◌, refl, ap, true, List, [], ◌∷◌, ◌++◌, append-nil, append_assoc, Bool-cases, inl,
  inr, sym, ◌∙◌, length,
}
use msgbroker.Core.Pipe.{Answer, yields, refuses}
use msgbroker.Utils.Rotor.{Item, Outcome, probe, rotate, names}

module _ {W R : Type 0} (attempt : ℕ → W → Answer R × W) where
  abbrev pub IsReady : Type 0
  IsReady = (p : ℕ) (w : W) → (r : R) × (w' : W) × (attempt p w ≡ (yields r, w'))

  abbrev turn : (List Item → W → List ℕ) → Outcome R × List Item × W → List ℕ
  turn rest (yields (p, r), items, w) = p ∷ rest items w
  turn rest (refuses e, items, w) = []

  -- The pipes taken by `n` calls, up to the first that fails.
  unfoldable pub turns : ℕ → List Item → W → List ℕ
  turns zero items w = []
  turns (suc n) items w = turn (λ i v. turns n i v) (rotate attempt items w)

  rotate-ready :
      IsReady
      → (x : Item) (xs : List Item) (w : W)
      → (r : R) × (y : Item) × (w' : W) × (rotate attempt (x ∷ xs) w
          ≡ (yields (x.pipe, r), xs ++ y ∷ [], w'))
        × (y.pipe ≡ x.pipe)
  unfolding rotate probe
  rotate-ready ready x xs w =
      let t = ready x.pipe w in
      elim (Bool-cases x.active) [
        | inl e ↦ simp (e, t.2) (t.0, x, t.1, refl, refl)
        | inr e ↦ simp (e, t.2) (t.0, record x { active = true }, t.1, refl, refl)
      ]

  turns-append : IsReady → (xs ys : List Item) (w : W) → turns (length xs) (xs ++ ys) w ≡ names xs
  unfolding turns
  turns-append ready [] ys w = refl
  turns-append ready (x ∷ xs) ys w =
      let t = rotate-ready ready x (xs ++ ys) w in
      rw (t.3, append_assoc xs ys (t.1 ∷ []))
        (ap (λ l. x.pipe ∷ l) (turns-append ready xs (ys ++ t.1 ∷ []) t.2))

  -- While every pipe can always be taken, as many calls as there are pipes take each pipe once, in
  -- the order of the list.
  pub turns-round :
      IsReady → (items : List Item) (w : W) → turns (length items) items w ≡ names items
  turns-round ready items w =
      ap (λ l. turns (length items) l w) (sym (append-nil items)) ∙ turns-append ready items [] w
