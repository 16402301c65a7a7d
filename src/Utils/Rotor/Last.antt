-- ===== src/Utils/Rotor/Last.antt =====
-- src/utils/fq.c, src/utils/lb.c: what a call of the rotating list leaves, over calls that may change
-- the state whatever they answer.
use msgbroker.Prelude.{
  ℕ, ◌≡◌, Bool, true, false, List, [], ◌∷◌, ◌++◌, Bool-cases, inl, inr, append_assoc,
}
use msgbroker.Errno.{err, is_eagain}
use msgbroker.Core.Pipe.{Answer, yields, refuses}
use msgbroker.Utils.Rotor.{names, Item, Outcome, probed, probe, headed, rotate}
use msgbroker.Utils.Rotor.Order.{names-append}

-- The pipe `p` is the last of the list.
abbrev pub EndsIn : ℕ → List Item → Type 0
EndsIn p items = (l : List ℕ) × (names items ≡ l ++ p ∷ [])

EndsIn-append :
    (p : ℕ) (b : Bool) (xs : List Item) → EndsIn p (xs ++ record { pipe = p; active = b } ∷ [])
EndsIn-append p b xs = (names xs, names-append xs (record { pipe = p; active = b } ∷ []))

module _ {V R : Type 0} (attempt : ℕ → V → Answer R × V) (IsStill Failed : V → Type 0)
    (Took : ℕ → R → V → Type 0) where
  -- What one pipe's call must leave: `IsStill` when it answers -EAGAIN.
  abbrev pub Leaves : ℕ → Answer R × V → Type 0
  Leaves p (yields r, v) = Took p r v
  Leaves p (refuses e, v) = (is_eagain (err e) ≡ true → IsStill v) × Failed v

  abbrev pub Comes : Outcome R × List Item × V → Type 0
  Comes (yields (p, r), items, v) = Took p r v × EndsIn p items
  Comes (refuses e, items, v) = Failed v

  module _ (each : (p : ℕ) (v : V) → IsStill v → Leaves p (attempt p v))
      (fails : (v : V) → IsStill v → Failed v) where
    probed-Comes :
        (seen : List Item) (x : Item) (xs : List Item) (o : Answer R × V)
        → Leaves x.pipe o
        → (rest : V → List Item → Outcome R × List Item × V)
        → ((v : V) (seen' : List Item) → IsStill v → Comes (rest v seen'))
        → Comes (probed attempt rest seen x xs o)
    probed-Comes seen x xs (yields r, v) h rest ih = (
      h,
      rw (← append_assoc seen xs (record x { active = true } ∷ []))
          (EndsIn-append x.pipe true (seen ++ xs)),
    )
    probed-Comes seen x xs (refuses e, v) h rest ih = elim (Bool-cases (is_eagain (err e))) [
      | inl q ↦ rw q (ih v (seen ++ record x { active = false } ∷ []) (h.0 q))
      | inr q ↦ rw q h.1
    ]

    pub probe-Comes : (seen xs : List Item) (v : V) → IsStill v → Comes (probe attempt seen xs v)
    unfolding probe
    probe-Comes seen [] v g = fails v g
    probe-Comes seen (x ∷ xs) v g =
        probed-Comes seen x xs (attempt x.pipe v) (each x.pipe v g)
          (λ v' seen'. probe attempt seen' xs v') (λ v' seen' k. probe-Comes seen' xs v' k)

    headed-Comes :
        (x : Item) (xs : List Item) (o : Answer R × V)
        → Leaves x.pipe o
        → Comes (headed attempt x xs o)
    headed-Comes x xs (yields r, v) h = (h, EndsIn-append x.pipe x.active xs)
    headed-Comes x xs (refuses e, v) h = elim (Bool-cases (is_eagain (err e))) [
      | inl q ↦ rw q (probe-Comes [] (record x { active = false } ∷ xs) v (h.0 q))
      | inr q ↦ rw q h.1
    ]

    pub rotate-Comes : (items : List Item) (v : V) → IsStill v → Comes (rotate attempt items v)
    unfolding rotate
    rotate-Comes [] v g = probe-Comes [] [] v g
    rotate-Comes (x ∷ xs) v g = elim (Bool-cases x.active) [
      | inl e ↦ simp e (headed-Comes x xs (attempt x.pipe v) (each x.pipe v g))
      | inr e ↦ simp e (probe-Comes [] (x ∷ xs) v g)
    ]
