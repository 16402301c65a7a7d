-- ===== src/Protocol/Spread/Cycle.antt =====
-- The rotating loops with and without marks on the pipes.
use msgbroker.Prelude.{
  ℕ, ◌≡◌, refl, ap, ◌∙◌, sym, true, false, List, [], ◌∷◌, ◌++◌, Bool-cases, inl, inr,
}
use msgbroker.Errno.{err, is_eagain}
use msgbroker.Core.Pipe.{Answer, yields, refuses}
use msgbroker.Utils.Rotor.{Item, Outcome, names, probed, probe}
use msgbroker.Protocol.Spread.{cycled, cycle}

names-append : (xs ys : List Item) → names (xs ++ ys) ≡ names xs ++ names ys
names-append [] ys = refl
names-append (x ∷ xs) ys = ap (λ l. x.pipe ∷ l) (names-append xs ys)

module _ {W R : Type 0} (attempt : ℕ → W → Answer R × W) where
  -- A result of the loop with marks, without them.
  abbrev pub unmarked : Outcome R × List Item × W → Outcome R × List ℕ × W
  unmarked (o, items, w) = (o, names items, w)

  cycled-probed :
      (seen : List Item) (x : Item) (xs : List Item) (o : Answer R × W)
      (rest : W → List Item → Outcome R × List Item × W)
      (plain : W → List ℕ → Outcome R × List ℕ × W)
      → ((w : W) (s : List Item) → plain w (names s) ≡ unmarked (rest w s))
      → cycled attempt plain (names seen) x.pipe (names xs) o
        ≡ unmarked (probed attempt rest seen x xs o)
  cycled-probed seen x xs (yields r, w) rest plain h =
      ap (λ l. (yields (x.pipe, r), l, w))
        (sym (
          names-append seen (xs ++ record x { active = true } ∷ [])
          ∙ ap (λ l. names seen ++ l) (names-append xs (record x { active = true } ∷ []))))
  cycled-probed seen x xs (refuses e, w) rest plain h = elim (Bool-cases (is_eagain (err e))) [
    | inl q ↦ simp q (
        ap (plain w) (sym (names-append seen (record x { active = false } ∷ [])))
        ∙ h w (seen ++ record x { active = false } ∷ []))
    | inr q ↦ simp q (ap (λ l. (refuses e, l, w)) (sym (names-append seen (x ∷ xs))))
  ]

  -- The loop over pipes without marks, which the raw socket types have, and the loop of the fair queue
  -- and of BUS, which keeps a mark of activity, give the same answer and the same order of the pipes
  -- from any state: the marks of the items do not matter.
  pub cycle-probe :
      (seen xs : List Item) (w : W)
      → cycle attempt (names seen) (names xs) w ≡ unmarked (probe attempt seen xs w)
  unfolding cycle probe
  cycle-probe seen [] w = refl
  cycle-probe seen (x ∷ xs) w =
      cycled-probed seen x xs (attempt x.pipe w) (λ w' s. probe attempt s xs w')
        (λ w' s. cycle attempt s (names xs) w') (λ w' s. cycle-probe s xs w')
