-- ===== src/Aio/Timerset/Fire.antt =====
-- timerset.c: what a tick fires.
use msgbroker.Prelude.{
  ℕ, zero, suc, ◌+◌, ◌≤◌, ◌≡◌, true, false, Option, none, some, List, [], ◌∷◌, leb, All, inl, inr,
  arith, Bool-cases, if◌then◌else◌,
}
use msgbroker.Aio.Timerset.{Timer, fired, tick}
use msgbroker.Aio.Timerset.Sorted.{NotAfter, After, IsSorted, From-le, le_true, le_false}

-- How many timers are due.
unfoldable pub due_count : ℕ → List Timer → ℕ
due_count now [] = 0
due_count now (t ∷ ts) = (if leb t.expiry now then 1 else 0) + due_count now ts

none_due : (a n fuel : ℕ) → leb a n ≡ true → (if leb a n then 1 else 0) + fuel ≤ 0 → ⊥
none_due a n fuel h k = ground arith

one_due : (a n c fuel : ℕ) → leb a n ≡ true → (if leb a n then 1 else 0) + c ≤ suc fuel → c ≤ fuel
one_due a n c fuel h k = ground arith

module _ (fn : Timer → List Timer → List Timer) where
  -- The callbacks keep the list sorted.
  abbrev pub KeepsSorted : Type 0
  KeepsSorted = (t : Timer) (ts : List Timer) → IsSorted ts → IsSorted (fn t ts)

  -- The callbacks make no timer due that was not.
  abbrev pub AddsNoneDue : ℕ → Type 0
  AddsNoneDue now = (t : Timer) (ts : List Timer) → due_count now (fn t ts) ≤ due_count now ts

  -- The timers fired were due, and none that is due is left.
  abbrev pub Fired : ℕ → Option (List Timer × List Timer) → Type 0
  Fired now none = ⊥
  Fired now (some (f, left)) = All (NotAfter now) f × All (After now) left × IsSorted left

  fired-Fired :
      (now : ℕ) (t : Timer) (r : Option (List Timer × List Timer))
      → t.expiry ≤ now
      → Fired now r
      → Fired now (fired fn t r)
  fired-Fired now t none h k = k
  fired-Fired now t (some (f, left)) h k = ((h, k.0), k.1, k.2)

  at_rest :
      (now : ℕ) (t : Timer) (ts : List Timer)
      → leb t.expiry now ≡ false
      → IsSorted (t ∷ ts)
      → Fired now (some ([], t ∷ ts))
  at_rest now t ts e s =
      let h = le_false t.expiry now e in (tt, (h, From-le now t.expiry ts h s.0), s)

  -- A tick ends within as many rounds as timers are due, whatever the callbacks do to the list as
  -- long as they keep it sorted and make none due; every timer that it fires was due, and no timer
  -- that is due is left. The list was sorted and is again.
  pub tick-Fired :
      KeepsSorted
      → (now : ℕ) → AddsNoneDue now
      → (fuel : ℕ) (ts : List Timer) → IsSorted ts
      → due_count now ts ≤ fuel
      → Fired now (tick fn fuel now ts)
  unfolding tick due_count
  tick-Fired keeps now adds fuel [] s h = (tt, tt, tt)
  tick-Fired keeps now adds zero (t ∷ ts) s h = elim (Bool-cases (leb t.expiry now)) [
    | inl e ↦ absurd (none_due t.expiry now (due_count now ts) e h)
    | inr e ↦ simp e (at_rest now t ts e s)
  ]
  tick-Fired keeps now adds (suc fuel) (t ∷ ts) s h = elim (Bool-cases (leb t.expiry now)) [
    | inl e ↦
        let k = one_due t.expiry now (due_count now ts) fuel e h in
        simp e (
          fired-Fired now t (tick fn fuel now (fn t ts)) (le_true t.expiry now e) (
            tick-Fired keeps now adds fuel (fn t ts) (keeps t ts s.1)
              (omega (arith, adds t ts, k))))
    | inr e ↦ simp e (at_rest now t ts e s)
  ]
