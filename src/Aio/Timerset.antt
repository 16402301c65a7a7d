-- ===== src/Aio/Timerset.antt =====
-- src/aio/timerset.c: the timers of a worker, in the order in which they expire. A handle is found by
-- its number, where the code holds a pointer; that `hndl->set` is not NULL is that it is in the list.
mod Sorted
mod Fire
mod Tests
use msgbroker.Prelude.{
  ℕ, zero, suc, ◌+◌, ◌%◌, ◌^◌, Bool, true, false, Option, none, some, List, [], ◌∷◌, ◌==◌, ltb, leb,
  if◌then◌else◌, add64, sub64,
}

-- What the list holds of a `struct mb_timerset_hndl`.
pub record Timer : Type 0 where
  pub handle : ℕ
  pub expiry : ℕ

abbrev pub init : List Timer
init = []

abbrev pub term : List Timer → List Timer
term ts = []

-- A difference of times as an `int`, and 0 if that is negative.
abbrev pub remaining : ℕ → ℕ
remaining d = if ltb (d % 2 ^ 32) (2 ^ 31) then d % 2 ^ 32 else 0

-- `none` is -1: there is no timer.
abbrev pub timeout : ℕ → List Timer → Option ℕ
timeout now [] = none
timeout now (t ∷ ts) = some (remaining (sub64 t.expiry now))

-- Behind all that expire no later.
unfoldable pub insert_sorted : Timer → List Timer → List Timer
insert_sorted t [] = t ∷ []
insert_sorted t (x ∷ xs) = if leb x.expiry t.expiry then x ∷ insert_sorted t xs else t ∷ x ∷ xs

unfoldable pub cancel : ℕ → List Timer → List Timer
cancel h [] = []
cancel h (x ∷ xs) = if x.handle == h then xs else x ∷ cancel h xs

-- `ms` is `(uint64_t) hndl->timeout`.
unfoldable pub insert : ℕ → ℕ → ℕ → List Timer → List Timer
insert now h ms ts = insert_sorted (record { handle = h; expiry = add64 now ms }) (cancel h ts)

-- The loop of `mb_timerset_tick`, for at most `fuel` rounds: the timers fired, and the list. `fn` is
-- what the callback of a timer does to the list.
module _ (fn : Timer → List Timer → List Timer) where
  abbrev pub fired : Timer → Option (List Timer × List Timer) → Option (List Timer × List Timer)
  fired t none = none
  fired t (some (ts, left)) = some (t ∷ ts, left)

  unfoldable pub tick : ℕ → ℕ → List Timer → Option (List Timer × List Timer)
  tick fuel now [] = some ([], [])
  tick zero now (t ∷ ts) = if leb t.expiry now then none else some ([], t ∷ ts)
  tick (suc fuel) now (t ∷ ts) =
      let rest = fired t (tick fuel now (fn t ts)) in
      if leb t.expiry now then rest else some ([], t ∷ ts)
