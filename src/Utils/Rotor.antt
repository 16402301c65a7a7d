-- ===== src/Utils/Rotor.antt =====
-- The rotating list of pipes of src/utils/fq.c and src/utils/lb.c. `mb_fq_recv_pipe` and
-- `mb_lb_send` are one and the same loop over it, around `mb_pipe_recv` and `mb_pipe_send`, which
-- is written once here, over the call `attempt`.
pub mod Order
pub mod Fair
pub mod Last
mod Tests
use msgbroker.Prelude.{ℕ, Bool, true, false, List, [], ◌∷◌, ◌++◌, ◌==◌, ◌||◌, if◌then◌else◌}
use msgbroker.Errno.{Errno, eagain, err, is_eagain}
use msgbroker.Core.Pipe.{Answer, yields, refuses}

-- A `struct mb_fq_data` or `struct mb_lb_data`.
pub record Item : Type 0 where
  pub pipe : ℕ
  pub active : Bool

-- The pipes of the list, in its order.
abbrev pub names : List Item → List ℕ
names [] = []
names (x ∷ xs) = x.pipe ∷ names xs

-- `mb_list_insert` at the end of the list, of an inactive item.
unfoldable pub add : ℕ → List Item → List Item
add p items = items ++ record { pipe = p; active = false } ∷ []

-- `mb_list_erase` of the pipe's item, if it is in the list.
unfoldable pub rm : ℕ → List Item → List Item
rm p [] = []
rm p (x ∷ xs) = if x.pipe == p then xs else x ∷ rm p xs

-- Whether the pipe has an item in the list.
abbrev pub has : ℕ → List Item → Bool
has p [] = false
has p (x ∷ xs) = (x.pipe == p) || has p xs

-- The pipe's item becomes active and the first.
unfoldable pub activate : ℕ → List Item → List Item
unfolding rm
activate p items = record { pipe = p; active = true } ∷ rm p items

unfoldable pub deactivate : ℕ → List Item → List Item
deactivate p [] = []
deactivate p (x ∷ xs) =
    if x.pipe == p then record x { active = false } ∷ xs else x ∷ deactivate p xs

-- `data->active = 1` on the pipe's item.
unfoldable pub mark : ℕ → List Item → List Item
mark p [] = []
mark p (x ∷ xs) = if x.pipe == p then record x { active = true } ∷ xs else x ∷ mark p xs

-- The pipe that answered with what it gave, or the error.
abbrev pub Outcome : Type 0 → Type 0
Outcome R = Answer (ℕ × R)

module _ {W R : Type 0} (attempt : ℕ → W → Answer R × W) where
  -- One pipe's answer in the probing loop. `seen` are the items before `x`, `xs` those behind it,
  -- and `rest` goes on behind `x`.
  abbrev pub probed :
      (W → List Item → Outcome R × List Item × W)
      → List Item
      → Item
      → List Item
      → Answer R × W
      → Outcome R × List Item × W
  probed rest seen x xs (yields r, w) =
      (yields (x.pipe, r), seen ++ (xs ++ record x { active = true } ∷ []), w)
  probed rest seen x xs (refuses e, w) =
      let on = rest w (seen ++ record x { active = false } ∷ []) in
      if is_eagain (err e) then on else (refuses e, seen ++ x ∷ xs, w)

  -- The loop that probes every pipe: the first that does not answer -EAGAIN ends it, and goes to
  -- the end of the list if it succeeded.
  unfoldable pub probe : List Item → List Item → W → Outcome R × List Item × W
  probe seen [] w = (refuses eagain, seen, w)
  probe seen (x ∷ xs) w = probed (λ w' seen'. probe seen' xs w') seen x xs (attempt x.pipe w)

  -- The answer of the first pipe, when it is active.
  abbrev pub headed : Item → List Item → Answer R × W → Outcome R × List Item × W
  headed x xs (yields r, w) = (yields (x.pipe, r), xs ++ x ∷ [], w)
  headed x xs (refuses e, w) =
      if is_eagain (err e)
      then probe [] (record x { active = false } ∷ xs) w
      else (refuses e, x ∷ xs, w)

  -- An active first pipe is tried before all others.
  unfoldable pub rotate : List Item → W → Outcome R × List Item × W
  unfolding probe
  rotate [] w = probe [] [] w
  rotate (x ∷ xs) w = if x.active then headed x xs (attempt x.pipe w) else probe [] (x ∷ xs) w
