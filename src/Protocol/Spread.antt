-- ===== src/Protocol/Spread.antt =====
-- The loops over the pipes of a socket that several files of src/protocol write out alike: bus.c,
-- xbus.c, xpair.c, xpub.c, xsub.c, xsurveyor.c, xrespondent.c, surveyor.c and others. A list of pipes
-- without more is the list of their numbers.
mod Cycle
mod Tests
use msgbroker.Prelude.{
  ℕ, zero, suc, ◌+◌, Bool, true, false, ◌&&◌, ◌||◌, List, [], ◌∷◌, ◌++◌, ◌==◌, if◌then◌else◌,
}
use msgbroker.Errno.{Errno, Rc, ok, err, eagain, is_eagain}
use msgbroker.Memory.Msg.{Msg}
use msgbroker.Core.Pipe.{Answer, yields, refuses, Pipes}

-- `mb_list_insert` at the end, and `mb_list_erase` of a pipe that is in the list.
abbrev pub insert : ℕ → List ℕ → List ℕ
insert p ps = ps ++ p ∷ []

unfoldable pub erase : ℕ → List ℕ → List ℕ
erase p [] = []
erase p (q ∷ qs) = if q == p then qs else q ∷ erase p qs

-- What follows `mb_alloc` of the pipe's data.
abbrev pub attach : Bool → ℕ → List ℕ → Rc × List ℕ
attach false p ps = (err Errno.enomem, ps)
attach true p ps = (ok 0, insert p ps)

module _ {W : Type 0} where
  -- A loop that asks pipe after pipe, until one says yes.
  unfoldable pub any_yes : (ℕ → W → Bool × W) → List ℕ → W → Bool × W
  any_yes ask [] w = (false, w)
  any_yes ask (p ∷ ps) w =
      let rest = any_yes ask ps (ask p w).1 in if (ask p w).0 then (true, (ask p w).1) else rest

  -- `if (!(ev & OUT) && mb_pipe_can_send (pipe)) ev |= OUT;`
  abbrev pub ask_out : Pipes W → ℕ → Bool → W → Bool × W
  ask_out pipes p true w = (true, w)
  ask_out pipes p false w = pipes.can_send p w

  -- The loop for both events. `out` and `inn` say which are found so far; the result is OUT and IN.
  unfoldable pub poll : Pipes W → List ℕ → Bool → Bool → W → Bool × Bool × W
  poll pipes [] out inn w = (out, inn, w)
  poll pipes (p ∷ ps) out inn w =
      let a = ask_out pipes p out w in
      let b = pipes.has_msg p a.1 in
      let rest = poll pipes ps a.0 (b.0 || inn) b.1 in
      if (b.0 || inn) && a.0 then (true, true, b.1) else rest

  abbrev pub one_more : Answer (Unit {0}) × W → ℕ
  one_more (yields u, w) = 1
  one_more (refuses e, w) = 0

  -- The loop that sends a copy of the message to each pipe. The number is `sent`.
  unfoldable pub send_copies : Pipes W → Msg → List ℕ → W → ℕ × W
  send_copies pipes m [] w = (0, w)
  send_copies pipes m (p ∷ ps) w =
      let a = pipes.send m p w in
      let rest = send_copies pipes m ps a.1 in (one_more a + rest.0, rest.1)

  -- No copy sent is -EAGAIN.
  abbrev pub some_sent : ℕ × W → Rc × W
  some_sent (zero, w) = (err eagain, w)
  some_sent (suc n, w) = (ok 0, w)

  module _ {R : Type 0} (attempt : ℕ → W → Answer R × W) where
    -- One pipe's answer in the loop below. `seen` are the pipes before `p`, `ps` those behind it.
    abbrev pub cycled :
        (W → List ℕ → Answer (ℕ × R) × List ℕ × W)
        → List ℕ
        → ℕ
        → List ℕ
        → Answer R × W
        → Answer (ℕ × R) × List ℕ × W
    cycled rest seen p ps (yields r, w) = (yields (p, r), seen ++ (ps ++ p ∷ []), w)
    cycled rest seen p ps (refuses e, w) =
        let on = rest w (seen ++ p ∷ []) in
        if is_eagain (err e) then on else (refuses e, seen ++ p ∷ ps, w)

    -- The loop that tries pipe after pipe, until one does not answer -EAGAIN. A pipe that succeeds
    -- goes to the end.
    unfoldable pub cycle : List ℕ → List ℕ → W → Answer (ℕ × R) × List ℕ × W
    cycle seen [] w = (refuses eagain, seen, w)
    cycle seen (p ∷ ps) w = cycled (λ w' seen'. cycle seen' ps w') seen p ps (attempt p w)
