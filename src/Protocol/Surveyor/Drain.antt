-- ===== src/Protocol/Surveyor/Drain.antt =====
-- surveyor.c: the loop that drops pending replies ends.
use msgbroker.Prelude.{ℕ, zero, suc, ◌<◌, ◌≤◌, ◌≡◌, refl, false, Option, some, List, [], ◌∷◌, arith}
use msgbroker.Errno.{Errno}
use msgbroker.Memory.Msg.{Msg}
use msgbroker.Core.Pipe.{Answer, yields, refuses, Pipes}
use msgbroker.Utils.Rotor.{Item, names}
use msgbroker.Protocol.Surveyor.{drained, drain_pipe, drain}

module _ {W : Type 0} (pipes : Pipes W) (left : W → ℕ) where
  -- `left` bounds the messages that the pipes still give.
  pub record RunsDry : Type 0 where
    pub falls : (p : ℕ) (w w' : W) (m : Msg) → pipes.recv p w ≡ (yields m, w') → left w' < left w
    pub stays : (p : ℕ) (w w' : W) (e : Errno) → pipes.recv p w ≡ (refuses e, w') → left w' ≤ left w

  -- The pipe is received from until it refuses; from the first state to the second.
  pub data Emptied : ℕ → W → W → Type 0 where
    refused : (p : ℕ) (w v : W) (e : Errno) → pipes.recv p w ≡ (refuses e, v) → Emptied p w v
    taken :
        (p : ℕ) (w u v : W) (m : Msg)
        → pipes.recv p w ≡ (yields m, u)
        → Emptied p u v
        → Emptied p w v

  -- So are the pipes of a list, one after another.
  abbrev pub AllEmptied : List ℕ → W → W → Type 0
  AllEmptied [] w v = v ≡ w
  AllEmptied (p ∷ ps) w v = (u : W) × Emptied p w u × AllEmptied ps u v

  -- A loop on a pipe ends, in a state with no more messages than before, and has emptied the pipe.
  abbrev pub Ends : ℕ → W → Option W → Type 0
  Ends p w r = (v : W) × (r ≡ some v) × (left v ≤ left w) × Emptied p w v

  drained-Ends :
      RunsDry
      → (p : ℕ) (w : W) (o : Answer Msg × W) → pipes.recv p w ≡ o
      → (again : W → Option W) → ((v : W) → left v < left w → Ends p v (again v))
      → Ends p w (drained pipes again o)
  drained-Ends dry p w (refuses e, v) h again ih = (v, refl, dry.stays p w v e h, refused p w v e h)
  drained-Ends dry p w (yields m, v) h again ih =
      let f = dry.falls p w v m h in
      let t = ih v f in (t.0, t.1, omega (arith, f, t.2), taken p w v t.0 m h t.3)

  drain_pipe-Ends :
      RunsDry → (fuel p : ℕ) (w : W) → left w < fuel → Ends p w (drain_pipe pipes fuel p w)
  unfolding drain_pipe
  drain_pipe-Ends dry zero p w h = absurd (omega arith)
  drain_pipe-Ends dry (suc fuel) p w h =
      drained-Ends dry p w (pipes.recv p w) refl (λ v. drain_pipe pipes fuel p v)
        (λ v k. drain_pipe-Ends dry fuel p v (omega arith))

  -- The loop over all pipes ends, and keeps them in their order.
  pub drain-Ends :
      RunsDry
      → (fuel : ℕ) (xs : List Item) (w : W) → left w < fuel
      → (ys : List Item) × (v : W) × (drain pipes fuel xs w ≡ some (ys, v))
        × (left v ≤ left w)
        × (names ys ≡ names xs)
        × AllEmptied (names xs) w v
  unfolding drain
  drain-Ends dry fuel [] w h = ([], w, refl, omega arith, refl, refl)
  drain-Ends dry fuel (x ∷ xs) w h =
      let a = drain_pipe-Ends dry fuel x.pipe w h in
      let b = drain-Ends dry fuel xs a.0 (omega (arith, a.2)) in
      (
        record x { active = false } ∷ b.0,
        b.1,
        simp (a.1, b.2) refl,
        omega (arith, a.2, b.3),
        rw b.4 refl,
        (a.0, a.3, b.5),
      )
