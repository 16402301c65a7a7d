-- ===== src/Protocol/Surveyor/Course.antt =====
-- surveyor.c: the course of surveys over any sequence of calls.
use msgbroker.Prelude.{ℕ, ◌≤◌, ◌≡◌, Option, some, List}
use msgbroker.Memory.Msg.{Msg}
use msgbroker.Core.Pipe.{Pipes}
use msgbroker.Utils.Rotor
use msgbroker.Protocol.Surveyor.{Surveyor}
use msgbroker.Protocol.Surveyor.Calls.{Happening, closed, advances, on_close, phase, IsGood, State}

module _ {W : Type 0} (pipes : Pipes W) (rounds left : W → ℕ) where
  -- What a call must come to.
  abbrev pub Proper : Surveyor → W → Option (State pipes rounds) → Type 0
  Proper s w o =
      (r : State pipes rounds) × (o ≡ some r)
      × (advances (phase s) r.0 ≡ some (phase r.1))
      × IsGood r.1

  -- What the check of the deadline comes to.
  abbrev pub Checks : Surveyor → W → Option (Surveyor × W) → Type 0
  Checks s w o =
      (c : Surveyor) × (v : W) × (o ≡ some (c, v))
      × (left v ≤ left w)
      × (advances (phase s) (on_close closed s.surveying c.surveying) ≡ some (phase c))
      × IsGood c

  -- The events `es` of a call with the state after it, from the state before.
  abbrev pub Goes : Surveyor → List Happening → Surveyor → Type 0
  Goes c es c' = (advances (phase c) es ≡ some (phase c')) × IsGood c'
