-- ===== src/Transport/Sipc/Coming.antt =====
-- sipc.c: the bytes that a session has still to hand over.
use msgbroker.Prelude.{
  ℕ, ◌-◌, ◌≤◌, ◌≡◌, refl, sym, ap, ap₂, ◌∙◌, true, List, ◌++◌, length, length-append, append_assoc,
  tests, arith, ltb, Bool-cases, inl, inr, if◌then◌else◌,
}
use msgbroker.Errno.{err, eagain, is_eagain}
use msgbroker.Memory.Msg.{Msg}
use msgbroker.Core.Pipe.{Answer, yields, refuses}
use msgbroker.Utils.Wire.{get_uint32}
use msgbroker.Transport.Sipc.{Sipc, Instate, hdr, in_body, hasmsg, hdr_size}
use msgbroker.Transport.Sipc.Calls.{body_msg}
use msgbroker.Transport.Sipc.Owed.{SameIn, owed, left}

-- The bytes of the message that is coming in that have been read.
abbrev pub held_in : Instate → List ℕ → List ℕ → List ℕ
held_in hdr h b = h
held_in in_body h b = h ++ b
held_in hasmsg h b = h ++ b

abbrev pub held : Sipc → List ℕ
held s = held_in s.instate s.inhdr s.inmsg

-- A header is four bytes at most; a body is as long as its header says, at most; and no message
-- waits between two calls.
abbrev pub IsReading : Instate → Sipc → Type 0
IsReading hdr s = length s.inhdr ≤ hdr_size
IsReading in_body s =
    (length s.inhdr ≡ hdr_size) × (s.inlen ≡ get_uint32 s.inhdr) × (length s.inmsg ≤ s.inlen)
IsReading hasmsg s = ⊥

abbrev pub IsSession : Sipc → Type 0
IsSession s = IsReading s.instate s

-- A frame: four bytes that say how long the body is, and the body.
pub record IsFrame (h b : List ℕ) : Type 0 where
  pub hdr_length : length h ≡ hdr_size
  pub body_length : get_uint32 h ≡ length b

module _ {W : Type 0} (written stock : W → List ℕ) where
  -- All bytes that are not yet handed over: those that the session holds, and those to come.
  abbrev pub coming : Sipc → W → List ℕ
  coming s w = held s ++ stock w

  -- A message that is handed over is the body of the first frame of the bytes to come, which are
  -- then those behind it; after -EAGAIN the bytes to come are as before. What is owed is the same.
  abbrev pub RecvOutcome : Sipc → W → Answer Msg × Sipc × W → Type 0
  RecvOutcome s w (yields m, s', w') =
      (h : List ℕ) × IsFrame h m.body
      × (m ≡ body_msg m.body)
      × (coming s w ≡ h ++ m.body ++ coming s' w')
      × IsSession s'
      × (owed written stock s' w' ≡ owed written stock s w)
  RecvOutcome s w (refuses e, s', w') =
      is_eagain (err e) ≡ true
      → (coming s' w' ≡ coming s w)
        × IsSession s'
        × (owed written stock s' w' ≡ owed written stock s w)

  pub RecvOutcome-same :
      (s t : Sipc) (w v : W) (r : Answer Msg × Sipc × W)
      → coming t v ≡ coming s w
      → owed written stock t v ≡ owed written stock s w
      → RecvOutcome t v r
      → RecvOutcome s w r
  RecvOutcome-same s t w v (yields m, s', w') e f (h, k, a, b, c, d) =
      (h, k, a, sym e ∙ b, c, d ∙ f)
  RecvOutcome-same s t w v (refuses e', s', w') e f k =
      λ h. let (a, b, c) = k h in (a ∙ e, b, c ∙ f)

-- Bytes that are read join those that are held.
pub joined : (h b x v w : List ℕ) → w ≡ x ++ v → (h ++ (b ++ x)) ++ v ≡ (h ++ b) ++ w
joined h b x v w e =
    ap (λ t. t ++ v) (sym (append_assoc h b x))
    ∙ append_assoc (h ++ b) x v
    ∙ ap (λ t. (h ++ b) ++ t) (sym e)

pub IsReading-SameIn : (i : Instate) (s t : Sipc) → SameIn s t → IsReading i s → IsReading i t
IsReading-SameIn hdr s t (a, b, c, d, e, f) k = rw b k
IsReading-SameIn in_body s t (a, b, c, d, e, f) k = rw (b, c, d) k
IsReading-SameIn hasmsg s t i k = k

pub IsReading-same : (i j : Instate) (t : Sipc) → j ≡ i → IsReading i t → IsReading j t
IsReading-same i j t e k = rw e k

pub held_in_same :
    (i j : Instate) (h l b c : List ℕ) → j ≡ i → l ≡ h → c ≡ b → held_in j l c ≡ held_in i h b
held_in_same i j h l b c e f d = rw (e, f, d) refl

module _ {W : Type 0} (written stock : W → List ℕ) where
  -- More of a header has come: `finish` goes on when it is whole.
  pub hdr_grows :
      (finish : Sipc → ℕ → W → Answer Msg × Sipc × W)
      → ((t : Sipc) (u : W)
          → t.instate ≡ hdr
          → length t.inhdr ≡ hdr_size
          → RecvOutcome written stock t u (finish t (get_uint32 t.inhdr) u))
      → (s : Sipc) (w v : W) (x : List ℕ) → s.instate ≡ hdr
      → IsReading hdr s
      → length x ≤ hdr_size - length s.inhdr
      → stock w ≡ x ++ stock v
      → written v ≡ written w
      → RecvOutcome written stock s w (
          let s' = record s { inhdr = s.inhdr ++ x } in
          if ltb (length s'.inhdr) hdr_size
          then (refuses eagain, s', v)
          else finish s' (get_uint32 s'.inhdr) v)
  hdr_grows finish done s w v x i k l e f =
      let s' = record s { inhdr = s.inhdr ++ x } in
      let grown : (s.inhdr ++ x) ++ stock v ≡ s.inhdr ++ stock w =
        append_assoc s.inhdr x (stock v) ∙ ap (λ t. s.inhdr ++ t) (sym e) in
      elim (Bool-cases (ltb (length (s.inhdr ++ x)) hdr_size)) [
        | inl y ↦ simp y (λ h. (rw i grown, rw i (omega (tests, y)), ap (λ t. t ++ left s) f))
        | inr y ↦ simp y (
            RecvOutcome-same written stock s s' w v (finish s' (get_uint32 s'.inhdr) v) (rw i grown)
              (ap (λ t. t ++ left s) f) (done s' v i (ground (arith, length-append s.inhdr x))))
      ]

  -- The flush that comes first owes as much and has read as much; `rest` is what follows it.
  pub flushed_first :
      (rest : Sipc → W → Answer Msg × Sipc × W)
      → ((t : Sipc) (v : W) → IsSession t → RecvOutcome written stock t v (rest t v))
      → (s t : Sipc) (w v : W) → IsSession s
      → SameIn s t
      → owed written stock t v ≡ owed written stock s w
      → stock v ≡ stock w
      → RecvOutcome written stock s w (rest t v)
  flushed_first rest done s t w v k i o e =
      let (a, b, c, d, f, h) = i in
      RecvOutcome-same written stock s t w v (rest t v)
        (ap₂ ◌++◌ (held_in_same s.instate t.instate s.inhdr t.inhdr s.inmsg t.inmsg f b c) e) o
        (done t v (IsReading-same s.instate t.instate t f (IsReading-SameIn s.instate s t i k)))
