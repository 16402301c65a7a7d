-- ===== src/Transport/Sipc/Course.antt =====
-- sipc.c: what goes through a session over any sequence of calls.
use msgbroker.Prelude.{
  ℕ, ◌≡◌, sym, ap, ap₂, ◌∙◌, Bool, true, false, Option, List, [], ◌∷◌, ◌++◌, append-nil,
  append_assoc, arith, All, Bool-cases, inl, inr, if◌then◌else◌,
}
use msgbroker.Errno.{Rc, ok, err, is_eagain}
use msgbroker.Memory.Msg.{Msg}
use msgbroker.Core.Pipe.{Answer, yields, refuses}
use msgbroker.Transport.Stream.{Stream}
use msgbroker.Transport.Stream.Bytes.{IsStream}
use msgbroker.Transport.Sipc.{Sipc, frame, create}
use msgbroker.Transport.Sipc.Calls.{send, recv}
use msgbroker.Transport.Sipc.Owed.{SameIn, owed, left}
use msgbroker.Transport.Sipc.Send.{SendOutcome, fits, sipc_send-SendOutcome}
use msgbroker.Transport.Sipc.Coming.{
  IsFrame, IsSession, coming, RecvOutcome, IsReading-SameIn, IsReading-same, held_in_same,
}
use msgbroker.Transport.Sipc.Recv.{sipc_recv-RecvOutcome}
use msgbroker.Transport.Sipc.Channel.{
  encode, Frames, Frames-same, no_more, one_more, IsShort, Frames-encode,
}

pub data Call : Type 0 where
  to_send : Msg → Call
  to_recv : Call

-- The bodies that were accepted and handed over, in order, and whether no call failed but with
-- -EAGAIN. A session that has failed is not called again.
pub record Course : Type 0 where
  pub accepted : List (List ℕ)
  pub delivered : List (List ℕ)
  pub live : Bool

abbrev pub over : Bool → Course
over live = record { accepted = []; delivered = []; live = live }

module _ {W : Type 0} where
  abbrev pub note_sent : List ℕ → Course × Sipc × W → Course × Sipc × W
  note_sent b (c, s, w) = (record c { accepted = b ∷ c.accepted }, s, w)

  abbrev pub note_got : List ℕ → Course × Sipc × W → Course × Sipc × W
  note_got b (c, s, w) = (record c { delivered = b ∷ c.delivered }, s, w)

  abbrev pub after_sending :
      (Sipc → W → Course × Sipc × W) → List ℕ → Rc × Msg × Sipc × W → Course × Sipc × W
  after_sending next b (ok n, m, s, w) = note_sent b (next s w)
  after_sending next b (err e, m, s, w) = if is_eagain (err e) then next s w else (over false, s, w)

  abbrev pub after_receiving :
      (Sipc → W → Course × Sipc × W) → Answer Msg × Sipc × W → Course × Sipc × W
  after_receiving next (yields m, s, w) = note_got m.body (next s w)
  after_receiving next (refuses e, s, w) =
      if is_eagain (err e) then next s w else (over false, s, w)

module _ {W : Type 0} (os : Stream W) (callback : Sipc → W → Sipc × W) where
  unfoldable pub run : List Call → Sipc → W → Course × Sipc × W
  run [] s w = (over true, s, w)
  run (to_send m ∷ calls) s w =
      after_sending (λ s' w'. run calls s' w') m.body (send os callback m s w)
  run (to_recv ∷ calls) s w = after_receiving (λ s' w'. run calls s' w') (recv os callback s w)

module _ {W : Type 0} (written stock : W → List ℕ) where
  -- What is owed grows by the frames of the bodies accepted, and the bytes that come begin with the
  -- frames of those handed over.
  abbrev pub Ran : Sipc → W → Course × Sipc × W → Type 0
  Ran s w (c, s', w') =
      (c.live ≡ true → owed written stock s' w' ≡ owed written stock s w ++ encode c.accepted)
      × All IsShort c.accepted
      × ((rest : List ℕ) × Frames c.delivered (coming written stock s w) rest)

  Ran-over : (s s' : Sipc) (w w' : W) → Ran s w (over false, s', w')
  Ran-over s s' w w' = (λ h. cc, tt, (_, no_more (coming written stock s w)))

  Ran-same :
      (s t : Sipc) (w v : W) (r : Course × Sipc × W)
      → owed written stock t v ≡ owed written stock s w
      → coming written stock t v ≡ coming written stock s w
      → Ran t v r
      → Ran s w r
  Ran-same s t w v (c, s', w') e f (k, a, (rest, x)) = (
    λ h. k h ∙ ap (λ t. t ++ encode c.accepted) e,
    a,
    (rest, Frames-same c.delivered _ _ rest f x),
  )

  SendOutcome-coming :
      (s t : Sipc) (w v : W)
      → SameIn s t
      → stock v ≡ stock w
      → coming written stock t v ≡ coming written stock s w
  SendOutcome-coming s t w v (a, b, c, d, f, h) e =
      ap₂ ◌++◌ (held_in_same s.instate t.instate s.inhdr t.inhdr s.inmsg t.inmsg f b c) e

  IsSession-SameIn : (s t : Sipc) → SameIn s t → IsSession s → IsSession t
  IsSession-SameIn s t i k =
      IsReading-same s.instate t.instate t i.4 (IsReading-SameIn s.instate s t i k)

  fits-IsShort : (s : Sipc) (m : Msg) → fits s m ≡ true → IsShort m.body
  fits-IsShort s m h = ground arith

  note_sent-Ran :
      (b : List ℕ) (s t : Sipc) (w v : W) (r : Course × Sipc × W)
      → owed written stock t v ≡ owed written stock s w ++ frame b
      → coming written stock t v ≡ coming written stock s w
      → IsShort b
      → Ran t v r
      → Ran s w (note_sent b r)
  note_sent-Ran b s t w v (c, s', w') e f l (k, a, (rest, x)) = (
    λ h.
        k h
        ∙ ap (λ t. t ++ encode c.accepted) e
        ∙ append_assoc (owed written stock s w) (frame b) (encode c.accepted),
    (l, a),
    (rest, Frames-same c.delivered _ _ rest f x),
  )

  note_got-Ran :
      (h b : List ℕ) (s t : Sipc) (w v : W) (r : Course × Sipc × W)
      → IsFrame h b
      → owed written stock t v ≡ owed written stock s w
      → coming written stock s w ≡ h ++ b ++ coming written stock t v
      → Ran t v r
      → Ran s w (note_got b r)
  note_got-Ran h b s t w v (c, s', w') k e f (i, a, (rest, x)) = (
    λ h. i h ∙ ap (λ t. t ++ encode c.accepted) e,
    a,
    (rest, Frames-same (b ∷ c.delivered) _ _ rest (sym f) (one_more h b _ c.delivered rest k x)),
  )

module _ {W : Type 0} (os : Stream W) (callback : Sipc → W → Sipc × W) (written stock : W → List ℕ)
    (g : IsStream os written stock) where
  -- `next` is the calls that follow.
  abbrev Follows : (Sipc → W → Course × Sipc × W) → Type 0
  Follows next = (s : Sipc) (w : W) → IsSession s → Ran written stock s w (next s w)

  after_sending-Ran :
      (next : Sipc → W → Course × Sipc × W) (m : Msg) (s : Sipc) (w : W) (r : Rc × Msg × Sipc × W)
      → Follows next
      → IsSession s
      → SendOutcome written stock m s w r
      → Ran written stock s w (after_sending next m.body r)
  after_sending-Ran next m s w (ok n, m', t, v) k i (a, f, j, o, c) =
      note_sent-Ran written stock m.body s t w v (next t v) o
        (SendOutcome-coming written stock s t w v j c) (fits-IsShort written stock s m f)
        (k t v (IsSession-SameIn written stock s t j i))
  after_sending-Ran next m s w (err e, m', t, v) k i d = elim (Bool-cases (is_eagain (err e))) [
    | inl y ↦
        let (a, j, o, c) = d y in
        simp y (
          Ran-same written stock s t w v (next t v) o (SendOutcome-coming written stock s t w v j c)
            (k t v (IsSession-SameIn written stock s t j i)))
    | inr y ↦ simp y (Ran-over written stock s t w v)
  ]

  after_receiving-Ran :
      (next : Sipc → W → Course × Sipc × W) (s : Sipc) (w : W) (r : Answer Msg × Sipc × W)
      → Follows next
      → RecvOutcome written stock s w r
      → Ran written stock s w (after_receiving next r)
  after_receiving-Ran next s w (yields m, t, v) k (h, f, a, e, i, o) =
      note_got-Ran written stock h m.body s t w v (next t v) f o e (k t v i)
  after_receiving-Ran next s w (refuses e, t, v) k d = elim (Bool-cases (is_eagain (err e))) [
    | inl y ↦
        let (c, i, o) = d y in simp y (Ran-same written stock s t w v (next t v) o c (k t v i))
    | inr y ↦ simp y (Ran-over written stock s t w v)
  ]

  -- Over any sequence of sends and receives on a session over a reliable stream, until a call fails
  -- but with -EAGAIN, what the session owes the wire grows by the frames of the messages that it
  -- accepts, in order, and the messages that it hands over are those of which the frames come first
  -- among the bytes that come in.
  pub run-Ran :
      (calls : List Call) (s : Sipc) (w : W)
      → IsSession s
      → Ran written stock s w (run os callback calls s w)
  unfolding run
  run-Ran [] s w i =
      (λ h. sym (append-nil (owed written stock s w)), tt, (_, no_more (coming written stock s w)))
  run-Ran (to_send m ∷ calls) s w i =
      after_sending-Ran (λ s' w'. run os callback calls s' w') m s w (send os callback m s w)
        (λ t v j. run-Ran calls t v j) i (sipc_send-SendOutcome os callback written stock g m s w)
  run-Ran (to_recv ∷ calls) s w i =
      after_receiving-Ran (λ s' w'. run os callback calls s' w') s w (recv os callback s w)
        (λ t v j. run-Ran calls t v j) (sipc_recv-RecvOutcome os callback written stock g s w i)

-- From end to end: while the first session does not fail, and the second is given bytes that the
-- first has written, in their order, the messages that the second hands over are the first of those
-- that the first accepted, in their order and with their bodies whole. Both sessions are new, over
-- reliable streams, with whatever limits, and each may be called to send and to receive in any order.
pub run_in_order :
    {V W : Type 0} (os : Stream V) (callback : Sipc → V → Sipc × V) (written stock : V → List ℕ)
    (g : IsStream os written stock) (os' : Stream W) (callback' : Sipc → W → Sipc × W)
    (written' stock' : W → List ℕ) (g' : IsStream os' written' stock') (calls calls' : List Call)
    (hwm linger hwm' linger' : ℕ) (max max' : Option ℕ) (v : V) (w : W) (later : List ℕ)
    → written v ≡ []
    → (run os callback calls (create hwm max linger) v).0.live ≡ true
    → stock' w ++ later ≡ written (run os callback calls (create hwm max linger) v).2
    → (more : List (List ℕ)) × ((run os' callback' calls' (create hwm' max' linger') w).0.delivered
          ++ more
        ≡ (run os callback calls (create hwm max linger) v).0.accepted)
run_in_order os callback written stock g os' callback' written' stock' g' calls calls' hwm linger
      hwm' linger' max max' v w later e l h =
    let s = create hwm max linger in
    let s' = create hwm' max' linger' in
    let (k, a, x) = run-Ran os callback written stock g calls s v (omega arith) in
    let (i, b, (rest, f)) = run-Ran os' callback' written' stock' g' calls' s' w (omega arith) in
    Frames-encode (run os' callback' calls' s' w).0.delivered (stock' w) rest
      (later ++ left (run os callback calls s v).1) (run os callback calls s v).0.accepted f a
      (sym (append_assoc (stock' w) later _)
        ∙ ap (λ t. t ++ left (run os callback calls s v).1) h
        ∙ k l
        ∙ ap (λ t. t ++ [] ++ encode (run os callback calls s v).0.accepted) e)
