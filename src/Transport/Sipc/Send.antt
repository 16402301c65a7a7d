-- ===== src/Transport/Sipc/Send.antt =====
-- sipc.c: what mb_sipc_send does to the bytes on the wire.
use msgbroker.Prelude.{
  ℕ, suc, ◌-◌, ◌≡◌, refl, sym, ap, ◌∙◌, Bool, true, false, not, ◌&&◌, ◌||◌, none, some, List, ◌++◌,
  append-nil, ltb, leb, Bool-cases, inl, inr,
}
use msgbroker.Errno.{Errno, Rc, ok, err, eagain, is_eagain}
use msgbroker.Memory.Msg.{Msg, empty_msg, body_size}
use msgbroker.Transport.Sinproc.{emsgsize, msg_too_large}
use msgbroker.Transport.Stream.{Stream}
use msgbroker.Transport.Stream.Bytes.{IsStream, Kept}
use msgbroker.Transport.Sipc.{Sipc, flush_outbuf, frame, count_drop, int_max, hdr_size}
use msgbroker.Transport.Sipc.Calls.{accepted, stored, accept, send_after, send}
use msgbroker.Transport.Sipc.Owed.{
  SameIn, owed, FlushOutcome, flush_outbuf-FlushOutcome, flush_synced,
}

-- A body that may go: not above the limit of the socket, and its frame fits an `int`.
abbrev pub fits : Sipc → Msg → Bool
fits s m = not (msg_too_large s.rcvmaxsize (body_size m) || ltb (int_max - hdr_size) (body_size m))

pub SameIn-trans : (s t u : Sipc) → SameIn s t → SameIn t u → SameIn s u
SameIn-trans s t u (a, b, c, d, e, f) (a', b', c', d', e', f') =
    (a' ∙ a, b' ∙ b, c' ∙ c, d' ∙ d, e' ∙ e, f' ∙ f)

module _ {W : Type 0} (written stock : W → List ℕ) where
  -- A message that is taken is owed as a frame, after all that was owed before; one that is refused
  -- with -EAGAIN is still the caller's, and as much is owed as before.
  abbrev pub SendOutcome : Msg → Sipc → W → Rc × Msg × Sipc × W → Type 0
  SendOutcome m s w (ok k, m', s', w') =
      (m' ≡ empty_msg)
      × (fits s m ≡ true)
      × SameIn s s'
      × (owed written stock s' w' ≡ owed written stock s w ++ frame m.body)
      × (stock w' ≡ stock w)
  SendOutcome m s w (err e, m', s', w') =
      is_eagain (err e) ≡ true
      → (m' ≡ m)
        × SameIn s s'
        × (owed written stock s' w' ≡ owed written stock s w)
        × (stock w' ≡ stock w)

  -- After the flush that comes first: nothing is left over, and `h` says what is owed.
  abbrev Drained : Sipc → W → Sipc → W → Type 0
  Drained s w t v =
      (t.outbuf ≡ none) × SameIn s t × (written v ≡ owed written stock s w) × (stock v ≡ stock w)

  all_written : (s : Sipc) (w : W) → s.outbuf ≡ none → owed written stock s w ≡ written w
  all_written s w h = rw h (append-nil (written w))

module _ {W : Type 0} (os : Stream W) (callback : Sipc → W → Sipc × W) (written stock : W → List ℕ)
    (g : IsStream os written stock) where
  accepted-SendOutcome :
      (m : Msg) (s : Sipc) (w : W) (t : Sipc) (v : W) (r : Rc × Sipc × W)
      → fits s m ≡ true
      → SameIn s t
      → written v ≡ owed written stock s w
      → stock v ≡ stock w
      → FlushOutcome written stock
          (record t { outbuf = some (frame m.body); outpos = 0; in_flight = suc t.in_flight })
          v
          r
      → SendOutcome written stock m s w (accepted os callback r)
  accepted-SendOutcome m s w t v (ok k, s', w') f i e c (a, i', x, y) = (
    refl,
    f,
    SameIn-trans s t s' i i',
    all_written written stock s' w' a ∙ x ∙ ap (λ z. z ++ frame m.body) e,
    y ∙ c,
  )
  accepted-SendOutcome m s w t v (err e', s', w') f i e c k =
      elim (Bool-cases (is_eagain (err e'))) [
        | inl y ↦
            let (i', x, z) = k y in
            simp y (refl, f, SameIn-trans s t s' i i', x ∙ ap (λ z. z ++ frame m.body) e, z ∙ c)
        | inr y ↦ simp y (λ h. cc)
      ]

  stored-SendOutcome :
      (m : Msg) (s : Sipc) (w : W) (t : Sipc) (v : W) (x : Bool × W)
      → fits s m ≡ true
      → Drained written stock s w t v
      → Kept written stock v x.1
      → SendOutcome written stock m s w (stored os callback m t x)
  stored-SendOutcome m s w t v (false, v') f d k = λ h. cc
  stored-SendOutcome m s w t v (true, v') f (o, i, e, c) k =
      let t' = record t { outbuf = some (frame m.body); outpos = 0; in_flight = suc t.in_flight } in
      accepted-SendOutcome m s w t v' (flush_outbuf os callback t' v') f i (k.written_eq ∙ e)
        (k.stock_eq ∙ c) (flush_outbuf-FlushOutcome os callback written stock g t' v')

  -- A message that is given back while nothing is left to write.
  given_back :
      (m : Msg) (s : Sipc) (w : W) (t u : Sipc) (v : W) (e : Errno)
      → Drained written stock s w t v
      → u.outbuf ≡ t.outbuf
      → SameIn t u
      → SendOutcome written stock m s w (err e, m, u, v)
  given_back m s w t u v e' (o, i, e, c) b j =
      λ h. (refl, SameIn-trans s t u i j, all_written written stock u v (b ∙ o) ∙ e, c)

  accept-SendOutcome :
      (m : Msg) (s : Sipc) (w : W) (t : Sipc) (v : W)
      → Drained written stock s w t v
      → SendOutcome written stock m s w (accept os callback m t v)
  accept-SendOutcome m s w t v d =
      let (o, i, e, c) = d in
      elim (Bool-cases
        (msg_too_large t.rcvmaxsize (body_size m) || ltb (int_max - hdr_size) (body_size m))) [
          | inl y ↦
              simp y (given_back m s w t t v emsgsize d refl (refl, refl, refl, refl, refl, refl))
          | inr y ↦ elim (Bool-cases (ltb 0 t.hwm && leb t.hwm t.in_flight)) [
            | inl z ↦
                simp (y, z)
                  (given_back m s w t (count_drop t) v eagain d refl
                    (refl, refl, refl, refl, refl, refl))
            | inr z ↦
                simp (y, z)
                  (stored-SendOutcome m s w t v _
                    (ap
                        (λ r.
                          not (
                            msg_too_large r (body_size m)
                            || ltb (int_max - hdr_size) (body_size m)))
                        (sym i.5)
                      ∙ ap not y)
                    d (g.allocated _ v))
          ]
        ]

  send_after-SendOutcome :
      (m : Msg) (s : Sipc) (w : W) (r : Rc × Sipc × W)
      → FlushOutcome written stock s w r
      → SendOutcome written stock m s w (send_after os callback m r)
  send_after-SendOutcome m s w (ok k, t, v) d = accept-SendOutcome m s w t v d
  send_after-SendOutcome m s w (err e, t, v) k =
      elim (Bool-cases (is_eagain (err e) && ltb 0 t.hwm)) [
        | inl y ↦ simp y (λ h. let (i, x, z) = k h in (refl, i, x, z))
        | inr y ↦ simp y (λ h. let (i, x, z) = k h in (refl, i, x, z))
      ]

  -- On a reliable stream, a send of a session that succeeds takes the message: its frame follows all
  -- bytes that were owed before, whether or not the wire is done with them. One that returns -EAGAIN
  -- leaves the message to the caller, and owes the bytes that it owed before. What the session has
  -- read is the same.
  pub sipc_send-SendOutcome :
      (m : Msg) (s : Sipc) (w : W) → SendOutcome written stock m s w (send os callback m s w)
  unfolding send
  sipc_send-SendOutcome m s w = elim (Bool-cases s.fd) [
    | inl y ↦ simp y (send_after-SendOutcome m s w _ (flush_synced os callback written stock g s w))
    | inr y ↦ simp y (λ h. cc)
  ]
