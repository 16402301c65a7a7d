-- ===== src/Transport/Stls/Recv.antt =====
-- stls.c: what mb_stls_recv makes of the bytes that come.
use msgbroker.Prelude.{
  ℕ, ◌-◌, ◌≡◌, refl, ap, ap₂, ◌∙◌, ◌||◌, List, [], ◌++◌, length, append-nil, arith, ltb, Bool-cases,
  inl, inr, Bool, true, false,
}
use msgbroker.Errno.{Rc, ok, err, is_eagain}
use msgbroker.Memory.Msg.{Msg}
use msgbroker.Core.Pipe.{Answer, yields, refuses}
use msgbroker.Utils.Wire.{get_uint32}
use msgbroker.Transport.Sinproc.{msg_too_large}
use msgbroker.Transport.Stream.Bytes.{IsStream, Kept}
use msgbroker.Transport.Sipc.{Sipc, Instate, hdr, in_body, hasmsg, hdr_size, int_max, recv_fd}
use msgbroker.Transport.Sipc.Calls.{read_body}
use msgbroker.Transport.Sipc.Owed.{left, FlushOutcome, flush_synced}
use msgbroker.Transport.Sipc.Send.{SendOutcome, sipc_send-SendOutcome}
use msgbroker.Transport.Sipc.In.{Gained, recv_fd-Gained}
use msgbroker.Transport.Sipc.Coming.{
  IsReading, IsSession, RecvOutcome, RecvOutcome-same, hdr_grows, flushed_first,
}
use msgbroker.Transport.Sipc.Body.{misread-RecvOutcome, read_body-RecvOutcome}
use msgbroker.Transport.Stls.{Tls, over, sized, hdr_done, hdr_read, recv_in, recv_after, recv, send}

module _ {W : Type 0} (tls : Tls W) (callback : Sipc → W → Sipc × W) (written stock : W → List ℕ)
    (g : IsStream (over tls) written stock) where
  sized-RecvOutcome :
      (s : Sipc) (w : W) (x : Bool × W)
      → s.instate ≡ hdr
      → length s.inhdr ≡ hdr_size
      → Kept written stock w x.1
      → RecvOutcome written stock s w (sized tls callback s (get_uint32 s.inhdr) x)
  sized-RecvOutcome s w (false, u) i a k = λ h. cc
  sized-RecvOutcome s w (true, u) i a k =
      let t = record s { inmsg = []; inlen = get_uint32 s.inhdr; instate = in_body } in
      RecvOutcome-same written stock s t w u (read_body (over tls) callback t u)
        (rw i (ap₂ ◌++◌ (append-nil s.inhdr) k.stock_eq)) (ap (λ t. t ++ left s) k.written_eq)
        (read_body-RecvOutcome (over tls) callback written stock g t u refl (a, refl, omega arith))

  hdr_done-RecvOutcome :
      (s : Sipc) (w : W)
      → s.instate ≡ hdr
      → length s.inhdr ≡ hdr_size
      → RecvOutcome written stock s w (hdr_done tls callback s (get_uint32 s.inhdr) w)
  hdr_done-RecvOutcome s w i a =
      let n = get_uint32 s.inhdr in
      elim (Bool-cases (ltb int_max n || msg_too_large s.rcvmaxsize n)) [
        | inl y ↦ simp y (λ h. cc)
        | inr y ↦ simp y (sized-RecvOutcome s w (tls.os.alloc n w) i a (g.allocated n w))
      ]

  hdr_read-RecvOutcome :
      (s : Sipc) (w : W) (r : Answer (List ℕ) × W)
      → s.instate ≡ hdr
      → IsReading hdr s
      → Gained written stock (hdr_size - length s.inhdr) [] w r
      → RecvOutcome written stock s w (hdr_read tls callback s r)
  hdr_read-RecvOutcome s w (refuses e, v) i k d =
      misread-RecvOutcome (over tls) callback written stock g e s w v (rw i k) (λ h. (d h).1)
  hdr_read-RecvOutcome s w (yields bs, v) i k (x, p, l, e, f) =
      rw p (hdr_grows written stock (hdr_done tls callback) hdr_done-RecvOutcome s w v x i k l e f)

  recv_in-RecvOutcome :
      (s : Sipc) (w : W) (i : Instate)
      → s.instate ≡ i
      → IsReading i s
      → RecvOutcome written stock s w (recv_in tls callback i s w)
  recv_in-RecvOutcome s w hdr e k =
      let n = hdr_size - length s.inhdr in
      hdr_read-RecvOutcome s w (recv_fd (over tls) callback n n [] w) e k
        (recv_fd-Gained (over tls) callback written stock g n n [] w (omega arith))
  recv_in-RecvOutcome s w in_body e k =
      read_body-RecvOutcome (over tls) callback written stock g s w e k
  recv_in-RecvOutcome s w hasmsg e k = absurd k

  recv_after-RecvOutcome :
      (s : Sipc) (w : W) (r : Rc × Sipc × W)
      → IsSession s
      → FlushOutcome written stock s w r
      → RecvOutcome written stock s w (recv_after tls callback r)
  recv_after-RecvOutcome s w (ok n, t, v) k (o, i, e, c) =
      flushed_first written stock (λ t v. recv_in tls callback t.instate t v)
        (λ t v k. recv_in-RecvOutcome t v t.instate refl k) s t w v k i
        (rw o (append-nil (written v)) ∙ e) c
  recv_after-RecvOutcome s w (err e, t, v) k d = elim (Bool-cases (is_eagain (err e))) [
    | inl y ↦
        let (i, o, c) = d y in
        simp y (
          flushed_first written stock (λ t v. recv_in tls callback t.instate t v)
            (λ t v k. recv_in-RecvOutcome t v t.instate refl k) s t w v k i o c)
    | inr y ↦ simp y (λ h. cc)
  ]

  -- Over a TLS connection that is a reliable stream, a receive hands over the body of the first frame
  -- of the bytes that are not yet handed over, and leaves those behind it; one that returns -EAGAIN
  -- leaves them all. The session goes on in a state that the code reaches, and owes the bytes that it
  -- owed.
  pub stls_recv-RecvOutcome :
      (s : Sipc) (w : W) → IsSession s → RecvOutcome written stock s w (recv tls callback s w)
  unfolding recv
  stls_recv-RecvOutcome s w k = elim (Bool-cases s.fd) [
    | inl y ↦
        simp y
          (recv_after-RecvOutcome s w _ k (flush_synced (over tls) callback written stock g s w))
    | inr y ↦ simp y (λ h. cc)
  ]

  -- What a send does is what it does over the descriptor.
  stls_send-SendOutcome :
      (m : Msg) (s : Sipc) (w : W) → SendOutcome written stock m s w (send tls callback m s w)
  stls_send-SendOutcome m s w = sipc_send-SendOutcome (over tls) callback written stock g m s w
