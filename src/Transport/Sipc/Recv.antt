-- ===== src/Transport/Sipc/Recv.antt =====
-- sipc.c: what mb_sipc_recv makes of the bytes that come.
use msgbroker.Prelude.{
  ℕ, ◌-◌, ◌≡◌, refl, ap, ◌∙◌, ◌||◌, List, [], ◌++◌, length, append-nil, arith, ltb, Bool-cases, inl,
  inr,
}
use msgbroker.Errno.{Rc, ok, err, is_eagain}
use msgbroker.Core.Pipe.{Answer, yields, refuses}
use msgbroker.Utils.Wire.{get_uint32}
use msgbroker.Transport.Sinproc.{msg_too_large}
use msgbroker.Transport.Stream.{Stream, Polled, quiet, other_events, ready}
use msgbroker.Transport.Stream.Bytes.{IsStream, Kept}
use msgbroker.Transport.Sipc.{Sipc, Instate, hdr, in_body, hasmsg, hdr_size, int_max, recv_fd}
use msgbroker.Transport.Sipc.Calls.{
  hdr_done, hdr_read, read_hdr, read_on, polled, recv_in, recv_state, recv_after, recv,
}
use msgbroker.Transport.Sipc.Owed.{left, FlushOutcome, flush_synced}
use msgbroker.Transport.Sipc.In.{Gained, recv_fd-Gained}
use msgbroker.Transport.Sipc.Coming.{
  held, IsReading, IsSession, RecvOutcome, RecvOutcome-same, hdr_grows, flushed_first,
}
use msgbroker.Transport.Sipc.Body.{misread-RecvOutcome, read_body-RecvOutcome, sized-RecvOutcome}

module _ {W : Type 0} (os : Stream W) (callback : Sipc → W → Sipc × W) (written stock : W → List ℕ)
    (g : IsStream os written stock) where
  hdr_done-RecvOutcome :
      (s : Sipc) (w : W)
      → s.instate ≡ hdr
      → length s.inhdr ≡ hdr_size
      → RecvOutcome written stock s w (hdr_done os callback s (get_uint32 s.inhdr) w)
  hdr_done-RecvOutcome s w i a =
      let n = get_uint32 s.inhdr in
      elim (Bool-cases (ltb int_max n || msg_too_large s.rcvmaxsize n)) [
        | inl y ↦ simp y (λ h. cc)
        | inr y ↦
            simp y (
              sized-RecvOutcome os callback written stock g s w (os.alloc n w) i a
                (g.allocated n w))
      ]

  hdr_read-RecvOutcome :
      (s : Sipc) (w : W) (r : Answer (List ℕ) × W)
      → s.instate ≡ hdr
      → IsReading hdr s
      → Gained written stock (hdr_size - length s.inhdr) [] w r
      → RecvOutcome written stock s w (hdr_read os callback s r)
  hdr_read-RecvOutcome s w (refuses e, v) i k d =
      misread-RecvOutcome os callback written stock g e s w v (rw i k) (λ h. (d h).1)
  hdr_read-RecvOutcome s w (yields bs, v) i k (x, p, l, e, f) =
      rw p (hdr_grows written stock (hdr_done os callback) hdr_done-RecvOutcome s w v x i k l e f)

  read_hdr-RecvOutcome :
      (s : Sipc) (w : W)
      → s.instate ≡ hdr
      → IsReading hdr s
      → RecvOutcome written stock s w (read_hdr os callback s w)
  read_hdr-RecvOutcome s w i k =
      let n = hdr_size - length s.inhdr in
      hdr_read-RecvOutcome s w (recv_fd os callback n n [] w) i k
        (recv_fd-Gained os callback written stock g n n [] w (omega arith))

  read_on-RecvOutcome :
      (s : Sipc) (w : W) (i : Instate)
      → s.instate ≡ i
      → IsReading i s
      → RecvOutcome written stock s w (read_on os callback i s w)
  read_on-RecvOutcome s w hdr e k = read_hdr-RecvOutcome s w e k
  read_on-RecvOutcome s w in_body e k = read_body-RecvOutcome os callback written stock g s w e k
  read_on-RecvOutcome s w hasmsg e k = absurd k

  polled-RecvOutcome :
      (s : Sipc) (w v : W) (p : Polled)
      → IsSession s
      → Kept written stock w v
      → RecvOutcome written stock s w (polled os callback s (p, v))
  polled-RecvOutcome s w v quiet k t =
      λ h. (ap (λ t. held s ++ t) t.stock_eq, k, ap (λ t. t ++ left s) t.written_eq)
  polled-RecvOutcome s w v other_events k t =
      RecvOutcome-same written stock s s w v (read_on os callback s.instate s v)
        (ap (λ t. held s ++ t) t.stock_eq) (ap (λ t. t ++ left s) t.written_eq)
        (read_on-RecvOutcome s v s.instate refl k)
  polled-RecvOutcome s w v ready k t =
      RecvOutcome-same written stock s s w v (read_on os callback s.instate s v)
        (ap (λ t. held s ++ t) t.stock_eq) (ap (λ t. t ++ left s) t.written_eq)
        (read_on-RecvOutcome s v s.instate refl k)

  recv_in-RecvOutcome :
      (s : Sipc) (w : W) (i : Instate)
      → IsSession s
      → IsReading i s
      → RecvOutcome written stock s w (recv_in os callback i s w)
  recv_in-RecvOutcome s w hdr k l =
      polled-RecvOutcome s w (os.poll_in w).1 (os.poll_in w).0 k (g.polled_in w)
  recv_in-RecvOutcome s w in_body k l =
      polled-RecvOutcome s w (os.poll_in w).1 (os.poll_in w).0 k (g.polled_in w)
  recv_in-RecvOutcome s w hasmsg k l = absurd l

  recv_state-RecvOutcome :
      (s : Sipc) (w : W) → IsSession s → RecvOutcome written stock s w (recv_state os callback s w)
  recv_state-RecvOutcome s w k = recv_in-RecvOutcome s w s.instate k k

  recv_after-RecvOutcome :
      (s : Sipc) (w : W) (r : Rc × Sipc × W)
      → IsSession s
      → FlushOutcome written stock s w r
      → RecvOutcome written stock s w (recv_after os callback r)
  recv_after-RecvOutcome s w (ok n, t, v) k (o, i, e, c) =
      flushed_first written stock (recv_state os callback) recv_state-RecvOutcome s t w v k i
        (rw o (append-nil (written v)) ∙ e) c
  recv_after-RecvOutcome s w (err e, t, v) k d = elim (Bool-cases (is_eagain (err e))) [
    | inl y ↦
        let (i, o, c) = d y in
        simp y (
          flushed_first written stock (recv_state os callback) recv_state-RecvOutcome s t w v k i o
            c)
    | inr y ↦ simp y (λ h. cc)
  ]

  -- On a reliable stream, a receive on a session hands over the body of the first frame of the bytes
  -- that are not yet handed over, and leaves those behind it; one that returns -EAGAIN leaves them
  -- all. The session goes on in a state that the code reaches, and owes the bytes that it owed.
  pub sipc_recv-RecvOutcome :
      (s : Sipc) (w : W) → IsSession s → RecvOutcome written stock s w (recv os callback s w)
  unfolding recv
  sipc_recv-RecvOutcome s w k = elim (Bool-cases s.fd) [
    | inl y ↦ simp y (recv_after-RecvOutcome s w _ k (flush_synced os callback written stock g s w))
    | inr y ↦ simp y (λ h. cc)
  ]
