-- ===== src/Transport/Sipc/Body.antt =====
-- sipc.c: reading the body of a message.
use msgbroker.Prelude.{
  ℕ, ◌-◌, ◌≤◌, ◌≡◌, refl, sym, ap, ap₂, Bool, true, false, List, [], ◌++◌, length, length-append,
  append-nil, arith, tests, ltb, Bool-cases, inl, inr,
}
use msgbroker.Errno.{Errno, err, is_eagain}
use msgbroker.Core.Pipe.{Answer, yields, refuses}
use msgbroker.Utils.Wire.{get_uint32}
use msgbroker.Transport.Stream.{Stream}
use msgbroker.Transport.Stream.Bytes.{IsStream, Kept}
use msgbroker.Transport.Sipc.{Sipc, hdr, in_body, hasmsg, hdr_size, recv_fd}
use msgbroker.Transport.Sipc.Calls.{delivered, broken, misread, body_read, read_body, sized}
use msgbroker.Transport.Sipc.Owed.{left}
use msgbroker.Transport.Sipc.In.{Gained, recv_fd-Gained}
use msgbroker.Transport.Sipc.Coming.{
  held, IsReading, IsSession, IsFrame, RecvOutcome, RecvOutcome-same, joined,
}

module _ {W : Type 0} (os : Stream W) (callback : Sipc → W → Sipc × W) (written stock : W → List ℕ)
    (g : IsStream os written stock) where
  pub delivered-RecvOutcome :
      (s : Sipc) (w : W)
      → s.instate ≡ hasmsg
      → IsFrame s.inhdr s.inmsg
      → RecvOutcome written stock s w (delivered os callback s w)
  delivered-RecvOutcome s w e h = (s.inhdr, h, refl, rw e refl, omega arith, refl)

  broken-RecvOutcome :
      (e : Errno) (s : Sipc) (w : W) (x : Sipc × W)
      → is_eagain (err e) ≡ false
      → RecvOutcome written stock s w (broken os callback e x)
  broken-RecvOutcome e s w (s', w') h = λ k. cc

  pub misread-RecvOutcome :
      (e : Errno) (s : Sipc) (w v : W)
      → IsSession s
      → (is_eagain (err e) ≡ true → Kept written stock w v)
      → RecvOutcome written stock s w (misread os callback e s v)
  misread-RecvOutcome e s w v i k = elim (Bool-cases (is_eagain (err e))) [
    | inl y ↦
        let t = k y in
        simp y (λ h. (ap (λ t. held s ++ t) t.stock_eq, i, ap (λ t. t ++ left s) t.written_eq))
    | inr y ↦ simp y (λ h. cc)
  ]

  body_done :
      (s : Sipc) (w v : W) (x : List ℕ)
      → s.instate ≡ in_body
      → IsReading in_body s
      → length x ≤ s.inlen - length s.inmsg
      → stock w ≡ x ++ stock v
      → written v ≡ written w
      → RecvOutcome written stock s w (body_read os callback s (yields x, v))
  body_done s w v x i (a, b, c) l e f =
      let grown = joined s.inhdr s.inmsg x (stock v) (stock w) e in
      elim (Bool-cases (ltb (length (s.inmsg ++ x)) s.inlen)) [
        | inl y ↦ simp y (λ h. (rw i grown, rw i (a, b, omega (tests, y)), ap (λ t. t ++ left s) f))
        | inr y ↦ simp y (
          s.inhdr,
          record { hdr_length = a; body_length = ground (arith, length-append s.inmsg x) },
          refl,
          rw i (sym grown),
          omega arith,
          ap (λ t. t ++ left s) f,
        )
      ]

  body_read-RecvOutcome :
      (s : Sipc) (w : W) (r : Answer (List ℕ) × W)
      → s.instate ≡ in_body
      → IsReading in_body s
      → Gained written stock (s.inlen - length s.inmsg) [] w r
      → RecvOutcome written stock s w (body_read os callback s r)
  body_read-RecvOutcome s w (refuses e, v) i k d =
      misread-RecvOutcome e s w v (rw i k) (λ h. (d h).1)
  body_read-RecvOutcome s w (yields bs, v) i k (x, p, l, e, f) = rw p (body_done s w v x i k l e f)

  pub read_body-RecvOutcome :
      (s : Sipc) (w : W)
      → s.instate ≡ in_body
      → IsReading in_body s
      → RecvOutcome written stock s w (read_body os callback s w)
  read_body-RecvOutcome s w i k =
      let (a, b, c) = k in
      let n = s.inlen - length s.inmsg in
      elim (Bool-cases (ltb 0 s.inlen)) [
        | inl y ↦ simp y (
            body_read-RecvOutcome s w (recv_fd os callback n n [] w) i k
              (recv_fd-Gained os callback written stock g n n [] w (omega arith)))
        | inr y ↦ simp y (
            RecvOutcome-same written stock s (record s { instate = hasmsg }) w w
              (delivered os callback (record s { instate = hasmsg }) w) (rw i refl) refl
              (delivered-RecvOutcome (record s { instate = hasmsg }) w refl
                (record { hdr_length = a; body_length = ground arith })))
      ]

  pub sized-RecvOutcome :
      (s : Sipc) (w : W) (x : Bool × W)
      → s.instate ≡ hdr
      → length s.inhdr ≡ hdr_size
      → Kept written stock w x.1
      → RecvOutcome written stock s w (sized os callback s (get_uint32 s.inhdr) x)
  sized-RecvOutcome s w (false, u) i a k = λ h. cc
  sized-RecvOutcome s w (true, u) i a k =
      let t = record s { inmsg = []; inlen = get_uint32 s.inhdr; instate = in_body } in
      RecvOutcome-same written stock s t w u (read_body os callback t u)
        (rw i (ap₂ ◌++◌ (append-nil s.inhdr) k.stock_eq)) (ap (λ t. t ++ left s) k.written_eq)
        (read_body-RecvOutcome t u refl (a, refl, omega arith))
