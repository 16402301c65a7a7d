-- ===== src/Transport/Sipc/In.antt =====
-- sipc.c: what a session reads.
use msgbroker.Prelude.{
  ℕ, zero, suc, ◌-◌, ◌≤◌, ◌≡◌, refl, sym, ap, ◌∙◌, true, List, [], ◌∷◌, ◌++◌, length, length-append,
  append-nil, append_assoc, arith, Bool-cases, inl, inr,
}
use msgbroker.Errno.{Errno, err, is_eagain}
use msgbroker.Core.Pipe.{Answer, yields, refuses}
use msgbroker.Transport.Stream.{Stream, Got, got, at_end, unread, ended, dried, after_recv}
use msgbroker.Transport.Stream.Bytes.{IsStream, Kept}
use msgbroker.Transport.Sipc.{Sipc, recv_fd}

module _ {W : Type 0} (written stock : W → List ℕ) where
  -- What a read of `len` bytes into `bytes` comes to: it adds bytes that leave the stream, `len` at
  -- most; an error of -EAGAIN takes none.
  abbrev pub Gained : ℕ → List ℕ → W → Answer (List ℕ) × W → Type 0
  Gained len bytes w (yields bs, w') =
      (x : List ℕ) × (bs ≡ bytes ++ x)
      × (length x ≤ len)
      × (stock w ≡ x ++ stock w')
      × (written w' ≡ written w)
  Gained len bytes w (refuses e, w') =
      is_eagain (err e) ≡ true → (bytes ≡ []) × Kept written stock w w'

  Gained-none :
      (len : ℕ) (bytes : List ℕ) (w w' : W)
      → Kept written stock w w'
      → Gained len bytes w (yields bytes, w')
  Gained-none len bytes w w' k =
      ([], sym (append-nil bytes), omega arith, sym k.stock_eq, k.written_eq)

  ended-Gained :
      (len : ℕ) (bytes : List ℕ) (w w' : W)
      → Kept written stock w w'
      → Gained len bytes w (ended bytes, w')
  ended-Gained len [] w w' k = λ h. cc
  ended-Gained len (b ∷ bs) w w' k = Gained-none len (b ∷ bs) w w' k

  dried-Gained :
      (len : ℕ) (e : Errno) (bytes : List ℕ) (w w' : W)
      → Kept written stock w w'
      → Gained len bytes w (dried e bytes, w')
  dried-Gained len e [] w w' k = λ h. (refl, k)
  dried-Gained len e (b ∷ bs) w w' k = elim (Bool-cases (is_eagain (err e))) [
    | inl y ↦ simp y (Gained-none len (b ∷ bs) w w' k)
    | inr y ↦ simp y (λ h. cc)
  ]

  Gained-step :
      (len b : ℕ) (bs bytes : List ℕ) (w v : W) (r : Answer (List ℕ) × W)
      → suc (length bs) ≤ len
      → stock w ≡ (b ∷ bs) ++ stock v
      → written v ≡ written w
      → Gained (len - length (b ∷ bs)) (bytes ++ (b ∷ bs)) v r
      → Gained len bytes w r
  Gained-step len b bs bytes w v (yields c, u) l e f (x, p, q, y, z) = (
    (b ∷ bs) ++ x,
    p ∙ append_assoc bytes (b ∷ bs) x,
    omega (arith, length-append (b ∷ bs) x, q, l),
    e ∙ ap (λ t. (b ∷ bs) ++ t) y ∙ sym (append_assoc (b ∷ bs) x (stock u)),
    z ∙ f,
  )
  Gained-step len b bs [] w v (refuses e', u) l e f k = λ h. let (p, q) = k h in cc
  Gained-step len b bs (c ∷ cs) w v (refuses e', u) l e f k = λ h. let (p, q) = k h in cc

module _ {W : Type 0} (os : Stream W) (callback : Sipc → W → Sipc × W) (written stock : W → List ℕ)
    (g : IsStream os written stock) where
  after_recv-Gained :
      (len : ℕ) (bytes : List ℕ) (next : List ℕ → W → Answer (List ℕ) × W) (w : W) (r : Got × W)
      → os.recv len w ≡ r
      → ((b : ℕ) (bs : List ℕ) (v : W)
          → Gained written stock (len - length (b ∷ bs)) (bytes ++ (b ∷ bs)) v (next (b ∷ bs) v))
      → Gained written stock len bytes w (after_recv next bytes r)
  after_recv-Gained len bytes next w (at_end, v) h k =
      ended-Gained written stock len bytes w v (g.got_end len w v h)
  after_recv-Gained len bytes next w (unread e, v) h k =
      dried-Gained written stock len e bytes w v (g.got_none len e w v h)
  after_recv-Gained len bytes next w (got b bs, v) h k =
      let (l, e, f) = g.got_some len b bs w v h in
      Gained-step written stock len b bs bytes w v (next (b ∷ bs) v) l e f (k b bs v)

  pub recv_fd-Gained :
      (f len : ℕ) (bytes : List ℕ) (w : W)
      → len ≤ f
      → Gained written stock len bytes w (recv_fd os callback f len bytes w)
  unfolding recv_fd
  recv_fd-Gained f zero bytes w h =
      Gained-none written stock 0 bytes w w (record { written_eq = refl; stock_eq = refl })
  recv_fd-Gained zero (suc len) bytes w h = absurd (omega arith)
  recv_fd-Gained (suc f) (suc len) bytes w h =
      after_recv-Gained (suc len) bytes
        (λ bs v. recv_fd os callback f (suc len - length bs) (bytes ++ bs) v) w
        (os.recv (suc len) w) refl
        (λ b bs v.
          recv_fd-Gained f (suc len - length (b ∷ bs)) (bytes ++ (b ∷ bs)) v (omega (arith, h)))
