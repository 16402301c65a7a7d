-- ===== src/Transport/Sipc/Out.antt =====
-- sipc.c: what a session writes.
use msgbroker.Prelude.{
  ℕ, zero, suc, ◌+◌, ◌≤◌, ◌≡◌, refl, sym, ap, ◌∙◌, true, List, [], ◌∷◌, ◌++◌, length, take, drop,
  append-nil, append_assoc, take-append-drop, take-drop_append, length-drop, arith, Bool-cases, inl,
  inr,
}
use msgbroker.Errno.{Errno, Rc, ok, err, is_eagain}
use msgbroker.Transport.Stream.{Stream, Taken, took, unsent, blocked, after_send}
use msgbroker.Transport.Stream.Bytes.{IsStream, Kept}
use msgbroker.Transport.Sipc.{Sipc, send_fd, flush_from, after_raw}

is_positive : (n b : ℕ) (bs : List ℕ) → (n ≡ 0 → (b ∷ bs) ≡ []) → 1 ≤ n
is_positive zero b bs h = let e = h refl in cc
is_positive (suc n) b bs h = omega arith

module _ {W : Type 0} (os : Stream W) (callback : Sipc → W → Sipc × W) (written stock : W → List ℕ)
    (g : IsStream os written stock) where
  -- What `send_fd` does to the bytes `bs`, `sent` bytes being sent before: it sends the first `j`,
  -- and not none; -EAGAIN says that none went.
  abbrev pub Sent : List ℕ → ℕ → W → Rc × W → Type 0
  Sent bs sent w (ok k, w') =
      (j : ℕ) × (k ≡ sent + j)
      × (j ≤ length bs)
      × (written w' ≡ written w ++ take j bs)
      × (stock w' ≡ stock w)
      × (k ≡ 0 → bs ≡ [])
  Sent bs sent w (err e, w') =
      (stock w' ≡ stock w) × (is_eagain (err e) ≡ true → (sent ≡ 0) × (written w' ≡ written w))

  Sent-none :
      (b : ℕ) (bs : List ℕ) (n : ℕ) (w w' : W)
      → Kept written stock w w'
      → Sent (b ∷ bs) (suc n) w (ok (suc n), w')
  Sent-none b bs n w w' k = (
    0,
    omega arith,
    omega arith,
    k.written_eq ∙ sym (append-nil (written w)),
    k.stock_eq,
    λ h. absurd (omega (arith, h)),
  )

  blocked-Sent :
      (b : ℕ) (bs : List ℕ) (sent : ℕ) (e : Errno) (w w' : W)
      → Kept written stock w w'
      → Sent (b ∷ bs) sent w (blocked e sent, w')
  blocked-Sent b bs zero e w w' k = (k.stock_eq, λ _. (refl, k.written_eq))
  blocked-Sent b bs (suc n) e w w' k = elim (Bool-cases (is_eagain (err e))) [
    | inl y ↦ rw y (Sent-none b bs n w w' k)
    | inr y ↦ rw y (k.stock_eq, λ h. cc)
  ]

  -- Bytes that follow one another.
  written_step :
      (b : ℕ) (bs : List ℕ) (n j : ℕ) (w v u : W)
      → written v ≡ written w ++ (b ∷ take n bs)
      → written u ≡ written v ++ take j (drop n bs)
      → written u ≡ written w ++ take (suc n + j) (b ∷ bs)
  written_step b bs n j w v u e f =
      f
      ∙ ap (λ t. t ++ take j (drop n bs)) e
      ∙ append_assoc (written w) (b ∷ take n bs) _
      ∙ ap (λ t. written w ++ t)
          (ap (◌∷◌ b) (take-drop_append n j bs)
            ∙ ap (λ t. take t (b ∷ bs)) {x = suc (n + j)} {y = suc n + j} (omega arith))

  Sent-step :
      (b : ℕ) (bs : List ℕ) (sent n : ℕ) (w v : W) (r : Rc × W)
      → n ≤ length bs
      → written v ≡ written w ++ (b ∷ take n bs)
      → stock v ≡ stock w
      → Sent (drop n bs) (sent + suc n) v r
      → Sent (b ∷ bs) sent w r
  Sent-step b bs sent n w v (err e, u) l x y (st, k) =
      (st ∙ y, λ h. absurd (omega (arith, (k h).0)))
  Sent-step b bs sent n w v (ok i, u) l x y (j, e, m, f, st, k) = (
    suc n + j,
    omega (arith, e),
    omega (arith, m, l, length-drop n bs),
    written_step b bs n j w v u x f,
    st ∙ y,
    λ h. absurd (omega (arith, h, e)),
  )

  after_send-Sent :
      (b : ℕ) (bs : List ℕ) (sent : ℕ) (next : ℕ → W → Rc × W) (w : W) (x : Taken × W)
      → os.send (b ∷ bs) w ≡ x
      → ((n : ℕ) (v : W) → n ≤ length bs → Sent (drop n bs) (sent + suc n) v (next n v))
      → Sent (b ∷ bs) sent w (after_send next sent x)
  after_send-Sent b bs sent next w (unsent e, v) h k =
      blocked-Sent b bs sent e w v (g.took_none (b ∷ bs) e w v h)
  after_send-Sent b bs sent next w (took n, v) h k =
      let (l, e, f) = g.took_some b bs n w v h in
      Sent-step b bs sent n w v (next n v) l e f (k n v l)

  -- All bytes were sent, or the kernel refused to take more.
  pub send_fd-Sent :
      (f : ℕ) (bs : List ℕ) (sent : ℕ) (w : W)
      → length bs ≤ f
      → Sent bs sent w (send_fd os callback f bs sent w)
  unfolding send_fd
  send_fd-Sent f [] sent w h =
      (0, omega arith, omega arith, sym (append-nil (written w)), refl, λ _. refl)
  send_fd-Sent zero (b ∷ bs) sent w h = absurd (omega arith)
  send_fd-Sent (suc f) (b ∷ bs) sent w h =
      after_send-Sent b bs sent _ w (os.send (b ∷ bs) w) refl
        (λ n v l. send_fd-Sent f (drop n bs) (sent + suc n) v (omega (arith, h, length-drop n bs)))

  -- What the loop over the bytes left of the buffer does: all of them go, or with -EAGAIN a part.
  abbrev pub Flushed : List ℕ → ℕ → W → Rc × ℕ × W → Type 0
  Flushed bs pos w (ok k, pos', w') = (written w' ≡ written w ++ bs) × (stock w' ≡ stock w)
  Flushed bs pos w (err e, pos', w') =
      (stock w' ≡ stock w)
      × (is_eagain (err e) ≡ true
          → (j : ℕ) × (pos' ≡ pos + j) × (j ≤ length bs) × (written w' ≡ written w ++ take j bs))

  Flushed-step :
      (bs : List ℕ) (pos n : ℕ) (w v : W) (r : Rc × ℕ × W)
      → n ≤ length bs
      → written v ≡ written w ++ take n bs
      → stock v ≡ stock w
      → Flushed (drop n bs) (pos + n) v r
      → Flushed bs pos w r
  Flushed-step bs pos n w v (ok k, p, u) l x y (a, b) = (
    a
        ∙ ap (λ t. t ++ drop n bs) x
        ∙ append_assoc (written w) (take n bs) _
        ∙ ap (λ t. written w ++ t) (take-append-drop n bs),
    b ∙ y,
  )
  Flushed-step bs pos n w v (err e, p, u) l x y (a, k) = (
    a ∙ y,
    λ h.
        let (j, q, m, f) = k h in
        (
          n + j,
          omega (arith, q),
          omega (arith, m, l, length-drop n bs),
          f
              ∙ ap (λ t. t ++ take j (drop n bs)) x
              ∙ append_assoc (written w) (take n bs) _
              ∙ ap (λ t. written w ++ t) (take-drop_append n j bs),
        ),
  )

  after_raw-Flushed :
      (b : ℕ) (bs : List ℕ) (pos : ℕ) (next : ℕ → W → Rc × ℕ × W) (w : W) (r : Rc × W)
      → Sent (b ∷ bs) 0 w r
      → ((n : ℕ) (v : W) → 1 ≤ n → Flushed (drop n (b ∷ bs)) (pos + n) v (next n v))
      → Flushed (b ∷ bs) pos w (after_raw os callback next pos r)
  after_raw-Flushed b bs pos next w (err e, v) (st, k) h =
      (st, λ y. (0, omega arith, omega arith, (k y).1 ∙ sym (append-nil (written w))))
  after_raw-Flushed b bs pos next w (ok n, v) (j, e, l, f, st, z) h =
      Flushed-step (b ∷ bs) pos n w v (next n v) (omega (arith, e, l))
        (f ∙ ap (λ t. written w ++ take t (b ∷ bs)) {x = j} {y = n} (omega (arith, e))) st
        (h n v (is_positive n b bs z))

  pub flush_from-Flushed :
      (f : ℕ) (bs : List ℕ) (pos : ℕ) (w : W)
      → length bs ≤ f
      → Flushed bs pos w (flush_from os callback f bs pos w)
  unfolding flush_from
  flush_from-Flushed f [] pos w h = (sym (append-nil (written w)), refl)
  flush_from-Flushed zero (b ∷ bs) pos w h = absurd (omega arith)
  flush_from-Flushed (suc f) (b ∷ bs) pos w h =
      after_raw-Flushed b bs pos _ w (send_fd os callback (suc (length bs)) (b ∷ bs) 0 w)
        (send_fd-Sent (suc (length bs)) (b ∷ bs) 0 w (omega arith))
        (λ n v l.
          flush_from-Flushed f (drop n (b ∷ bs)) (pos + n) v
            (omega (arith, h, l, length-drop n (b ∷ bs))))
