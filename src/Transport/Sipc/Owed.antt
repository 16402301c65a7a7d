-- ===== src/Transport/Sipc/Owed.antt =====
-- sipc.c: the bytes that a session still has to write.
use msgbroker.Prelude.{
  ℕ, ◌+◌, ◌≡◌, refl, sym, ap, ap₂, ◌∙◌, true, false, not, ◌||◌, Option, none, some, List, [], ◌++◌,
  length, take, drop, append-nil, append_assoc, take-append-drop, drop-drop, arith, Bool-cases, inl,
  inr,
}
use msgbroker.Errno.{Errno, Rc, ok, err, is_eagain}
use msgbroker.Transport.Stream.{Stream}
use msgbroker.Transport.Stream.Bytes.{IsStream, Kept}
use msgbroker.Transport.Sipc.{
  Sipc, report_error, failed, flush_outbuf, flush_buf, flushed, sync_bufs,
}
use msgbroker.Transport.Sipc.Out.{Flushed, flush_from-Flushed}

abbrev pub left_of : Option (List ℕ) → ℕ → List ℕ
left_of none pos = []
left_of (some buf) pos = drop pos buf

-- What is accepted and not yet written.
abbrev pub left : Sipc → List ℕ
left s = left_of s.outbuf s.outpos

-- The two states differ at most in what concerns sending.
abbrev pub SameIn : Sipc → Sipc → Type 0
SameIn s s' =
    (s'.fd ≡ s.fd)
    × (s'.inhdr ≡ s.inhdr)
    × (s'.inmsg ≡ s.inmsg)
    × (s'.inlen ≡ s.inlen)
    × (s'.instate ≡ s.instate)
    × (s'.rcvmaxsize ≡ s.rcvmaxsize)

-- A part of the buffer is written.
part_written :
    (u v buf : List ℕ) (p j pos : ℕ)
    → pos ≡ p + j
    → v ≡ u ++ take j (drop p buf)
    → v ++ drop pos buf ≡ u ++ drop p buf
part_written u v buf p j pos e f =
    ap₂ (λ t n. t ++ drop n buf) f e
    ∙ append_assoc u (take j (drop p buf)) _
    ∙ ap (λ t. u ++ t)
        (ap (λ t. take j (drop p buf) ++ t) (sym (drop-drop p j buf))
          ∙ take-append-drop j (drop p buf))

module _ {W : Type 0} (written stock : W → List ℕ) where
  -- All bytes that the session has accepted since it began: those written, and those left.
  abbrev pub owed : Sipc → W → List ℕ
  owed s w = written w ++ left s

  -- A flush that succeeds has written all; after -EAGAIN the rest is still owed.
  abbrev pub FlushOutcome : Sipc → W → Rc × Sipc × W → Type 0
  FlushOutcome s w (ok k, s', w') =
      (s'.outbuf ≡ none) × SameIn s s' × (written w' ≡ owed s w) × (stock w' ≡ stock w)
  FlushOutcome s w (err e, s', w') =
      is_eagain (err e) ≡ true → SameIn s s' × (owed s' w' ≡ owed s w) × (stock w' ≡ stock w)

module _ {W : Type 0} (os : Stream W) (callback : Sipc → W → Sipc × W) (written stock : W → List ℕ)
    (g : IsStream os written stock) where
  failed-FlushOutcome :
      (e : Errno) (s : Sipc) (w : W) (x : Sipc × W)
      → is_eagain (err e) ≡ false
      → FlushOutcome written stock s w (failed os callback e x)
  failed-FlushOutcome e s w (s', w') h = λ k. cc

  flushed-FlushOutcome :
      (s : Sipc) (buf : List ℕ) (w : W) (r : Rc × ℕ × W)
      → s.outbuf ≡ some buf
      → Flushed os callback written stock g (drop s.outpos buf) s.outpos w r
      → FlushOutcome written stock s w (flushed os callback s r)
  flushed-FlushOutcome s buf w (ok k, pos, w') h (a, b) = (
    refl,
    (refl, refl, refl, refl, refl, refl),
    a ∙ ap (λ t. written w ++ left_of t s.outpos) (sym h),
    b,
  )
  flushed-FlushOutcome s buf w (err e, pos, w') h (a, k) = elim (Bool-cases (is_eagain (err e))) [
    | inl y ↦ rw y (λ _.
        let (j, q, m, f) = k y in
        (
          (refl, refl, refl, refl, refl, refl),
          rw h (part_written (written w) (written w') buf s.outpos j pos q f),
          a,
        ))
    | inr y ↦
        rw y (failed-FlushOutcome e s w (report_error os callback (record s { outpos = pos }) w') y)
  ]

  flush_buf-FlushOutcome :
      (s : Sipc) (o : Option (List ℕ)) (w : W)
      → s.outbuf ≡ o
      → FlushOutcome written stock s w (flush_buf os callback s o w)
  flush_buf-FlushOutcome s none w h =
      (h, (refl, refl, refl, refl, refl, refl), rw h (sym (append-nil (written w))), refl)
  flush_buf-FlushOutcome s (some buf) w h = elim (Bool-cases s.fd) [
    | inl y ↦ simp y (
        flushed-FlushOutcome s buf w _ h (
          flush_from-Flushed os callback written stock g (length (drop s.outpos buf))
            (drop s.outpos buf) s.outpos w (omega arith)))
    | inr y ↦ simp y (λ k. cc)
  ]

  pub flush_outbuf-FlushOutcome :
      (s : Sipc) (w : W) → FlushOutcome written stock s w (flush_outbuf os callback s w)
  unfolding flush_outbuf
  flush_outbuf-FlushOutcome s w = flush_buf-FlushOutcome s s.outbuf w refl

  pub sync_bufs-Kept : (s : Sipc) (w : W) → Kept written stock w (sync_bufs os callback s w)
  unfolding sync_bufs
  sync_bufs-Kept s w = elim (Bool-cases (not s.fd || s.disconnected)) [
    | inl y ↦ rw y (record { written_eq = refl; stock_eq = refl })
    | inr y ↦ rw y (g.applied w)
  ]

  -- A flush after the sizes of the kernel's buffers have been set.
  FlushOutcome-Kept :
      (s : Sipc) (w v : W) (r : Rc × Sipc × W)
      → Kept written stock w v
      → FlushOutcome written stock s v r
      → FlushOutcome written stock s w r
  FlushOutcome-Kept s w v (ok k, s', w') p (a, b, c, d) =
      (a, b, c ∙ ap (λ t. t ++ left s) p.written_eq, d ∙ p.stock_eq)
  FlushOutcome-Kept s w v (err e, s', w') p k =
      λ h. let (b, c, d) = k h in (b, c ∙ ap (λ t. t ++ left s) p.written_eq, d ∙ p.stock_eq)

  pub flush_synced :
      (s : Sipc) (w : W)
      → FlushOutcome written stock s w (flush_outbuf os callback s (sync_bufs os callback s w))
  flush_synced s w =
      FlushOutcome-Kept s w (sync_bufs os callback s w) _ (sync_bufs-Kept s w)
        (flush_outbuf-FlushOutcome s (sync_bufs os callback s w))
