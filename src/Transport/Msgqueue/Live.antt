-- ===== src/Transport/Msgqueue/Live.antt =====
-- msgqueue.c: the messages that a chain of chunks holds, between the read and the write cursor,
-- and how each change to the chain or a cursor changes them.
use msgbroker.Prelude.{
  ℕ, zero, suc, ◌≤◌, ◌<◌, ◌≡◌, refl, sym, ap, ◌∙◌, ◌≢◌, true, ◌&&◌, ◌||◌, List, [], ◌∷◌, ◌++◌,
  append-nil, append_assoc, arith, length, set, get_or, take, drop, All, if◌then◌else◌, ◌==◌,
  length-take, drop_all,
}
use native.Mathlib.Decide.{dec_lt}
use msgbroker.Memory.Msg.{Msg, empty_msg}
use msgbroker.Transport.Msgqueue.{Chunk, granularity, write_last, is_nil}

abbrev pub live : ℕ → ℕ → List Chunk → List Msg
live i o [] = []
live i o (c ∷ []) = drop i (take o c)
live i o (c ∷ d ∷ cs) = drop i c ++ live 0 o (d ∷ cs)

-- Every chunk has its 64 slots.
abbrev pub Full : Chunk → Type 0
Full c = length c ≡ granularity

-- Where the cursors stand in a chain of no chunk or one.
abbrev pub Cursors : ℕ → ℕ → List Chunk → Type 0
Cursors i o [] = (i ≡ 0) × (o ≡ 0)
Cursors i o (c ∷ []) = i ≤ o
Cursors i o (c ∷ d ∷ cs) = Unit

take_full : (o : ℕ) (c : Chunk) → length c ≤ o → take o c ≡ c
take_full zero [] h = refl
take_full zero (x ∷ c) h = absurd (omega arith)
take_full (suc o) [] h = refl
take_full (suc o) (x ∷ c) h = ap (◌∷◌ x) (take_full o c (omega arith))

drop-take-set :
    (i o : ℕ) (c : Chunk) (m : Msg)
    → i ≤ o
    → o < length c
    → drop i (take (suc o) (set c o m)) ≡ drop i (take o c) ++ m ∷ []
drop-take-set i o [] m h k = absurd (omega arith)
drop-take-set zero zero (x ∷ c) m h k = refl
drop-take-set (suc i) zero (x ∷ c) m h k = absurd (omega arith)
drop-take-set zero (suc o) (x ∷ c) m h k =
    ap (◌∷◌ x) (drop-take-set zero o c m (omega arith) (omega arith))
drop-take-set (suc i) (suc o) (x ∷ c) m h k = drop-take-set i o c m (omega arith) (omega arith)

drop-take-cons :
    (i o : ℕ) (c : Chunk) (m : Msg)
    → i < o
    → i < length c
    → drop i (take o c) ≡ get_or c i empty_msg ∷ drop (suc i) (take o (set c i m))
drop-take-cons i zero c m h k = absurd (omega arith)
drop-take-cons i (suc o) [] m h k = absurd (omega arith)
drop-take-cons zero (suc o) (x ∷ c) m h k = refl
drop-take-cons (suc i) (suc o) (x ∷ c) m h k = drop-take-cons i o c m (omega arith) (omega arith)

drop-cons :
    (i : ℕ) (c : Chunk) (m : Msg)
    → i < length c
    → drop i c ≡ get_or c i empty_msg ∷ drop (suc i) (set c i m)
drop-cons i [] m h = absurd (omega arith)
drop-cons zero (x ∷ c) m h = refl
drop-cons (suc i) (x ∷ c) m h = drop-cons i c m (omega arith)

-- A write at the cursor adds the message at the end.
pub live-write_last :
    (i o : ℕ) (cs : List Chunk) (m : Msg)
    → All Full cs
    → Cursors i o cs
    → o < granularity
    → cs ≢ []
    → live i (suc o) (write_last cs o m) ≡ live i o cs ++ m ∷ []
live-write_last i o [] m f c h ne = absurd (ne refl)
live-write_last i o (c ∷ []) m f k h ne = drop-take-set i o c m k (omega arith)
live-write_last i o (c ∷ d ∷ []) m f k h ne =
    ap (λ t. drop i c ++ t) (live-write_last 0 o (d ∷ []) m f.1 (omega arith) h (cc))
    ∙ sym (append_assoc (drop i c) (live 0 o (d ∷ [])) (m ∷ []))
live-write_last i o (c ∷ d ∷ e ∷ cs) m f k h ne =
    ap (λ t. drop i c ++ t) (live-write_last 0 o (d ∷ e ∷ cs) m f.1 tt h (cc))
    ∙ sym (append_assoc (drop i c) (live 0 o (d ∷ e ∷ cs)) (m ∷ []))

-- A chunk linked behind a chain that is written to its end adds nothing.
pub live-link :
    (i : ℕ) (cs : List Chunk) (n : Chunk)
    → All Full cs
    → cs ≢ []
    → live i 0 (cs ++ n ∷ []) ≡ live i granularity cs
live-link i [] n f ne = absurd (ne refl)
live-link i (c ∷ []) n f ne =
    append-nil (drop i c) ∙ ap (drop i) (sym (take_full granularity c (omega arith)))
live-link i (c ∷ d ∷ cs) n f ne = ap (λ t. drop i c ++ t) (live-link 0 (d ∷ cs) n f.1 (cc))

-- The first live message stands at the read cursor.
pub live-take_out :
    (i o : ℕ) (c : Chunk) (cs : List Chunk)
    → All Full (c ∷ cs)
    → i < granularity
    → live i o (c ∷ cs) ≢ []
    → live i o (c ∷ cs) ≡ get_or c i empty_msg ∷ live (suc i) o (set c i empty_msg ∷ cs)
live-take_out i o c [] f h ne = elim (dec_lt i o) [
  | yes p ↦ drop-take-cons i o c empty_msg p (omega arith)
  | no p ↦ absurd (ne (drop_all i (take o c) (omega (arith, length-take o c))))
]
live-take_out i o c (d ∷ cs) f h ne =
    ap (λ t. t ++ live 0 o (d ∷ cs)) (drop-cons i c empty_msg (omega arith))

-- Leaving a chunk that is read to its end, or to the write cursor, loses nothing.
pub live-advance :
    (i o : ℕ) (c : Chunk) (cs : List Chunk)
    → All Full (c ∷ cs)
    → o ≤ granularity
    → ((i == granularity) || is_nil cs && (i == o)) ≡ true
    → live i o (c ∷ cs) ≡ live 0 (if is_nil cs then 0 else o) cs
live-advance i o c [] f h e = drop_all i (take o c) (ground (arith, length-take o c))
live-advance i o c (d ∷ cs) f h e = ap (λ t. t ++ live 0 o (d ∷ cs)) (drop_all i c (ground arith))
