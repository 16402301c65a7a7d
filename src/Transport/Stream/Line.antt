-- ===== src/Transport/Stream/Line.antt =====
-- A descriptor for tests.
use msgbroker.Prelude.{ℕ, zero, suc, ◌≤◌, ◌≡◌, refl, List, [], ◌∷◌, ◌++◌, true, arith, length, take}
use msgbroker.Errno.{Errno, ok, eagain}
use msgbroker.Transport.Stream.{Stream, Taken, took, unsent, Got, got, at_end, unread, ready}
use msgbroker.Transport.Stream.Bytes.{IsStream, Kept}

-- A descriptor that takes and gives one byte at a time: the bytes taken, and those to be given.
pub record Line : Type 0 where
  pub taken : List ℕ
  pub to_come : List ℕ

abbrev pub put : List ℕ → Line → Taken × Line
put [] w = (unsent eagain, w)
put (b ∷ bs) w = (took 0, record w { taken = w.taken ++ (b ∷ []) })

abbrev pub pull_from : ℕ → List ℕ → Line → Got × Line
pull_from zero bytes w = (unread eagain, w)
pull_from (suc n) [] w = (unread eagain, w)
pull_from (suc n) (b ∷ bs) w = (got b [], record w { to_come = bs })

abbrev pub line : Stream Line
line = record {
  send = put;
  recv = λ n w. pull_from n w.to_come w;
  poll_in = λ w. (ready, w);
  poll_out = λ n w. (ready, w);
  clock_ms = λ w. (0, w);
  alloc = λ n w. (true, w);
  apply_bufs = λ w. w;
  close = λ w. w;
  pipebase_start = λ w. (ok 0, w);
  pipebase_stop = λ w. w;
}

abbrev pub taken_of : Line → List ℕ
taken_of w = w.taken

abbrev pub to_come_of : Line → List ℕ
to_come_of w = w.to_come

pub line_took :
    (b : ℕ) (bs : List ℕ) (n : ℕ) (w w' : Line)
    → put (b ∷ bs) w ≡ (took n, w')
    → (n ≤ length bs)
      × (taken_of w' ≡ taken_of w ++ (b ∷ take n bs))
      × (to_come_of w' ≡ to_come_of w)
line_took b bs n w w' h =
    let p : 0 ≡ n = cc in
    let q : record w { taken = w.taken ++ (b ∷ []) } ≡ w' = cc in
    (omega (arith, p), rw (← q, ← p) refl, rw (← q) refl)

pub line_unsent :
    (bs : List ℕ) (e : Errno) (w w' : Line)
    → put bs w ≡ (unsent e, w')
    → Kept taken_of to_come_of w w'
line_unsent [] e w w' h =
    let q : w ≡ w' = cc in record { written_eq = rw (← q) refl; stock_eq = rw (← q) refl }
line_unsent (b ∷ bs) e w w' h = let p : took 0 ≡ unsent e = cc in cc

pub line_got :
    (n b : ℕ) (bs c : List ℕ) (w w' : Line)
    → pull_from n c w ≡ (got b bs, w')
    → (suc (length bs) ≤ n) × (c ≡ (b ∷ bs) ++ to_come_of w') × (taken_of w' ≡ taken_of w)
line_got zero b bs c w w' h = let p : unread eagain ≡ got b bs = cc in cc
line_got (suc n) b bs [] w w' h = let p : unread eagain ≡ got b bs = cc in cc
line_got (suc n) b bs (d ∷ c) w w' h =
    let p : d ≡ b = cc in
    let q : [] ≡ bs = cc in
    let r : record w { to_come = c } ≡ w' = cc in
    (rw (← q) (omega arith), rw (p, ← q, ← r) refl, rw (← r) refl)

pub line_end :
    (n : ℕ) (c : List ℕ) (w w' : Line)
    → pull_from n c w ≡ (at_end, w')
    → Kept taken_of to_come_of w w'
line_end zero c w w' h = let p : unread eagain ≡ at_end = cc in cc
line_end (suc n) [] w w' h = let p : unread eagain ≡ at_end = cc in cc
line_end (suc n) (d ∷ c) w w' h = let p : got d [] ≡ at_end = cc in cc

pub line_unread :
    (n : ℕ) (c : List ℕ) (e : Errno) (w w' : Line)
    → pull_from n c w ≡ (unread e, w')
    → Kept taken_of to_come_of w w'
line_unread zero c e w w' h =
    let q : w ≡ w' = cc in record { written_eq = rw (← q) refl; stock_eq = rw (← q) refl }
line_unread (suc n) [] e w w' h =
    let q : w ≡ w' = cc in record { written_eq = rw (← q) refl; stock_eq = rw (← q) refl }
line_unread (suc n) (d ∷ c) e w w' h = let p : got d [] ≡ unread e = cc in cc

pub line-IsStream : IsStream line taken_of to_come_of
line-IsStream = record {
  took_some = line_took;
  took_none = line_unsent;
  got_some = λ n b bs w w' h. line_got n b bs w.to_come w w' h;
  got_end = λ n w w' h. line_end n w.to_come w w' h;
  got_none = λ n e w w' h. line_unread n w.to_come e w w' h;
  polled_in = λ w. record { written_eq = refl; stock_eq = refl };
  allocated = λ n w. record { written_eq = refl; stock_eq = refl };
  applied = λ w. record { written_eq = refl; stock_eq = refl };
}
