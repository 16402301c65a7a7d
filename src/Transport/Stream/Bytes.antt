-- ===== src/Transport/Stream/Bytes.antt =====
-- What a session relies on: a descriptor is a reliable stream of bytes.
use msgbroker.Prelude.{ℕ, suc, ◌≤◌, ◌≡◌, List, ◌∷◌, ◌++◌, length, take}
use msgbroker.Errno.{Errno}
use msgbroker.Transport.Stream.{Stream, took, unsent, got, at_end, unread}

module _ {W : Type 0} where
  -- The bytes sent so far, and the bytes to come, are the same.
  pub record Kept (written stock : W → List ℕ) (w w' : W) : Type 0 where
    pub written_eq : written w' ≡ written w
    pub stock_eq : stock w' ≡ stock w

  -- `written` is the bytes that the descriptor has taken, and `stock` those that it will still give.
  pub record IsStream (os : Stream W) (written stock : W → List ℕ) : Type 0 where
    pub took_some :
        (b : ℕ) (bs : List ℕ) (n : ℕ) (w w' : W)
        → os.send (b ∷ bs) w ≡ (took n, w')
        → (n ≤ length bs) × (written w' ≡ written w ++ (b ∷ take n bs)) × (stock w' ≡ stock w)
    pub took_none :
        (bs : List ℕ) (e : Errno) (w w' : W)
        → os.send bs w ≡ (unsent e, w')
        → Kept written stock w w'
    pub got_some :
        (n b : ℕ) (bs : List ℕ) (w w' : W)
        → os.recv n w ≡ (got b bs, w')
        → (suc (length bs) ≤ n) × (stock w ≡ (b ∷ bs) ++ stock w') × (written w' ≡ written w)
    pub got_end : (n : ℕ) (w w' : W) → os.recv n w ≡ (at_end, w') → Kept written stock w w'
    pub got_none :
        (n : ℕ) (e : Errno) (w w' : W) → os.recv n w ≡ (unread e, w') → Kept written stock w w'
    pub polled_in : (w : W) → Kept written stock w (os.poll_in w).1
    pub allocated : (n : ℕ) (w : W) → Kept written stock w (os.alloc n w).1
    pub applied : (w : W) → Kept written stock w (os.apply_bufs w)
