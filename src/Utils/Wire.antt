-- ===== src/Utils/Wire.antt =====
-- src/utils/wire.h: integers in network byte order. A buffer is the list of its bytes; `>> k` is
-- `/ 2 ^ k`, `& 0xff` is `% 256`, and a shift to the left wraps at the width.
pub mod RoundTrip
mod Tests
use Prim.Native.Nat.{bit_or}
use msgbroker.Prelude.{ℕ, ◌*◌, ◌/◌, ◌%◌, ◌^◌, List, [], ◌∷◌, get_or, word32, word64}

abbrev pub put_uint16 : ℕ → List ℕ
put_uint16 v = v / 2 ^ 8 % 256 ∷ v % 256 ∷ []

abbrev pub put_uint32 : ℕ → List ℕ
put_uint32 v = v / 2 ^ 24 % 256 ∷ v / 2 ^ 16 % 256 ∷ v / 2 ^ 8 % 256 ∷ v % 256 ∷ []

abbrev pub put_uint64 : ℕ → List ℕ
put_uint64 v =
    v / 2 ^ 56 % 256
    ∷ v / 2 ^ 48 % 256
    ∷ v / 2 ^ 40 % 256
    ∷ v / 2 ^ 32 % 256
    ∷ v / 2 ^ 24 % 256
    ∷ v / 2 ^ 16 % 256
    ∷ v / 2 ^ 8 % 256
    ∷ v % 256
    ∷ []

abbrev pub byte : List ℕ → ℕ → ℕ
byte buf i = get_or buf i 0

-- In `int`, which holds the 16 bits, and then as a `uint16_t`.
abbrev pub get_uint16 : List ℕ → ℕ
get_uint16 buf = bit_or (byte buf 0 * 2 ^ 8) (byte buf 1) % 2 ^ 16

abbrev pub shl32 : ℕ → ℕ → ℕ
shl32 b k = b * 2 ^ k % word32

abbrev pub get_uint32 : List ℕ → ℕ
get_uint32 buf =
    bit_or (bit_or (bit_or (shl32 (byte buf 0) 24) (shl32 (byte buf 1) 16)) (shl32 (byte buf 2) 8))
      (byte buf 3)

abbrev pub shl64 : ℕ → ℕ → ℕ
shl64 b k = b * 2 ^ k % word64

abbrev pub high_half : List ℕ → ℕ
high_half buf =
    bit_or (bit_or (bit_or (shl64 (byte buf 0) 56) (shl64 (byte buf 1) 48)) (shl64 (byte buf 2) 40))
      (shl64 (byte buf 3) 32)

abbrev pub get_uint64 : List ℕ → ℕ
get_uint64 buf =
    bit_or
      (bit_or (bit_or (bit_or (high_half buf) (shl64 (byte buf 4) 24)) (shl64 (byte buf 5) 16))
        (shl64 (byte buf 6) 8))
      (byte buf 7)
