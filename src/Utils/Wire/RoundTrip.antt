-- ===== src/Utils/Wire/RoundTrip.antt =====
-- wire.h: what is put is got back.
use Prim.Native.Nat.{bit_or}
use msgbroker.Prelude.{
  ℕ, ◌+◌, ◌*◌, ◌/◌, ◌%◌, ◌^◌, ◌<◌, ◌≡◌, refl, ap, ap₂, ◌∙◌, List, ◌++◌, arith, word32, word64,
}
use msgbroker.Prelude.Bits.{bit_or_disjoint}
use msgbroker.Utils.Wire.{
  put_uint16, put_uint32, put_uint64, get_uint16, get_uint32, get_uint64, shl32, shl64,
}

-- One more field below those that are in place.
or_next : (k a b x y : ℕ) → a ≡ x * 2 ^ k → b ≡ y → y < 2 ^ k → bit_or a b ≡ x * 2 ^ k + y
or_next k a b x y e f h = ap₂ bit_or e f ∙ bit_or_disjoint k x y h

-- What `mb_wire_put_uint32` stores, `mb_wire_get_uint32` gives back, for every 32-bit value.
pub get-put_uint32 : (v : ℕ) (rest : List ℕ) → v < word32 → get_uint32 (put_uint32 v ++ rest) ≡ v
get-put_uint32 v rest h =
    let a = v / 2 ^ 24 % 256 in
    let b = v / 2 ^ 16 % 256 in
    let c = v / 2 ^ 8 % 256 in
    let d = v % 256 in
    let s1 =
      or_next 24 (shl32 a 24) (shl32 b 16) a (b * 2 ^ 16) (omega arith) (omega arith)
        (omega arith) in
    let s2 =
      or_next 16 _ (shl32 c 8) (a * 256 + b) (c * 2 ^ 8) (s1 ∙ omega arith) (omega arith)
        (omega arith) in
    let s3 = or_next 8 _ d ((a * 256 + b) * 256 + c) d (s2 ∙ omega arith) refl (omega arith) in
    s3 ∙ omega (arith, h)

pub get-put_uint16 : (v : ℕ) (rest : List ℕ) → v < 2 ^ 16 → get_uint16 (put_uint16 v ++ rest) ≡ v
get-put_uint16 v rest h =
    let a = v / 2 ^ 8 % 256 in
    let s1 = or_next 8 (a * 2 ^ 8) (v % 256) a (v % 256) refl refl (omega arith) in
    ap (λ t. t % 2 ^ 16) s1 ∙ omega (arith, h)

-- What `mb_wire_put_uint64` stores, `mb_wire_get_uint64` gives back, for every 64-bit value.
pub get-put_uint64 : (v : ℕ) (rest : List ℕ) → v < word64 → get_uint64 (put_uint64 v ++ rest) ≡ v
get-put_uint64 v rest h =
    let s1 =
      or_next 56 (shl64 (v / 2 ^ 56 % 256) 56) (shl64 (v / 2 ^ 48 % 256) 48) (v / 2 ^ 56)
        (v / 2 ^ 48 % 256 * 2 ^ 48) (omega arith) (omega arith) (omega arith) in
    let s2 =
      or_next 48 _ (shl64 (v / 2 ^ 40 % 256) 40) (v / 2 ^ 48) (v / 2 ^ 40 % 256 * 2 ^ 40)
        (s1 ∙ omega arith) (omega arith) (omega arith) in
    let s3 =
      or_next 40 _ (shl64 (v / 2 ^ 32 % 256) 32) (v / 2 ^ 40) (v / 2 ^ 32 % 256 * 2 ^ 32)
        (s2 ∙ omega arith) (omega arith) (omega arith) in
    let s4 =
      or_next 32 _ (shl64 (v / 2 ^ 24 % 256) 24) (v / 2 ^ 32) (v / 2 ^ 24 % 256 * 2 ^ 24)
        (s3 ∙ omega arith) (omega arith) (omega arith) in
    let s5 =
      or_next 24 _ (shl64 (v / 2 ^ 16 % 256) 16) (v / 2 ^ 24) (v / 2 ^ 16 % 256 * 2 ^ 16)
        (s4 ∙ omega arith) (omega arith) (omega arith) in
    let s6 =
      or_next 16 _ (shl64 (v / 2 ^ 8 % 256) 8) (v / 2 ^ 16) (v / 2 ^ 8 % 256 * 2 ^ 8)
        (s5 ∙ omega arith) (omega arith) (omega arith) in
    let s7 = or_next 8 _ (v % 256) (v / 2 ^ 8) (v % 256) (s6 ∙ omega arith) refl (omega arith) in
    s7 ∙ omega arith
