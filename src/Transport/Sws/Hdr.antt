-- ===== src/Transport/Sws/Hdr.antt =====
-- sws.c: the header that one side builds, read by the other.
use Prim.Native.Nat.{bit_or}
use msgbroker.Prelude.{
  ℕ, zero, suc, ◌+◌, ◌/◌, ◌%◌, ◌^◌, ◌≤◌, ◌<◌, ◌≡◌, refl, sym, ap, ◌∙◌, Bool, true, false, not, List,
  [], ◌∷◌, ◌++◌, length, arith, ltb, leb, ◌==◌, lt→ltb, ltb→lt, leb→le, Bool-cases, inl, inr,
  if◌then◌else◌,
}
use msgbroker.Prelude.Bits.{bit_or_disjoint}
use msgbroker.Core.Pipe.{yields}
use msgbroker.Utils.Wire.{put_uint16, put_uint32}
use msgbroker.Utils.Wire.RoundTrip.{get-put_uint16, get-put_uint32}
use msgbroker.Transport.Sws.{frame_hdr, len_byte, fin_bit}
use msgbroker.Transport.Sws.In.{
  int_max, opcode_of, is_final, rsv_of, is_masked, hdr_used, is_known, payload_len_of, hdr_refused,
}

-- Two functions give the same below a bound.
agree : (f g : ℕ → ℕ) → ℕ → Bool
agree f g zero = true
agree f g (suc bound) = if f bound == g bound then agree f g bound else false

agree-at : (f g : ℕ → ℕ) (bound n : ℕ) → agree f g bound ≡ true → n < bound → f n ≡ g n
unfolding agree
agree-at f g zero n e l = absurd (omega (arith, l))
agree-at f g (suc bound) n e l = elim (Bool-cases (n == bound)) [
  | inl same ↦ let eq : n ≡ bound = ground (arith, same) in rw eq (ground (arith, e))
  | inr other ↦ agree-at f g bound n (ground (arith, e)) (ground (arith, other))
]

-- The mark of a mask is a bit that no length has.
len_byte-true : (n : ℕ) → n < 128 → len_byte true n ≡ n + 128
unfolding agree
len_byte-true n h = agree-at (λ n. bit_or n 128) (λ n. n + 128) 128 n refl h

fin_bit_opcode : (opcode : ℕ) → opcode < 128 → bit_or fin_bit opcode ≡ 128 + opcode
fin_bit_opcode opcode h = bit_or_disjoint 7 1 opcode h

-- What the second byte of a header says.
record IsSecond (c : Bool) (n b : ℕ) : Type 0 where
  low : b % 128 ≡ n
  high : (b / 128 % 2 == 1) ≡ c

len_byte-IsSecond : (c : Bool) (n : ℕ) → n < 128 → IsSecond c n (len_byte c n)
len_byte-IsSecond false n h = record { low = omega (arith, h); high = ground arith }
len_byte-IsSecond true n h =
    rw (len_byte-true n h) (record { low = omega (arith, h); high = ground arith })

-- What the other side makes of a header: the opcode, the side it comes from, the length.
pub record IsHdr (c : Bool) (opcode len : ℕ) (h : List ℕ) : Type 0 where
  pub opcode_eq : opcode_of h ≡ opcode
  pub masked_eq : is_masked h ≡ c
  pub from_peer : hdr_refused (not c) h ≡ false
  pub from_own : hdr_refused c h ≡ true
  pub len_eq : payload_len_of h ≡ yields len
  pub used_eq : hdr_used h ≡ length (frame_hdr c opcode len)

-- The tests that do not look at the length.
record IsStart (c : Bool) (opcode : ℕ) (h : List ℕ) : Type 0 where
  opcode_eq : opcode_of h ≡ opcode
  masked_eq : is_masked h ≡ c
  from_peer : hdr_refused (not c) h ≡ false
  from_own : hdr_refused c h ≡ true

refused_by :
    (c d : Bool) (h : List ℕ)
    → is_masked h ≡ c
    → rsv_of h ≡ 0
    → is_final h ≡ true
    → is_known (opcode_of h) ≡ true
    → hdr_refused d h ≡ (if d then c else not c)
refused_by true true h a b e f = rw a refl
refused_by true false h a b e f = simp (a, b, e, f) refl
refused_by false true h a b e f = simp (a, b, e, f) refl
refused_by false false h a b e f = rw a refl

other_side : (c : Bool) → (if not c then c else not c) ≡ false
other_side true = refl
other_side false = refl

own_side : (c : Bool) → (if c then c else not c) ≡ true
own_side true = refl
own_side false = refl

fin_bit-IsStart :
    (c : Bool) (opcode n b : ℕ) (rest : List ℕ)
    → opcode < 16
    → is_known opcode ≡ true
    → IsSecond c n b
    → IsStart c opcode (bit_or fin_bit opcode ∷ b ∷ rest)
fin_bit-IsStart c opcode n b rest l k t =
    let h = bit_or fin_bit opcode ∷ b ∷ rest in
    let a = fin_bit_opcode opcode (omega (arith, l)) in
    let o : opcode_of h ≡ opcode = omega (arith, a, l) in
    let r : rsv_of h ≡ 0 = omega (arith, a, l) in
    let f : is_final h ≡ true = ground (arith, a) in
    let known : is_known (opcode_of h) ≡ true = ap is_known o ∙ k in
    record {
      opcode_eq = o;
      masked_eq = t.high;
      from_peer = refused_by c (not c) h t.high r f known ∙ other_side c;
      from_own = refused_by c c h t.high r f known ∙ own_side c;
    }

-- The three forms of the length.
short_len :
    (a b n : ℕ) (rest : List ℕ) (c : Bool)
    → IsSecond c n b
    → n < 126
    → (payload_len_of (a ∷ b ∷ rest) ≡ yields n) × (hdr_used (a ∷ b ∷ rest) ≡ 2)
short_len a b n rest c t l = (rw (t.low, lt→ltb n 126 l) refl, ground (arith, t.low))

two_byte_len :
    (a b n : ℕ) (rest : List ℕ) (c : Bool)
    → IsSecond c 126 b
    → n < 2 ^ 16
    → (payload_len_of (a ∷ b ∷ (put_uint16 n ++ rest)) ≡ yields n)
      × (hdr_used (a ∷ b ∷ (put_uint16 n ++ rest)) ≡ 4)
two_byte_len a b n rest c t l = (rw t.low (ap yields (get-put_uint16 n rest l)), rw t.low refl)

eight_byte_len :
    (a b n : ℕ) (rest : List ℕ) (c : Bool)
    → IsSecond c 127 b
    → n ≤ int_max
    → (payload_len_of (a ∷ b ∷ 0 ∷ 0 ∷ 0 ∷ 0 ∷ (put_uint32 n ++ rest)) ≡ yields n)
      × (hdr_used (a ∷ b ∷ 0 ∷ 0 ∷ 0 ∷ 0 ∷ (put_uint32 n ++ rest)) ≡ 10)
eight_byte_len a b n rest c t l =
    let e = get-put_uint32 n rest (omega (arith, l)) in
    let small : ltb int_max n ≡ false = ground (arith, l) in
    (rw t.low (rw e (rw small refl)), rw t.low refl)

whole_hdr :
    (c : Bool) (opcode len : ℕ) (x h : List ℕ)
    → frame_hdr c opcode len ≡ x
    → IsStart c opcode h
    → (payload_len_of h ≡ yields len) × (hdr_used h ≡ length x)
    → IsHdr c opcode len h
whole_hdr c opcode len x h d s (e, f) = record {
  opcode_eq = s.opcode_eq;
  masked_eq = s.masked_eq;
  from_peer = s.from_peer;
  from_own = s.from_own;
  len_eq = e;
  used_eq = f ∙ ap length (sym d);
}

short_form :
    (c : Bool) (opcode len : ℕ)
    → ltb len 126 ≡ true
    → frame_hdr c opcode len ≡ bit_or fin_bit opcode ∷ len_byte c len ∷ []
unfolding frame_hdr
short_form c opcode len y = rw y refl

two_byte_form :
    (c : Bool) (opcode len : ℕ)
    → ltb len 126 ≡ false
    → leb len 65535 ≡ true
    → frame_hdr c opcode len ≡ bit_or fin_bit opcode ∷ len_byte c 126 ∷ put_uint16 len
unfolding frame_hdr
two_byte_form c opcode len y z = rw (y, z) refl

eight_byte_form :
    (c : Bool) (opcode len : ℕ)
    → ltb len 126 ≡ false
    → leb len 65535 ≡ false
    → frame_hdr c opcode len
      ≡ bit_or fin_bit opcode ∷ len_byte c 127 ∷ 0 ∷ 0 ∷ 0 ∷ 0 ∷ put_uint32 len
unfolding frame_hdr
eight_byte_form c opcode len y z = rw (y, z) refl

-- The header of a frame of a known opcode, whatever the form of its length, tells the other side the
-- opcode and the length, and says which side it comes from: it is accepted by the other side, and
-- refused by a peer of the same side.
pub frame_hdr-IsHdr :
    (c : Bool) (opcode len : ℕ) (key : List ℕ)
    → opcode < 16
    → is_known opcode ≡ true
    → len ≤ int_max
    → IsHdr c opcode len (frame_hdr c opcode len ++ key)
frame_hdr-IsHdr c opcode len key l k m =
    let a = bit_or fin_bit opcode in
    elim (Bool-cases (ltb len 126)) [
      | inl y ↦
          let t = len_byte-IsSecond c len (omega (arith, ltb→lt len 126 y)) in
          let e = short_form c opcode len y in
          rw e (
            whole_hdr c opcode len _ _ e (fin_bit-IsStart c opcode len (len_byte c len) key l k t)
              (short_len a (len_byte c len) len key c t (ltb→lt len 126 y)))
      | inr y ↦ elim (Bool-cases (leb len 65535)) [
        | inl z ↦
            let t = len_byte-IsSecond c 126 (omega arith) in
            let e = two_byte_form c opcode len y z in
            rw e (
              whole_hdr c opcode len _ _ e
                (fin_bit-IsStart c opcode 126 (len_byte c 126) (put_uint16 len ++ key) l k t)
                (two_byte_len a (len_byte c 126) len key c t (omega (arith, leb→le len 65535 z))))
        | inr z ↦
            let t = len_byte-IsSecond c 127 (omega arith) in
            let e = eight_byte_form c opcode len y z in
            rw e (
              whole_hdr c opcode len _ _ e
                (fin_bit-IsStart c opcode 127 (len_byte c 127)
                  (0 ∷ 0 ∷ 0 ∷ 0 ∷ (put_uint32 len ++ key)) l k t)
                (eight_byte_len a (len_byte c 127) len key c t m))
      ]
    ]
