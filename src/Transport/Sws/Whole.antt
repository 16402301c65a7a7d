-- ===== src/Transport/Sws/Whole.antt =====
-- sws.c: a whole frame, as the header with its key and the payload as it is sent.
use Prim.Native.Nat.{bit_or}
use msgbroker.Prelude.{
  ℕ, ◌≡◌, refl, sym, ap, ap₂, ◌∙◌, Bool, true, false, List, [], ◌∷◌, ◌++◌, length, length-append,
  take, take_all, drop, append-nil, append_assoc, arith, ltb, leb, Bool-cases, inl, inr,
  if◌then◌else◌,
}
use msgbroker.Utils.Wire.{put_uint16, put_uint32}
use msgbroker.Transport.Sws.{Sws, mask, frame, frame_hdr, fin_bit, len_byte, opcode_binary}
use msgbroker.Transport.Sws.In.{need, hdr_used, is_masked, key_of}
use msgbroker.Transport.Sws.Mask.{mask-mask, length-mask}
use msgbroker.Transport.Sws.Hdr.{IsHdr}

-- The header with its key, and the payload as it is sent.
abbrev pub whole_hdr : Bool → List ℕ → ℕ → List ℕ
whole_hdr c key len = frame_hdr c opcode_binary len ++ (if c then key else [])

abbrev pub sent_payload : Bool → List ℕ → List ℕ → List ℕ
sent_payload c key payload = if c then mask key 0 payload else payload

pub frame-append :
    (c : Bool) (key payload : List ℕ)
    → frame c key opcode_binary payload
      ≡ whole_hdr c key (length payload) ++ sent_payload c key payload
unfolding frame
frame-append true key payload =
    sym (append_assoc (frame_hdr true opcode_binary (length payload)) key (mask key 0 payload))
frame-append false key payload =
    ap (λ t. t ++ payload) (sym (append-nil (frame_hdr false opcode_binary (length payload))))

drop-append : (xs ys : List ℕ) → drop (length xs) (xs ++ ys) ≡ ys
drop-append [] ys = refl
drop-append (x ∷ xs) ys = drop-append xs ys

-- What the receiver holds when the whole frame is there.
pub unmask :
    (c : Bool) (key payload : List ℕ) (s : Sws) (h : List ℕ)
    → length key ≡ 4
    → h ≡ whole_hdr c key (length payload)
    → IsHdr c opcode_binary (length payload) h
    → (if is_masked h
        then mask (key_of s h) 0 (sent_payload c key payload)
        else sent_payload c key payload)
      ≡ payload
unmask false key payload s h l e k = rw k.masked_eq refl
unmask true key payload s h l e k =
    let x = frame_hdr true opcode_binary (length payload) in
    let d : drop (hdr_used h) h ≡ key = ap₂ drop k.used_eq e ∙ drop-append x key in
    let t : take 4 (drop (hdr_used h) h) ≡ key =
      ap (take 4) d ∙ ap (λ n. take n key) (sym l) ∙ take_all key in
    rw k.masked_eq (rw t (mask-mask key 0 payload))

pub sent_length :
    (c : Bool) (key payload : List ℕ) → length (sent_payload c key payload) ≡ length payload
sent_length true key payload = length-mask key 0 payload
sent_length false key payload = refl

-- A header has two bytes at least.
pub two_bytes :
    (c : Bool) (len : ℕ)
    → (a : ℕ) × (b : ℕ) × (t : List ℕ) × (frame_hdr c opcode_binary len ≡ a ∷ b ∷ t)
unfolding frame_hdr
two_bytes c len = elim (Bool-cases (ltb len 126)) [
  | inl y ↦ (bit_or fin_bit opcode_binary, len_byte c len, [], rw y refl)
  | inr y ↦ elim (Bool-cases (leb len 65535)) [
    | inl z ↦ (bit_or fin_bit opcode_binary, len_byte c 126, put_uint16 len, rw (y, z) refl)
    | inr z ↦ (
      bit_or fin_bit opcode_binary,
      len_byte c 127,
      0 ∷ 0 ∷ 0 ∷ 0 ∷ put_uint32 len,
      rw (y, z) refl,
    )
  ]
]

pub need_whole :
    (c : Bool) (key : List ℕ) (len : ℕ) (h : List ℕ)
    → length key ≡ 4
    → h ≡ whole_hdr c key len
    → IsHdr c opcode_binary len h
    → need h ≡ length h
need_whole true key len h l e k =
    rw k.masked_eq (
      omega
        (arith, k.used_eq, l, ap length e, length-append (frame_hdr true opcode_binary len) key))
need_whole false key len h l e k =
    rw k.masked_eq
      (k.used_eq ∙ ap length (sym (append-nil (frame_hdr false opcode_binary len)) ∙ sym e))
