-- ===== src/Transport/Sipc/Channel.antt =====
-- sipc.c: the frames of messages that follow one another on a stream.
use msgbroker.Prelude.{
  ℕ, ◌<◌, ◌%◌, ◌≡◌, refl, sym, ap, ap₂, ◌∙◌, List, [], ◌∷◌, ◌++◌, length, append-nil, append_assoc,
  arith, word32, All, ◌≢◌,
}
use msgbroker.Utils.Wire.{put_uint32, get_uint32}
use msgbroker.Utils.Wire.RoundTrip.{get-put_uint32}
use msgbroker.Transport.Sipc.{frame}
use msgbroker.Transport.Sipc.Coming.{IsFrame}

-- The frames of some bodies, one behind the other.
abbrev pub encode : List (List ℕ) → List ℕ
encode [] = []
encode (b ∷ bs) = frame b ++ encode bs

-- The bytes begin with frames of these bodies, and the others follow.
pub data Frames : List (List ℕ) → List ℕ → List ℕ → Type 0 where
  no_more : (bytes : List ℕ) → Frames [] bytes bytes
  one_more :
      (h b bytes : List ℕ) (bs : List (List ℕ)) (rest : List ℕ)
      → IsFrame h b
      → Frames bs bytes rest
      → Frames (b ∷ bs) (h ++ b ++ bytes) rest

pub Frames-same :
    (ms : List (List ℕ)) (x y rest : List ℕ) → x ≡ y → Frames ms x rest → Frames ms y rest
Frames-same ms x y rest e f = rw (← e) f

-- The size of a body is written into 32 bits.
abbrev pub IsShort : List ℕ → Type 0
IsShort b = length b < word32

tail_eq : (a b : ℕ) (xs ys : List ℕ) → (a ∷ xs) ≡ (b ∷ ys) → (a ≡ b) × (xs ≡ ys)
tail_eq a b xs ys e = (cc, cc)

-- Two lists that begin with lists of the same length.
pub split_eq :
    (a b : List ℕ) (x y : List ℕ) → length a ≡ length b → a ++ x ≡ b ++ y → (a ≡ b) × (x ≡ y)
split_eq [] [] x y l e = (refl, e)
split_eq [] (b ∷ bs) x y l e = absurd (omega (arith, l))
split_eq (a ∷ c) [] x y l e = absurd (omega (arith, l))
split_eq (a ∷ c) (b ∷ d) x y l e =
    let (p, q) = tail_eq a b (c ++ x) (d ++ y) e in
    let (r, t) = split_eq c d x y (omega (arith, l)) q in (ap₂ ◌∷◌ p r, t)

-- A frame that is read where a frame was written is that frame.
same_frame :
    (h b c x y : List ℕ) → IsFrame h b → IsShort c → h ++ b ++ x ≡ frame c ++ y → (b ≡ c) × (x ≡ y)
same_frame h b c x y k l e =
    let n = length c % word32 in
    let (p, q) =
      split_eq h (put_uint32 n) (b ++ x) (c ++ y) k.hdr_length
        (sym (append_assoc h b x) ∙ e ∙ append_assoc (put_uint32 n) c y) in
    let size : get_uint32 h ≡ n =
      ap get_uint32 (p ∙ sym (append-nil (put_uint32 n)))
      ∙ get-put_uint32 n [] (omega (arith, l)) in
    split_eq b c x y (omega (arith, l, size, k.body_length)) q

nothing_before : (h b x y : List ℕ) → IsFrame h b → h ++ b ++ x ++ y ≢ []
nothing_before [] b x y k = λ e. absurd (omega (arith, k.hdr_length))
nothing_before (a ∷ h) b x y k = λ e. cc

-- Frames that are read from a part of what was written are the first of those written.
pub Frames-encode :
    (ms : List (List ℕ)) (x rest y : List ℕ) (bs : List (List ℕ))
    → Frames ms x rest
    → All IsShort bs
    → x ++ y ≡ encode bs
    → (more : List (List ℕ)) × (ms ++ more ≡ bs)
Frames-encode [] x rest y bs f a e = (bs, refl)
Frames-encode (m ∷ ms) _ rest y [] (one_more h b bytes _ _ k f) a e =
    absurd (nothing_before h b bytes y k e)
Frames-encode (m ∷ ms) _ rest y (c ∷ cs) (one_more h b bytes _ _ k f) (l, a) e =
    let (p, q) =
      same_frame h b c (bytes ++ y) (encode cs) k l (sym (append_assoc (h ++ b) bytes y) ∙ e) in
    let (more, r) = Frames-encode ms bytes rest y cs f a q in (more, ap₂ ◌∷◌ p r)
