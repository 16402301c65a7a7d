-- ===== src/Transport/Sws/RoundTrip.antt =====
-- sws.c: a frame that one side builds, received by the other.
use msgbroker.Prelude.{
  ℕ, zero, suc, ◌+◌, ◌-◌, ◌<◌, ◌≤◌, ◌%◌, ◌≡◌, refl, sym, ap, ap₂, ◌∙◌, Bool, true, false, not,
  Option, none, List, [], ◌∷◌, ◌++◌, length, length-append, take_all, append-nil, append_assoc,
  arith, ltb, ◌==◌, if◌then◌else◌, word32,
}
use msgbroker.Errno.{Errno}
use msgbroker.Memory.Msg.{Msg}
use msgbroker.Core.Pipe.{Answer, yields}
use msgbroker.Utils.Wire.{get_uint32}
use msgbroker.Utils.Wire.RoundTrip.{get-put_uint32}
use msgbroker.Transport.Sinproc.{msg_too_large}
use msgbroker.Transport.Stream.{got}
use msgbroker.Transport.Sws.{Sws, Web, in_hdr, in_body, do_recv, mask, frame, eproto, opcode_binary}
use msgbroker.Transport.Sws.Out.{payload_of}
use msgbroker.Transport.Sws.In.{
  Result, returns, int_max, body_msg, need, is_masked, key_of, hdr_refused, opcode_of, fill,
  unpacked, body_checked, refused, body_done, body_read, unmasked,
}
use msgbroker.Transport.Sws.Recv.{body_started, hdr_taken, hdr_done, hdr_read, first_two, recv_loop}
use msgbroker.Transport.Sws.Hdr.{IsHdr, frame_hdr-IsHdr}
use msgbroker.Transport.Sws.Whole.{
  whole_hdr, sent_payload, frame-append, unmask, sent_length, two_bytes, need_whole,
}

module _ {W : Type 0} (web : Web W) (stock : W → List ℕ) where
  -- The bytes of `stock` have arrived: a read that asks for no more of them gives the first, one
  -- byte at least, and both when it asks for the two that begin a header. And there is memory.
  pub record IsFull : Type 0 where
    pub reads :
        (s : Sws) (n : ℕ) (xs y : List ℕ) (w : W)
        → stock w ≡ xs ++ y
        → length xs ≡ n
        → 0 < n
        → (b : ℕ) × (bs : List ℕ) × (z : List ℕ) × (w' : W) × (do_recv web s n w ≡ (got b bs, w'))
          × (xs ≡ (b ∷ bs) ++ z)
          × (stock w' ≡ z ++ y)
          × (n ≤ 2 → z ≡ [])
    pub allocs : (n : ℕ) (w : W) → (w' : W) × (web.os.alloc n w ≡ (true, w')) × (stock w' ≡ stock w)

  -- The message is handed over, the bytes behind the frame are left, and the session awaits the next
  -- header.
  abbrev pub Ends : List ℕ → List ℕ → Result (Answer Msg × Sws × W) → Type 0
  Ends body rest r =
      (s' : Sws) × (w' : W) × (r ≡ returns (yields (body_msg body), s', w'))
      × (stock w' ≡ rest)
      × (s'.inhdr ≡ [])
      × (s'.instate ≡ in_hdr)

module _ {W : Type 0} (web : Web W) (callback : Sws → W → Sws × W) (stock : W → List ℕ)
    (full : IsFull web stock) where
  unpacked-Ends :
      (s : Sws) (body : List ℕ) (w : W)
      → Ends web stock body (stock w) (unpacked web callback s (payload_of body) (length body) w)
  unpacked-Ends s [] w = (_, w, refl, refl, refl, refl)
  unpacked-Ends s (b ∷ bs) w =
      let (w', e, f) = full.allocs (suc (length bs)) w in
      let z : (suc (length bs) == 0) ≡ false = ground arith in
      rw z (rw e (rw (take_all bs) (_, w', refl, f, refl, refl)))

  body_checked-Ends :
      (s : Sws) (body : List ℕ) (w : W)
      → s.payload_len ≡ 4 + length body
      → length body + 4 ≤ int_max
      → msg_too_large s.rcvmaxsize (length body) ≡ false
      → Ends web stock body (stock w) (body_checked web callback s (payload_of body) w)
  body_checked-Ends s body w e l f =
      let n : get_uint32 (payload_of body) ≡ length body =
        get-put_uint32 (length body % word32) body (omega arith) ∙ omega (arith, l) in
      let a : ltb s.payload_len 4 ≡ false = ground (arith, e) in
      let b : ltb (s.payload_len - 4) (length body) ≡ false = ground (arith, e) in
      rw n (simp (a, b, f) (unpacked-Ends s body w))

  body_done-Ends :
      (s : Sws) (body : List ℕ) (w : W)
      → length s.inmsg ≡ s.payload_len
      → unmasked web callback s ≡ payload_of body
      → s.payload_len ≡ 4 + length body
      → length body + 4 ≤ int_max
      → msg_too_large s.rcvmaxsize (length body) ≡ false
      → Ends web stock body (stock w) (body_done web callback s w)
  body_done-Ends s body w i u e l f =
      let a : ltb (length s.inmsg) s.payload_len ≡ false = ground (arith, i) in
      simp (a, u) (body_checked-Ends s body w e l f)

  -- The loop of reads goes on until all bytes are there, however few a read gives.
  fill-full :
      (f left : ℕ) (s : Sws) (bytes bs y : List ℕ) (w : W)
      → length bs ≡ left
      → left ≤ f
      → stock w ≡ bs ++ y
      → (w' : W) × (fill web callback f s left bytes w ≡ (none, bytes ++ bs, w')) × (stock w' ≡ y)
  unfolding fill
  fill-full f zero s bytes [] y w l k e = (w, ap (λ t. (none, t, w)) (sym (append-nil bytes)), e)
  fill-full f zero s bytes (b ∷ bs) y w l k e = absurd (omega (arith, l))
  fill-full zero (suc n) s bytes bs y w l k e = absurd (omega arith)
  fill-full (suc f) (suc n) s bytes bs y w l k e =
      let (b, cs, z, w1, r, p, q, u) = full.reads s (suc n) bs y w e l (omega arith) in
      let m : length bs ≡ length (b ∷ cs) + length z = ap length p ∙ length-append (b ∷ cs) z in
      let (w2, a, g) =
        fill-full f (suc n - length (b ∷ cs)) s (bytes ++ (b ∷ cs)) z y w1 (omega (arith, m, l))
          (omega arith) q in
      let t : (bytes ++ (b ∷ cs)) ++ z ≡ bytes ++ bs =
        append_assoc bytes (b ∷ cs) z ∙ ap (λ x. bytes ++ x) (sym p) in
      (w2, rw r (a ∙ ap (λ x. (none, x, w2)) t), g)

  body_read-Ends :
      (s : Sws) (p body y : List ℕ) (w : W) (x : Option Errno × List ℕ × W)
      → x ≡ (none, p, w)
      → stock w ≡ y
      → Ends web stock body (stock w) (body_read web callback s (none, p, w))
      → Ends web stock body y (body_read web callback s x)
  body_read-Ends s p body y w x e f k = rw (e, ← f) k

  body_started-Ends :
      (s : Sws) (p body y : List ℕ) (w : W) (x : Bool × W)
      → x ≡ (true, w)
      → stock w ≡ p ++ y
      → length p ≡ s.payload_len
      → (if is_masked s.inhdr then mask s.mask_key 0 p else p) ≡ payload_of body
      → s.payload_len ≡ 4 + length body
      → length body + 4 ≤ int_max
      → msg_too_large s.rcvmaxsize (length body) ≡ false
      → Ends web stock body y (body_started web callback s x)
  body_started-Ends s p body y w x e g i u l m f =
      let t = record s { inmsg = []; inpos = 0; instate = in_body } in
      let n = s.payload_len - 0 in
      let (w', a, b) = fill-full n n t [] p y w (omega (arith, i)) (omega arith) g in
      rw e (
        body_read-Ends t p body y w' _ a b
          (body_done-Ends (record t { inmsg = p; inpos = 0 + length p }) body w' i u l m f))

  hdr_taken-Ends :
      (next : Sws → W → Result (Answer Msg × Sws × W)) (s : Sws) (p body y : List ℕ) (w : W)
      → opcode_of s.inhdr ≡ opcode_binary
      → stock w ≡ p ++ y
      → length p ≡ s.payload_len
      → (if is_masked s.inhdr then mask s.mask_key 0 p else p) ≡ payload_of body
      → s.payload_len ≡ 4 + length body
      → length body + 4 ≤ int_max
      → msg_too_large s.rcvmaxsize (length body) ≡ false
      → Ends web stock body y (hdr_taken web callback next s w)
  hdr_taken-Ends next s p body y w o g i u l m f =
      let (w', a, b) = full.allocs s.payload_len w in
      let c : ltb s.payload_len 4 ≡ false = ground (arith, l) in
      let d : msg_too_large s.rcvmaxsize (s.payload_len - 4) ≡ false =
        ap (msg_too_large s.rcvmaxsize) {x = s.payload_len - 4} {y = length body} (omega (arith, l))
        ∙ f in
      simp (o, c, d) (body_started-Ends s p body y w' _ a (b ∙ g) i u l m f)

  -- The header is whole, and it is that of the frame.
  hdr_done-Ends :
      (next : Sws → W → Result (Answer Msg × Sws × W)) (c : Bool) (key : List ℕ) (s : Sws)
      (body y : List ℕ) (w : W)
      → s.is_client ≡ not c
      → length key ≡ 4
      → s.inhdr ≡ whole_hdr c key (length (payload_of body))
      → stock w ≡ sent_payload c key (payload_of body) ++ y
      → length body + 4 ≤ int_max
      → msg_too_large s.rcvmaxsize (length body) ≡ false
      → Ends web stock body y (hdr_done web callback next s w)
  hdr_done-Ends next c key s body y w r l e g m f =
      let payload = payload_of body in
      let k : IsHdr c opcode_binary (length payload) s.inhdr = rw e (
        frame_hdr-IsHdr c opcode_binary (length payload) (if c then key else []) (omega arith) refl
          (omega (arith, m))) in
      let t = record s { payload_len = length payload; mask_key = key_of s s.inhdr } in
      let a : hdr_refused s.is_client s.inhdr ≡ false =
        ap (λ d. hdr_refused d s.inhdr) r ∙ k.from_peer in
      simp (a, k.len_eq)
        (hdr_taken-Ends next t (sent_payload c key payload) body y w k.opcode_eq g
          (sent_length c key payload) (unmask c key payload s s.inhdr l e k) (omega arith) m f)

  pair_split :
      (a b c : ℕ) (cs z : List ℕ) → z ≡ [] → a ∷ b ∷ [] ≡ (c ∷ cs) ++ z → (c ≡ a) × (cs ≡ b ∷ [])
  pair_split a b c cs z e p =
      let q : a ∷ b ∷ [] ≡ c ∷ cs = p ∙ ap (λ t. (c ∷ cs) ++ t) e ∙ append-nil (c ∷ cs) in (cc, cc)

  first_read :
      (s : Sws) (a b : ℕ) (y : List ℕ) (w : W)
      → stock w ≡ (a ∷ b ∷ []) ++ y
      → (w' : W) × (do_recv web s 2 w ≡ (got a (b ∷ []), w')) × (stock w' ≡ y)
  first_read s a b y w e =
      let (c, cs, z, w1, r, p, q, u) = full.reads s 2 (a ∷ b ∷ []) y w e refl (omega arith) in
      let v : z ≡ [] = u (omega arith) in
      let h = pair_split a b c cs z v p in
      (w1, r ∙ ap₂ (λ x xs. (got x xs, w1)) h.0 h.1, q ∙ ap (λ t. t ++ y) v)

  -- The loop comes to the point where the whole header of a frame has been read, whoever sent it.
  hdr_arrives :
      (fuel : ℕ) (c : Bool) (key body rest : List ℕ) (s : Sws) (w : W)
      → length key ≡ 4
      → length body + 4 ≤ int_max
      → stock w ≡ frame c key opcode_binary (payload_of body) ++ rest
      → (v : W) × (recv_loop web callback (suc fuel) (record s { inhdr = []; instate = in_hdr }) w
          ≡ hdr_done web callback
              (λ s' w'. recv_loop web callback fuel s' w')
              (record s { inhdr = whole_hdr c key (length (payload_of body)); instate = in_hdr })
              v)
        × (stock v ≡ sent_payload c key (payload_of body) ++ rest)
  unfolding recv_loop
  hdr_arrives fuel c key body rest s w l m e =
      let len = length (payload_of body) in
      let p = sent_payload c key (payload_of body) in
      let (a, b, t, h) = two_bytes c len in
      let hs = t ++ (if c then key else []) in
      let whole : (a ∷ b ∷ hs) ≡ whole_hdr c key len =
        ap (λ x. x ++ (if c then key else [])) (sym h) in
      let k : IsHdr c opcode_binary len (a ∷ b ∷ hs) = rw whole (
        frame_hdr-IsHdr c opcode_binary len (if c then key else []) (omega arith) refl
          (omega (arith, m))) in
      let size : length hs ≡ need (a ∷ b ∷ []) - 2 =
        omega (arith, need_whole c key len (a ∷ b ∷ hs) l whole k) in
      let g : stock w ≡ (a ∷ b ∷ []) ++ (hs ++ (p ++ rest)) =
        e
        ∙ ap (λ x. x ++ rest) (frame-append c key (payload_of body) ∙ ap (λ x. x ++ p) (sym whole))
        ∙ append_assoc (a ∷ b ∷ hs) p rest in
      let next = λ (s' : Sws) (w' : W). recv_loop web callback fuel s' w' in
      let s0 = record s { inhdr = []; instate = in_hdr } in
      let s1 = record s0 { inhdr = a ∷ b ∷ [] } in
      let (w1, e1, g1) = first_read s0 a b (hs ++ (p ++ rest)) w g in
      let n = need (a ∷ b ∷ []) - 2 in
      let (w2, e2, g2) = fill-full n n s1 [] hs (p ++ rest) w1 size (omega arith) g1 in
      (
        w2,
        ap (λ x. first_two web callback next s0 x) e1
            ∙ ap (λ x. hdr_read web callback next s1 x) e2
            ∙ ap (λ x. hdr_done web callback next (record s0 { inhdr = x }) w2) whole,
        g2,
      )

  -- A session that awaits a header takes a frame in one round, whatever it was doing before. When the
  -- frame that the other side builds for a message has arrived, a read gives one byte of it at
  -- least and the first two together, every allocation succeeds, and the receiver's limit admits
  -- the message, the receiver hands over its body, leaves the bytes behind the frame, and awaits the next
  -- header: for a masked frame of a client and for a plain one of a server, whatever the key, and
  -- whichever form the length takes.
  pub recv_loop-frame :
      (fuel : ℕ) (c : Bool) (key body rest : List ℕ) (s : Sws) (w : W)
      → s.is_client ≡ not c
      → length key ≡ 4
      → length body + 4 ≤ int_max
      → msg_too_large s.rcvmaxsize (length body) ≡ false
      → stock w ≡ frame c key opcode_binary (payload_of body) ++ rest
      → Ends web stock body rest
          (recv_loop web callback (suc fuel) (record s { inhdr = []; instate = in_hdr }) w)
  recv_loop-frame fuel c key body rest s w r l m f e =
      let (v, a, g) = hdr_arrives fuel c key body rest s w l m e in
      rw a (
        hdr_done-Ends (λ s' w'. recv_loop web callback fuel s' w') c key
          (record s { inhdr = whole_hdr c key (length (payload_of body)); instate = in_hdr }) body
          rest v r l refl g m f)

  -- A frame of the receiver's own side, masked or plain like its own frames, is a breach of the
  -- protocol: the receiver reports the error and returns -EPROTO once the header has come.
  pub recv_loop-own_side :
      (fuel : ℕ) (c : Bool) (key body rest : List ℕ) (s : Sws) (w : W)
      → s.is_client ≡ c
      → length key ≡ 4
      → length body + 4 ≤ int_max
      → stock w ≡ frame c key opcode_binary (payload_of body) ++ rest
      → (t : Sws) × (v : W) × (recv_loop web callback
            (suc fuel)
            (record s { inhdr = []; instate = in_hdr })
            w
          ≡ refused web callback eproto t v)
        × (stock v ≡ sent_payload c key (payload_of body) ++ rest)
        × (t ≡ record s { inhdr = whole_hdr c key (length (payload_of body)); instate = in_hdr })
  recv_loop-own_side fuel c key body rest s w r l m e =
      let (v, a, g) = hdr_arrives fuel c key body rest s w l m e in
      let h = whole_hdr c key (length (payload_of body)) in
      let k : IsHdr c opcode_binary (length (payload_of body)) h =
        frame_hdr-IsHdr c opcode_binary (length (payload_of body)) (if c then key else [])
          (omega arith) refl (omega (arith, m)) in
      let d : hdr_refused s.is_client h ≡ true = ap (λ d. hdr_refused d h) r ∙ k.from_own in
      (record s { inhdr = h; instate = in_hdr }, v, a ∙ simp d refl, g, refl)
