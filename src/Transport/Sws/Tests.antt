-- ===== src/Transport/Sws/Tests.antt =====
-- sws.c: tests.
use msgbroker.Prelude.{
  ℕ, zero, suc, ◌+◌, ◌<◌, ◌≤◌, ◌≡◌, refl, sym, ap, ◌∙◌, append-nil, true, false, some, List, [],
  ◌∷◌, ◌++◌, arith, length, take, drop, inl, inr, Bool-cases,
}
use msgbroker.Errno.{ok, eagain}
use msgbroker.Transport.Stream.{Taken, took, unsent, Got, got, at_end, unread, ready}
use msgbroker.Transport.Sws.{
  Sws, Web, SslGot, ssl_got, zero_return, read_want, write_want, create, do_recv, frame, frame_hdr,
  mask, build_frame, in_hdr, opcode_binary, eproto,
}
use msgbroker.Transport.Sws.Out.{payload_of, send_raw, send_from, send_frame, flush_pending_pong}
use msgbroker.Transport.Sws.In.{refused}
use msgbroker.Transport.Sws.Recv.{recv_loop}
use msgbroker.Transport.Sws.RoundTrip.{IsFull, Ends, recv_loop-frame, recv_loop-own_side}
use msgbroker.Transport.Sws.Whole.{whole_hdr, sent_payload}

-- A connection on which all bytes to come have arrived, and which takes `room` bytes, one at a time,
-- before it says -EAGAIN.
pub record Line : Type 0 where
  pub taken : List ℕ
  pub to_come : List ℕ
  pub room : ℕ

abbrev put_in : ℕ → List ℕ → Line → Taken × Line
put_in room [] w = (unsent eagain, w)
put_in zero (b ∷ bs) w = (unsent eagain, w)
put_in (suc n) (b ∷ bs) w = (took 0, record w { taken = w.taken ++ (b ∷ []); room = n })

abbrev given : ℕ → List ℕ → Line → Got × Line
given n [] w = (unread eagain, w)
given n (b ∷ bs) w = (got b bs, record w { to_come = drop n w.to_come })

abbrev give : ℕ → Line → Got × Line
give n w = given n (take n w.to_come) w

abbrev as_ssl : Got × Line → SslGot × Line
as_ssl (got b bs, w) = (ssl_got b bs, w)
as_ssl (at_end, w) = (zero_return, w)
as_ssl (unread e, w) = (read_want, w)

abbrev web : Web Line
web = record {
  os = record {
    send = λ bytes w. put_in w.room bytes w;
    recv = give;
    poll_in = λ w. (ready, w);
    poll_out = λ n w. (ready, w);
    clock_ms = λ w. (0, w);
    alloc = λ n w. (true, w);
    apply_bufs = λ w. w;
    close = λ w. w;
    pipebase_start = λ w. (ok 0, w);
    pipebase_stop = λ w. w;
  };
  ssl_read = λ n w. as_ssl (give n w);
  ssl_write = λ bytes w. (write_want, w);
  ssl_pending = λ w. false;
  ssl_get_fd = λ w. true;
  ssl_free = λ w. w;
  rand = λ w. (1 + length w.taken, w);
}

abbrev stock : Line → List ℕ
stock w = w.to_come

take-append : (xs ys : List ℕ) → take (length xs) (xs ++ ys) ≡ xs
take-append [] ys = refl
take-append (x ∷ xs) ys = ap (◌∷◌ x) (take-append xs ys)

drop-append : (xs ys : List ℕ) → drop (length xs) (xs ++ ys) ≡ ys
drop-append [] ys = refl
drop-append (x ∷ xs) ys = drop-append xs ys

given-take :
    (n b : ℕ) (bs y x : List ℕ) (w : Line)
    → w.to_come ≡ (b ∷ bs) ++ y
    → length (b ∷ bs) ≡ n
    → x ≡ take n w.to_come
    → given n x w ≡ (got b bs, record w { to_come = y })
given-take n b bs y x w e l t =
    let p : take n w.to_come ≡ b ∷ bs = rw (e, ← l) (take-append (b ∷ bs) y) in
    let q : drop n w.to_come ≡ y = rw (e, ← l) (drop-append (b ∷ bs) y) in rw (t ∙ p, q) refl

web-reads :
    (s : Sws) (n : ℕ) (xs y : List ℕ) (w : Line)
    → w.to_come ≡ xs ++ y
    → length xs ≡ n
    → 0 < n
    → (b : ℕ) × (bs : List ℕ) × (z : List ℕ) × (w' : Line) × (do_recv web s n w ≡ (got b bs, w'))
      × (xs ≡ (b ∷ bs) ++ z)
      × (w'.to_come ≡ z ++ y)
      × (n ≤ 2 → z ≡ [])
web-reads s n [] y w e l k = absurd (omega (arith, l))
web-reads s n (b ∷ bs) y w e l k =
    let v = record w { to_come = y } in
    let g : give n w ≡ (got b bs, v) = given-take n b bs y (take n w.to_come) w e l refl in
    elim (Bool-cases s.ssl) [
      | inl h ↦ (b, bs, [], v, simp (h, g) refl, sym (append-nil (b ∷ bs)), refl, λ z. refl)
      | inr h ↦ (b, bs, [], v, simp (h, g) refl, sym (append-nil (b ∷ bs)), refl, λ z. refl)
    ]

web-IsFull : IsFull web stock
web-IsFull = record { reads = web-reads; allocs = λ n w. (w, refl, refl) }

abbrev ignore : Sws → Line → Sws × Line
ignore s w = (s, w)

abbrev server : Sws
server = create false 0 (some 5) 0

abbrev key : List ℕ
key = 11 ∷ 12 ∷ 13 ∷ 14 ∷ []

abbrev body : List ℕ
body = 7 ∷ 8 ∷ []

-- A masked frame of a client, and a byte behind it.
abbrev arrived : Line
arrived = record {
  taken = [];
  to_come = frame true key opcode_binary (payload_of body) ++ (9 ∷ []);
  room = 9;
}

recv_loop-frame_example : Ends web stock body (9 ∷ []) (recv_loop web ignore 1 server arrived)
recv_loop-frame_example =
    recv_loop-frame web ignore stock web-IsFull 0 true key body (9 ∷ []) server arrived refl refl
      (omega arith) refl refl

abbrev client : Sws
client = create true 0 (some 5) 0

recv_loop-own_side_example :
    (t : Sws) × (v : Line) × (recv_loop web ignore 1 client arrived ≡ refused web ignore eproto t v)
    × (stock v ≡ sent_payload true key (payload_of body) ++ (9 ∷ []))
    × (t
        ≡ record client { inhdr = whole_hdr true key (length (payload_of body)); instate = in_hdr })
recv_loop-own_side_example =
    recv_loop-own_side web ignore stock web-IsFull 0 true key body (9 ∷ []) client arrived refl refl
      (omega arith) refl

frame_bytes :
    frame true key opcode_binary (payload_of body)
    ≡ 130 ∷ 134 ∷ 11 ∷ 12 ∷ 13 ∷ 14 ∷ 11 ∷ 12 ∷ 13 ∷ 12 ∷ 12 ∷ 4 ∷ []
unfolding frame frame_hdr mask
frame_bytes = refl

-- A pong that the kernel takes a part of is sent again from its first byte on: the wire has the three
-- bytes of the part, and then the whole frame.
abbrev pinged : Sws
pinged = record server { pending_pong = true; pong_buf = 1 ∷ 2 ∷ [] }

abbrev half : Line
half = record { taken = []; to_come = []; room = 3 }

abbrev again : Line → Line
again w = record w { room = 9 }

pong_twice :
    (let (rc, s, w) = flush_pending_pong web ignore pinged half in
      (flush_pending_pong web ignore s (again w)).2.taken)
    ≡ 138 ∷ 2 ∷ 1 ∷ 138 ∷ 2 ∷ 1 ∷ 2 ∷ []
unfolding flush_pending_pong send_frame build_frame frame frame_hdr send_from send_raw
pong_twice = refl
