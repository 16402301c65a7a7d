-- ===== src/Transport/Stls/Tests.antt =====
-- stls.c: tests.
use msgbroker.Prelude.{ℕ, zero, suc, ◌≡◌, refl, sym, ◌∙◌, some, List, [], ◌∷◌, arith, true, false}
use msgbroker.Transport.Stream.{Taken, took, unsent, Got, got, at_end, unread}
use msgbroker.Transport.Stream.Bytes.{IsStream}
use msgbroker.Transport.Stream.Line.{
  Line, line, put, pull_from, taken_of, to_come_of, line_took, line_unsent, line_got, line_end,
  line_unread,
}
use msgbroker.Transport.Sws.{
  SslGot, ssl_got, zero_return, read_want, SslTaken, ssl_took, write_want,
}
use msgbroker.Transport.Sipc.{Sipc, create}
use msgbroker.Transport.Sipc.Coming.{RecvOutcome}
use msgbroker.Transport.Stls.{Tls, over, read_as, recv}
use msgbroker.Transport.Stls.Recv.{stls_recv-RecvOutcome}

-- OpenSSL over the descriptor for tests.
abbrev wrap_got : Got × Line → SslGot × Line
wrap_got (got b bs, w) = (ssl_got b bs, w)
wrap_got (at_end, w) = (zero_return, w)
wrap_got (unread e, w) = (read_want, w)

abbrev wrap_taken : Taken × Line → SslTaken × Line
wrap_taken (took n, w) = (ssl_took n, w)
wrap_taken (unsent e, w) = (write_want, w)

abbrev tls : Tls Line
tls = record {
  os = line;
  ssl_read = λ n w. wrap_got (pull_from n w.to_come w);
  ssl_write = λ bytes w. wrap_taken (put bytes w);
  ssl_pending = λ w. false;
  ssl_get_fd = λ w. true;
  ssl_free = λ w. w;
}

same_put : (bs : List ℕ) (w : Line) → (over tls).send bs w ≡ put bs w
same_put [] w = refl
same_put (b ∷ bs) w = refl

abbrev unwrap : SslGot × Line → Got × Line
unwrap (r, w) = (read_as r, w)

same_pull : (n : ℕ) (c : List ℕ) (w : Line) → unwrap (wrap_got (pull_from n c w)) ≡ pull_from n c w
same_pull zero c w = refl
same_pull (suc n) [] w = refl
same_pull (suc n) (b ∷ c) w = refl

tls-IsStream : IsStream (over tls) taken_of to_come_of
tls-IsStream = record {
  took_some = line_took;
  took_none = λ bs e w w' h. line_unsent bs e w w' (sym (same_put bs w) ∙ h);
  got_some = λ n b bs w w' h. line_got n b bs w.to_come w w' (sym (same_pull n w.to_come w) ∙ h);
  got_end = λ n w w' h. line_end n w.to_come w w' (sym (same_pull n w.to_come w) ∙ h);
  got_none = λ n e w w' h. line_unread n w.to_come e w w' (sym (same_pull n w.to_come w) ∙ h);
  polled_in = λ w. record { written_eq = refl; stock_eq = refl };
  allocated = λ n w. record { written_eq = refl; stock_eq = refl };
  applied = λ w. record { written_eq = refl; stock_eq = refl };
}

abbrev ignore : Sipc → Line → Sipc × Line
ignore s w = (s, w)

-- A frame and a half have come.
abbrev arrived : Line
arrived = record { taken = []; to_come = 0 ∷ 0 ∷ 0 ∷ 2 ∷ 7 ∷ 8 ∷ 0 ∷ 0 ∷ [] }

stls_recv-RecvOutcome_example :
    RecvOutcome taken_of to_come_of
      (create 0 (some 5) 0)
      arrived
      (recv tls ignore (create 0 (some 5) 0) arrived)
stls_recv-RecvOutcome_example =
    stls_recv-RecvOutcome tls ignore taken_of to_come_of tls-IsStream (create 0 (some 5) 0) arrived
      (omega arith)
