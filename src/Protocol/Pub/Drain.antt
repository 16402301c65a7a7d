-- ===== src/Protocol/Pub/Drain.antt =====
-- pub.c: the order in which retained messages leave.
use msgbroker.Prelude.{
  ℕ, zero, suc, ◌≡◌, refl, ap, sym, ◌∙◌, Bool, true, false, if◌then◌else◌, List, [], ◌∷◌, ◌++◌,
  append_assoc, append-nil,
}
use mathlib.Core.Path.{subst}
use msgbroker.Memory.Msg.{Msg}
use msgbroker.Core.Pipe.{Pipes}
use msgbroker.Protocol.Spread.{any_yes, send_copies}
use msgbroker.Protocol.Pub.{Pub, tried, drain_bucket, next_level, drain_levels, drain_buckets}

-- All that is retained, the highest level first, each level in the order of arrival.
abbrev pub queued : List (List Msg) → List Msg
queued [] = []
queued (b ∷ bs) = b ++ queued bs

module _ {W : Type 0} (pipes : Pipes W) (ps : List ℕ) where
  -- The messages go out one after another, each to one pipe at least.
  pub data Leaves : List Msg → W → W → Type 0 where
    none_left : (w : W) → Leaves [] w w
    one_left :
        (m : Msg) (ms : List Msg) (n : ℕ) (w v u : W)
        → send_copies pipes m ps w ≡ (suc n, v)
        → Leaves ms v u
        → Leaves (m ∷ ms) w u

  -- `gone` have left; then nothing is there any more, or the pipes have all refused the first of what
  -- stays.
  abbrev pub Stops : List Msg → W → W → Type 0
  Stops [] v u = u ≡ v
  Stops (m ∷ ms) v u = send_copies pipes m ps v ≡ (0, u)

  pub record Drained (before : List Msg) (w : W) (stay : List Msg) (u : W) : Type 0 where
    pub gone : List Msg
    pub then_at : W
    pub split : before ≡ gone ++ stay
    pub leaves : Leaves gone w then_at
    pub stops : Stops stay then_at u

  tried-Drained :
      (m : Msg) (ms : List Msg) (w : W) (o : ℕ × W)
      → send_copies pipes m ps w ≡ o
      → (rest : W → List Msg × W) → ((v : W) → Drained ms v (rest v).0 (rest v).1)
      → let r = tried pipes rest m ms o in Drained (m ∷ ms) w r.0 r.1
  tried-Drained m ms w (zero, v) h rest ih = record {
    gone = [];
    then_at = w;
    split = refl;
    leaves = none_left w;
    stops = h;
  }
  tried-Drained m ms w (suc n, v) h rest ih =
      let d = ih v in
      record {
        gone = m ∷ d.gone;
        then_at = d.then_at;
        split = ap (λ l. m ∷ l) d.split;
        leaves = one_left m d.gone n w v d.then_at h d.leaves;
        stops = d.stops;
      }

  drain_bucket-Drained :
      (b : List Msg) (w : W)
      → Drained b w (drain_bucket pipes ps b w).0 (drain_bucket pipes ps b w).1
  unfolding drain_bucket
  drain_bucket-Drained [] w = record {
    gone = [];
    then_at = w;
    split = refl;
    leaves = none_left w;
    stops = refl;
  }
  drain_bucket-Drained (m ∷ ms) w =
      tried-Drained m ms w (send_copies pipes m ps w) refl (λ v. drain_bucket pipes ps ms v)
        (λ v. drain_bucket-Drained ms v)

  Leaves-append :
      (xs ys : List Msg) (w v u : W) → Leaves xs w v → Leaves ys v u → Leaves (xs ++ ys) w u
  Leaves-append xs ys w v u (none_left w') k = k
  Leaves-append xs ys w v u (one_left m ms n w' v' u' h l) k =
      one_left m (ms ++ ys) n w' v' u h (Leaves-append ms ys v' u' u l k)

  next_level-Drained :
      (b : List Msg) (bs : List (List Msg)) (w : W) (o : List Msg × W)
      → Drained b w o.0 o.1
      → (rest : W → List (List Msg) × W)
      → ((v : W) → Drained (queued bs) v (queued (rest v).0) (rest v).1)
      → let r = next_level pipes rest bs o in Drained (b ++ queued bs) w (queued r.0) r.1
  next_level-Drained b bs w ([], v) d rest ih =
      let t = ih v in
      record {
        gone = d.gone ++ t.gone;
        then_at = t.then_at;
        split =
            ap (λ l. l ++ queued bs) (d.split ∙ append-nil d.gone)
            ∙ ap (λ l. d.gone ++ l) t.split
            ∙ sym (append_assoc d.gone t.gone (queued (rest v).0));
        leaves =
            Leaves-append d.gone t.gone w d.then_at t.then_at d.leaves
              (subst (λ x. Leaves t.gone x t.then_at) d.stops t.leaves);
        stops = t.stops;
      }
  next_level-Drained b bs w (m ∷ ms, v) d rest ih = record {
    gone = d.gone;
    then_at = d.then_at;
    split = ap (λ l. l ++ queued bs) d.split ∙ append_assoc d.gone (m ∷ ms) (queued bs);
    leaves = d.leaves;
    stops = d.stops;
  }

  drain_levels-Drained :
      (bs : List (List Msg)) (w : W)
      → Drained (queued bs) w (queued (drain_levels pipes ps bs w).0) (drain_levels pipes ps bs w).1
  unfolding drain_levels
  drain_levels-Drained [] w = record {
    gone = [];
    then_at = w;
    split = refl;
    leaves = none_left w;
    stops = refl;
  }
  drain_levels-Drained (b ∷ bs) w =
      next_level-Drained b bs w (drain_bucket pipes ps b w) (drain_bucket-Drained b w)
        (λ v. drain_levels pipes ps bs v) (λ v. drain_levels-Drained bs v)

module _ {W : Type 0} (pipes : Pipes W) where
  -- What emptying the buckets comes to. `a` is whether some pipe can take a message, and the state.
  abbrev pub DrainOutcome : Pub → Bool × W → Pub × W → Type 0
  DrainOutcome s (false, v) r = r ≡ (s, v)
  DrainOutcome s (true, v) (s', u) =
      (s'.pipes ≡ s.pipes) × Drained pipes s.pipes (queued s.buckets) v (queued s'.buckets) u

  drain_cases :
      (s : Pub) (a : Bool × W)
      → let r = drain_levels pipes s.pipes s.buckets a.1 in
        DrainOutcome s a (if a.0 then (record s { buckets = r.0 }, r.1) else (s, a.1))
  drain_cases s (true, v) = (refl, drain_levels-Drained pipes s.pipes s.buckets v)
  drain_cases s (false, v) = refl

  -- Emptying the buckets of a PUB socket does nothing when no pipe says that it can take a message.
  -- Otherwise what is retained leaves in order, the highest level first and within a level the oldest
  -- first, each message to one pipe at least, until nothing is left or all pipes have refused the
  -- first message that stays; that one and those behind it keep their order.
  pub drain_buckets-DrainOutcome :
      (s : Pub) (w : W)
      → DrainOutcome s (any_yes pipes.can_send s.pipes w) (drain_buckets pipes s w)
  unfolding drain_buckets
  drain_buckets-DrainOutcome s w = drain_cases s (any_yes pipes.can_send s.pipes w)
