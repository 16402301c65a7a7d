-- ===== src/Utils/Rotor/Order.antt =====
-- src/utils/fq.c, src/utils/lb.c: which pipe a call of the rotating list takes.
use msgbroker.Prelude.{
  ℕ, ◌≡◌, refl, ap, ap₂, ◌∙◌, sym, ◌≢◌, true, false, List, [], ◌∷◌, ◌++◌, All, ◌⊎◌, inl, inr,
  Bool-cases, append_assoc, append-nil,
}
use msgbroker.Errno.{
  Errno, eagain, enomem, eexist, enoent, einval, enoprotoopt, efsm, minus_one, other, err,
  is_eagain,
}
use msgbroker.Core.Pipe.{Answer, yields, refuses}
use msgbroker.Utils.Rotor.{names, Item, Outcome, probed, probe, headed, rotate}

pub names-append : (xs ys : List Item) → names (xs ++ ys) ≡ names xs ++ names ys
names-append [] ys = refl
names-append (x ∷ xs) ys = ap (λ l. x.pipe ∷ l) (names-append xs ys)

eagain-cases : (e : Errno) → (e ≡ eagain) ⊎ (is_eagain (err e) ≡ false)
eagain-cases eagain = inl refl
eagain-cases enomem = inr refl
eagain-cases eexist = inr refl
eagain-cases enoent = inr refl
eagain-cases einval = inr refl
eagain-cases enoprotoopt = inr refl
eagain-cases efsm = inr refl
eagain-cases minus_one = inr refl
eagain-cases (other n) = inr refl

eagain_test : (e : Errno) → is_eagain (err e) ≡ false → e ≢ eagain
eagain_test e q z = let c : true ≡ false = rw z at q in cc

module _ {W R : Type 0} (attempt : ℕ → W → Answer R × W) where
  -- A pipe that answers -EAGAIN does nothing.
  abbrev pub IsQuiet : Type 0
  IsQuiet = (p : ℕ) (w w' : W) → attempt p w ≡ (refuses eagain, w') → w' ≡ w

  -- In `w` the pipe has nothing to give.
  abbrev pub Idle : W → ℕ → Type 0
  Idle w p = attempt p w ≡ (refuses eagain, w)

  -- `p` is the first of `ps` that does not answer -EAGAIN in `w`, and `o` is its answer. `before`
  -- and `after` are the pipes around it.
  pub record First (w : W) (ps : List ℕ) (p : ℕ) (o : Answer R × W) : Type 0 where
    pub before : List ℕ
    pub after : List ℕ
    pub split : ps ≡ before ++ p ∷ after
    pub idle : All (Idle w) before
    pub answers : attempt p w ≡ o

  -- What a probe of `ps`, behind the pipes `seen`, comes to.
  abbrev pub Ends : W → List ℕ → List ℕ → Outcome R × List Item × W → Type 0
  Ends w seen ps (yields (p, r), qs, w') =
      (f : First w ps p (yields r, w')) × (names qs ≡ seen ++ (f.before ++ (f.after ++ p ∷ [])))
  Ends w seen ps (refuses e, qs, w') =
      (names qs ≡ seen ++ ps)
      × ((e ≡ eagain) × (w' ≡ w) × All (Idle w) ps
          ⊎ ((p : ℕ) × (e ≢ eagain) × First w ps p (refuses e, w')))

  abbrev First-later :
      (w : W) (x : ℕ) (ps : List ℕ) (p : ℕ) (o : Answer R × W)
      → Idle w x
      → First w ps p o
      → First w (x ∷ ps) p o
  First-later w x ps p o i f = record {
    before = x ∷ f.before;
    after = f.after;
    split = ap (λ l. x ∷ l) f.split;
    idle = (i, f.idle);
    answers = f.answers;
  }

  Ends-later :
      (w : W) (seen : List ℕ) (x : ℕ) (ps : List ℕ) (res : Outcome R × List Item × W)
      → Idle w x
      → Ends w (seen ++ x ∷ []) ps res
      → Ends w seen (x ∷ ps) res
  Ends-later w seen x ps (yields (p, r), qs, w') i (f, e) =
      (First-later w x ps p (yields r, w') i f, e ∙ append_assoc seen (x ∷ []) _)
  Ends-later w seen x ps (refuses e, qs, w') i (s, inl (a, b, c)) =
      (s ∙ append_assoc seen (x ∷ []) ps, inl (a, b, (i, c)))
  Ends-later w seen x ps (refuses e, qs, w') i (s, inr (p, n, f)) =
      (s ∙ append_assoc seen (x ∷ []) ps, inr (p, n, First-later w x ps p (refuses e, w') i f))

  answer-Idle :
      (w w' : W) (p : ℕ) (e : Errno)
      → attempt p w ≡ (refuses e, w')
      → e ≡ eagain
      → w' ≡ w
      → Idle w p
  answer-Idle w w' p e h q r = h ∙ ap₂ (λ k v. (refuses k, v)) q r

  -- The theorem needs the pipe's answer as a variable.
  probed-Ends :
      IsQuiet
      → (w : W) (seen : List Item) (x : Item) (xs : List Item) (o : Answer R × W)
      → attempt x.pipe w ≡ o
      → (rest : W → List Item → Outcome R × List Item × W)
      → ((w' : W) (seen' : List Item) → Ends w' (names seen') (names xs) (rest w' seen'))
      → Ends w (names seen) (names (x ∷ xs)) (probed attempt rest seen x xs o)
  probed-Ends quiet w seen x xs (yields r, w') h rest ih = (
    record { before = []; after = names xs; split = refl; idle = _; answers = h },
    names-append seen (xs ++ record x { active = true } ∷ [])
        ∙ ap (λ l. names seen ++ l) (names-append xs (record x { active = true } ∷ [])),
  )
  probed-Ends quiet w seen x xs (refuses e, w') h rest ih = elim (eagain-cases e) [
    | inl q ↦
        let r = quiet x.pipe w w' (h ∙ ap (λ k. (refuses k, w')) q) in
        let t = ih w (seen ++ record x { active = false } ∷ []) in
        rw (q, r)
          (Ends-later w (names seen) x.pipe (names xs) _ (answer-Idle w w' x.pipe e h q r)
            (rw (names-append seen (record x { active = false } ∷ [])) at t))
    | inr q ↦ rw q (
      names-append seen (x ∷ xs),
      inr (
        x.pipe,
        (λ z. eagain_test e q z),
        record { before = []; after = names xs; split = refl; idle = _; answers = h },
      ),
    )
  ]

  probe-Ends :
      IsQuiet
      → (w : W) (seen xs : List Item) → Ends w (names seen) (names xs) (probe attempt seen xs w)
  unfolding probe
  probe-Ends quiet w seen [] = (sym (append-nil (names seen)), inl (refl, refl, _))
  probe-Ends quiet w seen (x ∷ xs) =
      probed-Ends quiet w seen x xs (attempt x.pipe w) refl (λ w' seen'. probe attempt seen' xs w')
        (λ w' seen'. probe-Ends quiet w' seen' xs)

  headed-Ends :
      IsQuiet
      → (w : W) (x : Item) (xs : List Item) (o : Answer R × W) → attempt x.pipe w ≡ o
      → Ends w [] (names (x ∷ xs)) (headed attempt x xs o)
  headed-Ends quiet w x xs (yields r, w') h = (
    record { before = []; after = names xs; split = refl; idle = _; answers = h },
    names-append xs (x ∷ []),
  )
  headed-Ends quiet w x xs (refuses e, w') h = elim (eagain-cases e) [
    | inl q ↦
        let r = quiet x.pipe w w' (h ∙ ap (λ k. (refuses k, w')) q) in
        rw (q, r) (probe-Ends quiet w [] (record x { active = false } ∷ xs))
    | inr q ↦ rw q (
      refl,
      inr (
        x.pipe,
        (λ z. eagain_test e q z),
        record { before = []; after = names xs; split = refl; idle = _; answers = h },
      ),
    )
  ]

  -- Over calls that do nothing when they answer -EAGAIN, rotating the list takes the first pipe, in
  -- the list's order, that does not answer -EAGAIN, whether or not the first item was marked active,
  -- and gives that pipe's answer. If it succeeded, the pipe has gone from its place to the end of the
  -- list and the others keep their order. With an error the order is unchanged. If all pipes answer
  -- -EAGAIN, so does the rotation, and the state is what it was.
  pub rotate-Ends :
      IsQuiet → (w : W) (items : List Item) → Ends w [] (names items) (rotate attempt items w)
  unfolding rotate
  rotate-Ends quiet w [] = probe-Ends quiet w [] []
  rotate-Ends quiet w (x ∷ xs) = elim (Bool-cases x.active) [
    | inl e ↦ simp e (headed-Ends quiet w x xs (attempt x.pipe w) refl)
    | inr e ↦ simp e (probe-Ends quiet w [] (x ∷ xs))
  ]
