-- ===== src/Protocol/Sub/Count.antt =====
-- sub.c: the count of subscriptions and the flag for it.
use msgbroker.Prelude.{
  ℕ, zero, suc, ◌+◌, ◌-◌, ◌<◌, ◌≡◌, refl, sym, ap, ◌∙◌, Bool, true, false, not, ◌&&◌, ◌||◌, Option,
  List, [], ◌∷◌, ap₂, ==_iff, ◌==◌, ltb, arith, inl, inr, Bool-cases, if◌then◌else◌, ◌⊎◌, ◌≤◌, ◌^◌,
  add32,
}
use msgbroker.Errno.{Errno, Rc, ok, err, einval, enoprotoopt, enomem, enoent}
use msgbroker.Memory.Msg.{Msg}
use msgbroker.Utils.Trie.{Trie, null, subscribed}
use msgbroker.Utils.Trie.Counts.{IsTrie, count, key_eq, Bytes, count_zero}
use msgbroker.Utils.Trie.Path.{missing}
use msgbroker.Utils.Trie.Add.{AddOutcome, add-AddOutcome}
use msgbroker.Utils.Trie.Remove.{RmOutcome, rm-RmOutcome}
use msgbroker.Utils.Trie.Match.{any_prefix, match-any_prefix}
use msgbroker.Protocol.Sub.{
  Sub, msg_matches, setopt, topic, is_missing, sub_proto, sub_subscribe, sub_unsubscribe,
  above_zero,
}
use msgbroker.Protocol.Sub

-- The trie counts rightly, `nsubs` is its number of subscriptions, and the flag says whether there
-- is one; they are fewer than an `int` can count.
pub record IsSub (s : Sub) : Type 0 where
  pub trie : IsTrie s.subscriptions
  pub exact : s.nsubs ≡ count s.subscriptions
  pub flag : s.has_subscriptions ≡ ltb 0 s.nsubs
  pub in_range : s.nsubs < 2 ^ 31

-- What the subscriptions are after a call: a success only if `Allowed`, an error only for a `Reason`.
abbrev pub Changed : Type 0 → (Errno → Type 0) → (List ℕ → Bool → Bool) → Sub → Rc × Sub → Type 0
Changed Allowed Reason f s (ok n, s') =
    IsSub s'
    × ((x : List ℕ) → subscribed s'.subscriptions x ≡ f x (subscribed s.subscriptions x))
    × Allowed
Changed Allowed Reason f s (err e, s') =
    IsSub s'
    × ((x : List ℕ) → subscribed s'.subscriptions x ≡ subscribed s.subscriptions x)
    × Reason e

-- There is memory for the nodes that the topic's path lacks.
abbrev pub HasRoom : ℕ → Sub → List ℕ → Type 0
HasRoom mem s key = missing s.subscriptions key ≤ mem

-- There is not, or there is no trie.
abbrev pub NoRoom : ℕ → Sub → List ℕ → Errno → Type 0
NoRoom mem s key e = (e ≡ enomem) × ((s.subscriptions ≡ null) ⊎ (mem < missing s.subscriptions key))

abbrev pub NotThere : Sub → List ℕ → Errno → Type 0
NotThere s key e = (e ≡ enoent) × (subscribed s.subscriptions key ≡ false)

false_ne : false ≡ true → ⊥
false_ne e = cc

or_same : (a b : Bool) → (a ≡ true → b ≡ true) → b ≡ a || b
or_same true b h = h refl
or_same false b h = refl

key_eq_sound : (x y : List ℕ) → key_eq x y ≡ true → x ≡ y
unfolding key_eq
key_eq_sound [] [] h = refl
key_eq_sound [] (b ∷ y) h = absurd (false_ne h)
key_eq_sound (a ∷ x) [] h = absurd (false_ne h)
key_eq_sound (a ∷ x) (b ∷ y) h = elim (Bool-cases (a == b)) [
  | inl e ↦ let k = key_eq_sound x y (rw e at h) in ap₂ (λ c z. c ∷ z) ((==_iff a b).0 e) k
  | inr e ↦ absurd (false_ne (rw e at h))
]

one_fewer :
    (n k c : ℕ)
    → n ≡ 1
    → k ≡ c + 1
    → k < 2 ^ 31
    → (if ltb 0 n && above_zero k then k - 1 else k) ≡ c
one_fewer n k c h e l = ground arith

small_positive : (k : ℕ) → k < 2 ^ 31 → above_zero k ≡ ltb 0 k
small_positive k l = ground arith

some_left : (k : ℕ) → k + 1 < 2 ^ 31 → true ≡ ltb 0 (add32 k 1)
some_left k l = ground arith

one_more : (k : ℕ) → k + 1 < 2 ^ 31 → add32 k 1 ≡ k + 1
one_more k l = ground arith

subscribed-Changed :
    (mem : ℕ) (s : Sub) (key : List ℕ) (r : Rc × Trie)
    → IsSub s
    → s.nsubs + 1 < 2 ^ 31
    → AddOutcome mem s.subscriptions key r
    → Changed
        (HasRoom mem s key)
        (NoRoom mem s key)
        (λ x b. key_eq key x || b)
        s
        (Sub.subscribed s r)
subscribed-Changed mem s key (err e, t) g small o = (
  record { trie = o.1; exact = g.exact ∙ sym o.2; flag = g.flag; in_range = g.in_range },
  o.3,
  (o.0, o.4),
)
subscribed-Changed mem s key (ok zero, t) g small o = (
  record { trie = o.1; exact = g.exact ∙ sym o.2; flag = g.flag; in_range = g.in_range },
  (λ x.
      o.3 x
      ∙ or_same (key_eq key x) (subscribed s.subscriptions x)
          (λ h. ap (λ k. subscribed s.subscriptions k) (sym (key_eq_sound key x h)) ∙ o.0)),
  o.4,
)
subscribed-Changed mem s key (ok (suc n), t) g small o =
    let k = one_more s.nsubs small in
    (
      record {
        trie = o.2;
        exact = omega (arith, g.exact, o.3, k);
        flag = some_left s.nsubs small;
        in_range = omega (arith, k);
      },
      o.4,
      o.5,
    )

unsubscribed-Changed :
    (s : Sub) (key : List ℕ) (r : Rc × Trie)
    → IsSub s
    → RmOutcome s.subscriptions key r
    → Changed
        (subscribed s.subscriptions key ≡ true)
        (NotThere s key)
        (λ x b. not (key_eq key x) && b)
        s
        (Sub.unsubscribed s r)
unsubscribed-Changed s key (err e, t) g o = (
  record {
    trie = let h = g.trie in rw (sym o.2) at h;
    exact = g.exact ∙ ap count (sym o.2);
    flag = g.flag;
    in_range = g.in_range;
  },
  (λ x. ap (λ u. subscribed u x) o.2),
  (o.0, o.1),
)
unsubscribed-Changed s key (ok n, t) g o =
    let c = one_fewer n s.nsubs (count t) o.0 (g.exact ∙ sym o.3) g.in_range in
    let l : count t < 2 ^ 31 = omega (arith, g.exact, g.in_range, o.3) in
    (
      record { trie = o.2; exact = c; flag = rw c (small_positive (count t) l); in_range = rw c l },
      o.4,
      o.1,
    )

-- What one call of `mb_sub_setopt` must do: `option` is known and is given a value, or the call is
-- refused and changes nothing.
abbrev pub SetoptOutcome : ℕ → ℕ → ℕ → Option (List ℕ) → ℕ → Sub → Rc × Sub → Type 0
SetoptOutcome mem level option optval n s r =
    if not (level == sub_proto) || not (option == sub_subscribe || option == sub_unsubscribe)
    then r ≡ (err enoprotoopt, s)
    else if is_missing optval n
    then r ≡ (err einval, s)
    else if option == sub_subscribe
    then (let key = topic optval n in
        Changed (HasRoom mem s key) (NoRoom mem s key) (λ x b. key_eq key x || b) s r)
    else (let key = topic optval n in
        Changed (subscribed s.subscriptions key ≡ true) (NotThere s key)
          (λ x b. not (key_eq key x) && b) s r)

-- Each setsockopt on a SUB socket that is consistent, and has fewer than 2^31 - 1 subscriptions,
-- leaves it consistent: `nsubs` is the number of subscriptions, and `has_subscriptions` says whether
-- there is one. A subscription that succeeds adds the topic to the subscriptions, and nothing else;
-- it fails, with -ENOMEM, only if there is not memory for the nodes that the topic lacks, or no trie.
-- One that is taken back removes the topic alone, which was subscribed; it fails, with -ENOENT, only
-- if the topic was not. With an error the subscriptions are the same. Other options and a missing
-- value are refused, and change nothing.
pub setopt-SetoptOutcome :
    (mem level option : ℕ) (optval : Option (List ℕ)) (n : ℕ) (s : Sub)
    → IsSub s
    → Bytes (topic optval n)
    → count s.subscriptions + 1 < 2 ^ 31
    → SetoptOutcome mem level option optval n s (setopt mem level option optval n s)
unfolding setopt
setopt-SetoptOutcome mem level option optval n s g b small =
    elim (Bool-cases (level == sub_proto)) [
      | inr e ↦ rw e refl
      | inl e ↦ elim (Bool-cases (option == sub_subscribe)) [
        | inl f ↦ elim (Bool-cases (is_missing optval n)) [
          | inl h ↦ rw (e, f, h) refl
          | inr h ↦
              rw (e, f, h)
                (subscribed-Changed mem s (topic optval n) _ g (omega (arith, g.exact))
                  (add-AddOutcome mem s.subscriptions (topic optval n) g.trie b (omega arith)))
        ]
        | inr f ↦ elim (Bool-cases (option == sub_unsubscribe)) [
          | inr k ↦ rw (e, f, k) refl
          | inl k ↦ elim (Bool-cases (is_missing optval n)) [
            | inl h ↦ rw (e, f, k, h) refl
            | inr h ↦
                rw (e, f, k, h)
                  (unsubscribed-Changed s (topic optval n) _ g
                    (rm-RmOutcome s.subscriptions (topic optval n) g.trie b))
          ]
        ]
      ]
    ]

any_prefix-never :
    (p : List ℕ → Bool) (bs : List ℕ) → ((x : List ℕ) → p x ≡ false) → any_prefix p bs ≡ false
unfolding any_prefix
any_prefix-never p [] h = h []
any_prefix-never p (b ∷ bs) h = rw (h []) (any_prefix-never (λ x. p (b ∷ x)) bs (λ x. h (b ∷ x)))

none_left : (k c : ℕ) → false ≡ ltb 0 k → k ≡ c → c ≡ 0
none_left k c h e = ground arith

-- In a consistent state the flag is no more than a short cut: a message is kept exactly when some
-- prefix of its body is subscribed.
pub msg_matches-any_prefix :
    (s : Sub) (m : Msg) → IsSub s → msg_matches s m ≡ any_prefix (subscribed s.subscriptions) m.body
unfolding msg_matches
msg_matches-any_prefix s m g = elim (Bool-cases s.has_subscriptions) [
  | inl e ↦ simp e (match-any_prefix s.subscriptions m.body)
  | inr e ↦
      let z = none_left s.nsubs (count s.subscriptions) (sym e ∙ g.flag) g.exact in
      simp e (
        sym (
          any_prefix-never (subscribed s.subscriptions) m.body
            (λ x. count_zero s.subscriptions x z)))
]
