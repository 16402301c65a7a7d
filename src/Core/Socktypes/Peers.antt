-- ===== src/Core/Socktypes/Peers.antt =====
-- global.c: which socket types are each other's peers.
use msgbroker.Prelude.{
  ℕ, ◌≡◌, refl, Bool, true, false, ◌&&◌, some, List, [], ◌∷◌, ◌==◌, Bool-cases, inl, inr,
}
use msgbroker.Core.Socktypes.{Socktype, socktypes, find_socktype}

abbrev same : Bool → Bool → Bool
same true b = b
same false true = false
same false false = true

same_eq : (a b : Bool) → same a b ≡ true → a ≡ b
same_eq true true h = refl
same_eq true false h = cc
same_eq false true h = cc
same_eq false false h = refl

abbrev all_of : (Socktype → Bool) → List Socktype → Bool
all_of p [] = true
all_of p (t ∷ ts) = p t && all_of p ts

and_left : (a b : Bool) → a && b ≡ true → a ≡ true
and_left true b h = refl
and_left false b h = cc

and_right : (a b : Bool) → a && b ≡ true → b ≡ true
and_right true b h = h
and_right false b h = cc

-- What holds of all types of a list holds of the one that is found there.
find-all_of :
    (p : Socktype → Bool) (n : ℕ) (ts : List Socktype) (a : Socktype)
    → all_of p ts ≡ true
    → find_socktype n ts ≡ some a
    → p a ≡ true
unfolding find_socktype
find-all_of p n [] a h k = cc
find-all_of p n (t ∷ ts) a h k = elim (Bool-cases (t.protocol == n)) [
  | inl e ↦
      let c : some t ≡ some a = rw e at k in
      let d : t ≡ a = cc in rw (← d) (and_left (p t) (all_of p ts) h)
  | inr e ↦ find-all_of p n ts a (and_right (p t) (all_of p ts) h) (rw e at k)
]

abbrev agree : Socktype → Socktype → Bool
agree a b = same (a.ispeer b.protocol) (b.ispeer a.protocol)

abbrev each_agrees : Bool
each_agrees = all_of (λ a. all_of (agree a) socktypes) socktypes

agree_table : each_agrees ≡ true
agree_table = refl

-- Of any two socket types that a socket can be created with, the first takes the second for a peer
-- exactly when the second takes the first for one.
pub ispeer_comm :
    (m n : ℕ) (a b : Socktype)
    → find_socktype m socktypes ≡ some a
    → find_socktype n socktypes ≡ some b
    → a.ispeer b.protocol ≡ b.ispeer a.protocol
ispeer_comm m n a b h k = same_eq _ _ (
    find-all_of (agree a) n socktypes b
      (find-all_of (λ x. all_of (agree x) socktypes) m socktypes a agree_table h) k)
