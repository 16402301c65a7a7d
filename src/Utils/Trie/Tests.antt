-- ===== src/Utils/Trie/Tests.antt =====
-- trie.c on a concrete trie.
use msgbroker.Prelude.{ℕ, ◌≡◌, refl, true, false, List, [], ◌∷◌, arith}
use msgbroker.Errno.{err, enoent, enomem}
use msgbroker.Utils.Trie.{Trie, new_node, add, rm, match, subscribed, make_path, count_path}
use msgbroker.Utils.Trie.Counts.{IsTrie, new_node-IsTrie, Bytes}
use msgbroker.Utils.Trie.Match.{any_prefix, match-any_prefix}
use msgbroker.Utils.Trie.Add.{AddOutcome, add-AddOutcome}
use msgbroker.Utils.Trie.Remove.{RmOutcome, rm-RmOutcome}

abbrev topic : List ℕ
topic = 1 ∷ 0 ∷ []

-- The trie of one subscription.
abbrev one : Trie
one = (add 2 new_node topic).1

match-one : match one (1 ∷ 0 ∷ 7 ∷ []) ≡ true
unfolding match add make_path count_path subscribed
match-one = refl

match-one_short : match one (1 ∷ []) ≡ false
unfolding match add make_path count_path subscribed
match-one_short = refl

add_no_memory : (add 1 new_node topic).0 ≡ err enomem
unfolding add make_path
add_no_memory = refl

rm_absent : (rm one (1 ∷ [])).0 ≡ err enoent
unfolding rm add make_path count_path subscribed
rm_absent = refl

topic-Bytes : Bytes topic
topic-Bytes = omega arith

one-IsTrie : IsTrie one
unfolding add make_path count_path subscribed
one-IsTrie =
    (add-AddOutcome 2 new_node topic new_node-IsTrie.0 topic-Bytes
      (omega (arith, new_node-IsTrie.1))).2

match-any_prefix_example : match one (1 ∷ 0 ∷ 7 ∷ []) ≡ any_prefix (subscribed one) (1 ∷ 0 ∷ 7 ∷ [])
match-any_prefix_example = match-any_prefix one (1 ∷ 0 ∷ 7 ∷ [])

add-AddOutcome_example : AddOutcome 2 new_node topic (add 2 new_node topic)
add-AddOutcome_example =
    add-AddOutcome 2 new_node topic new_node-IsTrie.0 topic-Bytes (omega (arith, new_node-IsTrie.1))

rm-RmOutcome_example : RmOutcome one topic (rm one topic)
rm-RmOutcome_example = rm-RmOutcome one topic one-IsTrie topic-Bytes
