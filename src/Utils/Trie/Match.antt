-- ===== src/Utils/Trie/Match.antt =====
-- trie.c: a message matches when a prefix of it is a subscription.
use msgbroker.Prelude.{
  ℕ, ◌≡◌, refl, sym, ◌∙◌, Bool, true, false, ◌||◌, List, [], ◌∷◌, if◌then◌else◌,
}
use msgbroker.Utils.Trie.{Trie, null, node, child, is_null, subscribed, match}

-- Whether `p` holds of a prefix of the bytes.
unfoldable pub any_prefix : (List ℕ → Bool) → List ℕ → Bool
any_prefix p [] = p []
any_prefix p (b ∷ bs) = p [] || any_prefix (λ key. p (b ∷ key)) bs

any_prefix-null : (bs : List ℕ) → any_prefix (λ key. subscribed null key) bs ≡ false
unfolding any_prefix subscribed
any_prefix-null [] = refl
any_prefix-null (b ∷ bs) = any_prefix-null bs

-- `mb_trie_match` answers yes exactly when some prefix of the bytes, the empty one and the whole
-- included, is subscribed.
pub match-any_prefix : (t : Trie) (bytes : List ℕ) → match t bytes ≡ any_prefix (subscribed t) bytes
unfolding match any_prefix subscribed
match-any_prefix null [] = refl
match-any_prefix null (b ∷ bs) = sym (any_prefix-null bs)
match-any_prefix (node r s f) [] = refl
match-any_prefix (node r true f) (b ∷ bs) = refl
match-any_prefix (node r false f) (b ∷ bs) = if_null (child f b) ∙ match-any_prefix (child f b) bs
  where
    if_null : (c : Trie) → (if is_null c then false else match c bs) ≡ match c bs
    if_null null = refl
    if_null (node r' s' f') = refl
