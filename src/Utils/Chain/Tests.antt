-- ===== src/Utils/Chain/Tests.antt =====
-- list.c: tests.
use msgbroker.Prelude.{◌≡◌, refl, false, none, some}
use msgbroker.Utils.Chain.{
  Chain, null, not_in_list, to, insert, erase, begin, next_of, prev_of, item_isinlist,
}

abbrev fresh : Chain
fresh = record { first = null; last = null; prev = λ p. not_in_list; next = λ p. not_in_list }

-- 10, then 20 behind it, then 15 between them.
abbrev three : Chain
three = insert 15 (some 20) (insert 20 none (insert 10 none fresh))

middle_inserted : next_of three (some 10) ≡ to 15
unfolding insert
middle_inserted = refl

middle_erased : next_of (erase 15 three).1 (some 10) ≡ to 20
unfolding insert erase
middle_erased = refl

back_link : prev_of (erase 15 three).1 (some 20) ≡ to 10
unfolding insert erase
back_link = refl

first_erased : begin (erase 10 three).1 ≡ to 15
unfolding insert erase
first_erased = refl

out_of_list : item_isinlist 15 (erase 15 three).1 ≡ false
unfolding insert erase
out_of_list = refl

-- The link that is returned is not the next item, 20.
returned_link : (erase 15 three).0 ≡ not_in_list
unfolding insert erase
returned_link = refl
