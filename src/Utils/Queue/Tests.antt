-- ===== src/Utils/Queue/Tests.antt =====
-- queue.c: tests.
use msgbroker.Prelude.{◌≡◌, refl, true, false, none, some, Option}
use msgbroker.Utils.Queue.{
  Queue, not_in_queue, push, pop, remove, remove_from, empty, item_isinqueue,
}

abbrev fresh : Queue
fresh = record { head = none; tail = none; next = λ p. not_in_queue }

abbrev three : Queue
three = push 30 (push 20 (push 10 fresh))

first_out : (pop three).0 ≡ some 10
unfolding push pop
first_out = refl

last_out : (pop (pop (pop three).1).1).0 ≡ some 30
unfolding push pop
last_out = refl

all_out : empty (pop (pop (pop three).1).1).1 ≡ true
unfolding push pop
all_out = refl

abbrev without : Option Queue → Queue
without none = fresh
without (some q) = q

-- The last item is removed from the middle, and the next one goes behind the new last.
removed : (pop (pop (push 40 (without (remove 4 30 (without (remove 4 10 three)))))).1).0 ≡ some 40
unfolding push pop remove_from
removed = refl

removed_out : item_isinqueue 20 (without (remove 4 20 three)) ≡ false
unfolding push remove_from
removed_out = refl
