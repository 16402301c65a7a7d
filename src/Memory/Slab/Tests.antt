-- ===== src/Memory/Slab/Tests.antt =====
-- slab.c: tests.
use msgbroker.Prelude.{◌≡◌, refl, true, some, [], ◌∷◌}
use msgbroker.Memory.Slab.{Slab, init, alloc, free, index_of, is_live}

abbrev empty : Slab
empty = init true (1000 ∷ 2000 ∷ 3000 ∷ []) (λ p. (0, 0)) 16 3

abbrev one : Slab
one = (alloc empty).1

abbrev two : Slab
two = (alloc one).1

abbrev three : Slab
three = (alloc two).1

second_object : (alloc one).0 ≡ some 2008
unfolding alloc
second_object = refl

-- The last object is freed and given again.
last_again : (alloc (free 3008 three)).0 ≡ some 3008
unfolding alloc free index_of
last_again = refl

-- The first is freed. Of the two objects that are given next, the second is the one that `alloc one` gave
-- and that has not been freed.
abbrev first_freed : Slab
first_freed = free 1008 three

second_not_freed : is_live first_freed 2000 ≡ true
unfolding alloc free index_of
second_not_freed = refl

second_given_twice : (alloc (alloc first_freed).1).0 ≡ (alloc one).0
unfolding alloc free index_of
second_given_twice = refl

-- A pointer of another origin changes nothing.
foreign_free : (free 5000 three).count ≡ three.count
unfolding alloc free index_of
foreign_free = refl
