-- ===== src/Aio/Timerset/Tests.antt =====
-- timerset.c: tests and examples.
use msgbroker.Prelude.{◌≡◌, refl, some, List, [], ◌∷◌, arith}
use msgbroker.Aio.Timerset.{Timer, insert, insert_sorted, cancel, timeout, tick}
use msgbroker.Aio.Timerset.Sorted.{Inserted, IsSorted, insert_sorted-Inserted}
use msgbroker.Aio.Timerset.Fire.{Fired, tick-Fired, due_count}

-- Three timers, of which two expire at the same time.
abbrev three : List Timer
three =
    record { handle = 1; expiry = 5 }
    ∷ record { handle = 2; expiry = 9 }
    ∷ record { handle = 3; expiry = 9 }
    ∷ []

three_inserted :
    insert 4 2 5 (insert 4 3 5 (insert 3 2 6 (insert 3 1 2 [])))
    ≡ record { handle = 1; expiry = 5 }
      ∷ record { handle = 3; expiry = 9 }
      ∷ record { handle = 2; expiry = 9 }
      ∷ []
unfolding insert insert_sorted cancel
three_inserted = refl

three-timeout : timeout 3 three ≡ some 2
three-timeout = refl

three-IsSorted : IsSorted three
three-IsSorted = omega arith

insert_sorted-Inserted_example :
    Inserted
      (record { handle = 4; expiry = 9 })
      three
      (insert_sorted (record { handle = 4; expiry = 9 }) three)
insert_sorted-Inserted_example =
    insert_sorted-Inserted (record { handle = 4; expiry = 9 }) three three-IsSorted

-- A callback that leaves the list as it is.
abbrev leave : Timer → List Timer → List Timer
leave t ts = ts

tick-Fired_example : Fired leave 6 (tick leave 3 6 three)
unfolding due_count
tick-Fired_example =
    tick-Fired leave (λ t ts s. s) 6 (λ t ts. omega arith) 3 three three-IsSorted (omega arith)
