-- ===== src/Utils/Queue.antt =====
-- src/utils/queue.c: the queue linked through its items. An item is known by its address, and `next` is
-- what stands in the `next` of each item.
mod Tests
use msgbroker.Prelude.{
  ℕ, zero, suc, Bool, true, false, not, Option, none, some, ◌==◌, if◌then◌else◌,
}

-- `MB_QUEUE_NOTINQUEUE`, NULL or an item.
pub data Next : Type 0 where
  not_in_queue end : Next
  to : ℕ → Next

-- `struct mb_queue` with the items.
pub record Queue : Type 0 where
  pub head : Option ℕ
  pub tail : Option ℕ
  pub next : ℕ → Next

abbrev pub write : (ℕ → Next) → ℕ → Next → ℕ → Next
write next p v q = if p == q then v else next q

-- `mb_queue_init` and `mb_queue_term`.
abbrev pub init : Queue → Queue
init q = record q { head = none; tail = none }

abbrev pub term : Queue → Queue
term q = record q { head = none; tail = none }

abbrev pub is_null : Option ℕ → Bool
is_null none = true
is_null (some p) = false

abbrev pub empty : Queue → Bool
empty q = is_null q.head

abbrev pub push_behind : ℕ → Queue → Option ℕ → Queue
push_behind item q none = record {
  head = some item;
  tail = some item;
  next = write q.next item end;
}
push_behind item q (some t) = record q {
  tail = some item;
  next = write (write q.next item end) t (to item);
}

-- `mb_queue_push`.
unfoldable pub push : ℕ → Queue → Queue
push item q = push_behind item q q.tail

-- The pointer that `next` is, of an item in the queue.
abbrev pub pointer : Next → Option ℕ
pointer not_in_queue = none
pointer end = none
pointer (to p) = some p

abbrev pub unlinked : ℕ → Option ℕ → Queue → Queue
unlinked item prev q =
    let after = q.next item in
    let next : ℕ → Next = elim prev [ none ↦ q.next | some p ↦ write q.next p after ] in
    record {
      head = elim prev [ none ↦ pointer after | some p ↦ q.head ];
      tail = if is_null (pointer after) then prev else q.tail;
      next = write next item not_in_queue;
    }

-- The loop of `mb_queue_remove` from `it`, for at most `fuel` items.
unfoldable pub remove_from : ℕ → ℕ → Option ℕ → Option ℕ → Queue → Option Queue
remove_from zero item prev it q = none
remove_from (suc fuel) item prev none q = some q
remove_from (suc fuel) item prev (some p) q =
    let rest = remove_from fuel item (some p) (pointer (q.next p)) q in
    if p == item then some (unlinked item prev q) else rest

abbrev pub remove : ℕ → ℕ → Queue → Option Queue
remove fuel item q = remove_from fuel item none q.head q

abbrev pub pop_head : Queue → Option ℕ → Option ℕ × Queue
pop_head q none = (none, q)
pop_head q (some p) =
    let rest = pointer (q.next p) in
    (
      some p,
      record {
        head = rest;
        tail = if is_null rest then none else q.tail;
        next = write q.next p not_in_queue;
      },
    )

-- `mb_queue_pop`.
unfoldable pub pop : Queue → Option ℕ × Queue
pop q = pop_head q q.head

-- `mb_queue_item_init` and `mb_queue_item_term`.
abbrev pub item_init : ℕ → Queue → Queue
item_init p q = record q { next = write q.next p not_in_queue }

abbrev pub item_term : ℕ → Queue → Queue
item_term p q = record q { next = write q.next p not_in_queue }

abbrev pub is_in_queue : Next → Bool
is_in_queue not_in_queue = false
is_in_queue end = true
is_in_queue (to p) = true

-- `mb_queue_item_isinqueue`.
abbrev pub item_isinqueue : ℕ → Queue → Bool
item_isinqueue p q = is_in_queue (q.next p)
