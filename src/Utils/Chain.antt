-- ===== src/Utils/Chain.antt =====
-- src/utils/list.c: the doubly linked list. An item is known by its address, and `prev` and `next` are
-- what stands in its links. The other modules of this development use a list of the items instead.
mod Tests
use msgbroker.Prelude.{
  ℕ, zero, suc, Bool, true, false, not, Option, none, some, ◌==◌, if◌then◌else◌,
}

-- `MB_LIST_NOTINLIST`, NULL or an item.
pub data Link : Type 0 where
  not_in_list null : Link
  to : ℕ → Link

-- `struct mb_list` with the items.
pub record Chain : Type 0 where
  pub first : Link
  pub last : Link
  pub prev : ℕ → Link
  pub next : ℕ → Link

abbrev pub write : (ℕ → Link) → ℕ → Link → ℕ → Link
write f p v q = if p == q then v else f q

-- A write through a link, which is an item, or into the field of the list.
abbrev pub write_at : Link → (ℕ → Link) → Link → ℕ → Link
write_at (to p) f v = write f p v
write_at null f v = f
write_at not_in_list f v = f

abbrev pub is_null : Link → Bool
is_null null = true
is_null not_in_list = false
is_null (to p) = false

-- `mb_list_init` and `mb_list_term`.
abbrev pub init : Chain → Chain
init l = record l { first = null; last = null }

abbrev pub term : Chain → Chain
term l = record l { first = null; last = null }

abbrev pub empty : Chain → Bool
empty l = is_null l.first

-- `mb_list_begin` and `mb_list_end`.
abbrev pub begin : Chain → Link
begin l = l.first

abbrev pub end : Chain → Link
end l = null

-- `mb_list_prev` and `mb_list_next`.
abbrev pub prev_of : Chain → Option ℕ → Link
prev_of l none = null
prev_of l (some p) = l.prev p

abbrev pub next_of : Chain → Option ℕ → Link
next_of l none = null
next_of l (some p) = l.next p

-- `mb_list_insert`.
unfoldable pub insert : ℕ → Option ℕ → Chain → Chain
insert item none l =
    let prev = write l.prev item l.last in
    let next = write l.next item null in
    record {
      prev = prev;
      next = write_at l.last next (to item);
      first = if is_null l.last then to item else l.first;
      last = to item;
    }
insert item (some before) l =
    let front = l.prev before in
    let prev = write (write l.prev item front) before (to item) in
    let next = write l.next item (to before) in
    record l {
      prev = prev;
      next = write_at front next (to item);
      first = if is_null front then to item else l.first;
    }

-- `mb_list_erase` of an item in the list: the link that it returns, and the list.
unfoldable pub erase : ℕ → Chain → Link × Chain
erase item l =
    let front = l.prev item in
    let back = l.next item in
    (
      not_in_list,
      record {
        prev = write (write_at back l.prev front) item not_in_list;
        next = write (write_at front l.next back) item not_in_list;
        first = if is_null front then back else l.first;
        last = if is_null back then front else l.last;
      },
    )

-- `mb_list_item_init` and `mb_list_item_term`.
abbrev pub item_init : ℕ → Chain → Chain
item_init p l = record l { prev = write l.prev p not_in_list; next = write l.next p not_in_list }

abbrev pub item_term : ℕ → Chain → Chain
item_term p l = record l { prev = write l.prev p not_in_list; next = write l.next p not_in_list }

abbrev pub is_in_list : Link → Bool
is_in_list not_in_list = false
is_in_list null = true
is_in_list (to p) = true

-- `mb_list_item_isinlist`.
abbrev pub item_isinlist : ℕ → Chain → Bool
item_isinlist p l = is_in_list (l.prev p)
