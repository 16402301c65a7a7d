-- ===== src/Memory/Slab.antt =====
-- src/memory/slab.c: a pool of objects of one size. An object is known by the address of its header,
-- and `heads` is what stands in the headers.
mod Tests
use msgbroker.Prelude.{
  ℕ, zero, suc, ◌+◌, ◌-◌, ◌%◌, ◌/◌, ◌^◌, Bool, true, false, not, ◌&&◌, ◌||◌, Option, none, some,
  List, [], ◌∷◌, ◌==◌, ltb, leb, length, take, get_elem?, if◌then◌else◌,
}

-- `MB_SLAB_MAGIC` and `MB_SLAB_HDR_SIZE`.
abbrev pub slab_magic : ℕ
slab_magic = 0x534C4142

abbrev pub slab_hdr_size : ℕ
slab_hdr_size = 8

abbrev pub size_max : ℕ
size_max = 2 ^ 64 - 1

-- `struct mb_slab` with the headers of its objects, each a magic number and a size. `none` is a
-- `freelist` that is NULL.
pub record Slab : Type 0 where
  pub obj_size : ℕ
  pub count : ℕ
  pub capacity : ℕ
  pub freelist : Option (List ℕ)
  pub heads : ℕ → ℕ × ℕ

abbrev pub write : (ℕ → ℕ × ℕ) → ℕ → ℕ × ℕ → ℕ → ℕ × ℕ
write heads raw v p = if raw == p then v else heads p

-- `memset` of the new objects.
abbrev pub cleared : List ℕ → (ℕ → ℕ × ℕ) → ℕ → ℕ × ℕ
cleared [] heads = heads
cleared (raw ∷ raws) heads = write (cleared raws heads) raw (0, 0)

abbrev pub filled : ℕ → List ℕ → (ℕ → ℕ × ℕ) → Slab
filled obj_size [] heads = record {
  obj_size = obj_size;
  count = 0;
  capacity = 0;
  freelist = none;
  heads = heads;
}
filled obj_size (raw ∷ raws) heads = record {
  obj_size = obj_size;
  count = 0;
  capacity = length (raw ∷ raws);
  freelist = some (raw ∷ raws);
  heads = cleared (raw ∷ raws) heads;
}

-- `mb_slab_init`. `list_ok` is whether `mb_alloc` gives the array, and `raws` are the objects that it
-- gives, in their order, before it fails.
abbrev pub init : Bool → List ℕ → (ℕ → ℕ × ℕ) → ℕ → ℕ → Slab
init list_ok raws heads obj_size capacity =
    if capacity == 0
      || obj_size == 0
      || ltb (size_max / 8) capacity
      || ltb (size_max - slab_hdr_size) obj_size
      || not list_ok
    then filled obj_size [] heads
    else filled obj_size (take capacity raws) heads

-- `mb_slab_term`.
abbrev pub term : Slab → Slab
term s = record s { count = 0; capacity = 0; freelist = none }

abbrev pub taken : Slab → Option ℕ → Option ℕ × Slab
taken s none = (none, s)
taken s (some raw) = (
  some (raw + slab_hdr_size),
  record s { count = s.count + 1; heads = write s.heads raw (slab_magic, s.obj_size % 2 ^ 32) },
)

abbrev pub alloc_in : Slab → Option (List ℕ) → Option ℕ × Slab
alloc_in s none = (none, s)
alloc_in s (some raws) =
    if leb s.capacity s.count then (none, s) else taken s (get_elem? raws s.count)

-- `mb_slab_alloc`.
unfoldable pub alloc : Slab → Option ℕ × Slab
alloc s = alloc_in s s.freelist

abbrev pub next_place : Option ℕ → Option ℕ
next_place none = none
next_place (some i) = some (suc i)

-- The place of an object in the array.
unfoldable pub index_of : ℕ → List ℕ → Option ℕ
index_of raw [] = none
index_of raw (r ∷ rs) = if r == raw then some 0 else next_place (index_of raw rs)

abbrev pub is_live : Slab → ℕ → Bool
is_live s raw = (s.heads raw).0 == slab_magic && (s.heads raw).1 == s.obj_size % 2 ^ 32

abbrev pub freed : Slab → ℕ → Option ℕ → Slab
freed s raw none = s
freed s raw (some i) =
    if is_live s raw
    then record s { heads = write s.heads raw (0, 0); count = if ltb i s.count then i else s.count }
    else s

abbrev pub free_in : Slab → ℕ → Option (List ℕ) → Slab
free_in s obj none = s
free_in s obj (some raws) =
    let raw = (obj + 2 ^ 64 - slab_hdr_size) % 2 ^ 64 in
    freed s raw (index_of raw (take s.capacity raws))

-- `mb_slab_free` of a pointer that is not NULL.
unfoldable pub free : ℕ → Slab → Slab
free obj s = free_in s obj s.freelist
