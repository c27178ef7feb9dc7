-- ===== src/Slab.antt =====
-- SlabAllocator of pine/malloc.hpp, on a machine with 32-bit pointers. `value_size` is sizeof(Value).
-- A bitmap is its words, a slab page its address. `none` is undefined behaviour: a bit of BitMap past
-- the first word, or the node behind the end of a list.
pub mod Scan
pub mod Single
pub mod Slots
pub mod Nodes
pub mod Backend
mod Tests
use pinyon.Prelude.{
  ℕ, zero, suc, ◌+◌, ◌-◌, ◌*◌, ◌/◌, ◌%◌, ◌^◌, Bool, true, false, ◌&&◌, ltb, leb, ◌==◌,
  if◌then◌else◌, Option, none, some, ◌>>=◌, List, [], ◌∷◌, ◌++◌, length, get_elem?, set, replicate,
}
use pinyon.TwoMath.{align_down_two, align_up_two}
use pinyon.Algorithm.{ptr_begin, ptr_next, ptr_deref, advance}
use pinyon.BitMap.{bit, set_bit, clear_bit}
use pinyon.FreeList.{FreeList, Allocation}
use pinyon.FreeList

abbrev pub page_size : ℕ
page_size = 4096

abbrev pub word : ℕ
word = 2 ^ 32

pub record SlabAllocator : Type 0 where
  pub bitmaps : List (List ℕ)
  pub slab_pages : List ℕ
  pub free_pages : FreeList

unfoldable pub preferred_size : ℕ → ℕ
preferred_size requested_size = (align_up_two 32 requested_size page_size + page_size) % word

-- `(*next(list.begin(), n))->contents()`
unfoldable pub nth {ℓ} : {A : Type ℓ} → List A → ℕ → Option A
nth list n = ptr_deref list (advance (ptr_next list) n (ptr_begin list))

-- sizeof(BitMapNode) and sizeof(SlabNode) for 16-byte values, and `c_chunk_size`
abbrev pub bitmap_node_size : ℕ
bitmap_node_size = 4104

abbrev pub slab_node_size : ℕ
slab_node_size = 12

abbrev pub chunk_size : ℕ
chunk_size = 8192

module _ (value_size : ℕ) where
  abbrev pub bits_per_bitmap : ℕ
  bits_per_bitmap = page_size * 8 - page_size % value_size

  abbrev pub slabs_per_page : ℕ
  slabs_per_page = page_size / value_size

  unfoldable pub num_slabs : SlabAllocator → ℕ
  num_slabs s = length s.slab_pages * slabs_per_page % word

  -- The loop over the bits of one bitmap, from `i` on and on fuel; `some none` is no free bit.
  unfoldable pub find_bit :
      (fuel : ℕ) (slabs page_index i : ℕ) (bitmap : List ℕ) → Option (Option ℕ)
  find_bit zero slabs page_index i bitmap = none
  find_bit (suc fuel) slabs page_index i bitmap =
      let rest = find_bit fuel slabs page_index (i + 1) bitmap in
      let here : Option (Option ℕ) =
        bit bits_per_bitmap i bitmap >>= λ marked. if marked then rest else some (some i) in
      if ltb i bits_per_bitmap && ltb (page_index * bits_per_bitmap + i) slabs
      then here
      else some none

  unfoldable pub find_in_bitmaps : (slabs page_index : ℕ) → List (List ℕ) → Option (Option (ℕ × ℕ))
  find_in_bitmaps slabs page_index [] = some none
  find_in_bitmaps slabs page_index (bitmap ∷ bitmaps) =
      let rest = find_in_bitmaps slabs (page_index + 1) bitmaps in
      find_bit (bits_per_bitmap + 1) slabs page_index 0 bitmap >>= λ found. elim found [
        | none ↦ rest
        | some i ↦ some (some (page_index, i))
      ]

  unfoldable pub try_find_free_bit : SlabAllocator → Option (Option (ℕ × ℕ))
  try_find_free_bit s = find_in_bitmaps (num_slabs s) 0 s.bitmaps

  unfoldable pub calculate_slab_indexes : ℕ → ℕ → ℕ × ℕ
  calculate_slab_indexes bitmap_page_index index_in_bitmap_page =
      let index = bitmap_page_index * bits_per_bitmap + index_in_bitmap_page in
      (index / slabs_per_page, index % slabs_per_page)

  unfoldable pub calculate_bitmap_indexes : ℕ → ℕ → ℕ × ℕ
  calculate_bitmap_indexes slab_page_index index_in_slab_page =
      let index = slab_page_index * slabs_per_page + index_in_slab_page in
      (index / bits_per_bitmap, index % bits_per_bitmap)

  -- `some none` is the empty allocation.
  unfoldable pub allocate : SlabAllocator → Option (Option ℕ × SlabAllocator)
  allocate s = do
    found ← try_find_free_bit s
    elim found [
      | none ↦ some (none, s)
      | some (bitmap_page_index, index_in_bitmap_page) ↦ do
        bitmap ← nth s.bitmaps bitmap_page_index
        bitmap' ← set_bit bits_per_bitmap index_in_bitmap_page bitmap
        let (slab_page_index, index_in_slab_page) =
            calculate_slab_indexes bitmap_page_index index_in_bitmap_page
        slab_page ← nth s.slab_pages slab_page_index
        some (
          some (slab_page + index_in_slab_page * value_size),
          record s { bitmaps = set s.bitmaps bitmap_page_index bitmap' },
        )
    ]

  -- The loop of `find_associated_slab_page`: the length, if no page fits.
  unfoldable pub index_of : ℕ → List ℕ → ℕ
  index_of slab_page [] = 0
  index_of slab_page (page ∷ pages) =
      let rest = index_of slab_page pages in if page == slab_page then 0 else rest + 1

  unfoldable pub find_associated_slab_page : ℕ → SlabAllocator → ℕ × ℕ
  find_associated_slab_page slab s =
      let slab_page = align_down_two 32 slab page_size in
      (index_of slab_page s.slab_pages, (slab - slab_page) / value_size)

  unfoldable pub free : SlabAllocator → ℕ → Option SlabAllocator
  free s slab = do
    let (slab_page_index, index_in_slab_page) = find_associated_slab_page slab s
    let (bitmap_page_index, index_in_bitmap_page) =
        calculate_bitmap_indexes slab_page_index index_in_slab_page
    bitmap ← nth s.bitmaps bitmap_page_index
    bitmap' ← clear_bit bits_per_bitmap index_in_bitmap_page bitmap
    some (record s { bitmaps = set s.bitmaps bitmap_page_index bitmap' })

-- The memory that `add` has not used yet, and the free list for the nodes.
pub record Adding : Type 0 where
  pub ptr : ℕ
  pub size : ℕ
  pub free_pages : FreeList

-- `remove_page_from_variables`, after the page went to the free list or to a slab.
unfoldable pub without_chunk : Adding → Adding
without_chunk a = record a {
  ptr = (a.ptr + chunk_size) % word;
  size = (a.size + word - chunk_size) % word;
}

-- A node from the free list, which gets a chunk and is asked again if it has none: whether there is
-- one, and what is left.
unfoldable pub take_node : (node_size : ℕ) → Adding → Option (Bool × Adding)
take_node node_size a = do
  (first, list) ← FreeList.allocate node_size a.free_pages
  let added = record (without_chunk a) { free_pages = FreeList.add a.ptr chunk_size list }
  let again : Option (Bool × Adding) =
      FreeList.allocate node_size added.free_pages >>= λ (second, list').
      some (if second.size == 0 then false else true, record added { free_pages = list' })
  if first.size == 0 then again else some (true, record a { free_pages = list })

-- The part of a round of `add` that makes a bitmap, if the bitmaps are too short for another page.
unfoldable pub make_bitmap :
    (value_size : ℕ) → Adding → SlabAllocator → Option (Bool × Adding × SlabAllocator)
make_bitmap value_size a s =
    let free_bits =
      (length s.bitmaps * bits_per_bitmap value_size + word - num_slabs value_size s) % word in
    let made = take_node bitmap_node_size a >>= λ (found, a').
    some (
      found,
      a',
      if found then record s { bitmaps = s.bitmaps ++ (replicate 1024 0 ∷ []) } else s,
    ) in
    if ltb free_bits (slabs_per_page value_size) then made else some (true, a, s)

-- The loop of `add`, on fuel, for values of which a bitmap has as many bits as for 16 bytes. The size
-- wraps, if a node for a page takes the last
-- chunk.
unfoldable pub add_loop : (value_size rounds : ℕ) → Adding → SlabAllocator → Option SlabAllocator
add_loop value_size zero a s = none
add_loop value_size (suc rounds) a s = elim (leb chunk_size a.size) [
  | false ↦ some (record s { free_pages = a.free_pages })
  | true ↦ do
    (made, b, s') ← make_bitmap value_size a s
    elim (made && leb chunk_size b.size) [
      | false ↦ some (record s' { free_pages = b.free_pages })
      | true ↦ do
        (found, c) ← take_node slab_node_size b
        elim found [
          | false ↦ some (record s' { free_pages = c.free_pages })
          | true ↦
              add_loop value_size rounds (without_chunk c)
                (record s' { slab_pages = s'.slab_pages ++ (c.ptr ∷ []) })
        ]
    ]
]

unfoldable pub add : (value_size ptr size : ℕ) → SlabAllocator → Option SlabAllocator
add value_size ptr size s =
    add_loop value_size word (record { ptr = ptr; size = size; free_pages = s.free_pages }) s
