-- ===== src/Memory/Block.antt =====
-- memory/allocator.rs: `FreeRegion`, `Block`, `Allocation`, `try_region`,
-- `try_allocate_from_block` and `free_in_block`. A block is one device memory object, its free
-- regions a vector sorted by offset. A function that changes the block returns the new block;
-- handles and addresses are numbers. An index out of range, which no call here has, gives `none`.
pub mod Chain
pub mod Carve
pub mod Allocate
pub mod Spot
pub mod Free
pub mod RoundTrip
pub mod History
mod Tests
use ignis_rs.Base.{
  ℕ, zero, suc, ◌+◌, ◌-◌, ◌≤◌, ◌<◌, min, ◌≡◌, Bool, true, false, ◌&&◌, Option, none, some, List, [],
  ◌∷◌, ltb, leb, ◌==◌, if◌then◌else◌, length, get_elem?, remove_at, insert_at, position_or_len,
  add64, sub64,
}
use mathlib.Core.Option
use ignis_rs.Memory.Align.{align_up}

pub record FreeRegion : Type 0 where
  pub offset : ℕ
  pub size : ℕ

pub record Block : Type 0 where
  pub memory : ℕ
  pub total_size : ℕ
  pub mapped_base : Option ℕ
  pub free_list : List FreeRegion
  pub next_fit : ℕ

pub record Allocation : Type 0 where
  pub memory : ℕ
  pub offset : ℕ
  pub size : ℕ
  pub mapped_ptr : Option ℕ
  pub memory_type_index : ℕ

-- The free list and the hint once region `i` is taken out and its padding put back.
pub keep_padding : List FreeRegion → ℕ → FreeRegion → ℕ → List FreeRegion × ℕ
keep_padding free_list i region padding =
    let removed = remove_at free_list i in
    if ltb 0 padding
    then (insert_at removed i (record { offset = region.offset; size = padding }), i + 1)
    else (removed, i)

-- The free list and the hint once what is left behind the allocation is put back.
pub keep_rest : List FreeRegion × ℕ → ℕ → ℕ → List FreeRegion × ℕ
keep_rest (free_list, insert_at') after_offset after_size =
    if ltb 0 after_size
    then (let pos = position_or_len (λ r. ltb after_offset r.offset) free_list in
        (insert_at free_list pos (record { offset = after_offset; size = after_size }), pos))
    else (free_list, insert_at')

pub carve : Block → ℕ → FreeRegion → ℕ → ℕ → List FreeRegion × ℕ
carve block i region aligned_offset size =
    keep_rest (keep_padding block.free_list i region (sub64 aligned_offset region.offset))
      (add64 aligned_offset size)
      (sub64 (add64 region.offset region.size) (add64 aligned_offset size))

pub allocation_in : Block → ℕ → ℕ → ℕ → Allocation
allocation_in block aligned_offset size mem_type = record {
  memory = block.memory;
  offset = aligned_offset;
  size = size;
  mapped_ptr = Option.map (λ base. base + aligned_offset) block.mapped_base;
  memory_type_index = mem_type;
}

pub take_region : Block → ℕ → FreeRegion → ℕ → ℕ → ℕ → Option (Allocation × Block)
unfolding carve allocation_in
take_region block i region size alignment mem_type =
    let aligned_offset = align_up region.offset alignment in
    let carved = carve block i region aligned_offset size in
    if ltb (add64 region.offset region.size) (add64 aligned_offset size)
    then none
    else some (
      allocation_in block aligned_offset size mem_type,
      record block { free_list = carved.0; next_fit = carved.1 },
    )

pub try_region : Block → ℕ → ℕ → ℕ → ℕ → Option (Allocation × Block)
try_region block i size alignment mem_type = elim (get_elem? block.free_list i) [
  | none ↦ none
  | some region ↦ take_region block i region size alignment mem_type
]

-- `for i in start..start + left`, with an early return of the first success.
pub try_range : Block → ℕ → ℕ → ℕ → ℕ → ℕ → Option (Allocation × Block)
try_range block zero i size alignment mem_type = none
try_range block (suc left) i size alignment mem_type =
    elim (try_region block i size alignment mem_type) [
      | some found ↦ some found
      | none ↦ try_range block left (i + 1) size alignment mem_type
    ]

-- From the hint to the end, then from 0 to the hint.
pub try_allocate_from_block : Block → ℕ → ℕ → ℕ → Option (Allocation × Block)
try_allocate_from_block block size alignment mem_type =
    let len = length block.free_list in
    let start = min block.next_fit (len - 1) in
    if len == 0 then none else elim (try_range block (len - start) start size alignment mem_type) [
      | some found ↦ some found
      | none ↦ try_range block start 0 size alignment mem_type
    ]

-- Applies a change to the element at an index.
pub update_at : List FreeRegion → ℕ → (FreeRegion → FreeRegion) → List FreeRegion
update_at [] i f = []
update_at (r ∷ rs) zero f = f r ∷ rs
update_at (r ∷ rs) (suc i) f = r ∷ update_at rs i f

-- The region before the position, if there is one.
pub previous : List FreeRegion → ℕ → Option FreeRegion
previous free_list zero = none
previous free_list (suc before) = get_elem? free_list before

pub touches_prev : Option FreeRegion → ℕ → Bool
touches_prev none offset = false
touches_prev (some prev) offset = add64 prev.offset prev.size == offset

pub touches_next : Option FreeRegion → ℕ → Bool
touches_next none new_end = false
touches_next (some next) new_end = next.offset == new_end

pub end_of : Option FreeRegion → ℕ
end_of none = 0
end_of (some next) = add64 next.offset next.size

-- The four arms of the match on `(merge_prev, merge_next)`.
pub merge : Bool → Bool → List FreeRegion → ℕ → ℕ → ℕ → List FreeRegion
merge true true free_list pos offset size =
    let next_end = end_of (get_elem? free_list pos) in
    update_at (remove_at free_list pos) (pos - 1) (λ r. record r { size = sub64 next_end r.offset })
merge true false free_list pos offset size =
    update_at free_list (pos - 1) (λ r. record r { size = add64 r.size size })
merge false true free_list pos offset size =
    update_at free_list pos (λ r. record { offset = offset; size = add64 r.size size })
merge false false free_list pos offset size =
    insert_at free_list pos (record { offset = offset; size = size })

pub free_in_list : List FreeRegion → ℕ → ℕ → List FreeRegion
free_in_list free_list offset size =
    let pos = position_or_len (λ r. leb offset r.offset) free_list in
    merge (touches_prev (previous free_list pos) offset)
      (touches_next (get_elem? free_list pos) (add64 offset size)) free_list pos offset size

pub free_in_block : Block → ℕ → ℕ → Block
unfolding free_in_list
free_in_block block offset size = record block {
  free_list = free_in_list block.free_list offset size;
}
