-- ===== src/Memory/Block/RoundTrip.antt =====
-- memory/allocator.rs: the whole of `try_allocate_from_block`, and freeing what it gave out.
use ignis_rs.Base.{
  ℕ, suc, ◌+◌, ◌*◌, ◌≤◌, ◌<◌, ◌≡◌, refl, true, none, some, List, [], ◌∷◌, arith, le_cases, inl, inr,
  get_elem?,
}
use ignis_rs.Memory.Align.{align_up_least}
use ignis_rs.Memory.Block.{FreeRegion, Block, Allocation, try_allocate_from_block, free_in_block}
use ignis_rs.Memory.Block.Chain.{IsValid, Chain, inside, covers, covers_below, Chain-unique}
use ignis_rs.Memory.Block.Allocate.{
  Fits, Allocated, try_allocate_from_block-some, try_allocate_from_block-none,
}
use ignis_rs.Memory.Block.Free.{free_in_block_lem, Taken}

-- All bytes of a range are free.
abbrev pub HasRoom : List FreeRegion → ℕ → ℕ → Type 0
HasRoom rs offset size = (x : ℕ) → inside offset size x ≡ true → covers rs x ≡ true

HasRoom-tail :
    (r : FreeRegion) (rs : List FreeRegion) (offset size : ℕ)
    → r.offset + r.size ≤ offset
    → HasRoom (r ∷ rs) offset size
    → HasRoom rs offset size
unfolding covers
HasRoom-tail r rs offset size l h x k = ground (arith, h x k)

-- Since regions never touch, a free range lies in one region.
one_region :
    (lo hi offset size : ℕ) (rs : List FreeRegion)
    → Chain lo hi rs
    → 0 < size
    → HasRoom rs offset size
    → (i : ℕ) × (r : FreeRegion) × (get_elem? rs i ≡ some r)
      × (r.offset ≤ offset)
      × (offset + size ≤ r.offset + r.size)
      × (r.offset + r.size < hi)
unfolding covers
one_region lo hi offset size [] c pos h = absurd (ground (arith, h offset))
one_region lo hi offset size (r ∷ rs) c pos h = elim (le_cases (r.offset + r.size) offset) [
  | inl later ↦
      let (i, q, e, low, high, end) =
        one_region (suc (r.offset + r.size)) hi offset size rs c.3 pos
          (HasRoom-tail r rs offset size later h) in
      (suc i, q, e, low, high, end)
  | inr here ↦
      let low : r.offset ≤ offset =
        ground (arith, h offset, covers_below (suc (r.offset + r.size)) hi rs offset c.3) in
      (
        0,
        r,
        refl,
        low,
        ground (
          arith,
          h (r.offset + r.size),
          covers_below (suc (r.offset + r.size)) hi rs (r.offset + r.size) c.3,
        ),
        c.2,
      )
]

-- A success of `try_allocate_from_block` on a valid block, for a nonempty request with a power of
-- two as alignment that cannot wrap, answers it: the range is aligned, lies in the block, was free in all its bytes, and exactly
-- these bytes are no longer free; the free list stays sorted and coalesced.
pub try_allocate_from_block_lem :
    (b : Block) (size alignment mem_type : ℕ) (a : Allocation) (b' : Block)
    → IsValid b
    → Fits b size alignment
    → try_allocate_from_block b size alignment mem_type ≡ some (a, b')
    → Allocated b size alignment mem_type a b'
try_allocate_from_block_lem b size alignment mem_type a b' v f e =
    try_allocate_from_block-some b size alignment mem_type v f a b' e

-- A failure of `try_allocate_from_block` on a valid block, for a nonempty request with a power of
-- two as alignment that cannot wrap, means that no aligned range of the size is free.
pub try_allocate_from_block_complete :
    (b : Block) (size alignment mem_type m : ℕ)
    → IsValid b
    → Fits b size alignment
    → try_allocate_from_block b size alignment mem_type ≡ none
    → ¬ HasRoom b.free_list (m * alignment) size
try_allocate_from_block_complete b size alignment mem_type m v f e room =
    let (i, r, found, low, high, end) =
      one_region 0 (suc b.total_size) (m * alignment) size b.free_list v f.nonempty room in
    let small = try_allocate_from_block-none b size alignment mem_type v f i r e found in
    absurd (
      omega (
        arith,
        align_up_least r.offset alignment m f.aligned (omega (arith, end, f.no_wrap)) low,
        small,
      ))

-- In a valid block, freeing an allocation for a nonempty request with a power of two as alignment
-- that cannot wrap right away restores the free list that it was taken from.
pub free_in_block-try_allocate_from_block :
    (b : Block) (size alignment mem_type : ℕ) (a : Allocation) (b' : Block)
    → IsValid b
    → Fits b size alignment
    → try_allocate_from_block b size alignment mem_type ≡ some (a, b')
    → (free_in_block b' a.offset a.size).free_list ≡ b.free_list
free_in_block-try_allocate_from_block b size alignment mem_type a b' v f e =
    let given : Allocated b size alignment mem_type a b' =
      try_allocate_from_block-some b size alignment mem_type v f a b' e in
    let taken : Taken b' a.offset a.size = record {
      nonempty = omega (arith, given.size_asked, f.nonempty);
      within = omega (arith, given.size_asked, given.in_block, given.same_size);
      taken = λ x h. ground (arith, given.now_free x, given.size_asked, h);
    } in
    let (chain, cover, m, t, base, hint) =
      free_in_block_lem b' a.offset a.size given.valid (omega (arith, given.same_size, f.no_wrap))
        taken in
    Chain-unique 0 (suc (free_in_block b' a.offset a.size).total_size) 0 (suc b.total_size)
      (free_in_block b' a.offset a.size).free_list b.free_list chain v
      λ x. ground (arith, cover x, given.now_free x, given.was_free x, given.size_asked)
