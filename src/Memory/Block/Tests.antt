-- ===== src/Memory/Block/Tests.antt =====
-- memory/allocator.rs: runs of the block operations on small blocks.
use ignis_rs.Base.{
  ℕ, ◌+◌, ◌*◌, ◌%◌, ◌||◌, ◌≤◌, ◌<◌, ◌≡◌, refl, none, some, [], ◌∷◌, arith, add64, sub64, not64,
}
use ignis_rs.Memory.Align.{align_up, align_up_lem}
use ignis_rs.Memory.Block.{
  FreeRegion, Block, Allocation, carve, keep_padding, keep_rest, allocation_in, take_region,
  try_region, try_range, try_allocate_from_block, free_in_block,
}
use ignis_rs.Memory.Block.Chain.{IsValid, inside, covers}
use ignis_rs.Memory.Block.Allocate.{Fits, Allocated}
use ignis_rs.Memory.Block.Free.{free_in_block_lem, Taken}
use ignis_rs.Memory.Block.RoundTrip.{
  HasRoom, try_allocate_from_block_lem, try_allocate_from_block_complete,
  free_in_block-try_allocate_from_block,
}
use ignis_rs.Memory.Block.History.{
  fresh_block, Step, allocates, frees, here, next, Accounted, Reach-fresh_block,
  Reach-fresh_block-empty,
}

abbrev region : ℕ → ℕ → FreeRegion
region offset size = record { offset = offset; size = size }

abbrev two_regions : Block
two_regions = record {
  memory = 7;
  total_size = 1024;
  mapped_base = some 4096;
  free_list = region 10 500 ∷ region 600 424 ∷ [];
  next_fit = 5;
}

abbrev allocation_640 : Allocation
allocation_640 = record {
  memory = 7;
  offset = 640;
  size = 100;
  mapped_ptr = some 4736;
  memory_type_index = 2;
}

abbrev three_regions : Block
three_regions = record {
  memory = 7;
  total_size = 1024;
  mapped_base = some 4096;
  free_list = region 10 500 ∷ region 600 40 ∷ region 740 284 ∷ [];
  next_fit = 2;
}

two_regions-IsValid : IsValid two_regions
two_regions-IsValid =
    (omega arith, omega arith, omega arith, (omega arith, omega arith, omega arith, tt))

Fits-100 : Fits two_regions 100 64
Fits-100 = record {
  nonempty = omega arith;
  aligned = (6, omega arith, refl);
  no_wrap = omega arith;
}

Fits-1000 : Fits two_regions 1000 64
Fits-1000 = record {
  nonempty = omega arith;
  aligned = (6, omega arith, refl);
  no_wrap = omega arith;
}

run_100 : try_allocate_from_block two_regions 100 64 2 ≡ some (allocation_640, three_regions)
unfolding try_allocate_from_block try_range try_region take_region carve keep_padding keep_rest
    allocation_in align_up add64 sub64 not64
run_100 = refl

run_1000 : try_allocate_from_block two_regions 1000 64 2 ≡ none
unfolding try_allocate_from_block try_range try_region take_region carve keep_padding keep_rest
    allocation_in align_up add64 sub64 not64
run_1000 = refl

try_allocate_from_block_lem_example : Allocated two_regions 100 64 2 allocation_640 three_regions
try_allocate_from_block_lem_example =
    try_allocate_from_block_lem two_regions 100 64 2 allocation_640 three_regions
      two_regions-IsValid Fits-100 run_100

try_allocate_from_block_complete_example : ¬ HasRoom two_regions.free_list (0 * 64) 1000
try_allocate_from_block_complete_example =
    try_allocate_from_block_complete two_regions 1000 64 2 0 two_regions-IsValid Fits-1000 run_1000

free_in_block-try_allocate_from_block_example :
    (free_in_block three_regions 640 100).free_list ≡ region 10 500 ∷ region 600 424 ∷ []
free_in_block-try_allocate_from_block_example =
    free_in_block-try_allocate_from_block two_regions 100 64 2 allocation_640 three_regions
      two_regions-IsValid Fits-100 run_100

three_regions-IsValid : IsValid three_regions
three_regions-IsValid = (
  omega arith,
  omega arith,
  omega arith,
  (omega arith, omega arith, omega arith, (omega arith, omega arith, omega arith, tt)),
)

Taken-640 : Taken three_regions 640 100
unfolding covers
Taken-640 = record {
  nonempty = omega arith;
  within = omega arith;
  taken = λ x h. ground (arith, h);
}

free_in_block_lem_example :
    let b' = free_in_block three_regions 640 100 in
    IsValid b'
    × ((x : ℕ) → covers b'.free_list x ≡ (covers three_regions.free_list x || inside 640 100 x))
    × (b'.memory ≡ 7)
    × (b'.total_size ≡ 1024)
    × (b'.mapped_base ≡ some 4096)
    × (b'.next_fit ≡ 2)
free_in_block_lem_example =
    free_in_block_lem three_regions 640 100 three_regions-IsValid (omega arith) Taken-640

-- A fresh block of 256 bytes, 64 bytes of it given out, and freed again.
abbrev start_block : Block
start_block = fresh_block 9 256 none

abbrev allocation_0 : Allocation
allocation_0 = record {
  memory = 9;
  offset = 0;
  size = 64;
  mapped_ptr = none;
  memory_type_index = 1;
}

abbrev used_block : Block
used_block = record {
  memory = 9;
  total_size = 256;
  mapped_base = none;
  free_list = region 64 192 ∷ [];
  next_fit = 0;
}

given_64 : Step start_block [] used_block (allocation_0 ∷ [])
unfolding fresh_block try_allocate_from_block try_range try_region take_region carve keep_padding
    keep_rest allocation_in align_up add64 sub64 not64
given_64 =
    allocates 64 16 1 allocation_0
      (record { nonempty = omega arith; aligned = (4, omega arith, refl); no_wrap = omega arith })
      refl refl

freed_64 : Step used_block (allocation_0 ∷ []) (free_in_block used_block 0 64) []
freed_64 = frees [] allocation_0 [] refl refl refl

Reach-fresh_block_example : Accounted 256 used_block (allocation_0 ∷ [])
Reach-fresh_block_example =
    Reach-fresh_block 9 256 none used_block (allocation_0 ∷ []) (omega arith) (omega arith)
      (next here given_64)

Reach-fresh_block-empty_example :
    (free_in_block used_block 0 64).free_list ≡ (fresh_block 9 256 none).free_list
Reach-fresh_block-empty_example =
    Reach-fresh_block-empty 9 256 none (free_in_block used_block 0 64) (omega arith) (omega arith)
      (next (next here given_64) freed_64)

align_up_lem_example :
    (1000 ≤ align_up 1000 256) × (align_up 1000 256 < 1000 + 256) × (align_up 1000 256 % 256 ≡ 0)
align_up_lem_example = align_up_lem 1000 256 (8, omega arith, refl) (omega arith)
