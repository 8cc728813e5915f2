-- ===== src/Memory/Pool.antt =====
-- memory/allocator.rs: `MemoryPool`, `BlockAllocator`, its `allocate_block`, `allocate` and `free`.
-- Each memory type has a pool behind a lock of its own, which a call holds to its end: a call is
-- one step. The pools are a vector that the memory type indexes.
pub mod Supply
pub mod Serves
use ignis_rs.Base.{
  ℕ, zero, suc, ◌+◌, max, ◌≡◌, Bool, true, false, Option, none, some, List, [], ◌∷◌, ◌++◌, ltb,
  ◌==◌, if◌then◌else◌, length, get_elem?, set,
}
use ignis_rs.Error.{Error, vulkan, no_suitable_memory_type, Result, ok, err}
use ignis_rs.Memory.Driver.{Driver, Called, done, failed}
use ignis_rs.Memory.Kind.{
  PropertyFlags, MemoryLocation, MemoryRequirements, type_contains, find_memory_type_index,
}
use ignis_rs.Memory.Block.{Block, Allocation, try_allocate_from_block, free_in_block}
use ignis_rs.Memory.Block.History.{fresh_block}

pub record MemoryPool : Type 0 where
  pub memory_type_index : ℕ
  pub is_host_visible : Bool
  pub blocks : List Block

pub record BlockAllocator : Type 0 where
  pub flags : PropertyFlags
  pub memory_type_count : ℕ
  pub memory_types : List ℕ
  pub block_size : ℕ
  pub pools : List (Option MemoryPool)

-- `get_or_insert_with` on the slot of a memory type.
pub pool_or_new : Option (Option MemoryPool) → ℕ → Bool → MemoryPool
pool_or_new (some (some pool)) mem_type host_visible = pool
pool_or_new (some none) mem_type host_visible = record {
  memory_type_index = mem_type;
  is_host_visible = host_visible;
  blocks = [];
}
pool_or_new none mem_type host_visible = record {
  memory_type_index = mem_type;
  is_host_visible = host_visible;
  blocks = [];
}

-- `for block in &mut pool.blocks`, with a return at the first success.
pub try_blocks : List Block → ℕ → ℕ → ℕ → Option (Allocation × List Block)
try_blocks [] size alignment mem_type = none
try_blocks (block ∷ blocks) size alignment mem_type =
    elim (try_allocate_from_block block size alignment mem_type) [
      | some (allocation, block') ↦ some (allocation, block' ∷ blocks)
      | none ↦ elim (try_blocks blocks size alignment mem_type) [
        | some (allocation, blocks') ↦ some (allocation, block ∷ blocks')
        | none ↦ none
      ]
    ]

-- `for block in &mut pool.blocks` of `free`: the first block with the handle takes the range.
pub free_in_blocks : List Block → ℕ → ℕ → ℕ → List Block
free_in_blocks [] memory offset size = []
free_in_blocks (block ∷ blocks) memory offset size =
    if block.memory == memory
    then free_in_block block offset size ∷ blocks
    else block ∷ free_in_blocks blocks memory offset size

module _ (d : Driver) where
  open d use {World, allocate_memory, map_memory, free_memory}

  -- The block of a fresh memory object; the object is freed again if it cannot be mapped.
  pub map_block : ℕ → ℕ → Called × World → Result Block × World
  map_block memory size (done base, w) = (ok (fresh_block memory size (some base)), w)
  map_block memory size (failed code, w) = (err (vulkan code), free_memory memory w)

  pub block_of : ℕ → Bool → Called × World → Result Block × World
  block_of size host_visible (failed code, w) = (err (vulkan code), w)
  block_of size true (done memory, w) = map_block memory size (map_memory memory w)
  block_of size false (done memory, w) = (ok (fresh_block memory size none), w)

  pub allocate_block : ℕ → ℕ → Bool → World → Result Block × World
  allocate_block mem_type size host_visible w =
      block_of size host_visible (allocate_memory size mem_type w)

  -- The oversized case: a block of the size asked for, with nothing free.
  pub give_whole :
      List Block → ℕ → ℕ → Result Block × World → Result Allocation × List Block × World
  give_whole blocks size mem_type (err e, w) = (err e, blocks, w)
  give_whole blocks size mem_type (ok block, w) = (
    ok (record {
      memory = block.memory;
      offset = 0;
      size = size;
      mapped_ptr = block.mapped_base;
      memory_type_index = mem_type;
    }),
    blocks ++ record block { free_list = [] } ∷ [],
    w,
  )

  -- The last case: a new block of the usual size, which serves the request.
  pub serve_new : List Block → Block → Option (Allocation × Block) → Result Allocation × List Block
  serve_new blocks block (some (allocation, block')) = (ok allocation, blocks ++ block' ∷ [])
  serve_new blocks block none = (err no_suitable_memory_type, blocks ++ block ∷ [])

  pub give_new :
      List Block → ℕ → ℕ → ℕ → Result Block × World → Result Allocation × List Block × World
  give_new blocks size alignment mem_type (err e, w) = (err e, blocks, w)
  give_new blocks size alignment mem_type (ok block, w) =
      let served = serve_new blocks block (try_allocate_from_block block size alignment mem_type) in
      (served.0, served.1, w)

  -- The body of `allocate` under the lock, on the blocks of the pool.
  pub allocate_in :
      List Block → ℕ → ℕ → ℕ → ℕ → Bool → World → Result Allocation × List Block × World
  allocate_in blocks block_size size alignment mem_type host_visible w =
      if ltb block_size size
      then give_whole blocks size mem_type (allocate_block mem_type size host_visible w)
      else elim (try_blocks blocks size alignment mem_type) [
        | some (allocation, blocks') ↦ (ok allocation, blocks', w)
        | none ↦
            give_new blocks size alignment mem_type
              (allocate_block mem_type block_size host_visible w)
      ]

  pub allocate :
      BlockAllocator
      → MemoryRequirements
      → MemoryLocation
      → World
      → Result Allocation × BlockAllocator × World
  allocate s requirements location w =
      elim (find_memory_type_index s.flags s.memory_type_count s.memory_types requirements
        location) [
          | none ↦ (err no_suitable_memory_type, s, w)
          | some mem_type ↦
              let host_visible =
                type_contains (get_elem? s.memory_types mem_type) s.flags.host_visible in
              let pool = pool_or_new (get_elem? s.pools mem_type) mem_type host_visible in
              let (result, blocks, w') =
                allocate_in pool.blocks s.block_size requirements.size
                  (max requirements.alignment 1) mem_type host_visible w in
              (
                result,
                record s { pools = set s.pools mem_type (some (record pool { blocks = blocks })) },
                w',
              )
        ]

pub free_in_pool : Option (Option MemoryPool) → Allocation → Option MemoryPool
free_in_pool (some (some pool)) a =
    some (record pool { blocks = free_in_blocks pool.blocks a.memory a.offset a.size })
free_in_pool (some none) a = none
free_in_pool none a = none

pub free : BlockAllocator → Allocation → BlockAllocator
free s a = record s {
  pools = set s.pools a.memory_type_index (free_in_pool (get_elem? s.pools a.memory_type_index) a);
}
