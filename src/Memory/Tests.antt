-- ===== src/Memory/Tests.antt =====
-- memory/allocator.rs: runs of the pool and of the choice of a memory type.
use ignis_rs.Base.{
  ℕ, suc, ◌+◌, ◌≡◌, refl, true, none, some, List, [], ◌∷◌, arith, ltb, if◌then◌else◌,
}
use ignis_rs.Memory.Driver.{Driver, done, failed}
use ignis_rs.Memory.Block.{Block, Allocation, try_allocate_from_block}
use ignis_rs.Memory.Block.Allocate.{Fits, Allocated}
use ignis_rs.Memory.Block.History.{fresh_block}
use ignis_rs.Memory.Kind.{PropertyFlags, MemoryRequirements, cpu_to_gpu, find_memory_type_index}
use ignis_rs.Memory.Kind.Best.{IsBest, find_memory_type_index-IsBest}
use ignis_rs.Memory.Pool.{allocate_in}
use ignis_rs.Memory.Pool.Serves.{Outcome, allocate_in-Outcome, fresh_block_serves}

-- A driver with a counter of handles, that runs out after ten of them.
abbrev counting_driver : Driver
counting_driver = record {
  World = ℕ;
  allocate_memory = λ size mem_type w. (if ltb w 10 then done w else failed 2, suc w);
  map_memory = λ memory w. (done (65536 + memory), w);
  unmap_memory = λ memory w. w;
  free_memory = λ memory w. w;
}

abbrev nearly_full : Block
nearly_full = record {
  memory = 3;
  total_size = 1024;
  mapped_base = none;
  free_list = record { offset = 512; size = 16 } ∷ [];
  next_fit = 0;
}

nearly_full-Fits : Fits nearly_full 100 64
nearly_full-Fits = record {
  nonempty = omega arith;
  aligned = (6, omega arith, refl);
  no_wrap = omega arith;
}

allocate_in-Outcome_example :
    Outcome counting_driver
      (nearly_full ∷ [])
      1024
      100
      64
      1
      true
      4
      (allocate_in counting_driver (nearly_full ∷ []) 1024 100 64 1 true 4)
allocate_in-Outcome_example =
    allocate_in-Outcome counting_driver (nearly_full ∷ []) 1024 100 64 1 true 4
      (((omega arith, omega arith, omega arith, tt), nearly_full-Fits), tt) (omega arith)
      (6, omega arith, refl) (omega arith)

fresh_block_serves_example :
    (a : Allocation) × (b' : Block) × (try_allocate_from_block (fresh_block 3 1024 none) 100 64 1
      ≡ some (a, b'))
    × Allocated (fresh_block 3 1024 none) 100 64 1 a b'
unfolding fresh_block
fresh_block_serves_example =
    fresh_block_serves 3 1024 100 64 1 none (omega arith)
      (record { nonempty = omega arith; aligned = (6, omega arith, refl); no_wrap = omega arith })

abbrev vk_flags : PropertyFlags
vk_flags = record { device_local = 1; host_visible = 2; host_coherent = 4 }

abbrev two_types : List ℕ
two_types = 1 ∷ 6 ∷ 7 ∷ []

abbrev wants_any : MemoryRequirements
wants_any = record { size = 100; alignment = 64; memory_type_bits = 7 }

find_memory_type_index-IsBest_example :
    IsBest vk_flags 3 two_types wants_any cpu_to_gpu
      (find_memory_type_index vk_flags 3 two_types wants_any cpu_to_gpu)
find_memory_type_index-IsBest_example =
    find_memory_type_index-IsBest vk_flags 3 two_types wants_any cpu_to_gpu
