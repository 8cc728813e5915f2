-- ===== src/Memory/Dedicated.antt =====
-- memory/allocator.rs: `DedicatedAllocator`, one memory object for each allocation. The properties
-- of the device's memory types are arguments, as is the driver.
pub mod Ledger
mod Tests
use ignis_rs.Base.{ℕ, Bool, true, false, Option, none, some, List, get_elem?}
use ignis_rs.Error.{Error, vulkan, no_suitable_memory_type, Result, ok, err}
use ignis_rs.Memory.Block.{Allocation}
use ignis_rs.Memory.Driver.{Driver, Called, done, failed}
use ignis_rs.Memory.Kind.{
  PropertyFlags, MemoryLocation, MemoryRequirements, type_contains, find_memory_type_index,
}

abbrev pub dedicated : ℕ → ℕ → Option ℕ → ℕ → Allocation
dedicated memory size mapped_ptr idx = record {
  memory = memory;
  offset = 0;
  size = size;
  mapped_ptr = mapped_ptr;
  memory_type_index = idx;
}

module _ (d : Driver) where
  pub after_map : ℕ → ℕ → ℕ → Called × d.World → Result Allocation × d.World
  after_map memory size idx (done ptr, w) = (ok (dedicated memory size (some ptr) idx), w)
  after_map memory size idx (failed code, w) = (err (vulkan code), w)

  pub after_memory : Bool → ℕ → ℕ → Called × d.World → Result Allocation × d.World
  after_memory host_visible size idx (failed code, w) = (err (vulkan code), w)
  after_memory true size idx (done memory, w) = after_map memory size idx (d.map_memory memory w)
  after_memory false size idx (done memory, w) = (ok (dedicated memory size none idx), w)

  pub allocate_dedicated :
      PropertyFlags
      → ℕ
      → List ℕ
      → MemoryRequirements
      → MemoryLocation
      → d.World
      → Result Allocation × d.World
  allocate_dedicated vk memory_type_count memory_types requirements location w =
      elim (find_memory_type_index vk memory_type_count memory_types requirements location) [
        | none ↦ (err no_suitable_memory_type, w)
        | some idx ↦
            after_memory (type_contains (get_elem? memory_types idx) vk.host_visible)
              requirements.size idx (d.allocate_memory requirements.size idx w)
      ]

  pub free_dedicated : Allocation → d.World → d.World
  free_dedicated allocation w = elim allocation.mapped_ptr [
    | none ↦ d.free_memory allocation.memory w
    | some ptr ↦ d.free_memory allocation.memory (d.unmap_memory allocation.memory w)
  ]
