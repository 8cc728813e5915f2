-- ===== src/Memory/Driver.antt =====
-- The calls into the Vulkan driver that the allocators make. The driver is not part of the
-- repository, so it is a parameter: a state that the calls change, and their results. A failed
-- call gives its result code.
use ignis_rs.Base.{ℕ}

pub data Called : Type 0 where
  done : ℕ → Called
  failed : ℕ → Called

pub record Driver : Type 1 where
  pub World : Type 0
  -- `vkAllocateMemory` with a size and a memory type: the handle.
  pub allocate_memory : ℕ → ℕ → World → Called × World
  -- `vkMapMemory` of a whole memory object: the address.
  pub map_memory : ℕ → World → Called × World
  pub unmap_memory : ℕ → World → World
  pub free_memory : ℕ → World → World
