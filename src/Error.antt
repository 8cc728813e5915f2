-- ===== src/Error.antt =====
-- error.rs: `Error` and `Result`, and the outcomes of calls into the Vulkan driver.
use Prim.Native.String.{String}
use ignis_rs.Base.{ℕ}

-- lib.rs: `QueueType`.
pub data QueueType : Type 0 where
  graphics compute transfer : QueueType

-- `vulkan` holds the result code of a driver call.
pub data Error : Type 0 where
  vulkan : ℕ → Error
  load_failed no_suitable_device : Error
  no_suitable_queue_family : QueueType → Error
  feature_not_enabled : String → Error
  invalid_config : String → Error
  thread_panic invalid_spirv timeout no_suitable_memory_type : Error
  swapchain_out_of_date surface_lost : Error
  context : Error → String → Error

pub data Result {ℓ} (A : Type ℓ) : Type ℓ where
  ok : A → Result A
  err : Error → Result A

-- `WithContext::context`.
pub with_context {ℓ} : {A : Type ℓ} → Result A → String → Result A
with_context (ok a) s = ok a
with_context (err e) s = err (context e s)
