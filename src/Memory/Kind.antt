-- ===== src/Memory/Kind.antt =====
-- memory/resources.rs: `MemoryLocation` and its flags. memory/allocator.rs:
-- `find_memory_type_index`. The three property bits are constants of the Vulkan binding, which
-- is not part of the repository: they are parameters.
pub mod Best
use ignis_rs.Base.{
  ℕ, zero, suc, ◌+◌, ◌^◌, ◌≤◌, ◌<◌, bit_and, bit_or, ◌≡◌, refl, sym, ap, ◌∙◌, ◌⊎◌, inl, inr, Bool,
  true, false, ◌&&◌, not, Option, none, some, List, arith, ltb, leb, ◌==◌, if◌then◌else◌,
  Bool-cases, Option-cases, le_cases, get_elem?,
}

pub data MemoryLocation : Type 0 where
  gpu_only cpu_to_gpu gpu_to_cpu : MemoryLocation

pub record PropertyFlags : Type 0 where
  pub device_local : ℕ
  pub host_visible : ℕ
  pub host_coherent : ℕ

pub required_flags : PropertyFlags → MemoryLocation → ℕ
required_flags vk gpu_only = vk.device_local
required_flags vk cpu_to_gpu = bit_or vk.host_visible vk.host_coherent
required_flags vk gpu_to_cpu = bit_or vk.host_visible vk.host_coherent

pub preferred_flags : PropertyFlags → MemoryLocation → ℕ
preferred_flags vk cpu_to_gpu = vk.device_local
preferred_flags vk gpu_only = 0
preferred_flags vk gpu_to_cpu = 0

pub record MemoryRequirements : Type 0 where
  pub size : ℕ
  pub alignment : ℕ
  pub memory_type_bits : ℕ

-- `flags.contains(wanted)` of the binding's bit sets.
pub contains : ℕ → ℕ → Bool
contains flags wanted = bit_and flags wanted == wanted

-- `memory_types[i].property_flags.contains(wanted)`; no index here is out of range.
pub type_contains : Option ℕ → ℕ → Bool
type_contains none wanted = false
type_contains (some flags) wanted = contains flags wanted

-- One round of either loop: the type is allowed, and has the wanted properties.
pub suits : List ℕ → MemoryRequirements → ℕ → ℕ → Bool
suits memory_types requirements wanted i =
    not (bit_and requirements.memory_type_bits (2 ^ i) == 0)
    && type_contains (get_elem? memory_types i) wanted

-- `for i in i..i + left` with an early return.
pub first_suiting : List ℕ → MemoryRequirements → ℕ → ℕ → ℕ → Option ℕ
first_suiting memory_types requirements wanted zero i = none
first_suiting memory_types requirements wanted (suc left) i =
    let rest = first_suiting memory_types requirements wanted left (i + 1) in
    if suits memory_types requirements wanted i then some i else rest

-- `memory_types` holds the property flags of the first `memory_type_count` types.
pub find_memory_type_index :
    PropertyFlags → ℕ → List ℕ → MemoryRequirements → MemoryLocation → Option ℕ
find_memory_type_index vk memory_type_count memory_types requirements location =
    let required = required_flags vk location in
    let preferred = preferred_flags vk location in
    elim (first_suiting memory_types requirements (bit_or required preferred) memory_type_count 0) [
      | some i ↦ some i
      | none ↦ first_suiting memory_types requirements required memory_type_count 0
    ]
