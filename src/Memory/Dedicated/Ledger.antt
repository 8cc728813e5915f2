-- ===== src/Memory/Dedicated/Ledger.antt =====
-- memory/allocator.rs: the memory objects that `DedicatedAllocator` leaves alive.
use ignis_rs.Base.{
  ℕ, ◌+◌, ◌<◌, ◌≡◌, refl, ◌⊎◌, inl, inr, Bool, true, false, Option, none, some, List, arith, ◌==◌,
  if◌then◌else◌, get_elem?, Option-cases,
}
use ignis_rs.Error.{Error, vulkan, no_suitable_memory_type, Result, ok, err}
use ignis_rs.Memory.Block.{Allocation}
use ignis_rs.Memory.Driver.{Driver, Called, done, failed}
use ignis_rs.Memory.Kind.{
  PropertyFlags, MemoryLocation, MemoryRequirements, type_contains, find_memory_type_index,
}
use ignis_rs.Memory.Dedicated.{after_map, after_memory, allocate_dedicated, free_dedicated}

-- What the driver is documented to do to the memory objects that are alive.
module _ (d : Driver) (live : d.World → ℕ → ℕ) where
  abbrev pub Same : d.World → d.World → Type 0
  Same w w' = (m : ℕ) → live w' m ≡ live w m

  abbrev pub Adds : ℕ → d.World → d.World → Type 0
  Adds memory w w' = (m : ℕ) → live w' m ≡ live w m + (if m == memory then 1 else 0)

  abbrev pub Given : d.World → Called × d.World → Type 0
  Given w (failed code, w') = Same w w'
  Given w (done memory, w') = Adds memory w w'

  pub record Documented : Type 0 where
    pub allocates : (size idx : ℕ) (w : d.World) → Given w (d.allocate_memory size idx w)
    pub maps : (memory : ℕ) (w : d.World) → Same w (d.map_memory memory w).1
    pub unmaps : (memory : ℕ) (w : d.World) → Same w (d.unmap_memory memory w)
    pub frees :
        (memory : ℕ) (w : d.World)
        → 0 < live w memory
        → (m : ℕ) → live (d.free_memory memory w) m + (if m == memory then 1 else 0) ≡ live w m

  -- The mapping of a new memory object: there is one exactly in host-visible memory.
  abbrev pub Mapped : Bool → ℕ → d.World → Option ℕ → d.World → Type 0
  Mapped true memory w1 mapped_ptr w' =
      (ptr : ℕ) × (d.map_memory memory w1 ≡ (done ptr, w')) × (mapped_ptr ≡ some ptr)
  Mapped false memory w1 mapped_ptr w' = (w' ≡ w1) × (mapped_ptr ≡ none)

  -- How a call fails once there is a memory type: no memory object is made, or the one that is made
  -- is in host-visible memory, cannot be mapped, and stays alive.
  abbrev pub Fails : Bool → ℕ → ℕ → d.World → Error → d.World → Type 0
  Fails host_visible size idx w e w' =
      ((code : ℕ) × (d.allocate_memory size idx w ≡ (failed code, w'))
        × (e ≡ vulkan code)
        × Same w w')
      ⊎ ((memory code : ℕ) × (w1 : d.World) × (d.allocate_memory size idx w ≡ (done memory, w1))
          × (host_visible ≡ true)
          × (d.map_memory memory w1 ≡ (failed code, w'))
          × (e ≡ vulkan code)
          × Adds memory w w')

  -- What an allocation leaves behind once there is a memory type, seen from the state before it.
  abbrev pub Answers : Bool → ℕ → ℕ → d.World → Result Allocation × d.World → Type 0
  Answers host_visible size idx w (ok a, w') =
      (a.offset ≡ 0)
      × (a.size ≡ size)
      × (a.memory_type_index ≡ idx)
      × Adds a.memory w w'
      × Same w (free_dedicated d a w')
      × ((w1 : d.World) × (d.allocate_memory size idx w ≡ (done a.memory, w1))
          × Mapped host_visible a.memory w1 a.mapped_ptr w')
  Answers host_visible size idx w (err e, w') = Fails host_visible size idx w e w'

  -- The same of the choice of a memory type before it.
  abbrev pub Outcome :
      PropertyFlags → List ℕ → ℕ → Option ℕ → d.World → Result Allocation × d.World → Type 0
  Outcome vk memory_types size none w (answer, w') =
      (answer ≡ err no_suitable_memory_type) × (w' ≡ w)
  Outcome vk memory_types size (some idx) w answer =
      Answers (type_contains (get_elem? memory_types idx) vk.host_visible) size idx w answer

  module _ (documented : Documented) where
    after_map_lem :
        (memory size idx : ℕ) (w w1 : d.World) (called : Called × d.World)
        → d.allocate_memory size idx w ≡ (done memory, w1)
        → d.map_memory memory w1 ≡ called
        → Adds memory w w1
        → Same w1 called.1
        → Answers true size idx w (after_map d memory size idx called)
    unfolding after_map free_dedicated
    after_map_lem memory size idx w w1 (failed code, w2) new answer made same =
        inr (memory, code, w1, new, refl, answer, refl, λ m. omega (arith, same m, made m))
    after_map_lem memory size idx w w1 (done ptr, w2) new answer made same =
        let unmapped = documented.unmaps memory w2 in
        let freed =
          documented.frees memory (d.unmap_memory memory w2)
            (ground (arith, unmapped memory, same memory, made memory)) in
        (
          refl,
          refl,
          refl,
          λ m. omega (arith, same m, made m),
          λ m. omega (arith, freed m, unmapped m, same m, made m),
          (w1, new, (ptr, answer, refl)),
        )

    after_memory_lem :
        (host_visible : Bool) (size idx : ℕ) (w : d.World) (called : Called × d.World)
        → d.allocate_memory size idx w ≡ called
        → Given w called
        → Answers host_visible size idx w (after_memory d host_visible size idx called)
    unfolding after_memory free_dedicated
    after_memory_lem host_visible size idx w (failed code, w1) answer same =
        inl (code, answer, refl, same)
    after_memory_lem true size idx w (done memory, w1) answer made =
        after_map_lem memory size idx w w1 (d.map_memory memory w1) answer refl made
          (documented.maps memory w1)
    after_memory_lem false size idx w (done memory, w1) answer made =
        let freed = documented.frees memory w1 (ground (arith, made memory)) in
        (refl, refl, refl, made, λ m. omega (arith, freed m, made m), (w1, answer, (refl, refl)))

-- With a driver that does what it is documented to do, an allocation of the dedicated allocator makes
-- a memory object of the size asked for and of the memory type found, and gives all of it, from
-- offset 0 on, with its address if the memory type is host-visible; freeing it leaves alive what
-- there was. If there is no memory type, it gives this error and calls nothing. Otherwise it fails in
-- two cases only, with the code of the driver: no memory object is made, and it leaves alive what
-- there was; or the new object is host-visible and cannot be mapped, and then it stays alive.
pub allocate_dedicated_lem :
    (d : Driver) (live : d.World → ℕ → ℕ) (vk : PropertyFlags) (memory_type_count : ℕ)
    (memory_types : List ℕ) (requirements : MemoryRequirements) (location : MemoryLocation)
    (w : d.World)
    → Documented d live
    → Outcome d live vk memory_types requirements.size
        (find_memory_type_index vk memory_type_count memory_types requirements location)
        w
        (allocate_dedicated d vk memory_type_count memory_types requirements location w)
unfolding allocate_dedicated
allocate_dedicated_lem d live vk memory_type_count memory_types requirements location w documented =
    elim (Option-cases
      (find_memory_type_index vk memory_type_count memory_types requirements location)) [
        | inl missing ↦ rw (allocate_dedicated, missing) (refl, refl)
        | inr (idx, found) ↦
            rw (allocate_dedicated, found)
              (after_memory_lem d live documented
                (type_contains (get_elem? memory_types idx) vk.host_visible) requirements.size idx w
                (d.allocate_memory requirements.size idx w) refl
                (documented.allocates requirements.size idx w))
      ]
