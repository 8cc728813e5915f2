-- ===== src/Memory/Dedicated/Tests.antt =====
-- memory/allocator.rs: a dedicated allocation whose memory cannot be mapped.
use ignis_rs.Base.{
  ℕ, ◌+◌, ◌-◌, ◌<◌, ◌≡◌, refl, inl, inr, [], ◌∷◌, arith, ◌==◌, if◌then◌else◌, Bool-cases, subst,
}
use ignis_rs.Memory.Driver.{Driver, done, failed}
use ignis_rs.Memory.Kind.{PropertyFlags, MemoryRequirements, cpu_to_gpu, find_memory_type_index}
use ignis_rs.Memory.Dedicated.{allocate_dedicated}
use ignis_rs.Memory.Dedicated.Ledger.{Documented, Outcome, allocate_dedicated_lem}

-- The state counts the memory objects by handle; every handle is 7, and no mapping succeeds.
abbrev driver : Driver
driver = record {
  World = ℕ → ℕ;
  allocate_memory = λ size idx w. (done 7, λ m. w m + (if m == 7 then 1 else 0));
  map_memory = λ memory w. (failed 5, w);
  unmap_memory = λ memory w. w;
  free_memory = λ memory w m. w m - (if m == memory then 1 else 0);
}

driver-Documented : Documented driver (λ w. w)
driver-Documented = record {
  allocates = λ size idx w m. refl;
  maps = λ memory w m. refl;
  unmaps = λ memory w m. refl;
  frees = λ memory w held m. elim (Bool-cases (m == memory)) [
    | inl here ↦
        let same : memory ≡ m = ground (arith, here) in
        let held' : 0 < w m = subst (λ (t : ℕ). 0 < w t) same held in ground (arith, here, held')
    | inr other ↦ ground (arith, other)
  ];
}

abbrev flags : PropertyFlags
flags = record { device_local = 1; host_visible = 2; host_coherent = 4 }

abbrev requirements : MemoryRequirements
requirements = record { size = 64; alignment = 16; memory_type_bits = 3 }

allocate_dedicated_lem_example :
    Outcome driver
      (λ w. w)
      flags
      (1 ∷ 7 ∷ [])
      64
      (find_memory_type_index flags 2 (1 ∷ 7 ∷ []) requirements cpu_to_gpu)
      (λ m. 0)
      (allocate_dedicated driver flags 2 (1 ∷ 7 ∷ []) requirements cpu_to_gpu (λ m. 0))
allocate_dedicated_lem_example =
    allocate_dedicated_lem driver (λ w. w) flags 2 (1 ∷ 7 ∷ []) requirements cpu_to_gpu (λ m. 0)
      driver-Documented
