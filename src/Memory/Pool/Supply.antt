-- ===== src/Memory/Pool/Supply.antt =====
-- memory/allocator.rs: what `allocate_block` asks of the driver.
use ignis_rs.Base.{ℕ, ◌≡◌, refl, ◌⊎◌, inl, inr, Bool, true, false, Option, none, some}
use ignis_rs.Error.{Error, vulkan, Result, ok, err}
use ignis_rs.Memory.Driver.{Driver, Called, done, failed}
use ignis_rs.Memory.Block.{Block}
use ignis_rs.Memory.Block.History.{fresh_block}
use ignis_rs.Memory.Pool.{map_block, block_of, allocate_block}

module _ (d : Driver) where
  open d use {World, allocate_memory, map_memory, free_memory}

  -- The mapping of a new memory object: there is one exactly in host-visible memory.
  abbrev pub Mapped : Bool → ℕ → World → Option ℕ → World → Type 0
  Mapped true memory w1 base w' =
      (ptr : ℕ) × (map_memory memory w1 ≡ (done ptr, w')) × (base ≡ some ptr)
  Mapped false memory w1 base w' = (w' ≡ w1) × (base ≡ none)

  module _ (mem_type : ℕ) (host_visible : Bool) (w : World) (size : ℕ) where
    -- The driver makes a memory object of the size, with this mapping.
    abbrev pub Supplied : ℕ → Option ℕ → World → Type 0
    Supplied memory base w' =
        (w1 : World) × (allocate_memory size mem_type w ≡ (done memory, w1))
        × Mapped host_visible memory w1 base w'

    -- The driver makes none, or it cannot map it, and then it is freed. The error has the code of
    -- the call that failed.
    abbrev pub Refused : Error → World → Type 0
    Refused e w' =
        ((code : ℕ) × (allocate_memory size mem_type w ≡ (failed code, w')) × (e ≡ vulkan code))
        ⊎ ((memory code : ℕ) × (w1 w2 : World) × (allocate_memory size mem_type w
              ≡ (done memory, w1))
            × (host_visible ≡ true)
            × (map_memory memory w1 ≡ (failed code, w2))
            × (w' ≡ free_memory memory w2)
            × (e ≡ vulkan code))

    -- `allocate_block` gives a fresh block of a memory object that the driver makes, or its error.
    abbrev pub Fresh : Result Block × World → Type 0
    Fresh (ok b, w') =
        (memory : ℕ) × (base : Option ℕ) × (b ≡ fresh_block memory size base)
        × Supplied memory base w'
    Fresh (err e, w') = Refused e w'

  map_block-Fresh :
      (mem_type size memory : ℕ) (w w1 : World) (r : Called × World)
      → allocate_memory size mem_type w ≡ (done memory, w1)
      → map_memory memory w1 ≡ r
      → Fresh mem_type true w size (map_block d memory size r)
  unfolding map_block
  map_block-Fresh mem_type size memory w w1 (done base, w2) made mapped =
      (memory, some base, refl, (w1, made, (base, mapped, refl)))
  map_block-Fresh mem_type size memory w w1 (failed code, w2) made mapped =
      inr (memory, code, w1, w2, made, refl, mapped, refl, refl)

  block_of-Fresh :
      (mem_type size : ℕ) (host_visible : Bool) (w : World) (r : Called × World)
      → allocate_memory size mem_type w ≡ r
      → Fresh mem_type host_visible w size (block_of d size host_visible r)
  unfolding block_of
  block_of-Fresh mem_type size true w (failed code, w1) made = inl (code, made, refl)
  block_of-Fresh mem_type size false w (failed code, w1) made = inl (code, made, refl)
  block_of-Fresh mem_type size true w (done memory, w1) made =
      map_block-Fresh mem_type size memory w w1 (map_memory memory w1) made refl
  block_of-Fresh mem_type size false w (done memory, w1) made =
      (memory, none, refl, (w1, made, (refl, refl)))

  pub allocate_block-Fresh :
      (mem_type size : ℕ) (host_visible : Bool) (w : World)
      → Fresh mem_type host_visible w size (allocate_block d mem_type size host_visible w)
  unfolding allocate_block
  allocate_block-Fresh mem_type size host_visible w =
      block_of-Fresh mem_type size host_visible w (allocate_memory size mem_type w) refl
