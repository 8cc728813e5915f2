-- ===== src/Memory/Resources/Ledger.antt =====
-- memory/resources.rs: what is alive on the device before and after the calls.
use ignis_rs.Base.{
  ℕ, ◌+◌, ◌<◌, ◌≡◌, refl, ◌∙◌, ◌⊎◌, inl, inr, ◌&&◌, Option, none, some, arith, ◌==◌, if◌then◌else◌,
}
use ignis_rs.Error.{Error, vulkan, Result, ok, err}
use ignis_rs.Memory.Block.{Allocation}
use ignis_rs.Memory.Driver.{Called, done, failed}
use ignis_rs.Memory.Kind.{MemoryLocation, MemoryRequirements}
use ignis_rs.Memory.Resources.{
  BufferInfo, ImageInfo, Allocator, Calls, Device, Buffer, Image, after_bind, after_allocate,
  after_create, new_bound, as_buffer, buffer_new, as_image, image_new,
}

-- A thing that a call makes, and another one destroys.
pub data Resource : Type 0 where
  buffer image : (handle : ℕ) → Resource
  range : (memory offset : ℕ) → Resource

abbrev pub is : Resource → Resource → ℕ
is (buffer h) (buffer h') = if h == h' then 1 else 0
is (image h) (image h') = if h == h' then 1 else 0
is (range m o) (range m' o') = if m == m' && o == o' then 1 else 0
is _ _ = 0

pub is_self : (r : Resource) → is r r ≡ 1
is_self (buffer h) = ground arith
is_self (image h) = ground arith
is_self (range m o) = ground arith

abbrev pub range_of : Allocation → Resource
range_of a = range a.memory a.offset

-- How many there are of a resource in a state, as a ledger of the calls has it.
module _ {World : Type 0} (live : World → Resource → ℕ) where
  abbrev pub Same : World → World → Type 0
  Same w w' = (r : Resource) → live w' r ≡ live w r

  abbrev pub Adds : Resource → World → World → Type 0
  Adds made w w' = (r : Resource) → live w' r ≡ live w r + is r made

  abbrev pub Removes : Resource → World → World → Type 0
  Removes gone w w' = 0 < live w gone → (r : Resource) → live w' r + is r gone ≡ live w r

  abbrev pub Created : (ℕ → Resource) → World → Called × World → Type 0
  Created kind w (failed code, w') = Same w w'
  Created kind w (done handle, w') = Adds (kind handle) w w'

  abbrev pub Allocated : World → Result Allocation × World → Type 0
  Allocated w (err e, w') = Same w w'
  Allocated w (ok a, w') = Adds (range_of a) w w'

  -- What the allocator is documented to do.
  pub record Allocates (allocator : Allocator World) : Type 0 where
    pub allocates :
        (requirements : MemoryRequirements) (location : MemoryLocation) (w : World)
        → Allocated w (allocator.allocate requirements location w)
    pub frees : (a : Allocation) (w : World) → Removes (range_of a) w (allocator.free a w)

  -- What the driver's calls for one kind of resource are documented to do.
  pub record Makes (kind : ℕ → Resource) (calls : Calls World) : Type 0 where
    pub creates : (w : World) → Created kind w (calls.create w)
    pub binds :
        (handle memory offset : ℕ) (w : World) → Same w (calls.bind handle memory offset w).1
    pub destroys : (handle : ℕ) (w : World) → Removes (kind handle) w (calls.destroy handle w)

  module _ (allocator : Allocator World) (calls : Calls World) (location : MemoryLocation)
      (w : World) where
    -- The handle is created and memory is allocated for what it requires.
    abbrev pub Supplied : ℕ → Allocation → World → Type 0
    Supplied handle a w2 =
        (w1 : World) × (calls.create w ≡ (done handle, w1))
        × (allocator.allocate (calls.requirements handle w1) location w1 ≡ (ok a, w2))

    -- The error is that of the first call that fails.
    abbrev pub Failed : Error → Type 0
    Failed e =
        ((code : ℕ) × (w1 : World) × (calls.create w ≡ (failed code, w1)) × (e ≡ vulkan code))
        ⊎ (((handle : ℕ) × (w1 w2 : World) × (calls.create w ≡ (done handle, w1))
              × (allocator.allocate (calls.requirements handle w1) location w1 ≡ (err e, w2)))
            ⊎ ((handle code : ℕ) × (a : Allocation) × (w2 w3 : World) × Supplied handle a w2
                × (calls.bind handle a.memory a.offset w2 ≡ (some code, w3))
                × (e ≡ vulkan code)))

    -- What a call that creates a resource with its memory leaves behind, and the calls that decide
    -- its result.
    abbrev pub Balanced : (ℕ → Resource) → Result (ℕ × Allocation) × World → Type 0
    Balanced kind (err e, w') = Same w w' × Failed e
    Balanced kind (ok (handle, a), w') =
        ((r : Resource) → live w' r ≡ live w r + is r (kind handle) + is r (range_of a))
        × ((w2 : World) × Supplied handle a w2
            × (calls.bind handle a.memory a.offset w2 ≡ (none, w')))

  module _ (allocator : Allocator World) (calls : Calls World) (kind : ℕ → Resource)
      (allocates : Allocates allocator) (makes : Makes kind calls) where
    after_bind_lem :
        (location : MemoryLocation) (w w2 : World) (handle : ℕ) (a : Allocation)
        (called : Option ℕ × World)
        → Supplied allocator calls location w handle a w2
        → calls.bind handle a.memory a.offset w2 ≡ called
        → ((r : Resource) → live w2 r ≡ live w r + is r (kind handle) + is r (range_of a))
        → Same w2 called.1
        → Balanced allocator calls location w kind (after_bind allocator calls handle a called)
    unfolding after_bind
    after_bind_lem location w w2 handle a (none, w3) supplied bound made same =
        (λ r. same r ∙ made r, (w2, supplied, bound))
    after_bind_lem location w w2 handle a (some code, w3) supplied bound made same =
        let freed =
          allocates.frees a w3
            (omega (arith, same (range_of a), made (range_of a), is_self (range_of a))) in
        let destroyed = makes.destroys handle (allocator.free a w3) (
          omega (
            arith,
            freed (kind handle),
            same (kind handle),
            made (kind handle),
            is_self (kind handle),
          )) in
        (
          λ r. omega (arith, destroyed r, freed r, same r, made r),
          inr (inr (handle, code, a, w2, w3, supplied, bound, refl)),
        )

    after_allocate_lem :
        (location : MemoryLocation) (w w1 : World) (handle : ℕ)
        (allocated : Result Allocation × World)
        → calls.create w ≡ (done handle, w1)
        → allocator.allocate (calls.requirements handle w1) location w1 ≡ allocated
        → Adds (kind handle) w w1
        → Allocated w1 allocated
        → Balanced allocator calls location w kind (after_allocate allocator calls handle allocated)
    unfolding after_allocate
    after_allocate_lem location w w1 handle (err e, w2) created answer made same =
        let destroyed =
          makes.destroys handle w2
            (omega (arith, same (kind handle), made (kind handle), is_self (kind handle))) in
        (
          λ r. omega (arith, destroyed r, same r, made r),
          inr (inl (handle, w1, w2, created, answer)),
        )
    after_allocate_lem location w w1 handle (ok a, w2) created answer made taken =
        after_bind_lem location w w2 handle a (calls.bind handle a.memory a.offset w2)
          (w1, created, answer) refl (λ r. omega (arith, taken r, made r))
          (makes.binds handle a.memory a.offset w2)

    after_create_lem :
        (location : MemoryLocation) (w : World) (called : Called × World)
        → calls.create w ≡ called
        → Created kind w called
        → Balanced allocator calls location w kind (after_create allocator calls location called)
    unfolding after_create
    after_create_lem location w (failed code, w1) answer same = (same, inl (code, w1, answer, refl))
    after_create_lem location w (done handle, w1) answer made =
        after_allocate_lem location w w1 handle
          (allocator.allocate (calls.requirements handle w1) location w1) answer refl made
          (allocates.allocates (calls.requirements handle w1) location w1)

    new_bound_lem :
        (location : MemoryLocation) (w : World)
        → Balanced allocator calls location w kind (new_bound allocator calls location w)
    unfolding new_bound
    new_bound_lem location w = after_create_lem location w (calls.create w) refl (makes.creates w)

  -- What the driver is documented to do for buffers and for images.
  pub record Documented (device : Device World) : Type 0 where
    pub buffers : (info : BufferInfo) → Makes Resource.buffer (device.buffers info)
    pub images : (info : ImageInfo) → Makes Resource.image (device.images info)
    pub destroys_buffer :
        (handle : ℕ) (w : World)
        → Removes (Resource.buffer handle) w (device.destroy_buffer handle w)
    pub destroys_image :
        (handle : ℕ) (w : World) → Removes (Resource.image handle) w (device.destroy_image handle w)

  module _ (allocator : Allocator World) (device : Device World) where
    abbrev pub MadeBuffer : BufferInfo → World → Result Buffer × World → Type 0
    MadeBuffer info w (err e, w') =
        Balanced allocator (device.buffers info) info.location w Resource.buffer (err e, w')
    MadeBuffer info w (ok b, w') =
        (b.size ≡ info.size)
        × Balanced allocator (device.buffers info) info.location w Resource.buffer
            (ok (b.handle, b.allocation), w')

    abbrev pub MadeImage : ImageInfo → World → Result Image × World → Type 0
    MadeImage info w (err e, w') =
        Balanced allocator (device.images info) info.location w Resource.image (err e, w')
    MadeImage info w (ok i, w') =
        (i.extent ≡ info.extent)
        × (i.format ≡ info.format)
        × (i.mip_levels ≡ info.mip_levels)
        × (i.array_layers ≡ info.array_layers)
        × Balanced allocator (device.images info) info.location w Resource.image
            (ok (i.handle, i.allocation), w')

as_buffer_lem :
    {World : Type 0} (live : World → Resource → ℕ) (allocator : Allocator World)
    (device : Device World) (info : BufferInfo) (w : World) (made : Result (ℕ × Allocation) × World)
    → Balanced live allocator (device.buffers info) info.location w Resource.buffer made
    → MadeBuffer live allocator device info w (as_buffer allocator device info made)
unfolding as_buffer
as_buffer_lem live allocator device info w (err e, w') b = b
as_buffer_lem live allocator device info w (ok (handle, a), w') b = (refl, b)

as_image_lem :
    {World : Type 0} (live : World → Resource → ℕ) (allocator : Allocator World)
    (device : Device World) (info : ImageInfo) (w : World) (made : Result (ℕ × Allocation) × World)
    → Balanced live allocator (device.images info) info.location w Resource.image made
    → MadeImage live allocator device info w (as_image allocator device info made)
unfolding as_image
as_image_lem live allocator device info w (err e, w') b = b
as_image_lem live allocator device info w (ok (handle, a), w') b = (refl, refl, refl, refl, b)

-- With a driver and an allocator that do what they are documented to do, the creation of a buffer
-- succeeds exactly by a handle that is created, memory that is allocated for what the handle
-- requires, and a binding of the two that succeeds; it leaves exactly the handle and the memory more
-- than there was. If it gives an error, this is the error of the first of these calls that fails, and
-- it leaves alive exactly what there was. So does the creation of an image, which has the extent, the
-- format, the levels and the layers asked for, as the buffer has the size.
pub image_new_lem :
    {World : Type 0} (live : World → Resource → ℕ) (allocator : Allocator World)
    (device : Device World) (buffer_info : BufferInfo) (image_info : ImageInfo) (w : World)
    → Allocates live allocator
    → Documented live device
    → MadeBuffer live allocator device buffer_info w (buffer_new allocator device buffer_info w)
      × MadeImage live allocator device image_info w (image_new allocator device image_info w)
unfolding buffer_new image_new
image_new_lem live allocator device buffer_info image_info w allocates documented = (
  as_buffer_lem live allocator device buffer_info w _ (
      new_bound_lem live allocator (device.buffers buffer_info) Resource.buffer allocates
        (documented.buffers buffer_info) buffer_info.location w),
  as_image_lem live allocator device image_info w _ (
      new_bound_lem live allocator (device.images image_info) Resource.image allocates
        (documented.images image_info) image_info.location w),
)
