-- ===== src/Memory/Resources/Drop.antt =====
-- memory/resources.rs: what `Drop` gives back.
use ignis_rs.Base.{ℕ, ◌+◌, ◌<◌, ◌≡◌, arith}
use ignis_rs.Memory.Resources.{Allocator, Device, Buffer, Image, drop_buffer, drop_image}
use ignis_rs.Memory.Resources.Ledger.{Resource, is, range_of, Allocates, Documented}

-- Dropping gives back what a resource holds.
pub drop_buffer_lem :
    {World : Type 0} (live : World → Resource → ℕ) (allocator : Allocator World)
    (device : Device World) (b : Buffer) (w : World)
    → Allocates live allocator
    → Documented live device
    → 0 < live w (Resource.buffer b.handle)
    → 0 < live w (range_of b.allocation)
    → (r : Resource)
    → live (drop_buffer allocator device b w) r
        + is r (Resource.buffer b.handle)
        + is r (range_of b.allocation)
      ≡ live w r
unfolding drop_buffer
drop_buffer_lem live allocator device b w allocates documented held held' =
    let destroyed = documented.destroys_buffer b.handle w held in
    let freed =
      allocates.frees b.allocation (device.destroy_buffer b.handle w)
        (omega (arith, destroyed (range_of b.allocation), held')) in
    λ r. omega (arith, destroyed r, freed r)

pub drop_image_lem :
    {World : Type 0} (live : World → Resource → ℕ) (allocator : Allocator World)
    (device : Device World) (i : Image) (w : World)
    → Allocates live allocator
    → Documented live device
    → 0 < live w (Resource.image i.handle)
    → 0 < live w (range_of i.allocation)
    → (r : Resource)
    → live (drop_image allocator device i w) r
        + is r (Resource.image i.handle)
        + is r (range_of i.allocation)
      ≡ live w r
unfolding drop_image
drop_image_lem live allocator device i w allocates documented held held' =
    let destroyed = documented.destroys_image i.handle w held in
    let freed =
      allocates.frees i.allocation (device.destroy_image i.handle w)
        (omega (arith, destroyed (range_of i.allocation), held')) in
    λ r. omega (arith, destroyed r, freed r)
