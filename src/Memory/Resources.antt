-- ===== src/Memory/Resources.antt =====
-- memory/resources.rs: buffers and images, created with their memory. The driver's calls are
-- parameters on a state that they change; so are those of the allocator, which the code reaches
-- through a trait. A resource holds its handle and its allocation.
pub mod Ledger
pub mod Drop
pub mod Ideal
mod Tests
use ignis_rs.Base.{ℕ, ◌+◌, ◌≤◌, Bool, Option, none, some, leb}
use ignis_rs.Error.{Error, vulkan, Result, ok, err}
use ignis_rs.Format.{Format, r8g8b8a8_unorm}
use ignis_rs.Memory.Block.{Allocation}
use ignis_rs.Memory.Driver.{Called, done, failed}
use ignis_rs.Memory.Kind.{MemoryLocation, MemoryRequirements, gpu_only, cpu_to_gpu}
use ignis_rs.Tracking.Vk.{Vk}

pub record BufferInfo : Type 0 where
  pub size : ℕ
  pub usage : ℕ
  pub location : MemoryLocation
  pub sharing_mode : ℕ

pub vertex_info : Vk → ℕ → MemoryLocation → BufferInfo
vertex_info vk size location = record {
  size = size;
  usage = vk.buffer_usage.vertex_buffer;
  location = location;
  sharing_mode = vk.sharing_mode_exclusive;
}

pub index_info : Vk → ℕ → MemoryLocation → BufferInfo
index_info vk size location = record {
  size = size;
  usage = vk.buffer_usage.index_buffer;
  location = location;
  sharing_mode = vk.sharing_mode_exclusive;
}

pub uniform_info : Vk → ℕ → BufferInfo
uniform_info vk size = record {
  size = size;
  usage = vk.buffer_usage.uniform_buffer;
  location = cpu_to_gpu;
  sharing_mode = vk.sharing_mode_exclusive;
}

pub staging_info : Vk → ℕ → BufferInfo
staging_info vk size = record {
  size = size;
  usage = vk.buffer_usage.transfer_src;
  location = cpu_to_gpu;
  sharing_mode = vk.sharing_mode_exclusive;
}

pub storage_info : Vk → ℕ → MemoryLocation → BufferInfo
storage_info vk size location = record {
  size = size;
  usage = vk.buffer_usage.storage_buffer;
  location = location;
  sharing_mode = vk.sharing_mode_exclusive;
}

pub record Extent3d : Type 0 where
  pub width : ℕ
  pub height : ℕ
  pub depth : ℕ

pub record ImageInfo : Type 0 where
  pub extent : Extent3d
  pub format : Format
  pub usage : ℕ
  pub location : MemoryLocation
  pub image_type : ℕ
  pub mip_levels : ℕ
  pub array_layers : ℕ
  pub samples : ℕ
  pub tiling : ℕ
  pub initial_layout : ℕ

unfoldable pub default_info : Vk → ImageInfo
default_info vk = record {
  extent = record { width = 1; height = 1; depth = 1 };
  format = r8g8b8a8_unorm;
  usage = vk.image_usage.sampled;
  location = gpu_only;
  image_type = vk.image_type_2d;
  mip_levels = 1;
  array_layers = 1;
  samples = vk.sample_count_1;
  tiling = vk.tiling_optimal;
  initial_layout = vk.layout.undefined;
}

unfoldable pub texture_2d : Vk → ℕ → ℕ → Format → ℕ → ImageInfo
texture_2d vk width height format usage = record (default_info vk) {
  extent = record { width = width; height = height; depth = 1 };
  format = format;
  usage = usage;
}

pub depth_info : Vk → ℕ → ℕ → Format → ImageInfo
depth_info vk width height format = record (default_info vk) {
  extent = record { width = width; height = height; depth = 1 };
  format = format;
  usage = vk.image_usage.depth_stencil_attachment;
}

-- The trait of the allocators.
pub record Allocator (World : Type 0) : Type 0 where
  pub allocate : MemoryRequirements → MemoryLocation → World → Result Allocation × World
  pub free : Allocation → World → World

-- The driver's calls for resources of one kind. A call of bind that fails gives its code.
pub record Calls (World : Type 0) : Type 0 where
  pub create : World → Called × World
  pub requirements : ℕ → World → MemoryRequirements
  pub bind : (handle memory offset : ℕ) → World → Option ℕ × World
  pub destroy : ℕ → World → World

-- Those of a device; what they are created with decides how.
pub record Device (World : Type 0) : Type 0 where
  pub buffers : BufferInfo → Calls World
  pub images : ImageInfo → Calls World
  pub destroy_buffer : ℕ → World → World
  pub destroy_image : ℕ → World → World

pub record Buffer : Type 0 where
  pub handle : ℕ
  pub allocation : Allocation
  pub size : ℕ

pub record Image : Type 0 where
  pub handle : ℕ
  pub allocation : Allocation
  pub extent : Extent3d
  pub format : Format
  pub mip_levels : ℕ
  pub array_layers : ℕ

module _ {World : Type 0} (allocator : Allocator World) where
  -- What `Buffer::new` and `Image::new` share: the handle, its memory, and their binding, with what
  -- an error in each of them undoes.
  module _ (calls : Calls World) where
    unfoldable pub after_bind : ℕ → Allocation → Option ℕ × World → Result (ℕ × Allocation) × World
    after_bind handle allocation (none, w) = (ok (handle, allocation), w)
    after_bind handle allocation (some code, w) =
        (err (vulkan code), calls.destroy handle (allocator.free allocation w))

    unfoldable pub after_allocate : ℕ → Result Allocation × World → Result (ℕ × Allocation) × World
    after_allocate handle (err e, w) = (err e, calls.destroy handle w)
    after_allocate handle (ok allocation, w) =
        after_bind handle allocation (calls.bind handle allocation.memory allocation.offset w)

    unfoldable pub after_create : MemoryLocation → Called × World → Result (ℕ × Allocation) × World
    after_create location (failed code, w) = (err (vulkan code), w)
    after_create location (done handle, w) =
        after_allocate handle (allocator.allocate (calls.requirements handle w) location w)

    unfoldable pub new_bound : MemoryLocation → World → Result (ℕ × Allocation) × World
    new_bound location w = after_create location (calls.create w)

  module _ (device : Device World) where
    unfoldable pub as_buffer : BufferInfo → Result (ℕ × Allocation) × World → Result Buffer × World
    as_buffer info (err e, w) = (err e, w)
    as_buffer info (ok (handle, allocation), w) =
        (ok (record { handle = handle; allocation = allocation; size = info.size }), w)

    unfoldable pub buffer_new : BufferInfo → World → Result Buffer × World
    buffer_new info w = as_buffer info (new_bound (device.buffers info) info.location w)

    unfoldable pub as_image : ImageInfo → Result (ℕ × Allocation) × World → Result Image × World
    as_image info (err e, w) = (err e, w)
    as_image info (ok (handle, allocation), w) = (
      ok (record {
        handle = handle;
        allocation = allocation;
        extent = info.extent;
        format = info.format;
        mip_levels = info.mip_levels;
        array_layers = info.array_layers;
      }),
      w,
    )

    unfoldable pub image_new : ImageInfo → World → Result Image × World
    image_new info w = as_image info (new_bound (device.images info) info.location w)

    -- `Drop`.
    unfoldable pub drop_buffer : Buffer → World → World
    drop_buffer buffer w = allocator.free buffer.allocation (device.destroy_buffer buffer.handle w)

    unfoldable pub drop_image : Image → World → World
    drop_image image w = allocator.free image.allocation (device.destroy_image image.handle w)
