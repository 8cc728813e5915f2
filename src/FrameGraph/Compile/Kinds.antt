-- ===== src/FrameGraph/Compile/Kinds.antt =====
-- framegraph.rs: what `compile` leaves on the device for one image or one buffer.
use ignis_rs.Base.{ℕ, ◌+◌, ◌≡◌, refl, Option, none, some, arith}
use ignis_rs.Error.{Error, Result, ok, err}
use ignis_rs.Format.{AspectFlags, format_aspect_mask}
use ignis_rs.Memory.Kind.{gpu_only}
use ignis_rs.Memory.Resources.{
  BufferInfo, default_info, texture_2d, Allocator, Device, Buffer, Image, buffer_new, image_new,
  drop_buffer, drop_image,
}
use ignis_rs.Memory.Resources.Ledger.{
  Resource, is, is_self, range_of, Allocates, Documented, MadeBuffer, MadeImage, image_new_lem,
}
use ignis_rs.Memory.Resources.Drop.{drop_buffer_lem, drop_image_lem}
use ignis_rs.Tracking.Vk.{Vk}
use ignis_rs.FrameGraph.{ImageDesc, BufferDesc, ImageSource, BufferSource}
use ignis_rs.FrameGraph.Compiled.{RealizedImage, RealizedBuffer}
use ignis_rs.FrameGraph.Compile.{
  drop_realized_image, drop_realized_buffer, own_image, realize_image, own_buffer, realize_buffer,
}
use ignis_rs.FrameGraph.Compile.Loops.{held_image, held_buffer, Makes}

module _ {World : Type 0} (live : World → Resource → ℕ) (vk : Vk) (aspects : AspectFlags)
    (allocator : Allocator World) (device : Device World) where
  -- What a source is realized as: a transient image is created as described, and its creation
  -- succeeds; an imported one is taken as it is.
  abbrev pub FitsImage : ImageSource → RealizedImage → Type 0
  FitsImage (ImageSource.transient desc) img =
      (image : Image) × (w1 w2 : World) × MadeImage live allocator device
        (texture_2d vk desc.width desc.height desc.format desc.usage) w1 (ok image, w2)
      × (image.extent ≡ record { width = desc.width; height = desc.height; depth = 1 })
      × (image.format ≡ desc.format)
      × (img ≡ record {
        handle = image.handle;
        owned = some image;
        aspect = format_aspect_mask aspects desc.format;
        mip_levels = 1;
        array_layers = 1;
        initial_layout = vk.layout.undefined;
      })
  FitsImage (ImageSource.imported handle initial_layout mip_levels array_layers aspect) img =
      img ≡ record {
        handle = handle;
        owned = none;
        aspect = aspect;
        mip_levels = mip_levels;
        array_layers = array_layers;
        initial_layout = initial_layout;
      }

  abbrev pub FitsBuffer : BufferSource → RealizedBuffer → Type 0
  FitsBuffer (BufferSource.transient desc) buf =
      (buffer : Buffer) × (w1 w2 : World) × MadeBuffer live allocator device
        (record {
          size = desc.size;
          usage = desc.usage;
          location = desc.location;
          sharing_mode = vk.sharing_mode_exclusive;
        })
        w1 (ok buffer, w2)
      × (buffer.size ≡ desc.size)
      × (buf ≡ record { handle = buffer.handle; owned = some buffer })
  FitsBuffer (BufferSource.imported handle) buf = buf ≡ record { handle = handle; owned = none }

  -- Why a source is not realized: it is transient, and its creation fails.
  abbrev pub RefusesImage : ImageSource → Error → Type 0
  RefusesImage (ImageSource.transient desc) e =
      (w1 w2 : World) × MadeImage live allocator device
        (texture_2d vk desc.width desc.height desc.format desc.usage) w1 (err e, w2)
  RefusesImage (ImageSource.imported handle initial_layout mip_levels array_layers aspect) e = ⊥

  abbrev pub RefusesBuffer : BufferSource → Error → Type 0
  RefusesBuffer (BufferSource.transient desc) e =
      (w1 w2 : World) × MadeBuffer live allocator device
        (record {
          size = desc.size;
          usage = desc.usage;
          location = desc.location;
          sharing_mode = vk.sharing_mode_exclusive;
        })
        w1 (err e, w2)
  RefusesBuffer (BufferSource.imported handle) e = ⊥

module _ {World : Type 0} (live : World → Resource → ℕ) (vk : Vk) (aspects : AspectFlags)
    (allocator : Allocator World) (device : Device World) (allocates : Allocates live allocator)
    (documented : Documented live device) where
  abbrev MakesImage : ImageSource → World → Result RealizedImage × World → Type 0
  MakesImage =
      Makes live held_image (FitsImage live vk aspects allocator device)
        (RefusesImage live vk aspects allocator device)

  abbrev MakesBuffer : BufferSource → World → Result RealizedBuffer × World → Type 0
  MakesBuffer =
      Makes live held_buffer (FitsBuffer live vk aspects allocator device)
        (RefusesBuffer live vk aspects allocator device)

  pub drop_realized_image_lem :
      (img : RealizedImage) (w : World) (base : Resource → ℕ)
      → ((r : Resource) → live w r ≡ base r + held_image img r)
      → (r : Resource) → live (drop_realized_image vk aspects allocator device img w) r ≡ base r
  unfolding drop_realized_image
  drop_realized_image_lem img w base h = go img.owned h
    where
      go :
          (owned : Option Image)
          → ((r : Resource)
              → live w r
                ≡ base r + elim owned [
                  | none ↦ 0
                  | some i ↦ is r (Resource.image i.handle) + is r (range_of i.allocation)
                ])
          → (r : Resource)
          → live (elim owned [ none ↦ w | some image ↦ drop_image allocator device image w ]) r
            ≡ base r
      go none h r = omega (arith, h r)
      go (some i) h r = omega (
        arith,
        drop_image_lem live allocator device i w allocates documented
            (omega (arith, h (Resource.image i.handle), is_self (Resource.image i.handle)))
            (omega (arith, h (range_of i.allocation), is_self (range_of i.allocation))) r,
        h r,
      )

  pub drop_realized_buffer_lem :
      (buf : RealizedBuffer) (w : World) (base : Resource → ℕ)
      → ((r : Resource) → live w r ≡ base r + held_buffer buf r)
      → (r : Resource) → live (drop_realized_buffer vk aspects allocator device buf w) r ≡ base r
  unfolding drop_realized_buffer
  drop_realized_buffer_lem buf w base h = go buf.owned h
    where
      go :
          (owned : Option Buffer)
          → ((r : Resource)
              → live w r
                ≡ base r + elim owned [
                  | none ↦ 0
                  | some b ↦ is r (Resource.buffer b.handle) + is r (range_of b.allocation)
                ])
          → (r : Resource)
          → live (elim owned [ none ↦ w | some buffer ↦ drop_buffer allocator device buffer w ]) r
            ≡ base r
      go none h r = omega (arith, h r)
      go (some b) h r = omega (
        arith,
        drop_buffer_lem live allocator device b w allocates documented
            (omega (arith, h (Resource.buffer b.handle), is_self (Resource.buffer b.handle)))
            (omega (arith, h (range_of b.allocation), is_self (range_of b.allocation))) r,
        h r,
      )

  own_image_lem :
      (desc : ImageDesc) (w : World) (made : Result Image × World)
      → MadeImage live allocator device
          (texture_2d vk desc.width desc.height desc.format desc.usage)
          w
          made
      → MakesImage (ImageSource.transient desc) w (own_image vk aspects allocator device desc made)
  unfolding own_image texture_2d default_info
  own_image_lem desc w (err e, w') (same, failed) = (same, (w, w', (same, failed)))
  own_image_lem desc w (ok image, w') (x, f, m, l, (balance, calls)) =
      (λ r. omega (arith, balance r), (image, w, w', (x, f, m, l, (balance, calls)), x, f, refl))

  pub realize_image_lem :
      (source : ImageSource) (w : World)
      → MakesImage source w (realize_image vk aspects allocator device source w)
  unfolding realize_image
  realize_image_lem (ImageSource.transient desc) w =
      let info = texture_2d vk desc.width desc.height desc.format desc.usage in
      own_image_lem desc w (image_new allocator device info w)
        (image_new_lem live allocator device no_buffer info w allocates documented).1
    where
      no_buffer : BufferInfo
      no_buffer = record {
        size = 0;
        usage = 0;
        location = gpu_only;
        sharing_mode = vk.sharing_mode_exclusive;
      }
  realize_image_lem (ImageSource.imported handle initial_layout mip_levels array_layers aspect) w =
      (λ r. omega arith, refl)

  own_buffer_lem :
      (desc : BufferDesc) (w : World) (made : Result Buffer × World)
      → MadeBuffer live allocator device
          (record {
            size = desc.size;
            usage = desc.usage;
            location = desc.location;
            sharing_mode = vk.sharing_mode_exclusive;
          })
          w
          made
      → MakesBuffer (BufferSource.transient desc) w (own_buffer vk aspects allocator device made)
  unfolding own_buffer
  own_buffer_lem desc w (err e, w') (same, failed) = (same, (w, w', (same, failed)))
  own_buffer_lem desc w (ok buffer, w') (size, (balance, calls)) =
      (λ r. omega (arith, balance r), (buffer, w, w', (size, (balance, calls)), size, refl))

  pub realize_buffer_lem :
      (source : BufferSource) (w : World)
      → MakesBuffer source w (realize_buffer vk aspects allocator device source w)
  unfolding realize_buffer
  realize_buffer_lem (BufferSource.transient desc) w =
      let info : BufferInfo = record {
        size = desc.size;
        usage = desc.usage;
        location = desc.location;
        sharing_mode = vk.sharing_mode_exclusive;
      } in
      own_buffer_lem desc w (buffer_new allocator device info w)
        (image_new_lem live allocator device info (default_info vk) w allocates documented).0
  realize_buffer_lem (BufferSource.imported handle) w = (λ r. omega arith, refl)
