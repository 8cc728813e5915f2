-- ===== src/FrameGraph/Compile.antt =====
-- framegraph.rs: `FrameGraph::compile`. The allocator, a fresh one, and the device are arguments,
-- and so are the keys of the hash maps in `topo_sort`. An error drops what the call has made so far:
-- the buffers first, as they are declared last, each vector from its front.
pub mod Loops
pub mod Kinds
pub mod Balance
pub mod Recorded
mod Tests
use ignis_rs.Base.{ℕ, Option, none, some, List, [], ◌∷◌, ◌++◌, map}
use ignis_rs.Error.{Result, ok, err}
use ignis_rs.Format.{AspectFlags, format_aspect_mask}
use ignis_rs.Memory.Resources.{
  BufferInfo, ImageInfo, texture_2d, Allocator, Device, Buffer, Image, buffer_new, image_new,
  drop_buffer, drop_image,
}
use ignis_rs.Tracking.Vk.{Vk}
use ignis_rs.FrameGraph.{
  ImageDesc, BufferDesc, ImageSource, BufferSource, ImageDecl, BufferDecl, FrameGraph,
}
use ignis_rs.FrameGraph.Topo.{topo_sort}
use ignis_rs.FrameGraph.Compiled.{RealizedImage, RealizedBuffer, CompiledFrameGraph}

-- What the loops over the images and over the buffers share: an error drops what they have made.
module _ {World A D : Type 0} (realize : D → World → Result A × World)
    (drop_one : A → World → World) where
  pub drop_all : List A → World → World
  drop_all [] w = w
  drop_all (a ∷ made) w = drop_all made (drop_one a w)

  pub realize_all : List D → List A → World → Result (List A) × World
  realize_all [] made w = (ok made, w)
  realize_all (decl ∷ decls) made w =
      let step = realize decl w in
      elim step.0 [
        | err e ↦ (err e, drop_all made step.1)
        | ok a ↦ realize_all decls (made ++ a ∷ []) step.1
      ]

module _ {World : Type 0} (vk : Vk) (aspects : AspectFlags) (allocator : Allocator World)
    (device : Device World) where
  pub drop_realized_image : RealizedImage → World → World
  drop_realized_image img w = elim img.owned [
    | none ↦ w
    | some image ↦ drop_image allocator device image w
  ]

  pub drop_realized_buffer : RealizedBuffer → World → World
  drop_realized_buffer buf w = elim buf.owned [
    | none ↦ w
    | some buffer ↦ drop_buffer allocator device buffer w
  ]

  pub own_image : ImageDesc → Result Image × World → Result RealizedImage × World
  own_image desc (err e, w) = (err e, w)
  own_image desc (ok image, w) = (
    ok (record {
      handle = image.handle;
      owned = some image;
      aspect = format_aspect_mask aspects desc.format;
      mip_levels = 1;
      array_layers = 1;
      initial_layout = vk.layout.undefined;
    }),
    w,
  )

  pub realize_image : ImageSource → World → Result RealizedImage × World
  realize_image (ImageSource.transient desc) w =
      own_image desc
        (image_new allocator device (texture_2d vk desc.width desc.height desc.format desc.usage) w)
  realize_image (ImageSource.imported handle initial_layout mip_levels array_layers aspect) w = (
    ok (record {
      handle = handle;
      owned = none;
      aspect = aspect;
      mip_levels = mip_levels;
      array_layers = array_layers;
      initial_layout = initial_layout;
    }),
    w,
  )

  pub own_buffer : Result Buffer × World → Result RealizedBuffer × World
  own_buffer (err e, w) = (err e, w)
  own_buffer (ok buffer, w) = (ok (record { handle = buffer.handle; owned = some buffer }), w)

  pub realize_buffer : BufferSource → World → Result RealizedBuffer × World
  realize_buffer (BufferSource.transient desc) w = own_buffer (
      buffer_new allocator device
        (record {
          size = desc.size;
          usage = desc.usage;
          location = desc.location;
          sharing_mode = vk.sharing_mode_exclusive;
        })
        w)
  realize_buffer (BufferSource.imported handle) w =
      (ok (record { handle = handle; owned = none }), w)

  abbrev pub of_image : ImageDecl → World → Result RealizedImage × World
  of_image decl = realize_image decl.source

  abbrev pub of_buffer : BufferDecl → World → Result RealizedBuffer × World
  of_buffer decl = realize_buffer decl.source

  pub drop_images : List RealizedImage → World → World
  drop_images images w = drop_all of_image drop_realized_image images w

  pub drop_buffers : List RealizedBuffer → World → World
  drop_buffers buffers w = drop_all of_buffer drop_realized_buffer buffers w

  -- What comes of the order.
  pub finish :
      FrameGraph
      → List RealizedImage
      → List RealizedBuffer
      → Option (Result (List ℕ))
      → World
      → Option (Result CompiledFrameGraph × World)
  finish g images buffers none w = none
  finish g images buffers (some (err e)) w =
      some (err e, drop_images images (drop_buffers buffers w))
  finish g images buffers (some (ok order)) w = some (
    ok (record {
      images = images;
      buffers = buffers;
      image_names = map (λ (d : ImageDecl). d.name) g.images;
      buffer_names = map (λ (d : BufferDecl). d.name) g.buffers;
      passes = g.passes;
      order = order;
    }),
    w,
  )

  pub with_buffers :
      List ℕ
      → List ℕ
      → FrameGraph
      → List RealizedImage
      → Result (List RealizedBuffer) × World
      → Option (Result CompiledFrameGraph × World)
  with_buffers image_keys buffer_keys g images (err e, w) = some (err e, drop_images images w)
  with_buffers image_keys buffer_keys g images (ok buffers, w) =
      finish g images buffers (topo_sort image_keys buffer_keys g.passes) w

  pub with_images :
      List ℕ
      → List ℕ
      → FrameGraph
      → Result (List RealizedImage) × World
      → Option (Result CompiledFrameGraph × World)
  with_images image_keys buffer_keys g (err e, w) = some (err e, w)
  with_images image_keys buffer_keys g (ok images, w) =
      with_buffers image_keys buffer_keys g images
        (realize_all of_buffer drop_realized_buffer g.buffers [] w)

  pub compile : List ℕ → List ℕ → FrameGraph → World → Option (Result CompiledFrameGraph × World)
  compile image_keys buffer_keys g w =
      with_images image_keys buffer_keys g (realize_all of_image drop_realized_image g.images [] w)
