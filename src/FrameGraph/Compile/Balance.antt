-- ===== src/FrameGraph/Compile/Balance.antt =====
-- framegraph.rs: what `compile` leaves on the device, and the graph that it gives.
use ignis_rs.Base.{
  ℕ, ◌+◌, ◌≡◌, refl, sym, subst, ◌⊎◌, inl, inr, map, get_elem?, Option, none, some, List, [], arith,
  ltb, length, if◌then◌else◌,
}
use ignis_rs.Base.Occurs.{occurs}
use ignis_rs.Error.{Error, Result, ok, err}
use ignis_rs.Format.{AspectFlags}
use ignis_rs.Memory.Resources.{Allocator, Device}
use ignis_rs.Memory.Resources.Ledger.{Resource, Same, Allocates, Documented}
use ignis_rs.Tracking.Vk.{Vk}
use ignis_rs.FrameGraph.{ImageDecl, BufferDecl, FrameGraph}
use ignis_rs.FrameGraph.Topo.{writes_to_image, writes_to_buffer, image_of, buffer_of, topo_sort}
use ignis_rs.FrameGraph.Topo.Pairs.{Ranks, Listed}
use ignis_rs.FrameGraph.Topo.Sorted.{index_of}
use ignis_rs.FrameGraph.Topo.Order.{topo_sort-Ranks, topo_sort_total}
use ignis_rs.FrameGraph.Compiled.{RealizedImage, RealizedBuffer, CompiledFrameGraph}
use ignis_rs.FrameGraph.Compile.{
  realize_all, drop_realized_image, drop_realized_buffer, of_image, of_buffer, drop_images,
  drop_buffers, finish, with_buffers, with_images, compile,
}
use ignis_rs.FrameGraph.Compile.Loops.{
  held_image, held_buffer, held_all, Matched, Outcome, drop_all_lem, realize_all_lem,
}
use ignis_rs.FrameGraph.Compile.Kinds.{
  FitsImage, FitsBuffer, RefusesImage, RefusesBuffer, drop_realized_image_lem,
  drop_realized_buffer_lem, realize_image_lem, realize_buffer_lem,
}

module _ {World : Type 0} (live : World → Resource → ℕ) (vk : Vk) (aspects : AspectFlags)
    (allocator : Allocator World) (device : Device World) where
  -- What a declaration is realized as, and why it is not.
  abbrev pub FitsImageDecl : ImageDecl → RealizedImage → Type 0
  FitsImageDecl d = FitsImage live vk aspects allocator device d.source

  abbrev pub FitsBufferDecl : BufferDecl → RealizedBuffer → Type 0
  FitsBufferDecl d = FitsBuffer live vk aspects allocator device d.source

  abbrev pub RefusesImageDecl : ImageDecl → Error → Type 0
  RefusesImageDecl d = RefusesImage live vk aspects allocator device d.source

  abbrev pub RefusesBufferDecl : BufferDecl → Error → Type 0
  RefusesBufferDecl d = RefusesBuffer live vk aspects allocator device d.source

  -- What a call of `compile` leaves and gives.
  module _ (image_keys buffer_keys : List ℕ) (g : FrameGraph) (w : World) where
    abbrev pub Fails : Error → Type 0
    Fails e =
        ((i : ℕ) × (d : ImageDecl) × (get_elem? g.images i ≡ some d) × RefusesImageDecl d e)
        ⊎ (((i : ℕ) × (d : BufferDecl) × (get_elem? g.buffers i ≡ some d) × RefusesBufferDecl d e)
            ⊎ (topo_sort image_keys buffer_keys g.passes ≡ some (err e)))

    abbrev pub Compiles : Option (Result CompiledFrameGraph × World) → Type 0
    Compiles none = ⊥
    Compiles (some (err e, w')) = Same live w w' × Fails e
    Compiles (some (ok c, w')) =
        ((r : Resource)
          → live w' r
            ≡ live w r + held_all held_image c.images r + held_all held_buffer c.buffers r)
        × Matched FitsImageDecl g.images c.images
        × Matched FitsBufferDecl g.buffers c.buffers
        × (c.image_names ≡ map (λ (d : ImageDecl). d.name) g.images)
        × (c.buffer_names ≡ map (λ (d : BufferDecl). d.name) g.buffers)
        × (c.passes ≡ g.passes)
        × ((v : ℕ) → occurs v c.order ≡ (if ltb v (length g.passes) then 1 else 0))
        × Ranks writes_to_image image_of c.passes (λ v. index_of v c.order)
        × Ranks writes_to_buffer buffer_of c.passes (λ v. index_of v c.order)

module _ {World : Type 0} (live : World → Resource → ℕ) (vk : Vk) (aspects : AspectFlags)
    (allocator : Allocator World) (device : Device World) (allocates : Allocates live allocator)
    (documented : Documented live device) where
  abbrev ImageFits : ImageDecl → RealizedImage → Type 0
  ImageFits = FitsImageDecl live vk aspects allocator device

  abbrev BufferFits : BufferDecl → RealizedBuffer → Type 0
  BufferFits = FitsBufferDecl live vk aspects allocator device

  abbrev ImageRefused : ImageDecl → Error → Type 0
  ImageRefused = RefusesImageDecl live vk aspects allocator device

  abbrev BufferRefused : BufferDecl → Error → Type 0
  BufferRefused = RefusesBufferDecl live vk aspects allocator device

  module _ (image_keys buffer_keys : List ℕ) (g : FrameGraph) (w : World)
      (images_listed : Listed writes_to_image image_of g.passes image_keys)
      (buffers_listed : Listed writes_to_buffer buffer_of g.passes buffer_keys) where
    abbrev Compiled : Option (Result CompiledFrameGraph × World) → Type 0
    Compiled = Compiles live vk aspects allocator device image_keys buffer_keys g w

    drop_images_lem :
        (images : List RealizedImage) (w' : World)
        → ((r : Resource) → live w' r ≡ live w r + held_all held_image images r)
        → Same live w (drop_images vk aspects allocator device images w')
    unfolding drop_images
    drop_images_lem images w' h =
        drop_all_lem live held_image ImageFits ImageRefused (of_image vk aspects allocator device)
          (drop_realized_image vk aspects allocator device)
          (drop_realized_image_lem live vk aspects allocator device allocates documented)
          (λ d w2.
            realize_image_lem live vk aspects allocator device allocates documented d.source w2)
          images w' (live w) h

    finish_lem :
        (images : List RealizedImage) (buffers : List RealizedBuffer) (w' : World)
        (order : Option (Result (List ℕ)))
        → topo_sort image_keys buffer_keys g.passes ≡ order
        → Matched ImageFits g.images images
        → Matched BufferFits g.buffers buffers
        → ((r : Resource)
            → live w' r ≡ live w r + held_all held_image images r + held_all held_buffer buffers r)
        → Compiled (finish vk aspects allocator device g images buffers order w')
    unfolding finish drop_buffers
    finish_lem images buffers w' none sorted images_fit buffers_fit h =
        let (result, total) = topo_sort_total image_keys buffer_keys g.passes in cc (sorted, total)
    finish_lem images buffers w' (some (err e)) sorted images_fit buffers_fit h = (
      drop_images_lem images (drop_buffers vk aspects allocator device buffers w') (
          drop_all_lem live held_buffer BufferFits BufferRefused
            (of_buffer vk aspects allocator device)
            (drop_realized_buffer vk aspects allocator device)
            (drop_realized_buffer_lem live vk aspects allocator device allocates documented)
            (λ d w2.
              realize_buffer_lem live vk aspects allocator device allocates documented d.source w2)
            buffers w' (λ r. live w r + held_all held_image images r) h),
      inr (inr sorted),
    )
    finish_lem images buffers w' (some (ok order)) sorted images_fit buffers_fit h =
        let (each, images_ranked, buffers_ranked) =
          topo_sort-Ranks image_keys buffer_keys g.passes order images_listed buffers_listed
            sorted in
        (h, images_fit, buffers_fit, refl, refl, refl, each, images_ranked, buffers_ranked)

    with_buffers_lem :
        (images : List RealizedImage) (made : Result (List RealizedBuffer) × World)
        → Matched ImageFits g.images images
        → Outcome live held_buffer BufferFits BufferRefused [] g.buffers
            (λ r. live w r + held_all held_image images r)
            made
        → Compiled (with_buffers vk aspects allocator device image_keys buffer_keys g images made)
    unfolding with_buffers
    with_buffers_lem images (err e, w') images_fit (h, refused) =
        (drop_images_lem images w' h, inr (inl refused))
    with_buffers_lem images (ok buffers, w') images_fit (h, (new, e, matched)) =
        finish_lem images buffers w' (topo_sort image_keys buffer_keys g.passes) refl images_fit
          (subst (Matched BufferFits g.buffers) (sym e) matched) h

    with_images_lem :
        (made : Result (List RealizedImage) × World)
        → Outcome live held_image ImageFits ImageRefused [] g.images (live w) made
        → Compiled (with_images vk aspects allocator device image_keys buffer_keys g made)
    unfolding with_images
    with_images_lem (err e, w') (h, refused) = (h, inl refused)
    with_images_lem (ok images, w') (h, (new, e, matched)) =
        with_buffers_lem images
          (realize_all (of_buffer vk aspects allocator device)
            (drop_realized_buffer vk aspects allocator device) g.buffers [] w')
          (subst (Matched ImageFits g.images) (sym e) matched)
          (realize_all_lem live held_buffer BufferFits BufferRefused
            (of_buffer vk aspects allocator device)
            (drop_realized_buffer vk aspects allocator device)
            (drop_realized_buffer_lem live vk aspects allocator device allocates documented)
            (λ d w2.
              realize_buffer_lem live vk aspects allocator device allocates documented d.source w2)
            g.buffers [] w' (λ r. live w r + held_all held_image images r) λ r. omega (arith, h r))

    compile-Compiles : Compiled (compile vk aspects allocator device image_keys buffer_keys g w)
    unfolding compile
    compile-Compiles =
        with_images_lem
          (realize_all (of_image vk aspects allocator device)
            (drop_realized_image vk aspects allocator device) g.images [] w)
          (realize_all_lem live held_image ImageFits ImageRefused
            (of_image vk aspects allocator device) (drop_realized_image vk aspects allocator device)
            (drop_realized_image_lem live vk aspects allocator device allocates documented)
            (λ d w2.
              realize_image_lem live vk aspects allocator device allocates documented d.source w2)
            g.images [] w (live w) λ r. omega arith)

-- With a driver and an allocator that do what they are documented to do, and keys that list every
-- handle that is written, a compilation ends. If it gives an error, it leaves alive exactly what there
-- was, and the creation of a transient image or buffer of the graph has failed with this error, or the
-- sort of its passes has. Otherwise each declared image and buffer is realized, in order and under its
-- name: an imported one as it is declared, a transient one by a creation that succeeds, with the
-- extent and format or the size asked for. It leaves exactly the handles and the memory that these own
-- more than there was; the order of the compiled graph has each pass of the graph exactly once, the
-- writers of a resource before the other passes that read it and in the order of their registration.
pub compile_lem :
    {World : Type 0} (live : World → Resource → ℕ) (vk : Vk) (aspects : AspectFlags)
    (allocator : Allocator World) (device : Device World) (image_keys buffer_keys : List ℕ)
    (g : FrameGraph) (w : World) (allocates : Allocates live allocator)
    (documented : Documented live device)
    (images : Listed writes_to_image image_of g.passes image_keys)
    (buffers : Listed writes_to_buffer buffer_of g.passes buffer_keys)
    → Compiles live vk aspects allocator device image_keys buffer_keys g w
        (compile vk aspects allocator device image_keys buffer_keys g w)
compile_lem live vk aspects allocator device image_keys buffer_keys g w allocates documented images
      buffers =
    compile-Compiles live vk aspects allocator device allocates documented image_keys buffer_keys g
      w images buffers
