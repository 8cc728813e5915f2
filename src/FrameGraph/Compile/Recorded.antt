-- ===== src/FrameGraph/Compile/Recorded.antt =====
-- framegraph.rs: a graph that is compiled and then recorded.
use ignis_rs.Base.{ℕ, ◌≡◌, sym, ap, ◌∙◌, subst, some, List, arith, length, get_elem?}
use ignis_rs.Error.{ok}
use ignis_rs.Format.{AspectFlags}
use ignis_rs.Memory.Resources.{Allocator, Device}
use ignis_rs.Memory.Resources.Ledger.{Resource, Allocates, Documented}
use ignis_rs.Tracking.Vk.{Vk}
use ignis_rs.Tracking.Tracker.{TrackedImage}
use ignis_rs.FrameGraph.{PassDecl, FrameGraph}
use ignis_rs.FrameGraph.Topo.{writes_to_image, writes_to_buffer, image_of, buffer_of}
use ignis_rs.FrameGraph.Topo.Pairs.{Listed}
use ignis_rs.FrameGraph.Compiled.{CompiledFrameGraph, Event, record_with_tracking}
use ignis_rs.FrameGraph.Compiled.Device.{declared, replay, Starts, Single, InRange}
use ignis_rs.FrameGraph.Compiled.Record.{record_with_tracking_lem}
use ignis_rs.FrameGraph.Compile.{compile}
use ignis_rs.FrameGraph.Compile.Balance.{FitsImageDecl, FitsBufferDecl, Compiles, compile_lem}
use ignis_rs.FrameGraph.Compile.Loops.{Matched-length}

-- A graph that compiles, under the conditions for that, and whose passes access only images and
-- buffers that the graph declares, with a subresource in each image and no two accesses of a pass to
-- one image of the device, is recorded without a panic. From the initial layouts on, the device finds
-- every barrier in order, no two of a command on one image, and runs the closures of the declared
-- passes in the compiled order, each in the layouts that the accesses up to its own ask for.
pub compile-record_with_tracking :
    {World : Type 0} (live : World → Resource → ℕ) (vk : Vk) (aspects : AspectFlags)
    (allocator : Allocator World) (device : Device World) (image_keys buffer_keys : List ℕ)
    (g : FrameGraph) (w w' : World) (c : CompiledFrameGraph) (metas : ℕ → TrackedImage)
    (layouts : ℕ → ℕ)
    → Allocates live allocator
    → Documented live device
    → Listed writes_to_image image_of g.passes image_keys
    → Listed writes_to_buffer buffer_of g.passes buffer_keys
    → compile vk aspects allocator device image_keys buffer_keys g w ≡ some (ok c, w')
    → ((i : ℕ) (pass : PassDecl)
        → get_elem? g.passes i ≡ some pass
        → InRange (length g.images) (length g.buffers) pass)
    → ((i : ℕ) (pass : PassDecl) → get_elem? g.passes i ≡ some pass → Single c.images pass)
    → Starts metas c.images layouts
    → (events : List Event) × (record_with_tracking vk c ≡ some events)
      × (replay metas events layouts ≡ some (declared vk c.images g.passes c.order layouts))
compile-record_with_tracking live vk aspects allocator device image_keys buffer_keys g w w' c metas
      layouts allocates documented images buffers compiled range single starts =
    let (
      balance, images_fit, buffers_fit, image_names, buffer_names, same, each, images_ranked,
      buffers_ranked,
    ) =
      subst (Compiles live vk aspects allocator device image_keys buffer_keys g w) compiled (
        compile_lem live vk aspects allocator device image_keys buffer_keys g w allocates documented
          images buffers) in
    let declared_at : (i : ℕ) (pass : PassDecl)
        → get_elem? c.passes i ≡ some pass
        → get_elem? g.passes i ≡ some pass =
      λ i pass found. ap (λ (ps : List PassDecl). get_elem? ps i) (sym same) ∙ found in
    let (events, recorded, replayed) =
      record_with_tracking_lem metas vk layouts c (λ i o. ground (arith, o, each i, ap length same))
        (λ i pass found.
          subst (λ (n : ℕ). InRange n (length c.buffers) pass)
            (Matched-length (FitsImageDecl live vk aspects allocator device) g.images c.images
              images_fit)
            (subst (λ (n : ℕ). InRange (length g.images) n pass)
              (Matched-length (FitsBufferDecl live vk aspects allocator device) g.buffers c.buffers
                buffers_fit)
              (range i pass (declared_at i pass found))))
        (λ i pass found. single i pass (declared_at i pass found)) (λ i. ground (arith, each i))
        starts in
    (
      events,
      recorded,
      replayed ∙ ap (λ (ps : List PassDecl). some (declared vk c.images ps c.order layouts)) same,
    )
