-- ===== src/FrameGraph/Compile/Tests.antt =====
-- framegraph.rs: a graph that is compiled and recorded, and one whose compilation fails.
use ignis_rs.Base.{
  ℕ, zero, suc, ◌+◌, ◌-◌, ◌≡◌, refl, none, some, List, [], ◌∷◌, arith, subst, get_elem?,
}
use ignis_rs.Error.{ok, err, vulkan}
use ignis_rs.Format.{AspectFlags, r8g8b8a8_unorm, format_aspect_mask}
use ignis_rs.Memory.Resources.{
  Image, default_info, texture_2d, image_new, buffer_new, new_bound, after_create, after_allocate,
  after_bind, as_image, as_buffer, drop_image, drop_buffer,
}
use ignis_rs.Memory.Resources.Ledger.{Resource, is}
use ignis_rs.Memory.Resources.Ideal.{
  Stock, stock, supplier, device, supplier-Allocates, device-Documented,
}
use ignis_rs.Tracking.Headers.{vulkan_headers}
use ignis_rs.Tracking.ImageUsage.{color_attachment, fragment_shader_read}
use ignis_rs.Tracking.BufferUsage.{vertex_input}
use ignis_rs.Tracking.Tracker.{TrackedImage}
use ignis_rs.FrameGraph.{
  ImageAccessMode, BufferAccessMode, ImageSource, BufferSource, PassDecl, FrameGraph,
}
use ignis_rs.FrameGraph.Topo.{
  writes_to_image, writes_to_buffer, image_of, buffer_of, writers_in, writers, from_writers,
  windows, reads_of, serialize, readers, requests, add_edge, add_edges, no_edges, zeros, release,
  kahn, checked, topo_sort,
}
use ignis_rs.FrameGraph.Topo.Pairs.{Listed}
use ignis_rs.FrameGraph.Compiled.{CompiledFrameGraph, Event, record_with_tracking}
use ignis_rs.FrameGraph.Compiled.Device.{declared, replay, Single, InRange}
use ignis_rs.FrameGraph.Compile.{
  drop_all, realize_all, own_image, realize_image, own_buffer, realize_buffer, finish, with_buffers,
  with_images, compile,
}
use ignis_rs.FrameGraph.Compile.Balance.{Compiles, compile_lem}
use ignis_rs.FrameGraph.Compile.Recorded.{compile-record_with_tracking}

abbrev aspects : AspectFlags
aspects = record { color = 1; depth = 2; stencil = 4 }

abbrev sampling : PassDecl
sampling = record {
  name = "sampling";
  access = record { image = (0, ImageAccessMode.read fragment_shader_read) ∷ []; buffer = [] };
  execute = some 8;
}

abbrev drawing : PassDecl
drawing = record {
  name = "drawing";
  access = record {
    image = (0, ImageAccessMode.write color_attachment) ∷ [];
    buffer = (0, BufferAccessMode.read vertex_input) ∷ [];
  };
  execute = some 7;
}

-- The pass that samples is declared before the one that draws.
abbrev graph : FrameGraph
graph = record {
  images =
      record {
        name = "target";
        source =
            ImageSource.transient
              (record { width = 16; height = 8; format = r8g8b8a8_unorm; usage = 20 });
      }
      ∷ [];
  buffers = record { name = "vertices"; source = BufferSource.imported 9 } ∷ [];
  passes = sampling ∷ drawing ∷ [];
}

abbrev target : Image
target = record {
  handle = 5;
  allocation = record {
    memory = 3;
    offset = 256;
    size = 64;
    mapped_ptr = none;
    memory_type_index = 0;
  };
  extent = record { width = 16; height = 8; depth = 1 };
  format = r8g8b8a8_unorm;
  mip_levels = 1;
  array_layers = 1;
}

abbrev compiled : CompiledFrameGraph
compiled = record {
  images =
      record {
        handle = 5;
        owned = some target;
        aspect = 1;
        mip_levels = 1;
        array_layers = 1;
        initial_layout = 0;
      }
      ∷ [];
  buffers = record { handle = 9; owned = none } ∷ [];
  image_names = "target" ∷ [];
  buffer_names = "vertices" ∷ [];
  passes = sampling ∷ drawing ∷ [];
  order = 1 ∷ 0 ∷ [];
}

abbrev used : Stock
used r = 0 + is r (Resource.image 5) + is r (Resource.range 3 256)

graph_compiles :
    compile vulkan_headers aspects supplier (device none) (0 ∷ []) [] graph (λ r. 0)
    ≡ some (ok compiled, used)
unfolding compile realize_all own_image realize_image own_buffer realize_buffer finish with_buffers
    with_images image_new buffer_new new_bound after_create after_allocate after_bind as_image
    as_buffer drop_image drop_buffer default_info texture_2d format_aspect_mask writes_to_image
    writes_to_buffer topo_sort requests writers_in writers from_writers windows reads_of serialize
    readers add_edge add_edges no_edges zeros release kahn checked drop_all
graph_compiles = refl

-- A device that cannot bind memory: the handle and the memory are given back.
abbrev leftover : Stock
leftover r =
    0
    + is r (Resource.image 5)
    + is r (Resource.range 3 256)
    - is r (Resource.range 3 256)
    - is r (Resource.image 5)

graph_fails :
    compile vulkan_headers aspects supplier (device (some 2)) (0 ∷ []) [] graph (λ r. 0)
    ≡ some (err (vulkan 2), leftover)
unfolding compile realize_all own_image realize_image own_buffer realize_buffer finish with_buffers
    with_images image_new buffer_new new_bound after_create after_allocate after_bind as_image
    as_buffer drop_image drop_buffer default_info texture_2d format_aspect_mask writes_to_image
    writes_to_buffer topo_sort requests writers_in writers from_writers windows reads_of serialize
    readers add_edge add_edges no_edges zeros release kahn checked drop_all
graph_fails = refl

image_of-Listed : Listed writes_to_image image_of graph.passes (0 ∷ [])
unfolding writes_to_image
image_of-Listed h zero w = ground (arith, w)
image_of-Listed h (suc zero) w = ground (arith, w)
image_of-Listed h (suc (suc a)) w = ground (arith, w)

buffer_of-Listed : Listed writes_to_buffer buffer_of graph.passes []
unfolding writes_to_buffer
buffer_of-Listed h zero w = ground (arith, w)
buffer_of-Listed h (suc zero) w = ground (arith, w)
buffer_of-Listed h (suc (suc a)) w = ground (arith, w)

compile_lem_example :
    Compiles stock vulkan_headers aspects supplier
      (device none)
      (0 ∷ [])
      []
      graph
      (λ r. 0)
      (compile vulkan_headers aspects supplier (device none) (0 ∷ []) [] graph (λ r. 0))
compile_lem_example =
    compile_lem stock vulkan_headers aspects supplier (device none) (0 ∷ []) [] graph (λ r. 0)
      supplier-Allocates (device-Documented none) image_of-Listed buffer_of-Listed

passes-InRange : (i : ℕ) (pass : PassDecl) → get_elem? graph.passes i ≡ some pass → InRange 1 1 pass
passes-InRange zero pass found =
    let same : sampling ≡ pass = cc (found) in subst (InRange 1 1) same ((omega arith, tt), tt)
passes-InRange (suc zero) pass found =
    let same : drawing ≡ pass = cc (found) in
    subst (InRange 1 1) same ((omega arith, tt), (omega arith, tt))
passes-InRange (suc (suc i)) pass found = cc

passes-Single :
    (i : ℕ) (pass : PassDecl) → get_elem? graph.passes i ≡ some pass → Single compiled.images pass
passes-Single zero pass found =
    let same : sampling ≡ pass = cc (found) in
    subst (Single compiled.images) same (λ image. ground arith)
passes-Single (suc zero) pass found =
    let same : drawing ≡ pass = cc (found) in
    subst (Single compiled.images) same (λ image. ground arith)
passes-Single (suc (suc i)) pass found = cc

abbrev flat : ℕ → TrackedImage
flat image = record { mip_levels = 1; array_layers = 1; aspect = 1 }

compile-record_with_tracking_example :
    (events : List Event) × (record_with_tracking vulkan_headers compiled ≡ some events)
    × (replay flat events (λ k. 0)
        ≡ some (declared vulkan_headers compiled.images graph.passes compiled.order (λ k. 0)))
compile-record_with_tracking_example =
    compile-record_with_tracking stock vulkan_headers aspects supplier (device none) (0 ∷ []) []
      graph (λ r. 0) used compiled flat (λ k. 0) supplier-Allocates (device-Documented none)
      image_of-Listed buffer_of-Listed graph_compiles passes-InRange passes-Single
      ((refl, refl, omega arith, omega arith), tt)
