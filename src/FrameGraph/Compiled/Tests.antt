-- ===== src/FrameGraph/Compiled/Tests.antt =====
-- framegraph.rs: a graph that is recorded.
use ignis_rs.Base.{ℕ, zero, suc, ◌≡◌, refl, arith, none, some, List, [], ◌∷◌, get_elem?, subst}
use ignis_rs.Tracking.Headers.{vulkan_headers}
use ignis_rs.Tracking.ImageUsage.{color_attachment, fragment_shader_read}
use ignis_rs.Tracking.BufferUsage.{vertex_input}
use ignis_rs.Tracking.Tracker.{TrackedImage}
use ignis_rs.FrameGraph.{ImageAccessMode, BufferAccessMode, PassDecl}
use ignis_rs.FrameGraph.Compiled.{CompiledFrameGraph, Event, record_with_tracking}
use ignis_rs.FrameGraph.Compiled.Device.{declared, replay, Single, InRange}
use ignis_rs.FrameGraph.Compiled.Record.{record_with_tracking_lem}

-- A pass that draws onto an image, and one that samples it.
abbrev drawing : PassDecl
drawing = record {
  name = "drawing";
  access = record {
    image = (0, ImageAccessMode.write color_attachment) ∷ [];
    buffer = (0, BufferAccessMode.read vertex_input) ∷ [];
  };
  execute = some 7;
}

abbrev sampling : PassDecl
sampling = record {
  name = "sampling";
  access = record { image = (0, ImageAccessMode.read fragment_shader_read) ∷ []; buffer = [] };
  execute = some 8;
}

abbrev graph : CompiledFrameGraph
graph = record {
  images =
      record {
        handle = 9;
        owned = none;
        aspect = 1;
        mip_levels = 1;
        array_layers = 1;
        initial_layout = 0;
      }
      ∷ [];
  buffers = record { handle = 3; owned = none } ∷ [];
  image_names = "target" ∷ [];
  buffer_names = "vertices" ∷ [];
  passes = drawing ∷ sampling ∷ [];
  order = 0 ∷ 1 ∷ [];
}

abbrev flat : ℕ → TrackedImage
flat image = record { mip_levels = 1; array_layers = 1; aspect = 1 }

graph-InRange : (i : ℕ) (pass : PassDecl) → get_elem? graph.passes i ≡ some pass → InRange 1 1 pass
graph-InRange zero pass found =
    let same : drawing ≡ pass = cc (found) in
    subst (InRange 1 1) same ((omega arith, tt), (omega arith, tt))
graph-InRange (suc zero) pass found =
    let same : sampling ≡ pass = cc (found) in subst (InRange 1 1) same ((omega arith, tt), tt)
graph-InRange (suc (suc i)) pass found = cc

graph-Single :
    (i : ℕ) (pass : PassDecl) → get_elem? graph.passes i ≡ some pass → Single graph.images pass
graph-Single zero pass found =
    let same : drawing ≡ pass = cc (found) in
    subst (Single graph.images) same (λ image. ground arith)
graph-Single (suc zero) pass found =
    let same : sampling ≡ pass = cc (found) in
    subst (Single graph.images) same (λ image. ground arith)
graph-Single (suc (suc i)) pass found = cc

record_with_tracking_lem_example :
    (events : List Event) × (record_with_tracking vulkan_headers graph ≡ some events)
    × (replay flat events (λ k. 0)
        ≡ some (declared vulkan_headers graph.images graph.passes graph.order (λ k. 0)))
record_with_tracking_lem_example =
    record_with_tracking_lem flat vulkan_headers (λ k. 0) graph (λ i o. ground (arith, o))
      graph-InRange graph-Single (λ i. ground arith) ((refl, refl, omega arith, omega arith), tt)
