-- ===== src/FrameGraph/Compiled.antt =====
-- framegraph.rs: a compiled frame graph, and how it records its passes. An index out of range,
-- where the code panics, gives `none`. The recorder gets commands, and the closures that are run,
-- in order; what a closure records itself is not modelled.
pub mod Device
pub mod Replay
pub mod Layouts
pub mod Record
mod Tests
use Prim.Native.String.{String}
use ignis_rs.Base.{ℕ, Bool, Option, none, some, List, [], ◌∷◌, ◌++◌, map, get_elem?, set, ◌>>=◌}
use ignis_rs.Memory.Resources.{Image, Buffer}
use ignis_rs.Tracking.Vk.{Vk}
use ignis_rs.Tracking.ImageUsage.{ImageUsageContext}
use ignis_rs.Tracking.BufferUsage.{BufferUsageContext}
use ignis_rs.Tracking.Tracker
use ignis_rs.Tracking.Tracker.{
  ResourceTracker, ImageTransition, BufferTransition, track_image, track_buffer, transition_image,
  transition_buffer,
}
use ignis_rs.Tracking.Tracker.Barriers.{Command, apply_image_transitions, apply_buffer_transitions}
use ignis_rs.FrameGraph.{ImageAccessMode, BufferAccessMode, PassAccess, PassDecl}

pub record RealizedImage : Type 0 where
  pub handle : ℕ
  pub owned : Option Image
  pub aspect : ℕ
  pub mip_levels : ℕ
  pub array_layers : ℕ
  pub initial_layout : ℕ

pub record RealizedBuffer : Type 0 where
  pub handle : ℕ
  pub owned : Option Buffer

pub record CompiledFrameGraph : Type 0 where
  pub images : List RealizedImage
  pub buffers : List RealizedBuffer
  pub image_names : List String
  pub buffer_names : List String
  pub passes : List PassDecl
  pub order : List ℕ

-- What the recorder gets: a command, or what a closure records.
pub data Event : Type 0 where
  records : Command → Event
  runs : (cb : ℕ) → Event

pub image_usage : ImageAccessMode → ImageUsageContext
image_usage (ImageAccessMode.read u) = u
image_usage (ImageAccessMode.write u) = u

pub buffer_usage : BufferAccessMode → BufferUsageContext
buffer_usage (BufferAccessMode.read u) = u
buffer_usage (BufferAccessMode.write u) = u

-- `if let Some(t) = .. { transitions.push(t) }`, at the front of what is pushed later.
pub push {ℓ} : {A : Type ℓ} → Option A → List A → List A
push none ts = ts
push (some t) ts = t ∷ ts

pub execution : Option ℕ → Option Event
execution none = none
execution (some cb) = some (runs cb)

module _ (vk : Vk) where
  pub track_images : List RealizedImage → ResourceTracker → ResourceTracker
  track_images [] tracker = tracker
  track_images (img ∷ images) tracker = track_images images (
      track_image vk tracker img.handle img.initial_layout img.mip_levels img.array_layers
        img.aspect)

  pub track_buffers : List RealizedBuffer → ResourceTracker → ResourceTracker
  track_buffers [] tracker = tracker
  track_buffers (buf ∷ buffers) tracker = track_buffers buffers (track_buffer vk tracker buf.handle)

  pub image_transitions :
      List RealizedImage
      → List (ℕ × ImageAccessMode)
      → ResourceTracker
      → Option (List ImageTransition × ResourceTracker)
  image_transitions images [] tracker = some ([], tracker)
  image_transitions images ((h, mode) ∷ access) tracker = do
    img ← get_elem? images h
    let step = transition_image vk tracker img.handle (image_usage mode)
    rest ← image_transitions images access step.1
    some (push step.0 rest.0, rest.1)

  pub buffer_transitions :
      List RealizedBuffer
      → List (ℕ × BufferAccessMode)
      → ResourceTracker
      → Option (List BufferTransition × ResourceTracker)
  buffer_transitions buffers [] tracker = some ([], tracker)
  buffer_transitions buffers ((h, mode) ∷ access) tracker = do
    buf ← get_elem? buffers h
    let step = transition_buffer vk tracker buf.handle (buffer_usage mode)
    rest ← buffer_transitions buffers access step.1
    some (push step.0 rest.0, rest.1)

  -- The loop over the order. `take_if_available` leaves no closure behind.
  pub record_passes :
      List RealizedImage
      → List RealizedBuffer
      → List ℕ
      → List PassDecl
      → ResourceTracker
      → Option (List Event)
  record_passes images buffers [] passes tracker = some []
  record_passes images buffers (pass_idx ∷ order) passes tracker = do
    pass ← get_elem? passes pass_idx
    moved ← image_transitions images pass.access.image tracker
    moved' ← buffer_transitions buffers pass.access.buffer moved.1
    rest ←
        record_passes images buffers order (set passes pass_idx (record pass { execute = none }))
          moved'.1
    some (
        map records (apply_image_transitions moved.0)
        ++ (map records (apply_buffer_transitions moved'.0) ++ push (execution pass.execute) rest))

  pub record_with_tracking : CompiledFrameGraph → Option (List Event)
  record_with_tracking g =
      record_passes g.images g.buffers g.order g.passes
        (track_buffers g.buffers (track_images g.images Tracker.new))

-- `Resolver`.
pub resolve_image : List RealizedImage → ℕ → Option ℕ
resolve_image images h = do img ← get_elem? images h; some img.handle

pub resolve_buffer : List RealizedBuffer → ℕ → Option ℕ
resolve_buffer buffers h = do buf ← get_elem? buffers h; some buf.handle
