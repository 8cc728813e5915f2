-- ===== src/Tracking/Tracker.antt =====
-- tracking/tracker.rs: `ResourceTracker` and the barriers it computes. A hash map is the function
-- from a key to its value, if it has one; handles and flags are numbers. A function that changes
-- the tracker returns the new one.
pub mod Loops
pub mod States
pub mod Images
pub mod Mips
pub mod History
pub mod Buffers
pub mod Barriers
pub mod Layouts
mod Tests
use ignis_rs.Base.{
  ℕ, zero, suc, ◌+◌, Bool, true, false, ◌&&◌, Option, none, some, List, [], ◌∷◌, bit_or, ltb, ◌==◌,
  if◌then◌else◌,
}
use mathlib.Core.Option
use ignis_rs.Tracking.Vk.{Vk}
use ignis_rs.Tracking.ImageUsage
use ignis_rs.Tracking.ImageUsage.{ImageUsageContext}
use ignis_rs.Tracking.BufferUsage
use ignis_rs.Tracking.BufferUsage.{BufferUsageContext}

pub record SubresourceKey : Type 0 where
  pub image : ℕ
  pub mip_level : ℕ
  pub array_layer : ℕ

pub record SubresourceState : Type 0 where
  pub layout : ℕ
  pub access : ℕ
  pub stage : ℕ
  pub queue_family : ℕ

pub record BufferState : Type 0 where
  pub access : ℕ
  pub stage : ℕ
  pub queue_family : ℕ

pub record ImageSubresourceRange : Type 0 where
  pub aspect_mask : ℕ
  pub base_mip_level : ℕ
  pub level_count : ℕ
  pub base_array_layer : ℕ
  pub layer_count : ℕ

pub record ImageTransition : Type 0 where
  pub image : ℕ
  pub old_layout : ℕ
  pub new_layout : ℕ
  pub src_access : ℕ
  pub dst_access : ℕ
  pub src_stage : ℕ
  pub dst_stage : ℕ
  pub subresource_range : ImageSubresourceRange
  pub src_queue_family : ℕ
  pub dst_queue_family : ℕ

pub record BufferTransition : Type 0 where
  pub buffer : ℕ
  pub src_access : ℕ
  pub dst_access : ℕ
  pub src_stage : ℕ
  pub dst_stage : ℕ
  pub offset : ℕ
  pub size : ℕ
  pub src_queue_family : ℕ
  pub dst_queue_family : ℕ

pub record TrackedImage : Type 0 where
  pub mip_levels : ℕ
  pub array_layers : ℕ
  pub aspect : ℕ

abbrev pub Subresources : Type 0
Subresources = SubresourceKey → Option SubresourceState

pub record ResourceTracker : Type 0 where
  pub subresources : Subresources
  pub images : ℕ → Option TrackedImage
  pub buffers : ℕ → Option BufferState

pub new : ResourceTracker
new = record { subresources = λ k. none; images = λ i. none; buffers = λ b. none }

abbrev pub key : ℕ → ℕ → ℕ → SubresourceKey
key image mip layer = record { image = image; mip_level = mip; array_layer = layer }

pub same_key : SubresourceKey → SubresourceKey → Bool
same_key a b = a.image == b.image && a.mip_level == b.mip_level && a.array_layer == b.array_layer

-- What a change of one entry does to the map.
pub change_at :
    (Option SubresourceState → Option SubresourceState)
    → SubresourceKey
    → Subresources
    → Subresources
change_at f k m k' = if same_key k' k then f (m k') else m k'

-- `for layer in 0..layers`, with a change of the entry in each round.
pub each_layer :
    (Option SubresourceState → Option SubresourceState) → ℕ → ℕ → ℕ → Subresources → Subresources
each_layer f image mip zero m = m
each_layer f image mip (suc layer) m =
    change_at f (key image mip layer) (each_layer f image mip layer m)

-- `for mip in 0..mips`, around it.
pub each_mip :
    (Option SubresourceState → Option SubresourceState) → ℕ → ℕ → ℕ → Subresources → Subresources
each_mip f image zero layers m = m
each_mip f image (suc mip) layers m = each_layer f image mip layers (each_mip f image mip layers m)

-- A map on numbers with one entry changed.
pub put {ℓ} : {A : Type ℓ} → ℕ → Option A → (ℕ → Option A) → ℕ → Option A
put k v m k' = if k' == k then v else m k'

pub track_image : Vk → ResourceTracker → ℕ → ℕ → ℕ → ℕ → ℕ → ResourceTracker
track_image vk t image initial_layout mip_levels array_layers aspect = record t {
  images =
      put image
        (some (record { mip_levels = mip_levels; array_layers = array_layers; aspect = aspect }))
        t.images;
  subresources =
      each_mip
        (λ old. some (record {
          layout = initial_layout;
          access = 0;
          stage = vk.stage.top_of_pipe;
          queue_family = vk.queue_family_ignored;
        }))
        image mip_levels array_layers t.subresources;
}

pub untrack_image : ResourceTracker → ℕ → ResourceTracker
untrack_image t image = elim (t.images image) [
  | none ↦ t
  | some meta ↦ record t {
    images = put image none t.images;
    subresources = each_mip (λ old. none) image meta.mip_levels meta.array_layers t.subresources;
  }
]

-- What a use makes of the state of a subresource.
pub retarget : ℕ × ℕ × ℕ → SubresourceState → SubresourceState
retarget (new_layout, dst_access, dst_stage) s = record s {
  layout = new_layout;
  access = dst_access;
  stage = dst_stage;
}

pub has_layout : ℕ → Option SubresourceState → Bool
has_layout new_layout none = false
has_layout new_layout (some s) = s.layout == new_layout

-- `(0..layers).all(..)`.
pub all_layers : (SubresourceKey → Bool) → ℕ → ℕ → ℕ → Bool
all_layers p image mip zero = true
all_layers p image mip (suc layer) = all_layers p image mip layer && p (key image mip layer)

-- `(0..mips).all(..)`, around it.
pub all_mips : (SubresourceKey → Bool) → ℕ → ℕ → ℕ → Bool
all_mips p image zero layers = true
all_mips p image (suc mip) layers = all_mips p image mip layers && all_layers p image mip layers

-- The test for a transition that has nothing to do.
pub is_no_op : Subresources → ℕ → TrackedImage → SubresourceState → ℕ × ℕ × ℕ → Bool
is_no_op m image meta first (new_layout, dst_access, dst_stage) =
    (first.layout == new_layout && first.access == dst_access && first.stage == dst_stage)
    && all_mips (λ k. has_layout new_layout (m k)) image meta.mip_levels meta.array_layers

pub image_barrier : ℕ → SubresourceState → ℕ × ℕ × ℕ → ImageSubresourceRange → ImageTransition
image_barrier image first (new_layout, dst_access, dst_stage) range = record {
  image = image;
  old_layout = first.layout;
  new_layout = new_layout;
  src_access = first.access;
  dst_access = dst_access;
  src_stage = first.stage;
  dst_stage = dst_stage;
  subresource_range = range;
  src_queue_family = first.queue_family;
  dst_queue_family = first.queue_family;
}

pub transition_image :
    Vk → ResourceTracker → ℕ → ImageUsageContext → Option ImageTransition × ResourceTracker
transition_image vk t image usage =
    let target = ImageUsage.resolve vk usage in
    elim (t.images image) [
      | none ↦ (none, t)
      | some meta ↦ elim (t.subresources (key image 0 0)) [
        | none ↦ (none, t)
        | some first ↦ if is_no_op t.subresources image meta first target then (none, t) else (
          some (
              image_barrier image first target (record {
                aspect_mask = meta.aspect;
                base_mip_level = 0;
                level_count = meta.mip_levels;
                base_array_layer = 0;
                layer_count = meta.array_layers;
              })),
          record t {
            subresources =
                each_mip (Option.map (retarget target)) image meta.mip_levels meta.array_layers
                  t.subresources;
          },
        )
      ]
    ]

pub transition_mip :
    Vk → ResourceTracker → ℕ → ℕ → ImageUsageContext → Option ImageTransition × ResourceTracker
transition_mip vk t image mip_level usage =
    let target = ImageUsage.resolve vk usage in
    elim (t.images image) [
      | none ↦ (none, t)
      | some meta ↦ elim (t.subresources (key image mip_level 0)) [
        | none ↦ (none, t)
        | some first ↦ if first.layout == target.0 then (none, t) else (
          some (
              image_barrier image first target (record {
                aspect_mask = meta.aspect;
                base_mip_level = mip_level;
                level_count = 1;
                base_array_layer = 0;
                layer_count = meta.array_layers;
              })),
          record t {
            subresources =
                each_layer (Option.map (retarget target)) image mip_level meta.array_layers
                  t.subresources;
          },
        )
      ]
    ]

pub subresource_state : ResourceTracker → ℕ → ℕ → ℕ → Option SubresourceState
subresource_state t image mip_level array_layer = t.subresources (key image mip_level array_layer)

pub track_buffer : Vk → ResourceTracker → ℕ → ResourceTracker
track_buffer vk t buffer = record t {
  buffers =
      put buffer
        (some (record {
          access = 0;
          stage = vk.stage.top_of_pipe;
          queue_family = vk.queue_family_ignored;
        }))
        t.buffers;
}

pub untrack_buffer : ResourceTracker → ℕ → ResourceTracker
untrack_buffer t buffer = record t { buffers = put buffer none t.buffers }

pub transition_buffer :
    Vk → ResourceTracker → ℕ → BufferUsageContext → Option BufferTransition × ResourceTracker
transition_buffer vk t buffer usage =
    let target = BufferUsage.resolve vk usage in
    elim (t.buffers buffer) [
      | none ↦ (none, t)
      | some state ↦ if state.access == target.0 && state.stage == target.1 then (none, t) else (
        some (record {
          buffer = buffer;
          src_access = state.access;
          dst_access = target.0;
          src_stage = state.stage;
          dst_stage = target.1;
          offset = 0;
          size = vk.whole_size;
          src_queue_family = state.queue_family;
          dst_queue_family = state.queue_family;
        }),
        record t {
          buffers =
              put buffer (some (record state { access = target.0; stage = target.1 })) t.buffers;
        },
      )
    ]

pub clear : ResourceTracker → ResourceTracker
clear t = record { subresources = λ k. none; images = λ i. none; buffers = λ b. none }
