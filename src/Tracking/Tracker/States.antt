-- ===== src/Tracking/Tracker/States.antt =====
-- tracking/tracker.rs: the states before and after a transition of an image.
use ignis_rs.Base.{ℕ, ◌<◌, ◌≡◌, false, Option, none, some}
use ignis_rs.Tracking.Tracker.{
  SubresourceKey, SubresourceState, ImageSubresourceRange, TrackedImage, ImageTransition,
  ResourceTracker, key,
}
use ignis_rs.Tracking.Tracker.Loops.{covered}

-- Every subresource of every tracked image has a state.
abbrev pub Complete : ResourceTracker → Type 0
Complete t =
    (image : ℕ) (meta : TrackedImage)
    → t.images image ≡ some meta
    → (mip layer : ℕ) → mip < meta.mip_levels
    → layer < meta.array_layers
    → (s : SubresourceState) × (t.subresources (key image mip layer) ≡ some s)

-- An image is tracked, and has a subresource.
pub record Tracked (t : ResourceTracker) (image : ℕ) (meta : TrackedImage) : Type 0 where
  pub found : t.images image ≡ some meta
  pub has_mips : 0 < meta.mip_levels
  pub has_layers : 0 < meta.array_layers

-- The new state of a subresource under a barrier, if there is one: its owner is the old one.
abbrev pub Settles :
    ℕ × ℕ × ℕ → SubresourceState → Option ImageTransition → Option SubresourceState → Type 0
Settles target old none s = (s ≡ some old) × (old.layout ≡ target.0)
Settles target old (some b) s =
    s
    ≡ some (record {
      layout = target.0;
      access = target.1;
      stage = target.2;
      queue_family = old.queue_family;
    })

-- A barrier, if there is one, is on these subresources of the image.
abbrev pub Spans : ℕ → ImageSubresourceRange → Option ImageTransition → Type 0
Spans image range none = Unit {0}
Spans image range (some b) = (b.image ≡ image) × (b.subresource_range ≡ range)

-- What `transition_image` leaves behind, with the barrier that it gives.
abbrev pub Moved :
    ResourceTracker
    → ℕ
    → TrackedImage
    → ℕ × ℕ × ℕ
    → Option ImageTransition × ResourceTracker
    → Type 0
Moved t image meta target (barrier, t') =
    ((mip layer : ℕ)
      → mip < meta.mip_levels
      → layer < meta.array_layers
      → (old : SubresourceState) × (t.subresources (key image mip layer) ≡ some old)
        × Settles target old barrier (t'.subresources (key image mip layer)))
    × Spans image
        (record {
          aspect_mask = meta.aspect;
          base_mip_level = 0;
          level_count = meta.mip_levels;
          base_array_layer = 0;
          layer_count = meta.array_layers;
        })
        barrier
    × ((k : SubresourceKey)
        → covered image meta.mip_levels meta.array_layers k ≡ false
        → t'.subresources k ≡ t.subresources k)
    × (t'.images ≡ t.images)
    × (t'.buffers ≡ t.buffers)

-- A barrier, if there is one, leads from the state to what the use asks for, within the queue family
-- of the state.
abbrev pub Leads : SubresourceState → ℕ × ℕ × ℕ → Option ImageTransition → Type 0
Leads s target none = Unit {0}
Leads s target (some b) =
    (b.old_layout ≡ s.layout)
    × (b.src_access ≡ s.access)
    × (b.src_stage ≡ s.stage)
    × (b.new_layout ≡ target.0)
    × (b.dst_access ≡ target.1)
    × (b.dst_stage ≡ target.2)
    × (b.src_queue_family ≡ s.queue_family)
    × (b.dst_queue_family ≡ s.queue_family)
