-- ===== src/Tracking/Tracker/Tests.antt =====
-- tracking/tracker.rs: runs of the tracker with the constants of the Vulkan headers.
use ignis_rs.Base.{
  ℕ, ◌+◌, ◌≤◌, ◌<◌, ◌≡◌, ◌≢◌, refl, ◌↔◌, false, ◌&&◌, none, some, [], ◌∷◌, arith, ap, inl, inr,
  Bool-cases, ◌==◌, ltb, if◌then◌else◌,
}
use mathlib.Core.Option
use ignis_rs.Tracking.Headers.{vulkan_headers}
use ignis_rs.Tracking.ImageUsage
use ignis_rs.Tracking.ImageUsage.{
  ImageUsageContext, color_attachment, fragment_shader_read, transfer_dst, present_src,
}
use ignis_rs.Tracking.BufferUsage
use ignis_rs.Tracking.BufferUsage.{BufferUsageContext, vertex_input}
use ignis_rs.Tracking.Tracker.{
  SubresourceKey, SubresourceState, TrackedImage, ImageTransition, BufferState, ResourceTracker,
  key, new, transition_image, transition_mip, transition_buffer,
}
use ignis_rs.Tracking.Tracker.States.{Complete, Tracked, Moved, Leads, Spans}
use ignis_rs.Tracking.Tracker.Images.{
  transition_image_lem, transition_image-transition_image, transition_image-uniform,
  transition_image-mixed,
}
use ignis_rs.Tracking.Tracker.Mips.{transition_mip_lem}
use ignis_rs.Tracking.Tracker.Buffers
use ignis_rs.Tracking.Tracker.Buffers.{transition_buffer_lem}
use ignis_rs.Tracking.Tracker.History.{
  tracks_image, transitions_mip, transitions_image, untracks_image, after_calls,
  after_calls-Complete,
}

abbrev fresh_state : SubresourceState
fresh_state = record { layout = 0; access = 0; stage = 1; queue_family = 4294967295 }

abbrev copied_state : SubresourceState
copied_state = record { layout = 7; access = 4096; stage = 4096; queue_family = 4294967295 }

abbrev two_mips : TrackedImage
two_mips = record { mip_levels = 2; array_layers = 1; aspect = 1 }

-- Image 5 has two mip levels: `level_0` and `level_1` are their states.
abbrev one_image : SubresourceState → SubresourceState → ResourceTracker
one_image level_0 level_1 = record {
  subresources = λ k.
      if k.image == 5 && ltb k.mip_level 2
      then some (if k.mip_level == 0 then level_0 else level_1)
      else none;
  images = λ i. if i == 5 then some two_mips else none;
  buffers = λ b.
      if b == 8 then some (record { access = 0; stage = 1; queue_family = 4294967295 }) else none;
}

abbrev uniform : ResourceTracker
uniform = one_image fresh_state fresh_state

abbrev mixed : ResourceTracker
mixed = one_image fresh_state copied_state

one_image-Complete : (a b : SubresourceState) → Complete (one_image a b)
one_image-Complete a b image meta e mip layer l l' = elim (Bool-cases (image == 5)) [
  | inl same ↦
      let m : two_mips ≡ meta = ground (arith, e, same) in
      let in_mips : mip < 2 = omega (arith, l, ap (λ (x : TrackedImage). x.mip_levels) m) in
      (if mip == 0 then a else b, ground (arith, same, in_mips))
  | inr apart ↦ absurd (ground (arith, e, apart))
]

uniform-Tracked : Tracked uniform 5 two_mips
uniform-Tracked = record { found = refl; has_mips = omega arith; has_layers = omega arith }

mixed-Tracked : Tracked mixed 5 two_mips
mixed-Tracked = record { found = refl; has_mips = omega arith; has_layers = omega arith }

transition_image_lem_example :
    Moved mixed 5 two_mips
      (ImageUsage.resolve vulkan_headers fragment_shader_read)
      (transition_image vulkan_headers mixed 5 fragment_shader_read)
transition_image_lem_example =
    transition_image_lem vulkan_headers mixed 5 fragment_shader_read two_mips
      (one_image-Complete fresh_state copied_state) mixed-Tracked

transition_image-transition_image_example :
    let t' = (transition_image vulkan_headers mixed 5 fragment_shader_read).1 in
    transition_image vulkan_headers t' 5 fragment_shader_read ≡ (none, t')
transition_image-transition_image_example =
    transition_image-transition_image vulkan_headers mixed 5 fragment_shader_read two_mips
      (one_image-Complete fresh_state copied_state) mixed-Tracked

transition_image-uniform_example :
    let target = ImageUsage.resolve vulkan_headers color_attachment in
    let barrier = (transition_image vulkan_headers uniform 5 color_attachment).0 in
    ((barrier ≡ none) ↔ ((0 ≡ target.0) × (0 ≡ target.1) × (1 ≡ target.2)))
    × Leads fresh_state target barrier
transition_image-uniform_example =
    transition_image-uniform vulkan_headers uniform 5 color_attachment two_mips
      (one_image-Complete fresh_state fresh_state) uniform-Tracked fresh_state in_range
  where
    in_range :
        (mip layer : ℕ)
        → mip < 2
        → layer < 1
        → uniform.subresources (key 5 mip layer) ≡ some fresh_state
    in_range mip layer l l' = ground (arith, l)

transition_image-mixed_example :
    (barrier : ImageTransition) × ((transition_image vulkan_headers mixed 5 fragment_shader_read).0
      ≡ some barrier)
    × (barrier.subresource_range.base_mip_level ≤ 1)
    × (1 < barrier.subresource_range.base_mip_level + barrier.subresource_range.level_count)
    × (0 < barrier.subresource_range.layer_count)
    × (barrier.old_layout ≢ 7)
unfolding ImageUsage.resolve
transition_image-mixed_example =
    transition_image-mixed vulkan_headers mixed 5 fragment_shader_read two_mips
      (one_image-Complete fresh_state copied_state) mixed-Tracked fresh_state copied_state 1 0 refl
      (omega arith) (omega arith) refl (λ e. absurd (omega (arith, e)))
      (λ e. absurd (omega (arith, e)))

after_calls-Complete_example : Complete (
    after_calls vulkan_headers new (
      tracks_image 5 0 2 1 1
      ∷ transitions_mip 5 1 transfer_dst
      ∷ transitions_image 5 fragment_shader_read
      ∷ untracks_image 5
      ∷ []))
after_calls-Complete_example = after_calls-Complete vulkan_headers (
    tracks_image 5 0 2 1 1
    ∷ transitions_mip 5 1 transfer_dst
    ∷ transitions_image 5 fragment_shader_read
    ∷ untracks_image 5
    ∷ [])

transition_mip_lem_example :
    let target = ImageUsage.resolve vulkan_headers transfer_dst in
    let (barrier, t') = transition_mip vulkan_headers uniform 5 1 transfer_dst in
    ((barrier ≡ none) ↔ (0 ≡ target.0))
    × Leads fresh_state target barrier
    × Spans 5
        (record {
          aspect_mask = 1;
          base_mip_level = 1;
          level_count = 1;
          base_array_layer = 0;
          layer_count = 1;
        })
        barrier
    × (barrier ≡ none → t' ≡ uniform)
    × (barrier ≢ none
        → (layer : ℕ) → layer < 1
        → t'.subresources (key 5 1 layer)
          ≡ Option.map
              (λ (old : SubresourceState). record {
                layout = target.0;
                access = target.1;
                stage = target.2;
                queue_family = old.queue_family;
              })
              (uniform.subresources (key 5 1 layer)))
    × ((k : SubresourceKey)
        → (k.image == 5 && k.mip_level == 1 && ltb k.array_layer 1) ≡ false
        → t'.subresources k ≡ uniform.subresources k)
    × (t'.images ≡ uniform.images)
    × (t'.buffers ≡ uniform.buffers)
transition_mip_lem_example =
    transition_mip_lem vulkan_headers uniform 5 1 transfer_dst two_mips fresh_state refl refl

transition_buffer_lem_example :
    let old : BufferState = record { access = 0; stage = 1; queue_family = 4294967295 } in
    let target = BufferUsage.resolve vulkan_headers vertex_input in
    let (barrier, t') = transition_buffer vulkan_headers uniform 8 vertex_input in
    (t'.buffers 8
      ≡ some (record { access = target.0; stage = target.1; queue_family = 4294967295 }))
    × ((other : ℕ) → other ≢ 8 → t'.buffers other ≡ uniform.buffers other)
    × ((barrier ≡ none) ↔ ((0 ≡ target.0) × (1 ≡ target.1)))
    × Buffers.Leads old target barrier
transition_buffer_lem_example =
    transition_buffer_lem vulkan_headers uniform 8 vertex_input
      (record { access = 0; stage = 1; queue_family = 4294967295 }) refl
