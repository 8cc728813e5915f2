-- ===== src/Tracking/Tracker/History.antt =====
-- tracking/tracker.rs: any sequence of calls on a tracker.
use ignis_rs.Base.{
  ℕ, ◌<◌, ◌≡◌, refl, sym, ap, ◌∙◌, subst, inl, inr, Bool, true, false, ◌&&◌, Option, none, some,
  List, [], ◌∷◌, arith, ◌==◌, if◌then◌else◌, Bool-cases, Option-cases,
}
use mathlib.Core.Option
use ignis_rs.Tracking.Vk.{Vk}
use ignis_rs.Tracking.ImageUsage.{ImageUsageContext}
use ignis_rs.Tracking.ImageUsage
use ignis_rs.Tracking.BufferUsage.{BufferUsageContext}
use ignis_rs.Tracking.BufferUsage
use ignis_rs.Tracking.Tracker.{
  SubresourceKey, SubresourceState, Subresources, TrackedImage, ResourceTracker, new, key,
  each_layer, each_mip, put, retarget, is_no_op, track_image, untrack_image, transition_image,
  transition_mip, track_buffer, untrack_buffer, transition_buffer, clear,
}
use ignis_rs.Tracking.Tracker.Loops.{covered, each_layer_lem, each_mip_lem}
use ignis_rs.Tracking.Tracker.States.{Complete}

-- The calls that change a tracker.
pub data Call : Type 0 where
  tracks_image : (image initial_layout mip_levels array_layers aspect : ℕ) → Call
  untracks_image : (image : ℕ) → Call
  transitions_image : (image : ℕ) → ImageUsageContext → Call
  transitions_mip : (image mip_level : ℕ) → ImageUsageContext → Call
  tracks_buffer untracks_buffer : (buffer : ℕ) → Call
  transitions_buffer : (buffer : ℕ) → BufferUsageContext → Call
  clears : Call

unfoldable pub after_call : Vk → ResourceTracker → Call → ResourceTracker
after_call vk t (tracks_image image initial_layout mip_levels array_layers aspect) =
    track_image vk t image initial_layout mip_levels array_layers aspect
after_call vk t (untracks_image image) = untrack_image t image
after_call vk t (transitions_image image usage) = (transition_image vk t image usage).1
after_call vk t (transitions_mip image mip_level usage) =
    (transition_mip vk t image mip_level usage).1
after_call vk t (tracks_buffer buffer) = track_buffer vk t buffer
after_call vk t (untracks_buffer buffer) = untrack_buffer t buffer
after_call vk t (transitions_buffer buffer usage) = (transition_buffer vk t buffer usage).1
after_call vk t clears = clear t

unfoldable pub after_calls : Vk → ResourceTracker → List Call → ResourceTracker
after_calls vk t [] = t
after_calls vk t (c ∷ cs) = after_calls vk (after_call vk t c) cs

abbrev Present : Option SubresourceState → Type 0
Present o = (s : SubresourceState) × (o ≡ some s)

-- A change of entries that keeps them keeps the map complete.
Complete-keep :
    (t : ResourceTracker) (m : Subresources)
    → ((k : SubresourceKey) → Present (t.subresources k) → Present (m k))
    → Complete t
    → Complete (record t { subresources = m })
Complete-keep t m keep full image meta e mip layer l l' =
    keep (key image mip layer) (full image meta e mip layer l l')

Present-retarget :
    (target : ℕ × ℕ × ℕ) (o : Option SubresourceState)
    → Present o
    → Present (Option.map (retarget target) o)
Present-retarget target none (s, e) = cc
Present-retarget target (some s) h = (retarget target s, refl)

Present-if :
    (b : Bool) (o o' : Option SubresourceState)
    → Present o
    → (Present o → Present o')
    → Present (if b then o' else o)
Present-if true o o' h keep = keep h
Present-if false o o' h keep = h

module _ (vk : Vk) (t : ResourceTracker) (full : Complete t) where
  Complete-each_mip :
      (image mips layers : ℕ) (target : ℕ × ℕ × ℕ)
      → Complete (record t {
        subresources = each_mip (Option.map (retarget target)) image mips layers t.subresources;
      })
  Complete-each_mip image mips layers target =
      Complete-keep t (each_mip (Option.map (retarget target)) image mips layers t.subresources)
        (λ k h.
          subst Present
            (sym (each_mip_lem (Option.map (retarget target)) image mips layers t.subresources k))
            (Present-if (covered image mips layers k) (t.subresources k) _ h
              (Present-retarget target (t.subresources k))))
        full

  Complete-each_layer :
      (image mip layers : ℕ) (target : ℕ × ℕ × ℕ)
      → Complete (record t {
        subresources = each_layer (Option.map (retarget target)) image mip layers t.subresources;
      })
  Complete-each_layer image mip layers target =
      Complete-keep t (each_layer (Option.map (retarget target)) image mip layers t.subresources)
        (λ k h.
          subst Present
            (sym (each_layer_lem (Option.map (retarget target)) image mip layers t.subresources k))
            (Present-if _ (t.subresources k) _ h (Present-retarget target (t.subresources k))))
        full

  Complete-transition_image :
      (image : ℕ) (usage : ImageUsageContext) → Complete (transition_image vk t image usage).1
  unfolding transition_image
  Complete-transition_image image usage = elim (Option-cases (t.images image)) [
    | inl missing ↦ rw (transition_image, missing) full
    | inr (meta, found) ↦ elim (Option-cases (t.subresources (key image 0 0))) [
      | inl gone ↦ rw (transition_image, found, gone) full
      | inr (s, e) ↦
          elim (Bool-cases (is_no_op t.subresources image meta s (ImageUsage.resolve vk usage))) [
            | inl idle ↦ rw (transition_image, found, e, idle) full
            | inr busy ↦
                rw (transition_image, found, e, busy)
                  (Complete-each_mip image meta.mip_levels meta.array_layers
                    (ImageUsage.resolve vk usage))
          ]
    ]
  ]

  Complete-transition_mip :
      (image mip : ℕ) (usage : ImageUsageContext) → Complete (transition_mip vk t image mip usage).1
  unfolding transition_mip
  Complete-transition_mip image mip usage = elim (Option-cases (t.images image)) [
    | inl missing ↦ rw (transition_mip, missing) full
    | inr (meta, found) ↦ elim (Option-cases (t.subresources (key image mip 0))) [
      | inl gone ↦ rw (transition_mip, found, gone) full
      | inr (s, e) ↦ elim (Bool-cases (s.layout == (ImageUsage.resolve vk usage).0)) [
        | inl idle ↦ rw (transition_mip, found, e, idle) full
        | inr busy ↦
            rw (transition_mip, found, e, busy)
              (Complete-each_layer image mip meta.array_layers (ImageUsage.resolve vk usage))
      ]
    ]
  ]

  Complete-transition_buffer :
      (buffer : ℕ) (usage : BufferUsageContext) → Complete (transition_buffer vk t buffer usage).1
  unfolding transition_buffer
  Complete-transition_buffer buffer usage = elim (Option-cases (t.buffers buffer)) [
    | inl missing ↦ rw (transition_buffer, missing) full
    | inr (s, e) ↦
        elim (Bool-cases (
          s.access == (BufferUsage.resolve vk usage).0
          && s.stage == (BufferUsage.resolve vk usage).1)) [
            | inl idle ↦ rw (transition_buffer, e, idle) full
            | inr busy ↦ rw (transition_buffer, e, busy) full
          ]
  ]

  Complete-track_image :
      (image initial_layout mips layers aspect : ℕ)
      → Complete (track_image vk t image initial_layout mips layers aspect)
  unfolding track_image put
  Complete-track_image image initial_layout mips layers aspect image' meta e mip layer l l' =
      elim (Bool-cases (image' == image)) [
        | inl same ↦
            let m : meta ≡ record { mip_levels = mips; array_layers = layers; aspect = aspect } =
              ground (arith, e, same) in
            let in_mips : mip < mips =
              omega (arith, l, ap (λ (x : TrackedImage). x.mip_levels) m) in
            let in_layers : layer < layers =
              omega (arith, l', ap (λ (x : TrackedImage). x.array_layers) m) in
            (
              fresh,
              each_mip_lem (λ old. some fresh) image mips layers t.subresources
                    (key image' mip layer)
                  ∙ ground (arith, same, in_mips, in_layers),
            )
        | inr apart ↦
            subst Present
              (sym (
                each_mip_lem (λ old. some fresh) image mips layers t.subresources
                  (key image' mip layer)))
              (Present-if (covered image mips layers (key image' mip layer))
                (t.subresources (key image' mip layer)) _
                (full image' meta (ground (arith, e, apart)) mip layer l l') (λ h. (fresh, refl)))
      ]
    where
      fresh : SubresourceState
      fresh = record {
        layout = initial_layout;
        access = 0;
        stage = vk.stage.top_of_pipe;
        queue_family = vk.queue_family_ignored;
      }

  Complete-untrack_image : (image : ℕ) → Complete (untrack_image t image)
  unfolding untrack_image
  Complete-untrack_image image = elim (Option-cases (t.images image)) [
    | inl missing ↦ rw (untrack_image, missing) full
    | inr (gone, found) ↦ rw (untrack_image, found) (others gone)
  ]
    where
      others :
          (gone : TrackedImage)
          → Complete (record t {
            images = put image none t.images;
            subresources =
                each_mip (λ old. none) image gone.mip_levels gone.array_layers t.subresources;
          })
      others gone image' meta e mip layer l l' = elim (Bool-cases (image' == image)) [
        | inl same ↦ absurd (unfold put in ground (arith, e, same))
        | inr apart ↦
            let (s, h) = full image' meta (unfold put in ground (arith, e, apart)) mip layer l l' in
            (
              s,
              each_mip_lem (λ old. none) image gone.mip_levels gone.array_layers t.subresources
                    (key image' mip layer)
                  ∙ ground (arith, apart, h),
            )
      ]

  after_call-Complete : (c : Call) → Complete (after_call vk t c)
  unfolding after_call track_buffer untrack_buffer clear
  after_call-Complete (tracks_image image initial_layout mips layers aspect) =
      Complete-track_image image initial_layout mips layers aspect
  after_call-Complete (untracks_image image) = Complete-untrack_image image
  after_call-Complete (transitions_image image usage) = Complete-transition_image image usage
  after_call-Complete (transitions_mip image mip usage) = Complete-transition_mip image mip usage
  after_call-Complete (tracks_buffer buffer) = full
  after_call-Complete (untracks_buffer buffer) = full
  after_call-Complete (transitions_buffer buffer usage) = Complete-transition_buffer buffer usage
  after_call-Complete clears = λ image meta e mip layer l l'. cc

after_calls-from :
    (vk : Vk) (t : ResourceTracker) (calls : List Call)
    → Complete t
    → Complete (after_calls vk t calls)
unfolding after_calls
after_calls-from vk t [] full = full
after_calls-from vk t (c ∷ cs) full =
    after_calls-from vk (after_call vk t c) cs (after_call-Complete vk t full c)

-- After any sequence of calls on a new tracker, every subresource of every tracked image has a
-- state: a lookup that a transition makes for one of them never fails.
pub after_calls-Complete : (vk : Vk) (calls : List Call) → Complete (after_calls vk new calls)
unfolding new
after_calls-Complete vk calls = after_calls-from vk new calls λ image meta e mip layer l l'. cc
