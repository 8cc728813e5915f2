-- ===== src/Tracking/Tracker/Images.antt =====
-- tracking/tracker.rs: `transition_image`.
use ignis_rs.Base.{
  ℕ, ◌+◌, ◌≤◌, ◌<◌, ◌≡◌, ◌≢◌, refl, sym, ◌∙◌, inl, inr, ◌↔◌, true, false, Option, none, some, arith,
  Bool-cases,
}
use mathlib.Core.Option
use ignis_rs.Tracking.Vk.{Vk}
use ignis_rs.Tracking.ImageUsage
use ignis_rs.Tracking.ImageUsage.{ImageUsageContext}
use ignis_rs.Tracking.Tracker.{
  SubresourceState, Subresources, TrackedImage, ImageTransition, ResourceTracker, key, each_mip,
  all_mips, retarget, has_layout, is_no_op, image_barrier, transition_image,
}
use ignis_rs.Tracking.Tracker.Loops.{each_mip_lem, all_mips-true, true-all_mips}
use ignis_rs.Tracking.Tracker.States.{Complete, Tracked, Moved, Leads}

has_layout-some :
    (layout : ℕ) (o : Option SubresourceState)
    → has_layout layout o ≡ true
    → (s : SubresourceState) × (o ≡ some s) × (s.layout ≡ layout)
unfolding has_layout
has_layout-some layout none h = cc
has_layout-some layout (some s) h = (s, refl, ground (arith, h))

module _ (vk : Vk) (t : ResourceTracker) (image : ℕ) (usage : ImageUsageContext)
    (meta : TrackedImage) (full : Complete t) (here : Tracked t image meta) where
  abbrev target : ℕ × ℕ × ℕ
  target = ImageUsage.resolve vk usage

  first_state : (s : SubresourceState) × (t.subresources (key image 0 0) ≡ some s)
  first_state = full image meta here.found 0 0 here.has_mips here.has_layers

  abbrev moved : Subresources
  moved =
      each_mip (Option.map (retarget target)) image meta.mip_levels meta.array_layers t.subresources

  moved-at :
      (mip layer : ℕ)
      → mip < meta.mip_levels
      → layer < meta.array_layers
      → (s : SubresourceState) → t.subresources (key image mip layer) ≡ some s
      → moved (key image mip layer) ≡ some (retarget target s)
  moved-at mip layer l l' s e =
      each_mip_lem (Option.map (retarget target)) image meta.mip_levels meta.array_layers
        t.subresources (key image mip layer)
      ∙ rw (e) (ground (arith, l, l'))

  abbrev whole_barrier : SubresourceState → ImageTransition
  whole_barrier first = image_barrier image first target (record {
    aspect_mask = meta.aspect;
    base_mip_level = 0;
    level_count = meta.mip_levels;
    base_array_layer = 0;
    layer_count = meta.array_layers;
  })

  idle-transition_image :
      (s : SubresourceState)
      → t.subresources (key image 0 0) ≡ some s
      → is_no_op t.subresources image meta s target ≡ true
      → transition_image vk t image usage ≡ (none, t)
  unfolding transition_image
  idle-transition_image s e idle = rw (transition_image, here.found, e, idle) refl

  busy-transition_image :
      (s : SubresourceState)
      → t.subresources (key image 0 0) ≡ some s
      → is_no_op t.subresources image meta s target ≡ false
      → transition_image vk t image usage
        ≡ (some (whole_barrier s), record t { subresources = moved })
  unfolding transition_image
  busy-transition_image s e busy = rw (transition_image, here.found, e, busy) refl

  -- If `transition_image` gives no barrier, every subresource of the image has the layout of the
  -- use already, and keeps its state. If it gives one, the barrier is on all mip levels and layers
  -- of the image, and every subresource gets the layout, the access and the stage of the use and
  -- keeps its queue family. No other subresource changes, and no image or buffer.
  pub transition_image_lem : Moved t image meta target (transition_image vk t image usage)
  unfolding is_no_op retarget image_barrier
  transition_image_lem =
      let (s, e) = first_state in
      elim (Bool-cases (is_no_op t.subresources image meta s target)) [
        | inl idle ↦ rw (idle-transition_image s e idle) (
          λ mip layer l l'.
              let (old, found, same) =
                has_layout-some target.0 (t.subresources (key image mip layer)) (
                  all_mips-true (λ k. has_layout target.0 (t.subresources k)) image meta.mip_levels
                    meta.array_layers (ground (arith, idle)) mip layer l l') in
              (old, found, (found, same)),
          tt,
          λ k out. refl,
          refl,
          refl,
        )
        | inr busy ↦ rw (busy-transition_image s e busy) (
          λ mip layer l l'.
              let (old, found) = full image meta here.found mip layer l l' in
              (old, found, moved-at mip layer l l' old found),
          (refl, refl),
          λ k out.
              each_mip_lem (Option.map (retarget target)) image meta.mip_levels meta.array_layers
                t.subresources k
              ∙ ground (arith, out),
          refl,
          refl,
        )
      ]

  -- A second transition to the same use gives no barrier and changes nothing.
  pub transition_image-transition_image :
      let t' = (transition_image vk t image usage).1 in
      transition_image vk t' image usage ≡ (none, t')
  unfolding transition_image
  transition_image-transition_image =
      let (s, e) = first_state in
      elim (Bool-cases (is_no_op t.subresources image meta s target)) [
        | inl idle ↦ rw (idle-transition_image s e idle) (idle-transition_image s e idle)
        | inr busy ↦ rw (busy-transition_image s e busy) (
            rw
              (
                transition_image,
                here.found,
                moved-at 0 0 here.has_mips here.has_layers s e,
                no_op s,
              )
              refl)
      ]
    where
      settled :
          all_mips (λ k. has_layout target.0 (moved k)) image meta.mip_levels meta.array_layers
          ≡ true
      settled =
          true-all_mips (λ k. has_layout target.0 (moved k)) image meta.mip_levels meta.array_layers
            λ mip layer l l'.
              let (old, found) = full image meta here.found mip layer l l' in
              rw (moved-at mip layer l l' old found) (unfold has_layout retarget in ground arith)

      no_op : (s : SubresourceState) → is_no_op moved image meta (retarget target s) target ≡ true
      no_op s = unfold is_no_op retarget in ground (arith, settled)

  -- If all subresources are in one state, a barrier is given exactly if the use asks for another
  -- state, and it is right for each of them: it leads from the state they are in.
  pub transition_image-uniform :
      (s : SubresourceState)
      → ((mip layer : ℕ)
          → mip < meta.mip_levels
          → layer < meta.array_layers
          → t.subresources (key image mip layer) ≡ some s)
      → let barrier = (transition_image vk t image usage).0 in
        ((barrier ≡ none) ↔ ((s.layout ≡ target.0) × (s.access ≡ target.1) × (s.stage ≡ target.2)))
        × Leads s target barrier
  unfolding is_no_op image_barrier has_layout
  transition_image-uniform s uniform =
      let e = uniform 0 0 here.has_mips here.has_layers in
      elim (Bool-cases (is_no_op t.subresources image meta s target)) [
        | inl idle ↦ rw (idle-transition_image s e idle) (
          (λ n. (ground (arith, idle), ground (arith, idle), ground (arith, idle)), λ n. refl),
          tt,
        )
        | inr busy ↦ rw (busy-transition_image s e busy) (
          (λ n. cc, λ n. absurd (ground (arith, busy, n, alike n.0))),
          (refl, refl, refl, refl, refl, refl, refl, refl),
        )
      ]
    where
      alike :
          s.layout ≡ target.0
          → all_mips
              (λ k. has_layout target.0 (t.subresources k))
              image
              meta.mip_levels
              meta.array_layers
            ≡ true
      alike same =
          true-all_mips (λ k. has_layout target.0 (t.subresources k)) image meta.mip_levels
            meta.array_layers
            λ mip layer l l'.
              rw (uniform mip layer l l') (unfold has_layout in ground (arith, same))

  -- A barrier for the whole image names the layout of the subresource at mip level 0 and layer 0
  -- as the old one of all: it is wrong for every subresource that has another layout.
  pub transition_image-mixed :
      (s other : SubresourceState) (mip layer : ℕ)
      → t.subresources (key image 0 0) ≡ some s
      → mip < meta.mip_levels
      → layer < meta.array_layers
      → t.subresources (key image mip layer) ≡ some other
      → other.layout ≢ s.layout
      → other.layout ≢ target.0
      → (barrier : ImageTransition) × ((transition_image vk t image usage).0 ≡ some barrier)
        × (barrier.subresource_range.base_mip_level ≤ mip)
        × (mip < barrier.subresource_range.base_mip_level + barrier.subresource_range.level_count)
        × (layer < barrier.subresource_range.layer_count)
        × (barrier.old_layout ≢ other.layout)
  unfolding is_no_op image_barrier has_layout
  transition_image-mixed s other mip layer e l l' found ne not_yet =
      elim (Bool-cases (is_no_op t.subresources image meta s target)) [
        | inl idle ↦ absurd (
            not_yet (
              ground (
                arith,
                found,
                all_mips-true (λ k. has_layout target.0 (t.subresources k)) image meta.mip_levels
                    meta.array_layers (ground (arith, idle)) mip layer l l',
              )))
        | inr busy ↦
            rw (busy-transition_image s e busy)
              (whole_barrier s, refl, omega arith, omega (arith, l), l', λ same. ne (sym same))
      ]
