-- ===== src/Tracking/Tracker/Mips.antt =====
-- tracking/tracker.rs: `transition_mip`.
use ignis_rs.Base.{
  ℕ, ◌<◌, ◌≡◌, ◌≢◌, refl, ◌∙◌, inl, inr, ◌↔◌, false, ◌&&◌, none, some, arith, ◌==◌, ltb, Bool-cases,
}
use mathlib.Core.Option
use ignis_rs.Tracking.Vk.{Vk}
use ignis_rs.Tracking.ImageUsage
use ignis_rs.Tracking.ImageUsage.{ImageUsageContext}
use ignis_rs.Tracking.Tracker.{
  SubresourceKey, SubresourceState, TrackedImage, ResourceTracker, key, retarget, image_barrier,
  transition_mip,
}
use ignis_rs.Tracking.Tracker.Loops.{each_layer_lem}
use ignis_rs.Tracking.Tracker.States.{Leads, Spans}

-- What a transition of one mip level of a tracked image gives. A barrier is given exactly if the
-- layout of layer 0 changes, whatever the access masks are; it leads from the state of layer 0.
-- and it is on all layers of this level and on no other level. Then every layer of the level that
-- has a state gets the layout, the access and the stage of the use, and keeps its queue family. No
-- other subresource changes, and no image or buffer; without a barrier nothing does.
pub transition_mip_lem :
    (vk : Vk) (t : ResourceTracker) (image mip : ℕ) (usage : ImageUsageContext)
    (meta : TrackedImage) (s : SubresourceState)
    → t.images image ≡ some meta
    → t.subresources (key image mip 0) ≡ some s
    → let target = ImageUsage.resolve vk usage in
      let (barrier, t') = transition_mip vk t image mip usage in
      ((barrier ≡ none) ↔ (s.layout ≡ target.0))
      × Leads s target barrier
      × Spans image
          (record {
            aspect_mask = meta.aspect;
            base_mip_level = mip;
            level_count = 1;
            base_array_layer = 0;
            layer_count = meta.array_layers;
          })
          barrier
      × (barrier ≡ none → t' ≡ t)
      × (barrier ≢ none
          → (layer : ℕ) → layer < meta.array_layers
          → t'.subresources (key image mip layer)
            ≡ Option.map
                (λ (old : SubresourceState). record {
                  layout = target.0;
                  access = target.1;
                  stage = target.2;
                  queue_family = old.queue_family;
                })
                (t.subresources (key image mip layer)))
      × ((k : SubresourceKey)
          → (k.image == image && k.mip_level == mip && ltb k.array_layer meta.array_layers) ≡ false
          → t'.subresources k ≡ t.subresources k)
      × (t'.images ≡ t.images)
      × (t'.buffers ≡ t.buffers)
unfolding transition_mip image_barrier retarget
transition_mip_lem vk t image mip usage meta s found e =
    elim (Bool-cases (s.layout == (ImageUsage.resolve vk usage).0)) [
      | inl same ↦
          rw (transition_mip, found, e, same)
            (
              (λ n. ground (arith, same), λ n. refl),
              tt,
              tt,
              λ n. refl,
              λ ne. absurd (ne refl),
              λ k out. refl,
              refl,
              refl,
            )
      | inr differs ↦
          rw (transition_mip, found, e, differs)
            (
              (λ n. cc, λ n. absurd (ground (arith, differs, n))),
              (refl, refl, refl, refl, refl, refl, refl, refl),
              (refl, refl),
              λ n. cc,
              λ ne layer l.
                  each_layer_lem (Option.map (retarget (ImageUsage.resolve vk usage))) image mip
                    meta.array_layers t.subresources (key image mip layer)
                  ∙ ground (arith, l),
              λ k out.
                  each_layer_lem (Option.map (retarget (ImageUsage.resolve vk usage))) image mip
                    meta.array_layers t.subresources k
                  ∙ ground (arith, out),
              refl,
              refl,
            )
    ]

-- The layout of layer 0 after a transition of its level.
pub transition_mip-layout :
    (vk : Vk) (t : ResourceTracker) (image mip : ℕ) (usage : ImageUsageContext)
    (meta : TrackedImage) (s : SubresourceState)
    → 0 < meta.array_layers
    → t.images image ≡ some meta
    → t.subresources (key image mip 0) ≡ some s
    → let t' = (transition_mip vk t image mip usage).1 in
      (s' : SubresourceState) × (t'.subresources (key image mip 0) ≡ some s')
      × (s'.layout ≡ (ImageUsage.resolve vk usage).0)
      × ((k : SubresourceKey) → k.mip_level ≢ mip → t'.subresources k ≡ t.subresources k)
      × (t'.images ≡ t.images)
unfolding transition_mip retarget
transition_mip-layout vk t image mip usage meta s has_layers found e =
    let target = ImageUsage.resolve vk usage in
    elim (Bool-cases (s.layout == target.0)) [
      | inl same ↦
          rw (transition_mip, found, e, same) (s, e, ground (arith, same), λ k ne. refl, refl)
      | inr differs ↦
          rw (transition_mip, found, e, differs)
            (
              retarget target s,
              each_layer_lem (Option.map (retarget target)) image mip meta.array_layers
                    t.subresources (key image mip 0)
                  ∙ ground (arith, has_layers, e),
              refl,
              λ k ne.
                  each_layer_lem (Option.map (retarget target)) image mip meta.array_layers
                    t.subresources k
                  ∙ ground (arith, ne),
              refl,
            )
    ]
