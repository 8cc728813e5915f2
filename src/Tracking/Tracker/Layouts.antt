-- ===== src/Tracking/Tracker/Layouts.antt =====
-- tracking/tracker.rs: the layouts that the tracker knows, image by image.
use ignis_rs.Base.{
  ℕ, ◌<◌, ◌≡◌, refl, ap, ◌∙◌, inl, inr, false, ◌&&◌, Option, none, some, arith, ◌==◌, if◌then◌else◌,
  Bool-cases, Option-cases,
}
use mathlib.Core.Option
use ignis_rs.Tracking.Vk.{Vk}
use ignis_rs.Tracking.ImageUsage
use ignis_rs.Tracking.ImageUsage.{ImageUsageContext}
use ignis_rs.Tracking.BufferUsage.{BufferUsageContext}
use ignis_rs.Tracking.BufferUsage
use ignis_rs.Tracking.Tracker.{
  SubresourceState, TrackedImage, ResourceTracker, ImageTransition, key, put, retarget, is_no_op,
  image_barrier, track_image, transition_image, track_buffer, transition_buffer,
}
use ignis_rs.Tracking.Tracker.Loops.{each_mip_lem}

-- What an image is, by its handle, and its layout, the same in all subresources.
module _ (metas : ℕ → TrackedImage) where
  abbrev In : ResourceTracker → ℕ → ℕ → ℕ → ℕ → Type 0
  In t layout image mip layer =
      (s : SubresourceState) × (t.subresources (key image mip layer) ≡ some s) × (s.layout ≡ layout)

  -- The tracker has the image, and all its subresources in its layout.
  pub record Known (t : ResourceTracker) (layouts : ℕ → ℕ) (image : ℕ) : Type 0 where
    pub found : t.images image ≡ some (metas image)
    pub states :
        (mip layer : ℕ)
        → mip < (metas image).mip_levels
        → layer < (metas image).array_layers
        → (s : SubresourceState) × (t.subresources (key image mip layer) ≡ some s)
          × (s.layout ≡ layouts image)

  -- What a transition of an image to a layout gives.
  abbrev pub Barrier : (ℕ → ℕ) → ℕ → ℕ → Option ImageTransition → Type 0
  Barrier layouts image layout none = layouts image ≡ layout
  Barrier layouts image layout (some b) =
      (b.image ≡ image)
      × (b.old_layout ≡ layouts image)
      × (b.new_layout ≡ layout)
      × (b.subresource_range ≡ record {
        aspect_mask = (metas image).aspect;
        base_mip_level = 0;
        level_count = (metas image).mip_levels;
        base_array_layer = 0;
        layer_count = (metas image).array_layers;
      })

  module _ (vk : Vk) (t : ResourceTracker) (layouts : ℕ → ℕ) where
    -- An image is known once it is tracked, and other images remain known.
    pub track_image-Known :
        (image other : ℕ)
        → ((other == image) ≡ false → Known t layouts other)
        → Known
            (track_image vk t image
              (layouts image)
              (metas image).mip_levels
              (metas image).array_layers
              (metas image).aspect)
            layouts
            other
    unfolding track_image put
    track_image-Known image other was = elim (Bool-cases (other == image)) [
      | inl same ↦
          let e : image ≡ other = ground (arith, same) in
          record {
            found = rw same (ap (λ (i : ℕ). some (metas i)) e);
            states = λ mip layer l l'. (
              fresh,
              each_mip_lem (λ old. some fresh) image (metas image).mip_levels
                    (metas image).array_layers t.subresources (key other mip layer)
                  ∙ ground (
                    arith,
                    same,
                    l,
                    l',
                    ap (λ (i : ℕ). (metas i).mip_levels) e,
                    ap (λ (i : ℕ). (metas i).array_layers) e,
                  ),
              ap layouts e,
            );
          }
      | inr apart ↦
          let known = was apart in
          record {
            found = rw apart known.found;
            states = λ mip layer l l'.
                let (s, e, same) = known.states mip layer l l' in
                (
                  s,
                  each_mip_lem (λ old. some fresh) image (metas image).mip_levels
                        (metas image).array_layers t.subresources (key other mip layer)
                      ∙ ground (arith, apart, e),
                  same,
                );
          }
    ]
      where
        fresh : SubresourceState
        fresh = record {
          layout = layouts image;
          access = 0;
          stage = vk.stage.top_of_pipe;
          queue_family = vk.queue_family_ignored;
        }

    pub track_buffer-Known :
        (buffer other : ℕ) → Known t layouts other → Known (track_buffer vk t buffer) layouts other
    unfolding track_buffer
    track_buffer-Known buffer other known = record { found = known.found; states = known.states }

    pub transition_buffer-Known :
        (buffer other : ℕ) (usage : BufferUsageContext)
        → Known t layouts other
        → Known (transition_buffer vk t buffer usage).1 layouts other
    unfolding transition_buffer
    transition_buffer-Known buffer other usage known = elim (Option-cases (t.buffers buffer)) [
      | inl missing ↦ rw (transition_buffer, missing) known
      | inr (s, e) ↦
          elim (Bool-cases (
            s.access == (BufferUsage.resolve vk usage).0
            && s.stage == (BufferUsage.resolve vk usage).1)) [
              | inl idle ↦ rw (transition_buffer, e, idle) known
              | inr busy ↦
                  rw (transition_buffer, e, busy)
                    (record { found = known.found; states = known.states })
            ]
    ]

    module _ (image : ℕ) (usage : ImageUsageContext) (known : Known t layouts image)
        (has_mips : 0 < (metas image).mip_levels)
        (has_layers : 0 < (metas image).array_layers) where
      abbrev target : ℕ × ℕ × ℕ
      target = ImageUsage.resolve vk usage

      pub transition_image-Barrier :
          Barrier layouts image target.0 (transition_image vk t image usage).0
      unfolding transition_image is_no_op image_barrier
      transition_image-Barrier =
          let (s, e, l) = known.states 0 0 has_mips has_layers in
          elim (Bool-cases (is_no_op t.subresources image (metas image) s target)) [
            | inl idle ↦ rw (transition_image, known.found, e, idle) (ground (arith, idle, l))
            | inr busy ↦ rw (transition_image, known.found, e, busy) (refl, l, refl, refl)
          ]

      pub transition_image-Known :
          (other : ℕ)
          → Known t layouts other
          → Known
              (transition_image vk t image usage).1
              (λ k. if k == image then target.0 else layouts k)
              other
      unfolding transition_image is_no_op retarget
      transition_image-Known other known' =
          let (s, e, l) = known.states 0 0 has_mips has_layers in
          elim (Bool-cases (is_no_op t.subresources image (metas image) s target)) [
            | inl idle ↦
                rw (transition_image, known.found, e, idle)
                  (record {
                    found = known'.found;
                    states = λ mip layer m m'.
                        let (s', e', l') = known'.states mip layer m m' in
                        (
                          s',
                          e',
                          elim (Bool-cases (other == image)) [
                            | inl same ↦
                                let at : image ≡ other = ground (arith, same) in
                                ground (arith, same, l', ap layouts at, l, idle)
                            | inr apart ↦ ground (arith, apart, l')
                          ],
                        );
                  })
            | inr busy ↦
                rw (transition_image, known.found, e, busy)
                  (record {
                    found = known'.found;
                    states = λ mip layer m m'.
                        let (s', e', l') = known'.states mip layer m m' in
                        let here =
                          each_mip_lem (Option.map (retarget target)) image (metas image).mip_levels
                            (metas image).array_layers t.subresources (key other mip layer) in
                        elim (Bool-cases (other == image)) [
                          | inl same ↦
                              let at : image ≡ other = ground (arith, same) in
                              (
                                retarget target s',
                                here
                                    ∙ ground (
                                      arith,
                                      same,
                                      e',
                                      m,
                                      m',
                                      ap (λ (i : ℕ). (metas i).mip_levels) at,
                                      ap (λ (i : ℕ). (metas i).array_layers) at,
                                    ),
                                ground (arith, same),
                              )
                          | inr apart ↦
                              (s', here ∙ ground (arith, apart, e'), ground (arith, apart, l'))
                        ];
                  })
          ]
