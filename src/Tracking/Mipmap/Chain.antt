-- ===== src/Tracking/Mipmap/Chain.antt =====
-- tracking/mipmap.rs: the layouts that the tracker has after `generate_mipmaps`.
use ignis_rs.Base.{
  ℕ, zero, suc, ◌+◌, ◌-◌, ◌≤◌, ◌<◌, ◌≡◌, ◌≢◌, refl, ap, ◌∙◌, subst, inl, inr, Option, some, arith,
  le_cases,
}
use ignis_rs.Tracking.Vk.{Vk}
use ignis_rs.Tracking.ImageUsage
use ignis_rs.Tracking.ImageUsage.{ImageUsageContext, transfer_src, transfer_dst}
use ignis_rs.Tracking.Tracker.{
  SubresourceKey, SubresourceState, TrackedImage, ResourceTracker, key, transition_mip,
}
use ignis_rs.Tracking.Tracker.States.{Complete}
use ignis_rs.Tracking.Tracker.Mips.{transition_mip-layout}
use ignis_rs.Tracking.Mipmap.{generate_from, generate_mipmaps}

-- Layer 0 of a level is in a layout.
abbrev pub In : ResourceTracker → ℕ → ℕ → ℕ → Type 0
In t image mip layout =
    (s : SubresourceState) × (t.subresources (key image mip 0) ≡ some s) × (s.layout ≡ layout)

module _ (vk : Vk) (image filter : ℕ) (meta : TrackedImage)
    (has_layers : 0 < meta.array_layers) where
  generate_from_lem :
      (left mip width height : ℕ) (t : ResourceTracker)
      → t.images image ≡ some meta
      → ((m : ℕ)
          → mip ≤ m
          → m < mip + left
          → (s : SubresourceState) × (t.subresources (key image m 0) ≡ some s))
      → let t' = (generate_from vk image filter left mip width height t).1 in
        ((m : ℕ) → mip ≤ m → m < mip + left → In t' image m (ImageUsage.resolve vk transfer_src).0)
        × ((k : SubresourceKey) → k.mip_level < mip → t'.subresources k ≡ t.subresources k)
  unfolding generate_from
  generate_from_lem zero mip width height t found states =
      (λ m l l'. absurd (omega (arith, l, l')), λ k l. refl)
  generate_from_lem (suc left) mip width height t found states =
      let (s, e) = states mip (omega arith) (omega arith) in
      let step = transition_mip-layout vk t image mip transfer_dst meta s has_layers found e in
      let (s1, e1, in_dst, others1, kept1) = step in
      let t1 = (transition_mip vk t image mip transfer_dst).1 in
      let found1 : t1.images image ≡ some meta =
        ap (λ (f : ℕ → Option TrackedImage). f image) kept1 ∙ found in
      let (s2, e2, in_src, others2, kept2) =
        transition_mip-layout vk t1 image mip transfer_src meta s1 has_layers found1 e1 in
      let t2 = (transition_mip vk t1 image mip transfer_src).1 in
      let apart : (k : SubresourceKey) → k.mip_level ≢ mip → t2.subresources k ≡ t.subresources k =
        λ k ne. others2 k ne ∙ others1 k ne in
      let (chain, below) =
        generate_from_lem left (mip + 1) _ _ t2
          (ap (λ (f : ℕ → Option TrackedImage). f image) kept2 ∙ found1)
          λ m l l'.
            let (s', e') = states m (omega (arith, l)) (omega (arith, l')) in
            (s', apart (key image m 0) (λ e. omega (arith, e, l)) ∙ e') in
      (
        λ m l l'. elim (le_cases (mip + 1) m) [
          | inl later ↦ chain m later (omega (arith, l'))
          | inr now ↦
              let here : mip ≡ m = omega (arith, l, now) in
              subst
                (λ (x : ℕ).
                  In (generate_from vk image filter (suc left) mip width height t).1 image x
                    (ImageUsage.resolve vk transfer_src).0)
                here (s2, below (key image mip 0) (omega arith) ∙ e2, in_src)
        ],
        λ k l. below k (omega (arith, l)) ∙ apart k (λ e. omega (arith, e, l)),
      )

-- After `generate_mipmaps` with at most as many levels as a tracked image has, in a tracker in which
-- every subresource of a tracked image has a state, layer 0 of every level from 1 on is in the layout
-- of a transfer source, and the states of level 0 are as they were.
pub generate_mipmaps_lem :
    (vk : Vk) (t : ResourceTracker) (image width height mip_levels filter : ℕ) (meta : TrackedImage)
    → Complete t
    → t.images image ≡ some meta
    → 0 < meta.array_layers
    → mip_levels ≤ meta.mip_levels
    → let t' = (generate_mipmaps vk t image width height mip_levels filter).1 in
      ((mip : ℕ)
        → 1 ≤ mip
        → mip < mip_levels
        → In t' image mip (ImageUsage.resolve vk transfer_src).0)
      × ((layer : ℕ) → t'.subresources (key image 0 layer) ≡ t.subresources (key image 0 layer))
unfolding generate_mipmaps
generate_mipmaps_lem vk t image width height mip_levels filter meta full found has_layers few =
    let (chain, below) =
      generate_from_lem vk image filter meta has_layers (mip_levels - 1) 1 width height t found
        λ m l l'. full image meta found m 0 (omega (arith, l', few, l)) has_layers in
    (
      λ mip l l'. chain mip l (omega (arith, l, l')),
      λ layer. below (key image 0 layer) (omega arith),
    )
