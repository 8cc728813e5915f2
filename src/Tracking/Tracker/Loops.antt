-- ===== src/Tracking/Tracker/Loops.antt =====
-- tracking/tracker.rs: what the loops over the subresources of an image do.
use ignis_rs.Base.{
  ℕ, zero, suc, ◌<◌, ◌≡◌, refl, inl, inr, Bool, true, ◌&&◌, Option, arith, ltb, ◌==◌, if◌then◌else◌,
  le_cases,
}
use ignis_rs.Tracking.Tracker.{
  SubresourceKey, SubresourceState, Subresources, key, same_key, change_at, each_layer, each_mip,
  all_layers, all_mips,
}

-- Whether a key belongs to an image of so many mip levels and layers.
abbrev pub covered : ℕ → ℕ → ℕ → SubresourceKey → Bool
covered image mips layers k = k.image == image && ltb k.mip_level mips && ltb k.array_layer layers

module _ (f : Option SubresourceState → Option SubresourceState) (image : ℕ) where
  pub each_layer_lem :
      (mip layers : ℕ) (m : Subresources) (k : SubresourceKey)
      → each_layer f image mip layers m k ≡ (
          if k.image == image && k.mip_level == mip && ltb k.array_layer layers
          then f (m k)
          else m k)
  unfolding each_layer change_at same_key
  each_layer_lem mip zero m k = ground arith
  each_layer_lem mip (suc layer) m k = ground (arith, each_layer_lem mip layer m k)

  pub each_mip_lem :
      (mips layers : ℕ) (m : Subresources) (k : SubresourceKey)
      → each_mip f image mips layers m k ≡ (if covered image mips layers k then f (m k) else m k)
  unfolding each_mip
  each_mip_lem zero layers m k = ground arith
  each_mip_lem (suc mip) layers m k = ground (
    arith,
    each_layer_lem mip layers (each_mip f image mip layers m) k,
    each_mip_lem mip layers m k,
  )

module _ (p : SubresourceKey → Bool) (image : ℕ) where
  pub all_layers-true :
      (mip layers : ℕ)
      → all_layers p image mip layers ≡ true
      → (layer : ℕ) → layer < layers
      → p (key image mip layer) ≡ true
  unfolding all_layers
  all_layers-true mip zero h layer l = absurd (omega (arith, l))
  all_layers-true mip (suc last) h layer l = elim (le_cases last layer) [
    | inl at ↦ let here : layer ≡ last = omega (arith, at, l) in rw here (ground (arith, h))
    | inr before ↦ all_layers-true mip last (ground (arith, h)) layer before
  ]

  pub all_mips-true :
      (mips layers : ℕ)
      → all_mips p image mips layers ≡ true
      → (mip layer : ℕ) → mip < mips
      → layer < layers
      → p (key image mip layer) ≡ true
  unfolding all_mips
  all_mips-true zero layers h mip layer l l' = absurd (omega (arith, l))
  all_mips-true (suc last) layers h mip layer l l' = elim (le_cases last mip) [
    | inl at ↦
        let here : mip ≡ last = omega (arith, at, l) in
        rw here (all_layers-true last layers (ground (arith, h)) layer l')
    | inr before ↦ all_mips-true last layers (ground (arith, h)) mip layer before l'
  ]

  pub true-all_layers :
      (mip layers : ℕ)
      → ((layer : ℕ) → layer < layers → p (key image mip layer) ≡ true)
      → all_layers p image mip layers ≡ true
  unfolding all_layers
  true-all_layers mip zero h = refl
  true-all_layers mip (suc last) h = ground (
    arith,
    true-all_layers mip last (λ layer l. h layer (omega (arith, l))),
    h last (omega arith),
  )

  pub true-all_mips :
      (mips layers : ℕ)
      → ((mip layer : ℕ) → mip < mips → layer < layers → p (key image mip layer) ≡ true)
      → all_mips p image mips layers ≡ true
  unfolding all_mips
  true-all_mips zero layers h = refl
  true-all_mips (suc last) layers h = ground (
    arith,
    true-all_mips last layers (λ mip layer l l'. h mip layer (omega (arith, l)) l'),
    true-all_layers last layers (λ layer l'. h last layer (omega arith) l'),
  )
