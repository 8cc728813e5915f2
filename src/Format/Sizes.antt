-- ===== src/Format/Sizes.antt =====
-- format.rs: what the lookups and the computed sizes mean.
use native.Mathlib.Nat.{mod-add-div', mod-lt}
use ignis_rs.Base.{
  ℕ, zero, suc, ◌+◌, ◌-◌, ◌*◌, ◌/◌, ◌%◌, ◌^◌, ◌≤◌, ◌<◌, max, ◌≡◌, refl, ◌↔◌, inl, inr, false, some,
  arith, bit_or, ◌==◌, if◌then◌else◌, le_cases,
}
use ignis_rs.Format.{
  Format, AspectFlags, format_aspect_mask, is_depth_format, is_stencil_format, dispatch_size,
  leading_zeros, mip_levels_for_size,
}

-- Depth and stencil stand in the aspects of a format exactly if it has them, and color exactly if it
-- has neither.
pub format_aspect_mask_lem :
    (aspect : AspectFlags) (format : Format)
    → format_aspect_mask aspect format ≡ (
        if is_depth_format format
        then (if is_stencil_format format then bit_or aspect.depth aspect.stencil else aspect.depth)
        else (if is_stencil_format format then aspect.stencil else aspect.color))
unfolding format_aspect_mask is_depth_format is_stencil_format
format_aspect_mask_lem aspect Format.s8_uint = refl
format_aspect_mask_lem aspect _ = refl

leading_zeros_lem :
    (w x : ℕ)
    → 0 < x
    → x < 2 ^ w
    → (d : ℕ) × (leading_zeros w x + suc d ≡ w) × (2 ^ d ≤ x) × (x < 2 ^ suc d)
unfolding leading_zeros
leading_zeros_lem zero x pos low = absurd (omega (arith, pos, low))
leading_zeros_lem (suc w) x pos low = elim (le_cases (2 ^ w) x) [
  | inl top ↦ (w, ground (arith, top), top, low)
  | inr below ↦
      let (d, e, least, most) = leading_zeros_lem w x pos below in
      (d, ground (arith, e, below), least, most)
]

-- For a size on 32 bits with a pixel, the number of mip levels is that of the halvings down to one
-- pixel: the larger side lies between the powers of two before and at that number.
pub mip_levels_for_size_lem :
    (width height : ℕ)
    → 0 < max width height
    → max width height < 2 ^ 32
    → let levels = mip_levels_for_size width height in
      (0 < levels)
      × (levels ≤ 32)
      × (2 ^ (levels - 1) ≤ max width height)
      × (max width height < 2 ^ levels)
unfolding mip_levels_for_size
mip_levels_for_size_lem width height pos low =
    let (d, e, least, most) = leading_zeros_lem 32 (max width height) pos low in
    let some_pixel : (max width height == 0) ≡ false = ground (arith, pos) in
    let levels : 32 - leading_zeros 32 (max width height) ≡ suc d = omega (arith, e) in
    let before : suc d - 1 ≡ d = omega arith in
    rw (mip_levels_for_size, some_pixel, levels, before)
      (omega arith, omega (arith, e), least, most)

-- Of sizes on 32 bits, the local one not zero, the number of groups covers the work exactly if the
-- sum that the code forms first, less one, does not overflow, and then one group less would not.
pub dispatch_size_iff :
    (work_items local_size : ℕ)
    → work_items < 2 ^ 32
    → 0 < local_size
    → local_size < 2 ^ 32
    → (groups : ℕ) × (dispatch_size work_items local_size ≡ some groups)
      × ((work_items ≤ groups * local_size) ↔ (work_items + local_size - 1 < 2 ^ 32))
      × (groups * local_size < work_items + local_size)
unfolding dispatch_size
dispatch_size_iff work_items local_size low pos low' =
    let sum : ℕ = ((work_items + local_size) % 2 ^ 32 + (2 ^ 32 - 1)) % 2 ^ 32 in
    let sizable : (local_size == 0) ≡ false = ground (arith, pos) in
    let whole = mod-add-div' sum local_size in
    let part = mod-lt sum pos in
    (
      sum / local_size,
      rw (dispatch_size, sizable) refl,
      (λ h. omega (arith, h, whole, part), λ h. omega (arith, h, whole, part)),
      omega (arith, whole, part),
    )
