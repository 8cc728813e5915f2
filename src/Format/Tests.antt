-- ===== src/Format/Tests.antt =====
-- format.rs: the tests of the file, and the theorems at inputs.
use ignis_rs.Base.{ℕ, ◌+◌, ◌-◌, ◌*◌, ◌^◌, ◌≤◌, ◌<◌, max, ◌≡◌, refl, ◌↔◌, arith, some}
use ignis_rs.Format.{
  r8g8b8a8_unorm, r32g32b32a32_sfloat, d32_sfloat, r16_sfloat, format_byte_size, dispatch_size,
  leading_zeros, mip_levels_for_size,
}
use ignis_rs.Format.Sizes.{mip_levels_for_size_lem, dispatch_size_iff}

byte_sizes :
    (format_byte_size r8g8b8a8_unorm ≡ some 4)
    × (format_byte_size r32g32b32a32_sfloat ≡ some 16)
    × (format_byte_size d32_sfloat ≡ some 4)
    × (format_byte_size r16_sfloat ≡ some 2)
unfolding format_byte_size
byte_sizes = (refl, refl, refl, refl)

dispatch_sizes :
    (dispatch_size 1000 64 ≡ some 16)
    × (dispatch_size 64 64 ≡ some 1)
    × (dispatch_size 65 64 ≡ some 2)
    × (dispatch_size 0 64 ≡ some 0)
unfolding dispatch_size
dispatch_sizes = (refl, refl, refl, refl)

-- The sum of the largest number of work items and any local size of more than one wraps.
dispatch_wraps : dispatch_size 4294967295 64 ≡ some 0
unfolding dispatch_size
dispatch_wraps = refl

mip_levels :
    (mip_levels_for_size 256 256 ≡ 9)
    × (mip_levels_for_size 1 1 ≡ 1)
    × (mip_levels_for_size 1024 512 ≡ 11)
unfolding mip_levels_for_size leading_zeros
mip_levels = (refl, refl, refl)

mip_levels_for_size_lem_example :
    let levels = mip_levels_for_size 1920 1080 in
    (0 < levels) × (levels ≤ 32) × (2 ^ (levels - 1) ≤ max 1920 1080) × (max 1920 1080 < 2 ^ levels)
mip_levels_for_size_lem_example = mip_levels_for_size_lem 1920 1080 (omega arith) (omega arith)

dispatch_size_iff_example :
    (groups : ℕ) × (dispatch_size 4294967295 64 ≡ some groups)
    × ((4294967295 ≤ groups * 64) ↔ (4294967295 + 64 - 1 < 2 ^ 32))
    × (groups * 64 < 4294967295 + 64)
dispatch_size_iff_example =
    dispatch_size_iff 4294967295 64 (omega arith) (omega arith) (omega arith)
