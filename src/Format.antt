-- ===== src/Format.antt =====
-- format.rs: lookups by format, and sizes. The constants of the Vulkan binding for formats are
-- constructors, those that the code does not name `other`; their numbers are not part of the
-- repository, so `as_raw` is a parameter. The flags of an aspect are parameters too.
pub mod Sizes
mod Tests
use ignis_rs.Base.{
  ℕ, zero, suc, ◌+◌, ◌-◌, ◌/◌, ◌%◌, ◌^◌, max, Bool, true, false, ◌&&◌, Option, none, some, bit_or,
  ltb, leb, ◌==◌, if◌then◌else◌, ◌>>=◌,
}

pub data Format : Type 0 where
  r8_unorm r8_snorm r8_uint r8_sint r8_srgb r8g8_unorm r8g8_snorm r8g8_uint r8g8_sint r16_unorm :
      Format
  r16_snorm r16_uint r16_sint r16_sfloat d16_unorm r5g6b5_unorm_pack16 a1r5g5b5_unorm_pack16 :
      Format
  r8g8b8_unorm r8g8b8_snorm r8g8b8_uint r8g8b8_sint r8g8b8_srgb b8g8r8_unorm b8g8r8_srgb : Format
  r8g8b8a8_unorm r8g8b8a8_snorm r8g8b8a8_uint r8g8b8a8_sint r8g8b8a8_srgb b8g8r8a8_unorm : Format
  b8g8r8a8_snorm b8g8r8a8_srgb a8b8g8r8_unorm_pack32 a8b8g8r8_srgb_pack32 : Format
  a2r10g10b10_unorm_pack32 a2b10g10r10_unorm_pack32 r16g16_unorm r16g16_snorm r16g16_uint : Format
  r16g16_sint r16g16_sfloat r32_uint r32_sint r32_sfloat b10g11r11_ufloat_pack32 : Format
  e5b9g9r9_ufloat_pack32 d32_sfloat d24_unorm_s8_uint x8_d24_unorm_pack32 d32_sfloat_s8_uint :
      Format
  r16g16b16_sfloat r16g16b16_uint r16g16b16a16_unorm r16g16b16a16_snorm r16g16b16a16_uint : Format
  r16g16b16a16_sint r16g16b16a16_sfloat r32g32_uint r32g32_sint r32g32_sfloat r64_sfloat : Format
  r32g32b32_uint r32g32b32_sint r32g32b32_sfloat r32g32b32a32_uint r32g32b32a32_sint : Format
  r32g32b32a32_sfloat r64g64_sfloat bc1_rgb_unorm_block bc1_rgb_srgb_block bc1_rgba_unorm_block :
      Format
  bc1_rgba_srgb_block bc4_unorm_block bc4_snorm_block etc2_r8g8b8_unorm_block : Format
  etc2_r8g8b8_srgb_block bc2_unorm_block bc2_srgb_block bc3_unorm_block bc3_srgb_block : Format
  bc5_unorm_block bc5_snorm_block bc6h_ufloat_block bc6h_sfloat_block bc7_unorm_block : Format
  bc7_srgb_block etc2_r8g8b8a8_unorm_block etc2_r8g8b8a8_srgb_block astc_4x4_unorm_block : Format
  astc_4x4_srgb_block d16_unorm_s8_uint s8_uint astc_5x4_unorm_block astc_5x4_srgb_block : Format
  astc_5x5_unorm_block astc_5x5_srgb_block astc_6x5_unorm_block astc_6x5_srgb_block : Format
  astc_6x6_unorm_block astc_6x6_srgb_block astc_8x5_unorm_block astc_8x5_srgb_block : Format
  astc_8x6_unorm_block astc_8x6_srgb_block astc_8x8_unorm_block astc_8x8_srgb_block : Format
  astc_10x5_unorm_block astc_10x5_srgb_block astc_10x6_unorm_block astc_10x6_srgb_block : Format
  astc_10x8_unorm_block astc_10x8_srgb_block astc_10x10_unorm_block astc_10x10_srgb_block : Format
  astc_12x10_unorm_block astc_12x10_srgb_block astc_12x12_unorm_block astc_12x12_srgb_block : Format
  other : (raw : ℕ) → Format

-- Bytes of a pixel, or of a block of a compressed format.
pub format_byte_size : Format → Option ℕ
format_byte_size r8_unorm = some 1
format_byte_size r8_snorm = some 1
format_byte_size r8_uint = some 1
format_byte_size r8_sint = some 1
format_byte_size r8_srgb = some 1
format_byte_size r8g8_unorm = some 2
format_byte_size r8g8_snorm = some 2
format_byte_size r8g8_uint = some 2
format_byte_size r8g8_sint = some 2
format_byte_size r16_unorm = some 2
format_byte_size r16_snorm = some 2
format_byte_size r16_uint = some 2
format_byte_size r16_sint = some 2
format_byte_size r16_sfloat = some 2
format_byte_size d16_unorm = some 2
format_byte_size r5g6b5_unorm_pack16 = some 2
format_byte_size a1r5g5b5_unorm_pack16 = some 2
format_byte_size r8g8b8_unorm = some 3
format_byte_size r8g8b8_snorm = some 3
format_byte_size r8g8b8_uint = some 3
format_byte_size r8g8b8_sint = some 3
format_byte_size r8g8b8_srgb = some 3
format_byte_size b8g8r8_unorm = some 3
format_byte_size b8g8r8_srgb = some 3
format_byte_size r8g8b8a8_unorm = some 4
format_byte_size r8g8b8a8_snorm = some 4
format_byte_size r8g8b8a8_uint = some 4
format_byte_size r8g8b8a8_sint = some 4
format_byte_size r8g8b8a8_srgb = some 4
format_byte_size b8g8r8a8_unorm = some 4
format_byte_size b8g8r8a8_snorm = some 4
format_byte_size b8g8r8a8_srgb = some 4
format_byte_size a8b8g8r8_unorm_pack32 = some 4
format_byte_size a8b8g8r8_srgb_pack32 = some 4
format_byte_size a2r10g10b10_unorm_pack32 = some 4
format_byte_size a2b10g10r10_unorm_pack32 = some 4
format_byte_size r16g16_unorm = some 4
format_byte_size r16g16_snorm = some 4
format_byte_size r16g16_uint = some 4
format_byte_size r16g16_sint = some 4
format_byte_size r16g16_sfloat = some 4
format_byte_size r32_uint = some 4
format_byte_size r32_sint = some 4
format_byte_size r32_sfloat = some 4
format_byte_size b10g11r11_ufloat_pack32 = some 4
format_byte_size e5b9g9r9_ufloat_pack32 = some 4
format_byte_size d32_sfloat = some 4
format_byte_size d24_unorm_s8_uint = some 4
format_byte_size x8_d24_unorm_pack32 = some 4
format_byte_size d32_sfloat_s8_uint = some 5
format_byte_size r16g16b16_sfloat = some 6
format_byte_size r16g16b16_uint = some 6
format_byte_size r16g16b16a16_unorm = some 8
format_byte_size r16g16b16a16_snorm = some 8
format_byte_size r16g16b16a16_uint = some 8
format_byte_size r16g16b16a16_sint = some 8
format_byte_size r16g16b16a16_sfloat = some 8
format_byte_size r32g32_uint = some 8
format_byte_size r32g32_sint = some 8
format_byte_size r32g32_sfloat = some 8
format_byte_size r64_sfloat = some 8
format_byte_size r32g32b32_uint = some 12
format_byte_size r32g32b32_sint = some 12
format_byte_size r32g32b32_sfloat = some 12
format_byte_size r32g32b32a32_uint = some 16
format_byte_size r32g32b32a32_sint = some 16
format_byte_size r32g32b32a32_sfloat = some 16
format_byte_size r64g64_sfloat = some 16
format_byte_size bc1_rgb_unorm_block = some 8
format_byte_size bc1_rgb_srgb_block = some 8
format_byte_size bc1_rgba_unorm_block = some 8
format_byte_size bc1_rgba_srgb_block = some 8
format_byte_size bc4_unorm_block = some 8
format_byte_size bc4_snorm_block = some 8
format_byte_size etc2_r8g8b8_unorm_block = some 8
format_byte_size etc2_r8g8b8_srgb_block = some 8
format_byte_size bc2_unorm_block = some 16
format_byte_size bc2_srgb_block = some 16
format_byte_size bc3_unorm_block = some 16
format_byte_size bc3_srgb_block = some 16
format_byte_size bc5_unorm_block = some 16
format_byte_size bc5_snorm_block = some 16
format_byte_size bc6h_ufloat_block = some 16
format_byte_size bc6h_sfloat_block = some 16
format_byte_size bc7_unorm_block = some 16
format_byte_size bc7_srgb_block = some 16
format_byte_size etc2_r8g8b8a8_unorm_block = some 16
format_byte_size etc2_r8g8b8a8_srgb_block = some 16
format_byte_size astc_4x4_unorm_block = some 16
format_byte_size astc_4x4_srgb_block = some 16
format_byte_size _ = none

pub record AspectFlags : Type 0 where
  pub color : ℕ
  pub depth : ℕ
  pub stencil : ℕ

unfoldable pub format_aspect_mask : AspectFlags → Format → ℕ
format_aspect_mask aspect d16_unorm = aspect.depth
format_aspect_mask aspect d32_sfloat = aspect.depth
format_aspect_mask aspect x8_d24_unorm_pack32 = aspect.depth
format_aspect_mask aspect d16_unorm_s8_uint = bit_or aspect.depth aspect.stencil
format_aspect_mask aspect d24_unorm_s8_uint = bit_or aspect.depth aspect.stencil
format_aspect_mask aspect d32_sfloat_s8_uint = bit_or aspect.depth aspect.stencil
format_aspect_mask aspect s8_uint = aspect.stencil
format_aspect_mask aspect _ = aspect.color

pub is_depth_format : Format → Bool
is_depth_format d16_unorm = true
is_depth_format d32_sfloat = true
is_depth_format x8_d24_unorm_pack32 = true
is_depth_format d16_unorm_s8_uint = true
is_depth_format d24_unorm_s8_uint = true
is_depth_format d32_sfloat_s8_uint = true
is_depth_format _ = false

pub is_stencil_format : Format → Bool
is_stencil_format s8_uint = true
is_stencil_format d16_unorm_s8_uint = true
is_stencil_format d24_unorm_s8_uint = true
is_stencil_format d32_sfloat_s8_uint = true
is_stencil_format _ = false

module _ (as_raw : Format → ℕ) where
  pub is_compressed_format : Format → Bool
  is_compressed_format format = let raw = as_raw format in leb 131 raw && leb raw 184

  -- The extent of a block of a compressed format.
  pub block_extent : Format → ℕ × ℕ
  block_extent astc_5x4_unorm_block = (5, 4)
  block_extent astc_5x4_srgb_block = (5, 4)
  block_extent astc_5x5_unorm_block = (5, 5)
  block_extent astc_5x5_srgb_block = (5, 5)
  block_extent astc_6x5_unorm_block = (6, 5)
  block_extent astc_6x5_srgb_block = (6, 5)
  block_extent astc_6x6_unorm_block = (6, 6)
  block_extent astc_6x6_srgb_block = (6, 6)
  block_extent astc_8x5_unorm_block = (8, 5)
  block_extent astc_8x5_srgb_block = (8, 5)
  block_extent astc_8x6_unorm_block = (8, 6)
  block_extent astc_8x6_srgb_block = (8, 6)
  block_extent astc_8x8_unorm_block = (8, 8)
  block_extent astc_8x8_srgb_block = (8, 8)
  block_extent astc_10x5_unorm_block = (10, 5)
  block_extent astc_10x5_srgb_block = (10, 5)
  block_extent astc_10x6_unorm_block = (10, 6)
  block_extent astc_10x6_srgb_block = (10, 6)
  block_extent astc_10x8_unorm_block = (10, 8)
  block_extent astc_10x8_srgb_block = (10, 8)
  block_extent astc_10x10_unorm_block = (10, 10)
  block_extent astc_10x10_srgb_block = (10, 10)
  block_extent astc_12x10_unorm_block = (12, 10)
  block_extent astc_12x10_srgb_block = (12, 10)
  block_extent astc_12x12_unorm_block = (12, 12)
  block_extent astc_12x12_srgb_block = (12, 12)
  block_extent _ = (4, 4)

  pub format_block_extent : Format → ℕ × ℕ
  format_block_extent format = if is_compressed_format format then block_extent format else (1, 1)

-- On 32 bits, as without overflow checks; a size of zero, where the code panics, gives `none`.
pub dispatch_size : ℕ → ℕ → Option ℕ
dispatch_size work_items local_size =
    if local_size == 0
    then none
    else some (((work_items + local_size) % 2 ^ 32 + (2 ^ 32 - 1)) % 2 ^ 32 / local_size)

pub dispatch_size_3d : ℕ × ℕ × ℕ → ℕ × ℕ × ℕ → Option (ℕ × ℕ × ℕ)
dispatch_size_3d work local = do
  x ← dispatch_size work.0 local.0
  y ← dispatch_size work.1 local.1
  z ← dispatch_size work.2 local.2
  some (x, y, z)

-- `u32::leading_zeros`, for a width.
pub leading_zeros : ℕ → ℕ → ℕ
leading_zeros zero x = 0
leading_zeros (suc w) x = if ltb x (2 ^ w) then suc (leading_zeros w x) else 0

pub mip_levels_for_size : ℕ → ℕ → ℕ
mip_levels_for_size width height =
    let max_dim = max width height in if max_dim == 0 then 1 else 32 - leading_zeros 32 max_dim
