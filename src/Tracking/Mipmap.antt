-- ===== src/Tracking/Mipmap.antt =====
-- tracking/mipmap.rs: `generate_mipmaps`. The recorder gets commands in order; a blit is from one
-- level to the next, in layer 0, with the sizes of both.
pub mod Chain
mod Tests
use ignis_rs.Base.{ℕ, zero, suc, ◌+◌, ◌-◌, ◌/◌, max, Option, none, some, List, [], ◌∷◌, ◌++◌, map}
use ignis_rs.Tracking.Vk.{Vk}
use ignis_rs.Tracking.ImageUsage.{ImageUsageContext, transfer_src, transfer_dst}
use ignis_rs.Tracking.Tracker.{ResourceTracker, ImageTransition, transition_mip}
use ignis_rs.Tracking.Tracker.Barriers.{Command, apply_image_transitions}

pub record ImageSubresourceLayers : Type 0 where
  pub aspect_mask : ℕ
  pub mip_level : ℕ
  pub base_array_layer : ℕ
  pub layer_count : ℕ

pub record Offset3d : Type 0 where
  pub x : ℕ
  pub y : ℕ
  pub z : ℕ

-- `vk::ImageBlit`, with the other arguments of `vkCmdBlitImage`. The offsets are two corners.
pub record Blit : Type 0 where
  pub src_image : ℕ
  pub src_layout : ℕ
  pub dst_image : ℕ
  pub dst_layout : ℕ
  pub src_subresource : ImageSubresourceLayers
  pub src_offsets : Offset3d × Offset3d
  pub dst_subresource : ImageSubresourceLayers
  pub dst_offsets : Offset3d × Offset3d
  pub filter : ℕ

-- Layer 0 of a level.
unfoldable pub color_layer : Vk → ℕ → ImageSubresourceLayers
color_layer vk mip = record {
  aspect_mask = vk.aspect_color;
  mip_level = mip;
  base_array_layer = 0;
  layer_count = 1;
}

unfoldable pub corners : ℕ → ℕ → Offset3d × Offset3d
corners width height = (record { x = 0; y = 0; z = 0 }, record { x = width; y = height; z = 1 })

pub data MipCommand : Type 0 where
  barrier : Command → MipCommand
  blit : Blit → MipCommand

-- `if let Some(t) = .. { rec.apply_image_transitions(&[t]) }`.
pub apply : Option ImageTransition → List MipCommand
apply none = []
apply (some t) = map barrier (apply_image_transitions (t ∷ []))

-- The rounds that are left, from a level on.
pub generate_from : Vk → ℕ → ℕ → ℕ → ℕ → ℕ → ℕ → ResourceTracker → List MipCommand × ResourceTracker
generate_from vk image filter zero mip width height tracker = ([], tracker)
generate_from vk image filter (suc left) mip width height tracker =
    let to_dst = transition_mip vk tracker image mip transfer_dst in
    let dst_w = max (width / 2) 1 in
    let dst_h = max (height / 2) 1 in
    let to_src = transition_mip vk to_dst.1 image mip transfer_src in
    let rest = generate_from vk image filter left (mip + 1) dst_w dst_h to_src.1 in
    (
      apply to_dst.0
          ++ (blit (record {
            src_image = image;
            src_layout = vk.layout.transfer_src_optimal;
            dst_image = image;
            dst_layout = vk.layout.transfer_dst_optimal;
            src_subresource = color_layer vk (mip - 1);
            src_offsets = corners width height;
            dst_subresource = color_layer vk mip;
            dst_offsets = corners dst_w dst_h;
            filter = filter;
          })
              ∷ (apply to_src.0 ++ rest.0)),
      rest.1,
    )

-- `for mip in 1..mip_levels`.
pub generate_mipmaps : Vk → ResourceTracker → ℕ → ℕ → ℕ → ℕ → ℕ → List MipCommand × ResourceTracker
generate_mipmaps vk tracker image width height mip_levels filter =
    generate_from vk image filter (mip_levels - 1) 1 width height tracker
