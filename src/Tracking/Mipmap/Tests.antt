-- ===== src/Tracking/Mipmap/Tests.antt =====
-- tracking/mipmap.rs: an image with three levels.
use ignis_rs.Base.{ℕ, ◌≤◌, ◌<◌, ◌≡◌, refl, none, some, arith, ◌==◌, if◌then◌else◌}
use ignis_rs.Tracking.Headers.{vulkan_headers}
use ignis_rs.Tracking.ImageUsage
use ignis_rs.Tracking.ImageUsage.{transfer_src}
use ignis_rs.Tracking.Tracker.{ResourceTracker, key}
use ignis_rs.Tracking.Mipmap.{generate_mipmaps}
use ignis_rs.Tracking.Mipmap.Chain.{In, generate_mipmaps_lem}

abbrev tracked : ResourceTracker
tracked = record {
  subresources = λ k. some (record { layout = 6; access = 2048; stage = 4096; queue_family = 0 });
  images = λ image.
      if image == 9 then some (record { mip_levels = 3; array_layers = 1; aspect = 1 }) else none;
  buffers = λ b. none;
}

generate_mipmaps_lem_example :
    let t' = (generate_mipmaps vulkan_headers tracked 9 16 8 3 1).1 in
    ((mip : ℕ) → 1 ≤ mip → mip < 3 → In t' 9 mip (ImageUsage.resolve vulkan_headers transfer_src).0)
    × ((layer : ℕ) → t'.subresources (key 9 0 layer) ≡ tracked.subresources (key 9 0 layer))
generate_mipmaps_lem_example =
    generate_mipmaps_lem vulkan_headers tracked 9 16 8 3 1
      (record { mip_levels = 3; array_layers = 1; aspect = 1 })
      (λ image meta e mip layer l l'. (_, refl)) refl (omega arith) (omega arith)
