-- ===== src/Memory/Resources/Tests.antt =====
-- memory/resources.rs: a creation that fails to bind, and one that succeeds.
use ignis_rs.Base.{none}
use ignis_rs.Memory.Kind.{gpu_only}
use ignis_rs.Memory.Resources.{default_info, vertex_info, buffer_new, image_new}
use ignis_rs.Memory.Resources.Ideal.{stock, supplier, device, supplier-Allocates, device-Documented}
use ignis_rs.Memory.Resources.Ledger.{MadeBuffer, MadeImage, image_new_lem}
use ignis_rs.Tracking.Headers.{vulkan_headers}

image_new_lem_example :
    MadeBuffer stock supplier
      (device none)
      (vertex_info vulkan_headers 64 gpu_only)
      (λ r. 0)
      (buffer_new supplier (device none) (vertex_info vulkan_headers 64 gpu_only) (λ r. 0))
    × MadeImage stock supplier
        (device none)
        (default_info vulkan_headers)
        (λ r. 0)
        (image_new supplier (device none) (default_info vulkan_headers) (λ r. 0))
image_new_lem_example =
    image_new_lem stock supplier (device none) (vertex_info vulkan_headers 64 gpu_only)
      (default_info vulkan_headers) (λ r. 0) supplier-Allocates (device-Documented none)
