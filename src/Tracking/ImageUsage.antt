-- ===== src/Tracking/ImageUsage.antt =====
-- tracking/tracker.rs: `ImageUsageContext`. Layouts, access masks and stages are numbers, and
-- `empty()` is 0.
use ignis_rs.Base.{ℕ, bit_or}
use ignis_rs.Tracking.Vk.{Vk}

pub data ImageUsageContext : Type 0 where
  color_attachment depth_stencil_attachment depth_stencil_read_only : ImageUsageContext
  fragment_shader_read vertex_shader_read compute_shader_read : ImageUsageContext
  compute_shader_write compute_shader_read_write : ImageUsageContext
  transfer_src transfer_dst present_src general : ImageUsageContext
  custom : (layout access stage : ℕ) → ImageUsageContext

-- The layout, the access mask and the stage.
unfoldable pub resolve : Vk → ImageUsageContext → ℕ × ℕ × ℕ
resolve vk color_attachment = (
  vk.layout.color_attachment_optimal,
  bit_or vk.access.color_attachment_read vk.access.color_attachment_write,
  vk.stage.color_attachment_output,
)
resolve vk depth_stencil_attachment = (
  vk.layout.depth_stencil_attachment_optimal,
  bit_or vk.access.depth_stencil_attachment_read vk.access.depth_stencil_attachment_write,
  bit_or vk.stage.early_fragment_tests vk.stage.late_fragment_tests,
)
resolve vk depth_stencil_read_only = (
  vk.layout.depth_stencil_read_only_optimal,
  vk.access.depth_stencil_attachment_read,
  bit_or vk.stage.early_fragment_tests vk.stage.late_fragment_tests,
)
resolve vk fragment_shader_read =
    (vk.layout.shader_read_only_optimal, vk.access.shader_read, vk.stage.fragment_shader)
resolve vk vertex_shader_read =
    (vk.layout.shader_read_only_optimal, vk.access.shader_read, vk.stage.vertex_shader)
resolve vk compute_shader_read =
    (vk.layout.shader_read_only_optimal, vk.access.shader_read, vk.stage.compute_shader)
resolve vk compute_shader_write =
    (vk.layout.general, vk.access.shader_write, vk.stage.compute_shader)
resolve vk compute_shader_read_write = (
  vk.layout.general,
  bit_or vk.access.shader_read vk.access.shader_write,
  vk.stage.compute_shader,
)
resolve vk transfer_src =
    (vk.layout.transfer_src_optimal, vk.access.transfer_read, vk.stage.transfer)
resolve vk transfer_dst =
    (vk.layout.transfer_dst_optimal, vk.access.transfer_write, vk.stage.transfer)
resolve vk present_src = (vk.layout.present_src_khr, 0, vk.stage.bottom_of_pipe)
resolve vk general =
    (vk.layout.general, bit_or vk.access.memory_read vk.access.memory_write, vk.stage.all_commands)
resolve vk (custom layout access stage) = (layout, access, stage)

pub required_usage : Vk → ImageUsageContext → ℕ
required_usage vk color_attachment = vk.image_usage.color_attachment
required_usage vk present_src = vk.image_usage.color_attachment
required_usage vk depth_stencil_attachment = vk.image_usage.depth_stencil_attachment
required_usage vk depth_stencil_read_only = vk.image_usage.depth_stencil_attachment
required_usage vk fragment_shader_read = vk.image_usage.sampled
required_usage vk vertex_shader_read = vk.image_usage.sampled
required_usage vk compute_shader_read = vk.image_usage.sampled
required_usage vk compute_shader_write = vk.image_usage.storage
required_usage vk compute_shader_read_write = vk.image_usage.storage
required_usage vk transfer_src = vk.image_usage.transfer_src
required_usage vk transfer_dst = vk.image_usage.transfer_dst
required_usage vk general = 0
required_usage vk (custom layout access stage) = 0
