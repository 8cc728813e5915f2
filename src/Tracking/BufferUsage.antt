-- ===== src/Tracking/BufferUsage.antt =====
-- tracking/tracker.rs: `BufferUsageContext`.
use ignis_rs.Base.{ℕ, bit_or}
use ignis_rs.Tracking.Vk.{Vk}

pub data BufferUsageContext : Type 0 where
  vertex_input index_input uniform_vertex uniform_fragment uniform_compute : BufferUsageContext
  storage_compute_read storage_compute_write storage_compute_read_write : BufferUsageContext
  transfer_src transfer_dst indirect_draw : BufferUsageContext
  custom : (access stage : ℕ) → BufferUsageContext

-- The access mask and the stage.
pub resolve : Vk → BufferUsageContext → ℕ × ℕ
resolve vk vertex_input = (vk.access.vertex_attribute_read, vk.stage.vertex_input)
resolve vk index_input = (vk.access.index_read, vk.stage.vertex_input)
resolve vk uniform_vertex = (vk.access.uniform_read, vk.stage.vertex_shader)
resolve vk uniform_fragment = (vk.access.uniform_read, vk.stage.fragment_shader)
resolve vk uniform_compute = (vk.access.uniform_read, vk.stage.compute_shader)
resolve vk storage_compute_read = (vk.access.shader_read, vk.stage.compute_shader)
resolve vk storage_compute_write = (vk.access.shader_write, vk.stage.compute_shader)
resolve vk storage_compute_read_write =
    (bit_or vk.access.shader_read vk.access.shader_write, vk.stage.compute_shader)
resolve vk transfer_src = (vk.access.transfer_read, vk.stage.transfer)
resolve vk transfer_dst = (vk.access.transfer_write, vk.stage.transfer)
resolve vk indirect_draw = (vk.access.indirect_command_read, vk.stage.draw_indirect)
resolve vk (custom access stage) = (access, stage)

pub required_usage : Vk → BufferUsageContext → ℕ
required_usage vk vertex_input = vk.buffer_usage.vertex_buffer
required_usage vk index_input = vk.buffer_usage.index_buffer
required_usage vk uniform_vertex = vk.buffer_usage.uniform_buffer
required_usage vk uniform_fragment = vk.buffer_usage.uniform_buffer
required_usage vk uniform_compute = vk.buffer_usage.uniform_buffer
required_usage vk storage_compute_read = vk.buffer_usage.storage_buffer
required_usage vk storage_compute_write = vk.buffer_usage.storage_buffer
required_usage vk storage_compute_read_write = vk.buffer_usage.storage_buffer
required_usage vk transfer_src = vk.buffer_usage.transfer_src
required_usage vk transfer_dst = vk.buffer_usage.transfer_dst
required_usage vk indirect_draw = vk.buffer_usage.indirect_buffer
required_usage vk (custom access stage) = 0
