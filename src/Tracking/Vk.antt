-- ===== src/Tracking/Vk.antt =====
-- The constants of the Vulkan binding that tracking/tracker.rs names. The binding is not part of
-- the repository, so they are parameters; nothing is assumed of their values.
use ignis_rs.Base.{ℕ}

pub record ImageLayout : Type 0 where
  pub color_attachment_optimal : ℕ
  pub depth_stencil_attachment_optimal : ℕ
  pub depth_stencil_read_only_optimal : ℕ
  pub shader_read_only_optimal : ℕ
  pub general : ℕ
  pub transfer_src_optimal : ℕ
  pub transfer_dst_optimal : ℕ
  pub present_src_khr : ℕ
  pub undefined : ℕ

pub record AccessFlags : Type 0 where
  pub color_attachment_read : ℕ
  pub color_attachment_write : ℕ
  pub depth_stencil_attachment_read : ℕ
  pub depth_stencil_attachment_write : ℕ
  pub shader_read : ℕ
  pub shader_write : ℕ
  pub transfer_read : ℕ
  pub transfer_write : ℕ
  pub memory_read : ℕ
  pub memory_write : ℕ
  pub vertex_attribute_read : ℕ
  pub index_read : ℕ
  pub uniform_read : ℕ
  pub indirect_command_read : ℕ

pub record PipelineStageFlags : Type 0 where
  pub top_of_pipe : ℕ
  pub color_attachment_output : ℕ
  pub early_fragment_tests : ℕ
  pub late_fragment_tests : ℕ
  pub vertex_input : ℕ
  pub vertex_shader : ℕ
  pub fragment_shader : ℕ
  pub compute_shader : ℕ
  pub transfer : ℕ
  pub draw_indirect : ℕ
  pub bottom_of_pipe : ℕ
  pub all_commands : ℕ

pub record ImageUsageFlags : Type 0 where
  pub color_attachment : ℕ
  pub depth_stencil_attachment : ℕ
  pub sampled : ℕ
  pub storage : ℕ
  pub transfer_src : ℕ
  pub transfer_dst : ℕ

pub record BufferUsageFlags : Type 0 where
  pub vertex_buffer : ℕ
  pub index_buffer : ℕ
  pub uniform_buffer : ℕ
  pub storage_buffer : ℕ
  pub transfer_src : ℕ
  pub transfer_dst : ℕ
  pub indirect_buffer : ℕ

pub record Vk : Type 0 where
  pub layout : ImageLayout
  pub access : AccessFlags
  pub stage : PipelineStageFlags
  pub image_usage : ImageUsageFlags
  pub buffer_usage : BufferUsageFlags
  pub queue_family_ignored : ℕ
  pub whole_size : ℕ
  pub aspect_color : ℕ
  pub sharing_mode_exclusive : ℕ
  pub image_type_2d : ℕ
  pub sample_count_1 : ℕ
  pub tiling_optimal : ℕ
