-- ===== src/Tracking/Headers.antt =====
-- The constants of the Vulkan headers, for runs of the code.
use ignis_rs.Tracking.Vk.{Vk}

abbrev pub vulkan_headers : Vk
vulkan_headers = record {
  layout = record {
    color_attachment_optimal = 2;
    depth_stencil_attachment_optimal = 3;
    depth_stencil_read_only_optimal = 4;
    shader_read_only_optimal = 5;
    general = 1;
    transfer_src_optimal = 6;
    transfer_dst_optimal = 7;
    present_src_khr = 1000001002;
    undefined = 0;
  };
  access = record {
    color_attachment_read = 128;
    color_attachment_write = 256;
    depth_stencil_attachment_read = 512;
    depth_stencil_attachment_write = 1024;
    shader_read = 32;
    shader_write = 64;
    transfer_read = 2048;
    transfer_write = 4096;
    memory_read = 32768;
    memory_write = 65536;
    vertex_attribute_read = 4;
    index_read = 2;
    uniform_read = 8;
    indirect_command_read = 1;
  };
  stage = record {
    top_of_pipe = 1;
    color_attachment_output = 1024;
    early_fragment_tests = 256;
    late_fragment_tests = 512;
    vertex_input = 4;
    vertex_shader = 8;
    fragment_shader = 128;
    compute_shader = 2048;
    transfer = 4096;
    draw_indirect = 2;
    bottom_of_pipe = 8192;
    all_commands = 65536;
  };
  image_usage = record {
    color_attachment = 16;
    depth_stencil_attachment = 32;
    sampled = 4;
    storage = 8;
    transfer_src = 1;
    transfer_dst = 2;
  };
  buffer_usage = record {
    vertex_buffer = 128;
    index_buffer = 64;
    uniform_buffer = 16;
    storage_buffer = 32;
    transfer_src = 1;
    transfer_dst = 2;
    indirect_buffer = 256;
  };
  queue_family_ignored = 4294967295;
  whole_size = 18446744073709551615;
  aspect_color = 1;
  sharing_mode_exclusive = 0;
  image_type_2d = 1;
  sample_count_1 = 1;
  tiling_optimal = 0;
}
