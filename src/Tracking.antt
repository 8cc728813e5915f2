-- ===== src/Tracking.antt =====
-- src/tracking: what the GPU may still be doing with a resource.
pub mod Vk
pub mod ImageUsage
pub mod BufferUsage
pub mod Headers
pub mod Tracker
pub mod Deletion
pub mod Mipmap
