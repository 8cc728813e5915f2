-- ===== src/Tracking/Tracker/Barriers.antt =====
-- tracking/tracker.rs: what `CommandRecorder` makes of transitions. A call of
-- `vkCmdPipelineBarrier` is a command with its arguments; the recorder gets the commands in order.
use ignis_rs.Base.{ℕ, List, [], ◌∷◌, map, bit_or}
use ignis_rs.Tracking.Tracker.{ImageSubresourceRange, ImageTransition, BufferTransition}

pub record ImageMemoryBarrier : Type 0 where
  pub src_access_mask : ℕ
  pub dst_access_mask : ℕ
  pub old_layout : ℕ
  pub new_layout : ℕ
  pub src_queue_family_index : ℕ
  pub dst_queue_family_index : ℕ
  pub image : ℕ
  pub subresource_range : ImageSubresourceRange

pub record BufferMemoryBarrier : Type 0 where
  pub src_access_mask : ℕ
  pub dst_access_mask : ℕ
  pub src_queue_family_index : ℕ
  pub dst_queue_family_index : ℕ
  pub buffer : ℕ
  pub offset : ℕ
  pub size : ℕ

unfoldable pub image_memory_barrier : ImageTransition → ImageMemoryBarrier
image_memory_barrier t = record {
  src_access_mask = t.src_access;
  dst_access_mask = t.dst_access;
  old_layout = t.old_layout;
  new_layout = t.new_layout;
  src_queue_family_index = t.src_queue_family;
  dst_queue_family_index = t.dst_queue_family;
  image = t.image;
  subresource_range = t.subresource_range;
}

pub buffer_memory_barrier : BufferTransition → BufferMemoryBarrier
buffer_memory_barrier t = record {
  src_access_mask = t.src_access;
  dst_access_mask = t.dst_access;
  src_queue_family_index = t.src_queue_family;
  dst_queue_family_index = t.dst_queue_family;
  buffer = t.buffer;
  offset = t.offset;
  size = t.size;
}

-- The stages, and the barriers on buffers and on images.
pub data Command : Type 0 where
  pipeline_barrier : (src dst : ℕ) → List BufferMemoryBarrier → List ImageMemoryBarrier → Command

-- `fold(PipelineStageFlags::empty(), |a, t| a | ..)`.
pub fold_stages : {A : Type 0} → (A → ℕ) → ℕ → List A → ℕ
fold_stages stage a [] = a
fold_stages stage a (t ∷ transitions) = fold_stages stage (bit_or a (stage t)) transitions

unfoldable pub apply_image_transitions : List ImageTransition → List Command
apply_image_transitions [] = []
apply_image_transitions (t ∷ transitions) =
    Command.pipeline_barrier
      (fold_stages (λ (u : ImageTransition). u.src_stage) 0 (t ∷ transitions))
      (fold_stages (λ (u : ImageTransition). u.dst_stage) 0 (t ∷ transitions)) []
      (map image_memory_barrier (t ∷ transitions))
    ∷ []

unfoldable pub apply_buffer_transitions : List BufferTransition → List Command
apply_buffer_transitions [] = []
apply_buffer_transitions (t ∷ transitions) =
    Command.pipeline_barrier
      (fold_stages (λ (u : BufferTransition). u.src_stage) 0 (t ∷ transitions))
      (fold_stages (λ (u : BufferTransition). u.dst_stage) 0 (t ∷ transitions))
      (map buffer_memory_barrier (t ∷ transitions)) []
    ∷ []
