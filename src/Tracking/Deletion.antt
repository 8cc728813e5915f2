-- ===== src/Tracking/Deletion.antt =====
-- tracking/deletion.rs: `DeletionQueue`. Its calls hold the lock of the queue, so each is one step
-- on the entries and on the world. The device, which runs on its own, and the allocators are
-- parameters: their calls take the world and give the next one. A custom destructor is a number.
pub mod Loops
pub mod Poll
mod Tests
use ignis_rs.Base.{
  ℕ, zero, suc, ◌+◌, Bool, true, false, Option, none, some, List, [], ◌∷◌, ◌++◌, leb, ◌==◌,
  if◌then◌else◌, remove_at, get_elem?, length,
}
use ignis_rs.Memory.Block.{Allocation}

-- `timeline` holds the semaphore of the timeline and the value to reach.
pub data DeletionGuard : Type 0 where
  timeline : (semaphore value : ℕ) → DeletionGuard
  fence : ℕ → DeletionGuard
  immediate : DeletionGuard

-- An allocation comes with the allocator that it goes back to.
pub data PendingResource : Type 0 where
  buffer image : (handle : ℕ) (allocation : Option (ℕ × Allocation)) → PendingResource
  image_view pipeline pipeline_layout shader_module render_pass framebuffer sampler :
      ℕ → PendingResource
  descriptor_pool descriptor_set_layout pending_fence semaphore : ℕ → PendingResource
  custom : ℕ → PendingResource

pub record DeletionEntry : Type 0 where
  pub resource : PendingResource
  pub guard : DeletionGuard

-- A call that fails gives `none`.
pub record Device : Type 1 where
  pub World : Type 0
  pub current_value : ℕ → World → Option ℕ × World
  pub get_fence_status : ℕ → World → Option Bool × World
  pub wait_for_value : ℕ → ℕ → World → World
  pub wait_for_fence : ℕ → World → World
  pub destroy_buffer : ℕ → World → World
  pub destroy_image : ℕ → World → World
  pub destroy_image_view : ℕ → World → World
  pub destroy_pipeline : ℕ → World → World
  pub destroy_pipeline_layout : ℕ → World → World
  pub destroy_shader_module : ℕ → World → World
  pub destroy_render_pass : ℕ → World → World
  pub destroy_framebuffer : ℕ → World → World
  pub destroy_sampler : ℕ → World → World
  pub destroy_descriptor_pool : ℕ → World → World
  pub destroy_descriptor_set_layout : ℕ → World → World
  pub destroy_fence : ℕ → World → World
  pub destroy_semaphore : ℕ → World → World
  pub run_custom : ℕ → World → World
  pub free : ℕ → Allocation → World → World

-- `unwrap_or`.
pub or_zero : Option ℕ → ℕ
or_zero none = 0
or_zero (some v) = v

pub or_false : Option Bool → Bool
or_false none = false
or_false (some b) = b

pub enqueue : List DeletionEntry → PendingResource → DeletionGuard → List DeletionEntry
enqueue entries resource guard = entries ++ record { resource = resource; guard = guard } ∷ []

-- The retire methods.
pub retire_buffer_after :
    List DeletionEntry → ℕ → Option (ℕ × Allocation) → DeletionGuard → List DeletionEntry
retire_buffer_after entries handle allocation guard =
    enqueue entries (buffer handle allocation) guard

pub retire_image_after :
    List DeletionEntry → ℕ → Option (ℕ × Allocation) → DeletionGuard → List DeletionEntry
retire_image_after entries handle allocation guard = enqueue entries (image handle allocation) guard

pub retire_immediate_buffer : List DeletionEntry → ℕ → List DeletionEntry
retire_immediate_buffer entries handle = enqueue entries (buffer handle none) immediate

pub retire_image_view : List DeletionEntry → ℕ → DeletionGuard → List DeletionEntry
retire_image_view entries handle guard = enqueue entries (image_view handle) guard

pub retire_pipeline : List DeletionEntry → ℕ → DeletionGuard → List DeletionEntry
retire_pipeline entries handle guard = enqueue entries (pipeline handle) guard

pub retire_pipeline_layout : List DeletionEntry → ℕ → DeletionGuard → List DeletionEntry
retire_pipeline_layout entries handle guard = enqueue entries (pipeline_layout handle) guard

pub retire_shader_module : List DeletionEntry → ℕ → DeletionGuard → List DeletionEntry
retire_shader_module entries handle guard = enqueue entries (shader_module handle) guard

pub retire_render_pass : List DeletionEntry → ℕ → DeletionGuard → List DeletionEntry
retire_render_pass entries handle guard = enqueue entries (render_pass handle) guard

pub retire_framebuffer : List DeletionEntry → ℕ → DeletionGuard → List DeletionEntry
retire_framebuffer entries handle guard = enqueue entries (framebuffer handle) guard

pub retire_sampler : List DeletionEntry → ℕ → DeletionGuard → List DeletionEntry
retire_sampler entries handle guard = enqueue entries (sampler handle) guard

pub retire_descriptor_pool : List DeletionEntry → ℕ → DeletionGuard → List DeletionEntry
retire_descriptor_pool entries handle guard = enqueue entries (descriptor_pool handle) guard

pub retire_descriptor_set_layout : List DeletionEntry → ℕ → DeletionGuard → List DeletionEntry
retire_descriptor_set_layout entries handle guard =
    enqueue entries (descriptor_set_layout handle) guard

pub retire_fence : List DeletionEntry → ℕ → DeletionGuard → List DeletionEntry
retire_fence entries handle guard = enqueue entries (pending_fence handle) guard

pub retire_semaphore : List DeletionEntry → ℕ → DeletionGuard → List DeletionEntry
retire_semaphore entries handle guard = enqueue entries (semaphore handle) guard

-- The name and the handle are not used.
pub retire_custom : List DeletionEntry → DeletionGuard → ℕ → List DeletionEntry
retire_custom entries guard destroy = enqueue entries (custom destroy) guard

pub pending_count : List DeletionEntry → ℕ
pending_count entries = length entries

-- A value that was read is kept for the rest of the call.
pub remember : ℕ → ℕ → (ℕ → Option ℕ) → ℕ → Option ℕ
remember sem v cache s = if s == sem then some v else cache s

module _ (d : Device) where
  open d use {
    World, current_value, get_fence_status, wait_for_value, wait_for_fence, destroy_buffer,
    destroy_image, destroy_image_view, destroy_pipeline, destroy_pipeline_layout,
    destroy_shader_module, destroy_render_pass, destroy_framebuffer, destroy_sampler,
    destroy_descriptor_pool, destroy_descriptor_set_layout, destroy_fence, destroy_semaphore,
    run_custom, free,
  }

  pub free_allocation : Option (ℕ × Allocation) → World → World
  free_allocation none w = w
  free_allocation (some (alloc, a)) w = free alloc a w

  pub destroy_resource : PendingResource → World → World
  destroy_resource (buffer handle allocation) w =
      free_allocation allocation (destroy_buffer handle w)
  destroy_resource (image handle allocation) w = free_allocation allocation (destroy_image handle w)
  destroy_resource (image_view h) w = destroy_image_view h w
  destroy_resource (pipeline h) w = destroy_pipeline h w
  destroy_resource (pipeline_layout h) w = destroy_pipeline_layout h w
  destroy_resource (shader_module h) w = destroy_shader_module h w
  destroy_resource (render_pass h) w = destroy_render_pass h w
  destroy_resource (framebuffer h) w = destroy_framebuffer h w
  destroy_resource (sampler h) w = destroy_sampler h w
  destroy_resource (descriptor_pool h) w = destroy_descriptor_pool h w
  destroy_resource (descriptor_set_layout h) w = destroy_descriptor_set_layout h w
  destroy_resource (pending_fence h) w = destroy_fence h w
  destroy_resource (semaphore h) w = destroy_semaphore h w
  destroy_resource (custom f) w = run_custom f w

  -- `timeline_cache.entry(..).or_insert_with(..)`.
  pub cached_value : Option ℕ → ℕ → (ℕ → Option ℕ) → World → ℕ × (ℕ → Option ℕ) × World
  cached_value (some v) sem cache w = (v, cache, w)
  cached_value none sem cache w =
      let (read, w') = current_value sem w in (or_zero read, remember sem (or_zero read) cache, w')

  -- Whether a guard is met.
  pub is_safe : DeletionGuard → (ℕ → Option ℕ) → World → Bool × (ℕ → Option ℕ) × World
  is_safe (timeline sem value) cache w =
      let (current, cache', w') = cached_value (cache sem) sem cache w in
      (leb value current, cache', w')
  is_safe (fence f) cache w =
      let (status, w') = get_fence_status f w in (or_false status, cache, w')
  is_safe immediate cache w = (true, cache, w)

  -- The first loop of `poll`: the indices to remove, from index `i` on.
  pub collect : List DeletionEntry → ℕ → (ℕ → Option ℕ) → World → List ℕ × World
  collect [] i cache w = ([], w)
  collect (entry ∷ entries) i cache w =
      let (safe, cache', w') = is_safe entry.guard cache w in
      let (rest, w'') = collect entries (i + 1) cache' w' in
      ((if safe then i ∷ rest else rest), w'')

  pub destroy_found : Option DeletionEntry → World → World
  destroy_found none w = w
  destroy_found (some entry) w = destroy_resource entry.resource w

  -- The second loop: the last index first.
  pub remove_back : List ℕ → List DeletionEntry × World → List DeletionEntry × World
  remove_back [] s = s
  remove_back (i ∷ is) s =
      let (entries, w) = remove_back is s in
      (remove_at entries i, destroy_found (get_elem? entries i) w)

  -- With the number of resources destroyed.
  pub poll : List DeletionEntry → World → ℕ × List DeletionEntry × World
  poll entries w =
      let (to_remove, w') = collect entries 0 (λ s. none) w in
      let (left, w'') = remove_back to_remove (entries, w') in (length to_remove, left, w'')

  pub wait_guard : DeletionGuard → World → World
  wait_guard (timeline sem value) w = wait_for_value sem value w
  wait_guard (fence f) w = wait_for_fence f w
  wait_guard immediate w = w

  -- `for entry in entries.drain(..)`, which leaves the queue empty.
  pub flush : List DeletionEntry → World → List DeletionEntry × World
  flush [] w = ([], w)
  flush (entry ∷ entries) w =
      flush entries (destroy_resource entry.resource (wait_guard entry.guard w))
