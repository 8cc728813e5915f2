-- ===== src/Tracking/Deletion/Tests.antt =====
-- tracking/deletion.rs: a run of `poll` on a device that has reached value 4 on every timeline.
use ignis_rs.Base.{
  ℕ, Bool, ◌≤◌, ◌≡◌, refl, true, false, none, some, List, [], ◌∷◌, arith, length, All,
}
use ignis_rs.Tracking.Deletion.{
  DeletionGuard, timeline, fence, immediate, buffer, sampler, pipeline, DeletionEntry, Device, poll,
  collect, is_safe, cached_value, or_zero, or_false, remember, remove_back, destroy_found,
  destroy_resource, free_allocation,
}
use ignis_rs.Tracking.Deletion.Loops.{kept, gone, destroy_back}
use ignis_rs.Tracking.Deletion.Poll.{Verdicts, Past, poll_lem}

-- The world is the list of the handles that were destroyed.
abbrev device_at_4 : Device
device_at_4 = record {
  World = List ℕ;
  current_value = λ sem w. (some 4, w);
  get_fence_status = λ f w. (some false, w);
  wait_for_value = λ sem value w. w;
  wait_for_fence = λ f w. w;
  destroy_buffer = λ h w. h ∷ w;
  destroy_image = λ h w. h ∷ w;
  destroy_image_view = λ h w. h ∷ w;
  destroy_pipeline = λ h w. h ∷ w;
  destroy_pipeline_layout = λ h w. h ∷ w;
  destroy_shader_module = λ h w. h ∷ w;
  destroy_render_pass = λ h w. h ∷ w;
  destroy_framebuffer = λ h w. h ∷ w;
  destroy_sampler = λ h w. h ∷ w;
  destroy_descriptor_pool = λ h w. h ∷ w;
  destroy_descriptor_set_layout = λ h w. h ∷ w;
  destroy_fence = λ h w. h ∷ w;
  destroy_semaphore = λ h w. h ∷ w;
  run_custom = λ f w. f ∷ w;
  free = λ alloc a w. w;
}

abbrev pending : List DeletionEntry
pending =
    record { resource = buffer 10 none; guard = timeline 1 4 }
    ∷ record { resource = sampler 11; guard = timeline 1 5 }
    ∷ record { resource = pipeline 12; guard = immediate }
    ∷ record { resource = sampler 13; guard = fence 2 }
    ∷ []

-- Past a guard: the timeline values up to 4, no fence, and what needs no wait.
abbrev Reached : DeletionGuard → Type 0
Reached (timeline sem value) = value ≤ 4
Reached (fence f) = false ≡ true
Reached immediate = Unit {0}

Reached-Past : Past device_at_4 Reached
Reached-Past = record {
  reached = λ sem v value w e l. let four : 4 ≡ v = ground (arith, e) in omega (arith, four, l);
  at_start = λ sem. omega arith;
  signaled = λ f w e. ground (arith, e);
  ready = tt;
}

poll_run : poll device_at_4 pending [] ≡ (
  2,
  record { resource = sampler 11; guard = timeline 1 5 }
      ∷ record { resource = sampler 13; guard = fence 2 }
      ∷ [],
  10 ∷ 12 ∷ [],
)
unfolding poll collect is_safe cached_value or_zero or_false remember remove_back destroy_found
    destroy_resource free_allocation
poll_run = refl

poll_lem_example :
    let (count, left, w') = poll device_at_4 pending [] in
    (met : List Bool) × (w1 : List ℕ) × Verdicts device_at_4 pending (λ s. none) [] met w1
    × (left ≡ kept met pending)
    × (w' ≡ destroy_back device_at_4 (gone met pending) w1)
    × (count ≡ length (gone met pending))
    × All (λ e. Reached e.guard) (gone met pending)
poll_lem_example = poll_lem device_at_4 Reached Reached-Past pending []
