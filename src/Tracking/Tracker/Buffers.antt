-- ===== src/Tracking/Tracker/Buffers.antt =====
-- tracking/tracker.rs: `transition_buffer`.
use ignis_rs.Base.{
  ℕ, ◌≡◌, ◌≢◌, refl, ap, ◌∙◌, inl, inr, ◌&&◌, Option, none, some, arith, ◌==◌, Bool-cases, ◌↔◌,
}
use ignis_rs.Tracking.Vk.{Vk}
use ignis_rs.Tracking.BufferUsage
use ignis_rs.Tracking.BufferUsage.{BufferUsageContext}
use ignis_rs.Tracking.Tracker.{
  BufferState, BufferTransition, ResourceTracker, put, transition_buffer,
}

-- A barrier, if there is one, leads from the old state to the new one.
abbrev pub Leads : BufferState → ℕ × ℕ → Option BufferTransition → Type 0
Leads old target none = Unit {0}
Leads old target (some b) =
    (b.src_access ≡ old.access)
    × (b.dst_access ≡ target.0)
    × (b.src_stage ≡ old.stage)
    × (b.dst_stage ≡ target.1)

-- What a transition of a tracked buffer gives. The state becomes the one that the use asks for,
-- and other buffers keep theirs. A barrier is given exactly if that changes the state; it leads
-- from the old state to the new one.
pub transition_buffer_lem :
    (vk : Vk) (t : ResourceTracker) (buffer : ℕ) (usage : BufferUsageContext) (old : BufferState)
    → t.buffers buffer ≡ some old
    → let target = BufferUsage.resolve vk usage in
      let (barrier, t') = transition_buffer vk t buffer usage in
      (t'.buffers buffer
        ≡ some (record { access = target.0; stage = target.1; queue_family = old.queue_family }))
      × ((other : ℕ) → other ≢ buffer → t'.buffers other ≡ t.buffers other)
      × ((barrier ≡ none) ↔ ((old.access ≡ target.0) × (old.stage ≡ target.1)))
      × Leads old target barrier
unfolding transition_buffer put
transition_buffer_lem vk t buffer usage old h =
    let access' = (BufferUsage.resolve vk usage).0 in
    let stage' = (BufferUsage.resolve vk usage).1 in
    elim (Bool-cases (old.access == access' && old.stage == stage')) [
      | inl same ↦
          let a : old.access ≡ access' = ground (arith, same) in
          let s : old.stage ≡ stage' = ground (arith, same) in
          rw (transition_buffer, h, same)
            (
              h
                  ∙ ap (λ (b : BufferState). some b)
                      (λ i. record { access = a i; stage = s i; queue_family = old.queue_family }),
              λ other ne. refl,
              (λ e. (a, s), λ e. refl),
              tt,
            )
      | inr differs ↦
          rw (transition_buffer, h, differs)
            (
              ground arith,
              λ other ne. ground (arith, ne),
              (λ e. cc, λ e. absurd (ground (arith, e, differs))),
              (refl, refl, refl, refl),
            )
    ]
