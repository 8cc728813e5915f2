-- ===== src/FrameGraph/Compiled/Layouts.antt =====
-- framegraph.rs: the layouts in which the passes of a recorded graph find their images.
use ignis_rs.Base.{
  ℕ, ◌+◌, ◌==◌, if◌then◌else◌, ◌≤◌, ◌<◌, ◌≡◌, refl, sym, ap, ◌∙◌, subst, none, some, List, [], ◌∷◌,
  ◌++◌, map, arith, All, get_elem?, set, get_elem?_lt, get_elem?-set_ne, length,
}
use ignis_rs.Base.Occurs.{occurs}
use ignis_rs.Tracking.Vk.{Vk}
use ignis_rs.Tracking.ImageUsage
use ignis_rs.Tracking.Tracker.{
  TrackedImage, ResourceTracker, ImageTransition, BufferTransition, transition_image,
  transition_buffer,
}
use ignis_rs.Tracking.Tracker.Barriers.{
  image_memory_barrier, apply_image_transitions, apply_buffer_transitions,
}
use ignis_rs.Tracking.Tracker.Layouts.{
  Known, transition_buffer-Known, transition_image-Barrier, transition_image-Known,
}
use ignis_rs.FrameGraph.{ImageAccessMode, BufferAccessMode, PassDecl}
use ignis_rs.FrameGraph.Compiled.{
  RealizedImage, RealizedBuffer, Event, records, image_usage, buffer_usage, push, execution,
  image_transitions, buffer_transitions, record_passes,
}
use ignis_rs.FrameGraph.Compiled.Device.{
  with_layout, used, declared, handles, Single, targets, after_barriers, replay, InRange,
}
use ignis_rs.FrameGraph.Compiled.Replay.{
  replay-images, replay-buffers, replay-push, after_barriers-push, occurs-push,
}

module _ (metas : ℕ → TrackedImage) (vk : Vk) (images : List RealizedImage)
    (buffers : List RealizedBuffer) where
  -- All images of the graph are known.
  abbrev pub Knows : ResourceTracker → (ℕ → ℕ) → Type 0
  Knows t layouts =
      (h : ℕ) (img : RealizedImage)
      → get_elem? images h ≡ some img
      → Known metas t layouts img.handle
        × (0 < (metas img.handle).mip_levels)
        × (0 < (metas img.handle).array_layers)

  used-access :
      (h : ℕ) (mode : ImageAccessMode) (access : List (ℕ × ImageAccessMode)) (img : RealizedImage)
      (layouts : ℕ → ℕ)
      → get_elem? images h ≡ some img
      → used vk images ((h, mode) ∷ access) layouts
        ≡ used vk images access
            (with_layout img.handle (ImageUsage.resolve vk (image_usage mode)).0 layouts)
  used-access h mode access img layouts found = rw (used, found) refl

  handles-access :
      (h : ℕ) (mode : ImageAccessMode) (access : List (ℕ × ImageAccessMode)) (img : RealizedImage)
      → get_elem? images h ≡ some img
      → handles images ((h, mode) ∷ access) ≡ img.handle ∷ handles images access
  handles-access h mode access img found = rw (handles, found) refl

  image_transitions_lem :
      (access : List (ℕ × ImageAccessMode)) (t : ResourceTracker) (layouts : ℕ → ℕ)
      → All (λ (a : ℕ × ImageAccessMode). a.0 < length images) access
      → ((v : ℕ) → occurs v (handles images access) ≤ 1)
      → Knows t layouts
      → (ts : List ImageTransition) × (t' : ResourceTracker) × (image_transitions vk images access t
          ≡ some (ts, t'))
        × Knows t' (used vk images access layouts)
        × (after_barriers metas (map image_memory_barrier ts) layouts
            ≡ some (used vk images access layouts))
        × ((v : ℕ)
            → occurs v (targets (map image_memory_barrier ts)) ≤ occurs v (handles images access))
  unfolding image_transitions
  image_transitions_lem [] t layouts range single knows =
      ([], t, refl, knows, refl, λ v. omega arith)
  image_transitions_lem ((h, mode) ∷ access) t layouts range single knows =
      let (img, found) = get_elem?_lt images h range.0 in
      let (known, has_mips, has_layers) = knows h img found in
      let step = transition_image vk t img.handle (image_usage mode) in
      let declared_use = used-access h mode access img layouts found in
      let named = handles-access h mode access img found in
      let once : (v : ℕ)
          → (if v == img.handle then 1 else 0) + occurs v (handles images access) ≤ 1 =
        λ v. omega (arith, single v, ap (occurs v) named) in
      let barrier =
        transition_image-Barrier metas vk t layouts img.handle (image_usage mode) known has_mips
          has_layers in
      let (ts, t', done, knows', replays, few) =
        image_transitions_lem access step.1
          (with_layout img.handle (ImageUsage.resolve vk (image_usage mode)).0 layouts) range.1
          (λ v. omega (arith, once v))
          λ h' img' found'.
            let (known', some_mips, some_layers) = knows h' img' found' in
            (
              transition_image-Known metas vk t layouts img.handle (image_usage mode) known has_mips
                  has_layers img'.handle known',
              some_mips,
              some_layers,
            ) in
      (
        push step.0 ts,
        t',
        rw (found, done) refl,
        subst (Knows t') (sym declared_use) knows',
        subst
            (λ (m : ℕ → ℕ).
              after_barriers metas (map image_memory_barrier (push step.0 ts)) layouts ≡ some m)
            (sym declared_use)
            (after_barriers-push metas layouts img.handle _ step.0 ts _ barrier
              (ground (arith, few img.handle, once img.handle)) replays),
        λ v. omega (
          arith,
          occurs-push metas layouts img.handle _ v step.0 ts barrier,
          few v,
          ap (occurs v) named,
        ),
      )

  buffer_transitions_lem :
      (access : List (ℕ × BufferAccessMode)) (t : ResourceTracker) (layouts : ℕ → ℕ)
      → All (λ (a : ℕ × BufferAccessMode). a.0 < length buffers) access
      → Knows t layouts
      → (ts : List BufferTransition) × (t' : ResourceTracker) × (buffer_transitions vk buffers
            access t
          ≡ some (ts, t'))
        × Knows t' layouts
  unfolding buffer_transitions
  buffer_transitions_lem [] t layouts range knows = ([], t, refl, knows)
  buffer_transitions_lem ((h, mode) ∷ access) t layouts range knows =
      let (buf, found) = get_elem?_lt buffers h range.0 in
      let step = transition_buffer vk t buf.handle (buffer_usage mode) in
      let (ts, t', done, knows') =
        buffer_transitions_lem access step.1 layouts range.1 λ h' img' found'.
          let (known, some_mips, some_layers) = knows h' img' found' in
          (
            transition_buffer-Known metas vk t layouts buf.handle img'.handle (buffer_usage mode)
                known,
            some_mips,
            some_layers,
          ) in
      (push step.0 ts, t', rw (found, done) refl, knows')

  declared-pass :
      (passes : List PassDecl) (i : ℕ) (order : List ℕ) (pass : PassDecl) (layouts : ℕ → ℕ)
      → get_elem? passes i ≡ some pass
      → let layouts' = used vk images pass.access.image layouts in
        declared vk images passes (i ∷ order) layouts ≡ elim pass.execute [
          | none ↦ declared vk images passes order layouts'
          | some cb ↦ (cb, layouts') ∷ declared vk images passes order layouts'
        ]
  declared-pass passes i order pass layouts found = rw (declared, found) refl

  -- The commands and the closure of one pass.
  replay-pass :
      (passes : List PassDecl) (i : ℕ) (order : List ℕ) (pass : PassDecl) (layouts : ℕ → ℕ)
      (ts : List ImageTransition) (bs : List BufferTransition) (events : List Event)
      → get_elem? passes i ≡ some pass
      → let layouts' = used vk images pass.access.image layouts in
        after_barriers metas (map image_memory_barrier ts) layouts ≡ some layouts'
        → replay metas events layouts' ≡ some (declared vk images passes order layouts')
        → replay metas
            (map records (apply_image_transitions ts)
              ++ (map records (apply_buffer_transitions bs)
                  ++ push (execution pass.execute) events))
            layouts
          ≡ some (declared vk images passes (i ∷ order) layouts)
  replay-pass passes i order pass layouts ts bs events found replays rest =
      let layouts' = used vk images pass.access.image layouts in
      replay-images metas ts _ layouts layouts' replays
      ∙ (replay-buffers metas bs _ layouts'
          ∙ (replay-push metas pass.execute events layouts' _ rest
              ∙ ap some (sym (declared-pass passes i order pass layouts found))))

  pub record_passes_lem :
      (order : List ℕ) (passes passes' : List PassDecl) (t : ResourceTracker) (layouts : ℕ → ℕ)
      → ((i : ℕ) → 0 < occurs i order → i < length passes)
      → ((i : ℕ) (pass : PassDecl)
          → get_elem? passes i ≡ some pass
          → InRange (length images) (length buffers) pass)
      → ((i : ℕ) (pass : PassDecl) → get_elem? passes i ≡ some pass → Single images pass)
      → ((i : ℕ) → occurs i order ≤ 1)
      → ((i : ℕ) → 0 < occurs i order → get_elem? passes' i ≡ get_elem? passes i)
      → Knows t layouts
      → (events : List Event) × (record_passes vk images buffers order passes' t ≡ some events)
        × (replay metas events layouts ≡ some (declared vk images passes order layouts))
  unfolding record_passes
  record_passes_lem [] passes passes' t layouts inside range single once same knows =
      ([], refl, refl)
  record_passes_lem (i ∷ order) passes passes' t layouts inside range single once same knows =
      let here : 0 < occurs i (i ∷ order) = ground arith in
      let (pass, found) = get_elem?_lt passes i (inside i here) in
      let found' : get_elem? passes' i ≡ some pass = same i here ∙ found in
      let (in_images, in_buffers) = range i pass found in
      let (ts, t1, moved, knows1, replays, few) =
        image_transitions_lem pass.access.image t layouts in_images (single i pass found) knows in
      let layouts' = used vk images pass.access.image layouts in
      let (bs, t2, moved', knows2) =
        buffer_transitions_lem pass.access.buffer t1 layouts' in_buffers knows1 in
      let (events, recorded, rest) =
        record_passes_lem order passes (set passes' i (record pass { execute = none })) t2 layouts'
          (λ j o. inside j (ground (arith, o))) range single (λ j. ground (arith, once j))
          (λ j o.
            get_elem?-set_ne passes' i j (record pass { execute = none }) (λ e. twice j e o)
            ∙ same j (ground (arith, o)))
          knows2 in
      (
        map records (apply_image_transitions ts)
            ++ (map records (apply_buffer_transitions bs) ++ push (execution pass.execute) events),
        rw (found', moved, moved', recorded) refl,
        replay-pass passes i order pass layouts ts bs events found replays rest,
      )
    where
      twice : (j : ℕ) → i ≡ j → 0 < occurs j order → ⊥
      twice j e o = ground (arith, o, once j, e)
