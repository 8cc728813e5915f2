-- ===== src/FrameGraph/Compiled/Replay.antt =====
-- framegraph.rs: what a device does with the commands of one pass.
use ignis_rs.Base.{
  ℕ, ◌+◌, ◌≤◌, if◌then◌else◌, ◌≡◌, refl, sym, ap, ◌∙◌, subst, inl, inr, true, ◌&&◌, Option, none,
  some, List, [], ◌∷◌, ◌++◌, map, arith, ◌==◌, Bool-cases,
}
use ignis_rs.Base.Occurs.{occurs}
use ignis_rs.Tracking.Tracker.{TrackedImage, ImageTransition, BufferTransition}
use ignis_rs.Tracking.Tracker.Barriers.{
  image_memory_barrier, apply_image_transitions, apply_buffer_transitions,
}
use ignis_rs.Tracking.Tracker.Layouts.{Barrier}
use ignis_rs.FrameGraph.Compiled.{Event, records, push, execution}
use ignis_rs.FrameGraph.Compiled.Device.{whole, with_layout, targets, after_barriers, replay}

pub with_layout-same :
    (image layout : ℕ) (layouts : ℕ → ℕ)
    → layouts image ≡ layout
    → with_layout image layout layouts ≡ layouts
with_layout-same image layout layouts e = λ i k. same k i
  where
    same : (k : ℕ) → with_layout image layout layouts k ≡ layouts k
    same k = elim (Bool-cases (k == image)) [
      | inl here ↦ let at : image ≡ k = ground (arith, here) in rw here (sym e ∙ ap layouts at)
      | inr apart ↦ rw apart refl
    ]

module _ (metas : ℕ → TrackedImage) where
  pub replay-images :
      (ts : List ImageTransition) (events : List Event) (layouts layouts' : ℕ → ℕ)
      → after_barriers metas (map image_memory_barrier ts) layouts ≡ some layouts'
      → replay metas (map records (apply_image_transitions ts) ++ events) layouts
        ≡ replay metas events layouts'
  unfolding apply_image_transitions
  replay-images [] events layouts layouts' h =
      let same : layouts ≡ layouts' = cc (h) in ap (replay metas events) same
  replay-images (t ∷ ts) events layouts layouts' h = rw h refl

  pub replay-buffers :
      (ts : List BufferTransition) (events : List Event) (layouts : ℕ → ℕ)
      → replay metas (map records (apply_buffer_transitions ts) ++ events) layouts
        ≡ replay metas events layouts
  unfolding apply_buffer_transitions
  replay-buffers [] events layouts = refl
  replay-buffers (t ∷ ts) events layouts = refl

  pub replay-push :
      (o : Option ℕ) (events : List Event) (layouts : ℕ → ℕ) (rest : List (ℕ × (ℕ → ℕ)))
      → replay metas events layouts ≡ some rest
      → replay metas (push (execution o) events) layouts
        ≡ some (elim o [ none ↦ rest | some cb ↦ (cb, layouts) ∷ rest ])
  unfolding push execution
  replay-push none events layouts rest h = h
  replay-push (some cb) events layouts rest h = rw h refl

-- A barrier, if there is one, takes an image to its layout before the later barriers, none of which
-- is on this image.
pub after_barriers-push :
    (metas : ℕ → TrackedImage) (layouts : ℕ → ℕ) (image layout : ℕ) (o : Option ImageTransition)
    (ts : List ImageTransition) (r : Option (ℕ → ℕ))
    → Barrier metas layouts image layout o
    → occurs image (targets (map image_memory_barrier ts)) ≡ 0
    → after_barriers metas (map image_memory_barrier ts) (with_layout image layout layouts) ≡ r
    → after_barriers metas (map image_memory_barrier (push o ts)) layouts ≡ r
unfolding push
after_barriers-push metas layouts image layout none ts r same alone rest =
    subst (λ (m : ℕ → ℕ). after_barriers metas (map image_memory_barrier ts) m ≡ r)
      (with_layout-same image layout layouts same) rest
after_barriers-push metas layouts image layout (some b) ts r (at, old, target, range) alone rest =
    let legal : ((b.old_layout == layouts b.image && whole (metas b.image) b.subresource_range)
          && occurs b.image (targets (map image_memory_barrier ts)) == 0)
        ≡ true =
      rw (at, old, range, alone) (ground arith) in
    unfold image_memory_barrier in rw (legal, at, target) rest

-- It is the only one that is added.
pub occurs-push :
    (metas : ℕ → TrackedImage) (layouts : ℕ → ℕ) (image layout v : ℕ) (o : Option ImageTransition)
    (ts : List ImageTransition)
    → Barrier metas layouts image layout o
    → occurs v (targets (map image_memory_barrier (push o ts)))
      ≤ (if v == image then 1 else 0) + occurs v (targets (map image_memory_barrier ts))
unfolding push
occurs-push metas layouts image layout v none ts same = omega arith
occurs-push metas layouts image layout v (some b) ts (at, old, target, range) =
    unfold image_memory_barrier in rw (at) (omega arith)
