-- ===== src/FrameGraph/Compiled/Record.antt =====
-- framegraph.rs: `record_with_tracking`, from the images' initial layouts on.
use ignis_rs.Base.{
  ℕ, zero, suc, ◌≤◌, ◌<◌, ◌≡◌, refl, subst, false, some, List, [], ◌∷◌, arith, ◌==◌, get_elem?,
  length,
}
use ignis_rs.Base.Occurs.{occurs}
use ignis_rs.Tracking.Vk.{Vk}
use ignis_rs.Tracking.Tracker
use ignis_rs.Tracking.Tracker.{TrackedImage, ResourceTracker, track_image, track_buffer}
use ignis_rs.Tracking.Tracker.Layouts.{Known, track_image-Known, track_buffer-Known}
use ignis_rs.FrameGraph.{PassDecl}
use ignis_rs.FrameGraph.Compiled.{
  RealizedImage, RealizedBuffer, CompiledFrameGraph, Event, track_images, track_buffers,
  record_with_tracking,
}
use ignis_rs.FrameGraph.Compiled.Device.{meta_of, declared, replay, Starts, Single, InRange}
use ignis_rs.FrameGraph.Compiled.Layouts.{record_passes_lem}

module _ (metas : ℕ → TrackedImage) (vk : Vk) (layouts : ℕ → ℕ) where
  track_image-start :
      (img : RealizedImage) (t : ResourceTracker) (other : ℕ)
      → metas img.handle ≡ meta_of img
      → layouts img.handle ≡ img.initial_layout
      → ((other == img.handle) ≡ false → Known metas t layouts other)
      → Known metas
          (track_image vk t img.handle img.initial_layout img.mip_levels img.array_layers
            img.aspect)
          layouts
          other
  track_image-start img t other is_meta starts was =
      subst
        (λ (m : TrackedImage).
          Known metas
            (track_image vk t img.handle img.initial_layout m.mip_levels m.array_layers m.aspect)
            layouts other)
        is_meta
        (subst
          (λ (l : ℕ).
            Known metas
              (track_image vk t img.handle l (metas img.handle).mip_levels
                (metas img.handle).array_layers (metas img.handle).aspect)
              layouts other)
          starts (track_image-Known metas vk t layouts img.handle other was))

  track_images-keep :
      (images : List RealizedImage) (t : ResourceTracker) (other : ℕ)
      → Starts metas images layouts
      → Known metas t layouts other
      → Known metas (track_images vk images t) layouts other
  unfolding track_images
  track_images-keep [] t other starts known = known
  track_images-keep (img ∷ images) t other starts known =
      track_images-keep images _ other starts.1
        (track_image-start img t other starts.0.0 starts.0.1 λ apart. known)

  track_images-Known :
      (images : List RealizedImage) (t : ResourceTracker) (h : ℕ) (img : RealizedImage)
      → Starts metas images layouts
      → get_elem? images h ≡ some img
      → Known metas (track_images vk images t) layouts img.handle
  unfolding track_images
  track_images-Known [] t h img starts found = cc
  track_images-Known (img' ∷ images) t zero img starts found =
      let same : img' ≡ img = cc (found) in
      subst
        (λ (i : RealizedImage). Known metas (track_images vk (img' ∷ images) t) layouts i.handle)
        same
        (track_images-keep images _ img'.handle starts.1 (
          track_image-start img' t img'.handle starts.0.0 starts.0.1
            λ apart. absurd (ground (arith, apart))))
  track_images-Known (img' ∷ images) t (suc h) img starts found =
      track_images-Known images _ h img starts.1 found

  track_buffers-Known :
      (buffers : List RealizedBuffer) (t : ResourceTracker) (other : ℕ)
      → Known metas t layouts other
      → Known metas (track_buffers vk buffers t) layouts other
  unfolding track_buffers
  track_buffers-Known [] t other known = known
  track_buffers-Known (buf ∷ buffers) t other known =
      track_buffers-Known buffers _ other
        (track_buffer-Known metas vk t layouts buf.handle other known)

  Starts-meta :
      (images : List RealizedImage) (h : ℕ) (img : RealizedImage)
      → Starts metas images layouts
      → get_elem? images h ≡ some img
      → (0 < (metas img.handle).mip_levels) × (0 < (metas img.handle).array_layers)
  Starts-meta [] h img starts found = cc
  Starts-meta (img' ∷ images) zero img starts found =
      let same : img' ≡ img = cc (found) in
      subst
        (λ (i : RealizedImage).
          (0 < (metas i.handle).mip_levels) × (0 < (metas i.handle).array_layers))
        same (rw (starts.0.0) (starts.0.2, starts.0.3))
  Starts-meta (img' ∷ images) (suc h) img starts found = Starts-meta images h img starts.1 found

-- If the order has each pass at most once and only passes of the graph, no access is out of range,
-- no two accesses of a pass name one image and each image has a subresource, a graph is recorded
-- without a panic. On a device where the images are in their initial layouts, every barrier that is
-- recorded covers its image and starts from the layout that the image has, no two barriers of one
-- command are on one image, and the closures are run in the order of the passes, each once, and
-- find the layouts that the accesses up to those of their own pass ask for.
pub record_with_tracking_lem :
    (metas : ℕ → TrackedImage) (vk : Vk) (layouts : ℕ → ℕ) (g : CompiledFrameGraph)
    → ((i : ℕ) → 0 < occurs i g.order → i < length g.passes)
    → ((i : ℕ) (pass : PassDecl)
        → get_elem? g.passes i ≡ some pass
        → InRange (length g.images) (length g.buffers) pass)
    → ((i : ℕ) (pass : PassDecl) → get_elem? g.passes i ≡ some pass → Single g.images pass)
    → ((i : ℕ) → occurs i g.order ≤ 1)
    → Starts metas g.images layouts
    → (events : List Event) × (record_with_tracking vk g ≡ some events)
      × (replay metas events layouts ≡ some (declared vk g.images g.passes g.order layouts))
unfolding record_with_tracking
record_with_tracking_lem metas vk layouts g inside range single once starts =
    record_passes_lem metas vk g.images g.buffers g.order g.passes g.passes
      (track_buffers vk g.buffers (track_images vk g.images Tracker.new)) layouts inside range
      single once (λ i o. refl)
      λ h img found.
        let (has_mips, has_layers) = Starts-meta metas vk layouts g.images h img starts found in
        (
          track_buffers-Known metas vk layouts g.buffers (track_images vk g.images Tracker.new)
              img.handle
              (track_images-Known metas vk layouts g.images Tracker.new h img starts found),
          has_mips,
          has_layers,
        )
