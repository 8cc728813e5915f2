-- ===== src/FrameGraph/Compiled/Device.antt =====
-- framegraph.rs: what the passes of a compiled graph declare, and what a device does with the
-- commands that are recorded.
use ignis_rs.Base.{
  ℕ, ◌≤◌, map, ◌<◌, ◌≡◌, Bool, ◌&&◌, Option, none, some, List, [], ◌∷◌, ◌==◌, if◌then◌else◌, All,
  get_elem?, ◌>>=◌,
}
use ignis_rs.Base.Occurs.{occurs}
use ignis_rs.Tracking.Vk.{Vk}
use ignis_rs.Tracking.ImageUsage
use ignis_rs.Tracking.Tracker.{TrackedImage, ImageSubresourceRange}
use ignis_rs.Tracking.Tracker.Barriers.{ImageMemoryBarrier, Command}
use ignis_rs.FrameGraph.{ImageAccessMode, BufferAccessMode, PassDecl}
use ignis_rs.FrameGraph.Compiled.{RealizedImage, Event, records, runs, image_usage}

abbrev pub meta_of : RealizedImage → TrackedImage
meta_of img = record {
  mip_levels = img.mip_levels;
  array_layers = img.array_layers;
  aspect = img.aspect;
}

-- A barrier on a whole image.
abbrev pub whole : TrackedImage → ImageSubresourceRange → Bool
whole meta range =
    range.base_mip_level == 0
    && range.level_count == meta.mip_levels
    && range.base_array_layer == 0
    && range.layer_count == meta.array_layers

abbrev pub with_layout : ℕ → ℕ → (ℕ → ℕ) → ℕ → ℕ
with_layout image layout layouts k = if k == image then layout else layouts k

-- The layouts that the passes declare: each access of a pass asks for one.
module _ (vk : Vk) (images : List RealizedImage) where
  abbrev pub used : List (ℕ × ImageAccessMode) → (ℕ → ℕ) → ℕ → ℕ
  used [] layouts = layouts
  used ((h, mode) ∷ access) layouts = elim (get_elem? images h) [
    | none ↦ used access layouts
    | some img ↦
        used access (with_layout img.handle (ImageUsage.resolve vk (image_usage mode)).0 layouts)
  ]

  -- The closures of the passes in an order, each with the layouts after the accesses of its pass.
  abbrev pub declared : List PassDecl → List ℕ → (ℕ → ℕ) → List (ℕ × (ℕ → ℕ))
  declared passes [] layouts = []
  declared passes (i ∷ order) layouts = elim (get_elem? passes i) [
    | none ↦ declared passes order layouts
    | some pass ↦
        let layouts' = used pass.access.image layouts in
        elim pass.execute [
          | none ↦ declared passes order layouts'
          | some cb ↦ (cb, layouts') ∷ declared passes order layouts'
        ]
  ]

module _ (images : List RealizedImage) where
  -- The device's images that the accesses of a pass name.
  abbrev pub handles : List (ℕ × ImageAccessMode) → List ℕ
  handles [] = []
  handles ((h, mode) ∷ access) = elim (get_elem? images h) [
    | none ↦ handles access
    | some img ↦ img.handle ∷ handles access
  ]

  -- No two accesses of a pass name one image.
  abbrev pub Single : PassDecl → Type 0
  Single pass = (image : ℕ) → occurs image (handles pass.access.image) ≤ 1

abbrev pub targets : List ImageMemoryBarrier → List ℕ
targets barriers = map (λ (b : ImageMemoryBarrier). b.image) barriers

-- What the device makes of the commands. A barrier that does not cover its image, or that does not
-- start from the layout of its image, is an error. The barriers of one command have no order among
-- them, so two on one image are an error as well; on different images their order does not matter.
module _ (metas : ℕ → TrackedImage) where
  abbrev pub after_barriers : List ImageMemoryBarrier → (ℕ → ℕ) → Option (ℕ → ℕ)
  after_barriers [] layouts = some layouts
  after_barriers (b ∷ barriers) layouts =
      if (b.old_layout == layouts b.image && whole (metas b.image) b.subresource_range)
        && occurs b.image (targets barriers) == 0
      then after_barriers barriers (with_layout b.image b.new_layout layouts)
      else none

  -- The closures that are run, each with the layouts that it finds.
  abbrev pub replay : List Event → (ℕ → ℕ) → Option (List (ℕ × (ℕ → ℕ)))
  replay [] layouts = some []
  replay (records (Command.pipeline_barrier src dst buffers barriers) ∷ events) layouts = do
    layouts' ← after_barriers barriers layouts
    replay events layouts'
  replay (runs cb ∷ events) layouts = do rest ← replay events layouts; some ((cb, layouts) ∷ rest)

  -- The images of a graph are what their handles say, with a subresource each, in their initial
  -- layouts.
  abbrev pub Starts : List RealizedImage → (ℕ → ℕ) → Type 0
  Starts images layouts =
      All
        (λ (img : RealizedImage).
          (metas img.handle ≡ meta_of img)
          × (layouts img.handle ≡ img.initial_layout)
          × (0 < img.mip_levels)
          × (0 < img.array_layers))
        images

-- No access of a pass is out of range, of so many images and buffers.
abbrev pub InRange : ℕ → ℕ → PassDecl → Type 0
InRange images buffers pass =
    All (λ (a : ℕ × ImageAccessMode). a.0 < images) pass.access.image
    × All (λ (a : ℕ × BufferAccessMode). a.0 < buffers) pass.access.buffer
