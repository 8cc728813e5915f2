-- ===== src/FrameGraph/Topo/Tests.antt =====
-- framegraph.rs: runs of `topo_sort`.
use ignis_rs.Base.{
  ℕ, zero, suc, ◌-◌, ◌<◌, ◌≡◌, ◌≢◌, refl, none, some, List, [], ◌∷◌, arith, ltb, if◌then◌else◌,
}
use ignis_rs.Base.Occurs.{occurs}
use ignis_rs.Error.{invalid_config, Result, ok, err}
use ignis_rs.Tracking.ImageUsage.{color_attachment, fragment_shader_read, compute_shader_read_write}
use ignis_rs.Tracking.BufferUsage.{transfer_dst}
use ignis_rs.FrameGraph.{ImageAccessMode, BufferAccessMode, PassDecl}
use ignis_rs.FrameGraph.Topo.{
  writes_to_image, writes_to_buffer, image_of, buffer_of, writers_in, writers, from_writers,
  windows, reads_of, serialize, readers, requests, add_edge, add_edges, no_edges, zeros, release,
  kahn, checked, topo_sort,
}
use ignis_rs.FrameGraph.Topo.Writers.{writes_at}
use ignis_rs.FrameGraph.Topo.Pairs.{reads_at, Ranks, Listed, WritesOnce}
use ignis_rs.FrameGraph.Topo.Sorted.{index_of}
use ignis_rs.FrameGraph.Topo.Order.{
  topo_sort-Ranks, topo_sort_total, topo_sort_complete, topo_sort-read_write, topo_sort-write_twice,
}

abbrev pass_of : List (ℕ × ImageAccessMode) → List (ℕ × BufferAccessMode) → PassDecl
pass_of image buffer = record {
  name = "pass";
  access = record { image = image; buffer = buffer };
  execute = none;
}

-- The later pass writes the image that the earlier one reads, and a buffer.
abbrev reversed : List PassDecl
reversed =
    pass_of ((0, ImageAccessMode.read fragment_shader_read) ∷ []) []
    ∷ pass_of ((0, ImageAccessMode.write color_attachment) ∷ [])
        ((4, BufferAccessMode.write transfer_dst) ∷ [])
    ∷ []

reversed_sorted : topo_sort (0 ∷ []) (4 ∷ []) reversed ≡ some (ok (1 ∷ 0 ∷ []))
unfolding topo_sort requests writers_in writers from_writers windows reads_of serialize readers
    add_edge add_edges no_edges zeros release kahn checked writes_to_image writes_to_buffer
reversed_sorted = refl

image_of-Listed : Listed writes_to_image image_of reversed (0 ∷ [])
unfolding writes_to_image writes_to_buffer
image_of-Listed h zero w = ground (arith, w)
image_of-Listed h (suc zero) w = ground (arith, w)
image_of-Listed h (suc (suc a)) w = ground (arith, w)

buffer_of-Listed : Listed writes_to_buffer buffer_of reversed (4 ∷ [])
unfolding writes_to_image writes_to_buffer
buffer_of-Listed h zero w = ground (arith, w)
buffer_of-Listed h (suc zero) w = ground (arith, w)
buffer_of-Listed h (suc (suc a)) w = ground (arith, w)

topo_sort-Ranks_example :
    ((v : ℕ) → occurs v (1 ∷ 0 ∷ []) ≡ (if ltb v 2 then 1 else 0))
    × Ranks writes_to_image image_of reversed (λ v. index_of v (1 ∷ 0 ∷ []))
    × Ranks writes_to_buffer buffer_of reversed (λ v. index_of v (1 ∷ 0 ∷ []))
topo_sort-Ranks_example =
    topo_sort-Ranks (0 ∷ []) (4 ∷ []) reversed (1 ∷ 0 ∷ []) image_of-Listed buffer_of-Listed
      reversed_sorted

topo_sort_total_example :
    (result : Result (List ℕ)) × (topo_sort (0 ∷ []) (4 ∷ []) reversed ≡ some result)
topo_sort_total_example = topo_sort_total (0 ∷ []) (4 ∷ []) reversed

images_once : WritesOnce writes_to_image image_of reversed
unfolding writes_to_image writes_to_buffer
images_once h zero = ground arith
images_once h (suc zero) = ground arith
images_once h (suc (suc a)) = ground arith

buffers_once : WritesOnce writes_to_buffer buffer_of reversed
unfolding writes_to_image writes_to_buffer
buffers_once h zero = ground arith
buffers_once h (suc zero) = ground arith
buffers_once h (suc (suc a)) = ground arith

images_rank : Ranks writes_to_image image_of reversed (λ v. 2 - v)
unfolding writes_to_image writes_to_buffer
images_rank = record { writer_reader = write_before_read; writer_writer = single }
  where
    write_before_read :
        (h a b : ℕ)
        → 0 < writes_at writes_to_image image_of reversed h a
        → 0 < reads_at writes_to_image image_of reversed h b
        → a ≢ b
        → 2 - a < 2 - b
    write_before_read h zero b w r ne = absurd (ground (arith, w))
    write_before_read h (suc zero) zero w r ne = ground arith
    write_before_read h (suc zero) (suc zero) w r ne = absurd (ne refl)
    write_before_read h (suc zero) (suc (suc b)) w r ne = absurd (ground (arith, r))
    write_before_read h (suc (suc a)) b w r ne = absurd (ground (arith, w))

    single :
        (h a b : ℕ)
        → 0 < writes_at writes_to_image image_of reversed h a
        → 0 < writes_at writes_to_image image_of reversed h b
        → a < b
        → 2 - a < 2 - b
    single h zero b wa wb l = absurd (ground (arith, wa))
    single h (suc zero) zero wa wb l = absurd (ground (arith, l))
    single h (suc zero) (suc zero) wa wb l = absurd (ground (arith, l))
    single h (suc zero) (suc (suc b)) wa wb l = absurd (ground (arith, wb))
    single h (suc (suc a)) b wa wb l = absurd (ground (arith, wa))

buffers_rank : Ranks writes_to_buffer buffer_of reversed (λ v. 2 - v)
unfolding writes_to_image writes_to_buffer
buffers_rank = record {
  writer_reader = λ h a b w r ne. absurd (unread h b r);
  writer_writer = single;
}
  where
    unread : (h b : ℕ) → 0 < reads_at writes_to_buffer buffer_of reversed h b → ⊥
    unread h zero r = ground (arith, r)
    unread h (suc zero) r = ground (arith, r)
    unread h (suc (suc b)) r = ground (arith, r)

    single :
        (h a b : ℕ)
        → 0 < writes_at writes_to_buffer buffer_of reversed h a
        → 0 < writes_at writes_to_buffer buffer_of reversed h b
        → a < b
        → 2 - a < 2 - b
    single h zero b wa wb l = absurd (ground (arith, wa))
    single h (suc zero) zero wa wb l = absurd (ground (arith, l))
    single h (suc zero) (suc zero) wa wb l = absurd (ground (arith, l))
    single h (suc zero) (suc (suc b)) wa wb l = absurd (ground (arith, wb))
    single h (suc (suc a)) b wa wb l = absurd (ground (arith, wa))

topo_sort_complete_example : (out : List ℕ) × (topo_sort (0 ∷ []) (4 ∷ []) reversed ≡ some (ok out))
topo_sort_complete_example =
    topo_sort_complete (0 ∷ []) (4 ∷ []) reversed (λ v. 2 - v) images_once buffers_once images_rank
      buffers_rank

-- Two passes that blend onto one image, each reading what it writes.
abbrev blending : PassDecl
blending =
    pass_of
      ((0, ImageAccessMode.read color_attachment)
        ∷ (0, ImageAccessMode.write color_attachment)
        ∷ [])
      []

topo_sort-read_write_example :
    topo_sort (0 ∷ []) [] (blending ∷ blending ∷ [])
    ≡ some (err (invalid_config "framegraph: dependency cycle detected"))
unfolding writes_to_image writes_to_buffer
topo_sort-read_write_example =
    topo_sort-read_write (0 ∷ []) [] (blending ∷ blending ∷ []) 0 0 1 (λ e. omega (arith, e))
      (ground arith) (ground arith) (ground arith) (ground arith)

-- One pass on its own, which names the image that it writes twice.
abbrev twice : List PassDecl
twice =
    pass_of
      ((0, ImageAccessMode.write color_attachment)
        ∷ (0, ImageAccessMode.write compute_shader_read_write)
        ∷ [])
      []
    ∷ []

topo_sort-write_twice_example :
    topo_sort (0 ∷ []) [] twice
    ≡ some (err (invalid_config "framegraph: dependency cycle detected"))
unfolding writes_to_image writes_to_buffer
topo_sort-write_twice_example =
    topo_sort-write_twice (0 ∷ []) [] twice 0 0 (ground arith) (ground arith)
