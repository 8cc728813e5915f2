-- ===== src/FrameGraph/Topo/Order.antt =====
-- framegraph.rs: the order in which `topo_sort` puts the passes.
use ignis_rs.Base.{
  ℕ, ◌+◌, ◌<◌, ◌≡◌, ◌≢◌, sym, ap, ◌∙◌, Bool, true, ◌||◌, some, List, [], arith, ltb, if◌then◌else◌,
  All, length,
}
use ignis_rs.Base.Occurs.{occurs}
use ignis_rs.Error.{invalid_config, Result, ok, err}
use ignis_rs.FrameGraph.{PassDecl}
use ignis_rs.FrameGraph.Topo.{
  writes_to_image, writes_to_buffer, image_of, buffer_of, writers, windows, serialize, readers,
  checked, topo_sort,
}
use ignis_rs.FrameGraph.Topo.Kahn.{Settled-complete}
use ignis_rs.FrameGraph.Topo.Graph.{pair_in, pair_in-All}
use ignis_rs.FrameGraph.Topo.Writers.{
  windows_rise, windows_twice, windows-All, writes_at, writers-Ascending,
}
use ignis_rs.FrameGraph.Topo.Readers.{pair_in-readers_image, pair_in-readers_buffer, requests-All}
use ignis_rs.FrameGraph.Topo.Pairs.{
  reads_at, Ranks, Listed, WritesOnce, writers_iff, pair_in-serialize,
}
use ignis_rs.FrameGraph.Topo.Sorted.{
  index_of, occurs-full, found-writes, checked_all, pair_of, topo_sort-cyclic, pairs, E, bounded,
  run, among, settled, before,
}

module _ {M : Type 0} (is_write : M → Bool) (accesses : PassDecl → List (ℕ × M))
    (passes : List PassDecl) (keys : List ℕ) (rank : ℕ → ℕ)
    (listed : Listed is_write accesses passes keys) where
  -- A rank that the pairs of one kind of resource raise.
  Ranks-intro :
      ((a b : ℕ) → pair_in a b (serialize is_write accesses passes keys) ≡ true → rank a < rank b)
      → ((h a b : ℕ)
          → 0 < reads_at is_write accesses passes h b
          → 0 < occurs a (writers is_write accesses h 0 passes)
          → a ≢ b
          → rank a < rank b)
      → Ranks is_write accesses passes rank
  Ranks-intro serial reads = record {
    writer_reader = λ h a b w r ne. reads h a b r (found h a w) ne;
    writer_writer = λ h a b wa wb l.
        windows_rise rank 0 (writers is_write accesses h 0 passes) a b
          (writers-Ascending is_write accesses h 0 passes)
          (λ x y p.
            serial x y (pair_in-serialize is_write accesses passes keys h x y (listed h a wa) p))
          (found h a wa) (found h b wb) l;
  }
    where
      found :
          (h a : ℕ)
          → 0 < writes_at is_write accesses passes h a
          → 0 < occurs a (writers is_write accesses h 0 passes)
      found h a w = omega (arith, w, writers_iff is_write accesses passes h a)

module _ {M : Type 0} (is_write : M → Bool) (accesses : PassDecl → List (ℕ × M))
    (passes : List PassDecl) (rank : ℕ → ℕ) (ranks : Ranks is_write accesses passes rank) where
  Ranks-windows :
      WritesOnce is_write accesses passes
      → (h : ℕ)
      → All (λ (p : ℕ × ℕ). rank p.0 < rank p.1) (windows (writers is_write accesses h 0 passes))
  Ranks-windows once h =
      windows-All _ 0 (writers is_write accesses h 0 passes)
        (writers-Ascending is_write accesses h 0 passes)
        (λ v. omega (arith, writers_iff is_write accesses passes h v, once h v))
        λ a b ha hb l.
          ranks.writer_writer h a b (found-writes [] [] passes is_write accesses h a ha)
            (found-writes [] [] passes is_write accesses h b hb) l

  Ranks-reads :
      (h k w : ℕ)
      → 0 < reads_at is_write accesses passes h k
      → 0 < occurs w (writers is_write accesses h 0 passes)
      → w ≢ 0 + k
      → rank w < rank (0 + k)
  Ranks-reads h k w r m ne = omega (
    arith,
    ranks.writer_reader h w k (found-writes [] [] passes is_write accesses h w m) r
        (λ e. ne (omega (arith, e))),
    ap rank {x = k} {y = 0 + k} (omega arith),
  )

-- If the keys list every handle that is written and the sort succeeds, the order has each pass
-- exactly once and nothing else, and for images and for buffers every pass that writes a resource
-- stands before each other pass that reads it, and the writers of a resource stand in the order of
-- their registration.
pub topo_sort-Ranks :
    (image_keys buffer_keys : List ℕ) (passes : List PassDecl) (out : List ℕ)
    → Listed writes_to_image image_of passes image_keys
    → Listed writes_to_buffer buffer_of passes buffer_keys
    → topo_sort image_keys buffer_keys passes ≡ some (ok out)
    → ((v : ℕ) → occurs v out ≡ (if ltb v (length passes) then 1 else 0))
      × Ranks writes_to_image image_of passes (λ v. index_of v out)
      × Ranks writes_to_buffer buffer_of passes (λ v. index_of v out)
topo_sort-Ranks image_keys buffer_keys passes out images buffers sorted =
    let (s, all) = settled image_keys buffer_keys passes out sorted in
    (
      occurs-full (length passes) out s.once s.inside all,
      Ranks-intro writes_to_image image_of passes image_keys (λ v. index_of v out) images
          (λ a b p. raised a b (ground (arith, p)))
          (λ h a b r w ne. raised a b (
            ground (
              arith,
              pair_in-readers_image passes 0 passes h b a r w (λ e. ne (omega (arith, e))),
            ))),
      Ranks-intro writes_to_buffer buffer_of passes buffer_keys (λ v. index_of v out) buffers
          (λ a b p. raised a b (ground (arith, p)))
          (λ h a b r w ne. raised a b (
            ground (
              arith,
              pair_in-readers_buffer passes 0 passes h b a r w (λ e. ne (omega (arith, e))),
            ))),
    )
  where
    raised :
        (a b : ℕ)
        → (pair_in a b (serialize writes_to_image image_of passes image_keys)
            || (pair_in a b (serialize writes_to_buffer buffer_of passes buffer_keys)
                || pair_in a b (readers passes 0 passes)))
          ≡ true
        → index_of a out < index_of b out
    raised a b h =
        before image_keys buffer_keys passes out sorted a b
          (among image_keys buffer_keys passes a b h)

-- The sort ends: as many rounds as there are passes are enough, whatever the passes declare.
pub topo_sort_total :
    (image_keys buffer_keys : List ℕ) (passes : List PassDecl)
    → (result : Result (List ℕ)) × (topo_sort image_keys buffer_keys passes ≡ some result)
topo_sort_total image_keys buffer_keys passes =
    let (out, runs, s) = run image_keys buffer_keys passes in (checked (length passes) out, runs)

-- If no pass has two accesses that write one resource, and some rank puts each writer of a resource
-- before the other passes that read it and the writers of a resource in the order of their
-- registration, the sort succeeds: it refuses no graph that can be ordered.
pub topo_sort_complete :
    (image_keys buffer_keys : List ℕ) (passes : List PassDecl) (rank : ℕ → ℕ)
    → WritesOnce writes_to_image image_of passes
    → WritesOnce writes_to_buffer buffer_of passes
    → Ranks writes_to_image image_of passes rank
    → Ranks writes_to_buffer buffer_of passes rank
    → (out : List ℕ) × (topo_sort image_keys buffer_keys passes ≡ some (ok out))
topo_sort_complete image_keys buffer_keys passes rank images buffers ranks_images ranks_buffers =
    let (out, runs, s) = run image_keys buffer_keys passes in
    let all : length out ≡ length passes =
      Settled-complete (length passes) (E image_keys buffer_keys passes)
        (bounded image_keys buffer_keys passes) out rank s
        λ u v lu lv e.
          pair_in-All _ u v (pairs image_keys buffer_keys passes) raised
            (pair_of image_keys buffer_keys passes u v e) in
    (out, runs ∙ ap some (checked_all (length passes) out all))
  where
    raised : All (λ (p : ℕ × ℕ). rank p.0 < rank p.1) (pairs image_keys buffer_keys passes)
    raised =
        requests-All _ image_keys buffer_keys passes
          (Ranks-windows writes_to_image image_of passes rank ranks_images images)
          (Ranks-windows writes_to_buffer buffer_of passes rank ranks_buffers buffers)
          (
            Ranks-reads writes_to_image image_of passes rank ranks_images,
            Ranks-reads writes_to_buffer buffer_of passes rank ranks_buffers,
          )

-- If two different passes both read and write one image, the sort fails with the error for a cycle,
-- whatever else is declared.
pub topo_sort-read_write :
    (image_keys buffer_keys : List ℕ) (passes : List PassDecl) (h a b : ℕ)
    → a ≢ b
    → 0 < writes_at writes_to_image image_of passes h a
    → 0 < reads_at writes_to_image image_of passes h a
    → 0 < writes_at writes_to_image image_of passes h b
    → 0 < reads_at writes_to_image image_of passes h b
    → topo_sort image_keys buffer_keys passes
      ≡ some (err (invalid_config "framegraph: dependency cycle detected"))
topo_sort-read_write image_keys buffer_keys passes h a b ne wa ra wb rb =
    topo_sort-cyclic image_keys buffer_keys passes a b (needs a b ne wa rb)
      (needs b a (λ e. ne (sym e)) wb ra)
  where
    needs :
        (x y : ℕ)
        → x ≢ y
        → 0 < writes_at writes_to_image image_of passes h x
        → 0 < reads_at writes_to_image image_of passes h y
        → pair_in x y (pairs image_keys buffer_keys passes) ≡ true
    needs x y ne w r = among image_keys buffer_keys passes x y (
        ground (
          arith,
          pair_in-readers_image passes 0 passes h y x r
              (omega (arith, w, writers_iff writes_to_image image_of passes h x))
              (λ e. ne (omega (arith, e))),
        ))

-- If the keys list an image that one pass writes in two of its accesses, the sort fails with the
-- error for a cycle, even if this pass is the only one.
pub topo_sort-write_twice :
    (image_keys buffer_keys : List ℕ) (passes : List PassDecl) (h a : ℕ)
    → 0 < occurs h image_keys
    → 1 < writes_at writes_to_image image_of passes h a
    → topo_sort image_keys buffer_keys passes
      ≡ some (err (invalid_config "framegraph: dependency cycle detected"))
topo_sort-write_twice image_keys buffer_keys passes h a listed w =
    topo_sort-cyclic image_keys buffer_keys passes a a self self
  where
    self : pair_in a a (pairs image_keys buffer_keys passes) ≡ true
    self = among image_keys buffer_keys passes a a (
        ground (
          arith,
          pair_in-serialize writes_to_image image_of passes image_keys h a a listed (
              windows_twice 0 (writers writes_to_image image_of h 0 passes) a
                (writers-Ascending writes_to_image image_of h 0 passes)
                (omega (arith, w, writers_iff writes_to_image image_of passes h a))),
        ))
