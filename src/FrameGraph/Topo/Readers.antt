-- ===== src/FrameGraph/Topo/Readers.antt =====
-- framegraph.rs: the pairs of `topo_sort` over all passes.
use ignis_rs.Base.{ℕ, zero, suc, ◌+◌, ◌<◌, ◌≡◌, ◌≢◌, ◌∙◌, subst, true, List, [], ◌∷◌, arith, All}
use ignis_rs.Base.Occurs.{occurs}
use ignis_rs.FrameGraph.{PassDecl}
use ignis_rs.FrameGraph.Topo.{
  writes_to_image, writes_to_buffer, image_of, buffer_of, writers, windows, reads_of, serialize,
  readers, requests,
}
use ignis_rs.FrameGraph.Topo.Graph.{pair_in, pair_in-append, All-append}
use ignis_rs.FrameGraph.Topo.Pairs.{reads_at, pair_in-reads_of, reads_of-All, serialize-All}

pub pair_in-readers_image :
    (all : List PassDecl) (i : ℕ) (passes : List PassDecl) (h k w : ℕ)
    → 0 < reads_at writes_to_image image_of passes h k
    → 0 < occurs w (writers writes_to_image image_of h 0 all)
    → w ≢ i + k
    → pair_in w (i + k) (readers all i passes) ≡ true
unfolding readers
pair_in-readers_image all i [] h k w r m ne = absurd (omega (arith, r))
pair_in-readers_image all i (pass ∷ passes) h zero w r m ne =
    let now =
      pair_in-reads_of writes_to_image image_of all i (image_of pass) h w r m
        (λ e. ne (omega (arith, e))) in
    let shift : i ≡ i + 0 = omega arith in
    rw (← shift) (
      pair_in-append w i (reads_of writes_to_image image_of all i (image_of pass)) _
      ∙ ground (arith, now))
pair_in-readers_image all i (pass ∷ passes) h (suc k) w r m ne =
    let shift : i + 1 + k ≡ i + suc k = omega arith in
    let rest : pair_in w (i + suc k) (readers all (i + 1) passes) ≡ true =
      subst (λ (t : ℕ). pair_in w t (readers all (i + 1) passes) ≡ true) shift
        (pair_in-readers_image all (i + 1) passes h k w r m (λ e. ne (omega (arith, e)))) in
    pair_in-append w (i + suc k) (reads_of writes_to_image image_of all i (image_of pass)) _
    ∙ ground (
      arith,
      rest,
      pair_in-append w (i + suc k) (reads_of writes_to_buffer buffer_of all i (buffer_of pass))
          (readers all (i + 1) passes),
    )

pub pair_in-readers_buffer :
    (all : List PassDecl) (i : ℕ) (passes : List PassDecl) (h k w : ℕ)
    → 0 < reads_at writes_to_buffer buffer_of passes h k
    → 0 < occurs w (writers writes_to_buffer buffer_of h 0 all)
    → w ≢ i + k
    → pair_in w (i + k) (readers all i passes) ≡ true
unfolding readers
pair_in-readers_buffer all i [] h k w r m ne = absurd (omega (arith, r))
pair_in-readers_buffer all i (pass ∷ passes) h zero w r m ne =
    let now =
      pair_in-reads_of writes_to_buffer buffer_of all i (buffer_of pass) h w r m
        (λ e. ne (omega (arith, e))) in
    let shift : i ≡ i + 0 = omega arith in
    rw (← shift) (
      pair_in-append w i (reads_of writes_to_image image_of all i (image_of pass)) _
      ∙ ground (
        arith,
        now,
        pair_in-append w i (reads_of writes_to_buffer buffer_of all i (buffer_of pass))
            (readers all (i + 1) passes),
      ))
pair_in-readers_buffer all i (pass ∷ passes) h (suc k) w r m ne =
    let shift : i + 1 + k ≡ i + suc k = omega arith in
    let rest : pair_in w (i + suc k) (readers all (i + 1) passes) ≡ true =
      subst (λ (t : ℕ). pair_in w t (readers all (i + 1) passes) ≡ true) shift
        (pair_in-readers_buffer all (i + 1) passes h k w r m (λ e. ne (omega (arith, e)))) in
    pair_in-append w (i + suc k) (reads_of writes_to_image image_of all i (image_of pass)) _
    ∙ ground (
      arith,
      rest,
      pair_in-append w (i + suc k) (reads_of writes_to_buffer buffer_of all i (buffer_of pass))
          (readers all (i + 1) passes),
    )

-- What holds of every pair that the readers of a handle make with its writers.
abbrev pub FromReads : (ℕ × ℕ → Type 0) → List PassDecl → ℕ → List PassDecl → Type 0
FromReads P all i passes =
    ((h k w : ℕ)
      → 0 < reads_at writes_to_image image_of passes h k
      → 0 < occurs w (writers writes_to_image image_of h 0 all)
      → w ≢ i + k
      → P (w, i + k))
    × ((h k w : ℕ)
        → 0 < reads_at writes_to_buffer buffer_of passes h k
        → 0 < occurs w (writers writes_to_buffer buffer_of h 0 all)
        → w ≢ i + k
        → P (w, i + k))

pub readers-All :
    (P : ℕ × ℕ → Type 0) (all : List PassDecl) (i : ℕ) (passes : List PassDecl)
    → FromReads P all i passes
    → All P (readers all i passes)
unfolding readers
readers-All P all i [] k = tt
readers-All P all i (pass ∷ passes) k =
    All-append P (reads_of writes_to_image image_of all i (image_of pass)) _
      (reads_of-All writes_to_image image_of P all i (image_of pass)
        λ h w r m ne. subst (λ (t : ℕ). P (w, t)) here (k.0 h 0 w r m (λ e. ne (omega (arith, e)))))
      (All-append P (reads_of writes_to_buffer buffer_of all i (buffer_of pass)) _
        (reads_of-All writes_to_buffer buffer_of P all i (buffer_of pass) λ h w r m ne.
          subst (λ (t : ℕ). P (w, t)) here (k.1 h 0 w r m (λ e. ne (omega (arith, e)))))
        (readers-All P all (i + 1) passes (
          λ h j w r m ne.
              subst (λ (t : ℕ). P (w, t)) (shift j)
                (k.0 h (suc j) w r m (λ e. ne (omega (arith, e)))),
          λ h j w r m ne.
              subst (λ (t : ℕ). P (w, t)) (shift j)
                (k.1 h (suc j) w r m (λ e. ne (omega (arith, e)))),
        )))
  where
    here : i + 0 ≡ i
    here = omega arith

    shift : (j : ℕ) → i + suc j ≡ i + 1 + j
    shift j = omega arith

-- What holds of every pair.
pub requests-All :
    (P : ℕ × ℕ → Type 0) (image_keys buffer_keys : List ℕ) (passes : List PassDecl)
    → ((h : ℕ) → All P (windows (writers writes_to_image image_of h 0 passes)))
    → ((h : ℕ) → All P (windows (writers writes_to_buffer buffer_of h 0 passes)))
    → FromReads P passes 0 passes
    → All P (requests image_keys buffer_keys passes)
unfolding requests
requests-All P image_keys buffer_keys passes images buffers reads =
    All-append P (serialize writes_to_image image_of passes image_keys) _
      (serialize-All writes_to_image image_of P passes image_keys images)
      (All-append P (serialize writes_to_buffer buffer_of passes buffer_keys) _
        (serialize-All writes_to_buffer buffer_of P passes buffer_keys buffers)
        (readers-All P passes 0 passes reads))
