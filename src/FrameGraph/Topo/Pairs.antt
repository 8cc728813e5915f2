-- ===== src/FrameGraph/Topo/Pairs.antt =====
-- framegraph.rs: the pairs that `topo_sort` makes of the accesses, and what they stand for.
use ignis_rs.Base.{
  ℕ, zero, suc, ◌+◌, ◌≤◌, ◌<◌, ◌≡◌, ◌≢◌, ap, ◌∙◌, subst, inl, inr, Bool, true, ◌&&◌, not, List, [],
  ◌∷◌, arith, ◌==◌, if◌then◌else◌, Bool-cases, All, length,
}
use ignis_rs.Base.Occurs.{occurs}
use ignis_rs.FrameGraph.{PassDecl}
use ignis_rs.FrameGraph.Topo.{writers, from_writers, windows, reads_of, serialize}
use ignis_rs.FrameGraph.Topo.Graph.{pair_in, pair_in-append, All-append}
use ignis_rs.FrameGraph.Topo.Writers.{
  pair_in-from_writers, from_writers-All, writes_at, occurs-writers,
}

module _ {M : Type 0} (is_write : M → Bool) (accesses : PassDecl → List (ℕ × M)) where
  abbrev pub read_count : ℕ → List (ℕ × M) → ℕ
  read_count h [] = 0
  read_count h ((h', mode) ∷ rest) =
      (if not (is_write mode) && h' == h then 1 else 0) + read_count h rest

  -- How many accesses of the pass at an index read a handle.
  abbrev pub reads_at : List PassDecl → ℕ → ℕ → ℕ
  reads_at [] h a = 0
  reads_at (pass ∷ passes) h zero = read_count h (accesses pass)
  reads_at (pass ∷ passes) h (suc a) = reads_at passes h a

  -- A rank puts each writer of a handle before the other passes that read it, and the writers
  -- in the order of their indices.
  pub record Ranks (passes : List PassDecl) (rank : ℕ → ℕ) : Type 0 where
    pub writer_reader :
        (h a b : ℕ)
        → 0 < writes_at is_write accesses passes h a
        → 0 < reads_at passes h b
        → a ≢ b
        → rank a < rank b
    pub writer_writer :
        (h a b : ℕ)
        → 0 < writes_at is_write accesses passes h a
        → 0 < writes_at is_write accesses passes h b
        → a < b
        → rank a < rank b

  -- The keys have every handle that is written.
  abbrev pub Listed : List PassDecl → List ℕ → Type 0
  Listed passes keys = (h a : ℕ) → 0 < writes_at is_write accesses passes h a → 0 < occurs h keys

  -- No pass has two accesses that write one handle.
  abbrev pub WritesOnce : List PassDecl → Type 0
  WritesOnce passes = (h a : ℕ) → writes_at is_write accesses passes h a ≤ 1

  pub writes_at-lt :
      (passes : List PassDecl) (h a : ℕ)
      → 0 < writes_at is_write accesses passes h a
      → a < length passes
  writes_at-lt [] h a p = absurd (omega (arith, p))
  writes_at-lt (pass ∷ passes) h zero p = omega arith
  writes_at-lt (pass ∷ passes) h (suc a) p = omega (arith, writes_at-lt passes h a p)

  pub writers_iff :
      (passes : List PassDecl) (h v : ℕ)
      → occurs v (writers is_write accesses h 0 passes) ≡ writes_at is_write accesses passes h v
  writers_iff passes h v =
      occurs-writers is_write accesses h 0 passes v (omega arith)
      ∙ ap (λ (t : ℕ). writes_at is_write accesses passes h t) {y = v} (omega arith)

  pub pair_in-reads_of :
      (all : List PassDecl) (i : ℕ) (list : List (ℕ × M)) (h w : ℕ)
      → 0 < read_count h list
      → 0 < occurs w (writers is_write accesses h 0 all)
      → w ≢ i
      → pair_in w i (reads_of is_write accesses all i list) ≡ true
  unfolding reads_of
  pair_in-reads_of all i [] h w r m ne = absurd (omega (arith, r))
  pair_in-reads_of all i ((h', mode) ∷ rest) h w r m ne =
      pair_in-append w i _ (reads_of is_write accesses all i rest)
      ∙ elim (Bool-cases (not (is_write mode) && h' == h)) [
        | inl here ↦
            let e : h ≡ h' = ground (arith, here) in
            let now =
              pair_in-from_writers (writers is_write accesses h' 0 all) i w
                (subst (λ (t : ℕ). 0 < occurs w (writers is_write accesses t 0 all)) e m) ne in
            ground (arith, here, now)
        | inr later ↦
            ground (arith, pair_in-reads_of all i rest h w (ground (arith, r, later)) m ne)
      ]

  pub reads_of-All :
      (P : ℕ × ℕ → Type 0) (all : List PassDecl) (i : ℕ) (list : List (ℕ × M))
      → ((h w : ℕ)
          → 0 < read_count h list
          → 0 < occurs w (writers is_write accesses h 0 all)
          → w ≢ i
          → P (w, i))
      → All P (reads_of is_write accesses all i list)
  unfolding reads_of
  reads_of-All P all i [] k = tt
  reads_of-All P all i ((h', mode) ∷ rest) k =
      All-append P _ (reads_of is_write accesses all i rest) now
        (reads_of-All P all i rest λ h w r. k h w (ground (arith, r)))
    where
      now :
          All P (if is_write mode then [] else from_writers (writers is_write accesses h' 0 all) i)
      now = elim (Bool-cases (is_write mode)) [
        | inl writes ↦ rw writes tt
        | inr reads ↦ rw reads (
            from_writers-All P (writers is_write accesses h' 0 all) i
              λ w m ne. k h' w (ground (arith, reads)) m ne)
      ]

  pub pair_in-serialize :
      (passes : List PassDecl) (keys : List ℕ) (h a b : ℕ)
      → 0 < occurs h keys
      → pair_in a b (windows (writers is_write accesses h 0 passes)) ≡ true
      → pair_in a b (serialize is_write accesses passes keys) ≡ true
  unfolding serialize
  pair_in-serialize passes [] h a b l e = absurd (omega (arith, l))
  pair_in-serialize passes (h' ∷ keys) h a b l e =
      pair_in-append a b (windows (writers is_write accesses h' 0 passes)) _
      ∙ elim (Bool-cases (h == h')) [
        | inl here ↦
            let e' : h ≡ h' = ground (arith, here) in
            let now =
              subst (λ (t : ℕ). pair_in a b (windows (writers is_write accesses t 0 passes)) ≡ true)
                e' e in
            ground (arith, now)
        | inr later ↦
            ground (arith, pair_in-serialize passes keys h a b (ground (arith, l, later)) e)
      ]

  pub serialize-All :
      (P : ℕ × ℕ → Type 0) (passes : List PassDecl) (keys : List ℕ)
      → ((h : ℕ) → All P (windows (writers is_write accesses h 0 passes)))
      → All P (serialize is_write accesses passes keys)
  unfolding serialize
  serialize-All P passes [] k = tt
  serialize-All P passes (h ∷ keys) k =
      All-append P (windows (writers is_write accesses h 0 passes)) _ (k h)
        (serialize-All P passes keys k)
