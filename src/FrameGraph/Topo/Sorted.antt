-- ===== src/FrameGraph/Topo/Sorted.antt =====
-- framegraph.rs: what `topo_sort` gives.
use ignis_rs.Base.{
  ℕ, zero, suc, ◌+◌, ◌≤◌, ◌<◌, ◌≡◌, refl, ap, ◌∙◌, subst, inl, inr, Bool, true, ◌||◌, some, List,
  [], ◌∷◌, ◌++◌, arith, ltb, ◌==◌, if◌then◌else◌, Bool-cases, le_cases, All, length,
}
use ignis_rs.Base.Occurs.{occurs, sum_to_at, sum_to-le-sum_to, sum_to-one, length-sum_to}
use ignis_rs.Error.{invalid_config, ok, err}
use ignis_rs.FrameGraph.{PassDecl}
use ignis_rs.FrameGraph.Topo.{
  writes_to_image, writes_to_buffer, image_of, buffer_of, writers, serialize, readers, requests,
  add_edges, no_edges, zeros, kahn, checked, topo_sort,
}
use ignis_rs.FrameGraph.Topo.Kahn.{kahn-Inv, Settled, Inv-Settled, Respects}
use ignis_rs.FrameGraph.Topo.Graph.{pair_in, pair_in-append, pair_in-All, edges_iff, start-Inv}
use ignis_rs.FrameGraph.Topo.Writers.{windows-members, writes_at}
use ignis_rs.FrameGraph.Topo.Readers.{requests-All}
use ignis_rs.FrameGraph.Topo.Pairs.{reads_at, writes_at-lt, writers_iff}

-- A list of as many different numbers below a bound has each of them.
pub occurs-full :
    (n : ℕ) (out : List ℕ)
    → ((v : ℕ) → occurs v out ≤ 1)
    → ((v : ℕ) → 0 < occurs v out → v < n)
    → length out ≡ n
    → (v : ℕ) → occurs v out ≡ (if ltb v n then 1 else 0)
occurs-full n out once inside full v = elim (le_cases n v) [
  | inl out_of ↦ elim (le_cases 1 (occurs v out)) [
    | inl there ↦ absurd (omega (arith, out_of, inside v there))
    | inr missing ↦ ground (arith, missing, out_of)
  ]
  | inr low ↦ elim (le_cases 1 (occurs v out)) [
    | inl there ↦ ground (arith, there, once v, low)
    | inr missing ↦
        let other : ℕ → ℕ = λ u. if u == v then 1 else occurs u out in
        let moved = sum_to_at n v (λ u. occurs u out) other low λ u ne. ground (arith, ne) in
        let here : other v ≡ 1 = ground arith in
        let most = sum_to-le-sum_to n other (λ u. 1) λ u l. ground (arith, once u) in
        absurd (
          omega (arith, moved, here, most, missing, full, length-sum_to n out inside, sum_to-one n))
  ]
]

-- The place of a number in a list, or its length if it does not occur.
abbrev pub index_of : ℕ → List ℕ → ℕ
index_of v [] = 0
index_of v (x ∷ xs) = if v == x then 0 else 1 + index_of v xs

Respects-index_of :
    (n : ℕ) (E : ℕ → List ℕ) (bounded : (u v : ℕ) → 0 < occurs v (E u) → v < n) (seen vs : List ℕ)
    (u v : ℕ)
    → Respects n E bounded seen vs
    → 0 < occurs v vs
    → u < n
    → 0 < occurs v (E u)
    → occurs u seen ≡ 0
    → index_of u vs < index_of v vs
Respects-index_of n E bounded seen [] u v r h l e out = absurd (omega (arith, h))
Respects-index_of n E bounded seen (x ∷ xs) u v r h l e out = elim (Bool-cases (v == x)) [
  | inl here ↦
      let same : v ≡ x = ground (arith, here) in
      absurd (omega (arith, out, r.0 u l (subst (λ (t : ℕ). 0 < occurs t (E u)) same e)))
  | inr later ↦ elim (Bool-cases (u == x)) [
    | inl first ↦ ground (arith, first, later)
    | inr beyond ↦
        let rest : index_of u xs < index_of v xs =
          Respects-index_of n E bounded (x ∷ seen) xs u v r.1 (ground (arith, h, later)) l e
            (ground (arith, out, beyond)) in
        ground (arith, rest, later, beyond)
  ]
]

pub reads_at-lt :
    {M : Type 0} (is_write : M → Bool) (accesses : PassDecl → List (ℕ × M)) (passes : List PassDecl)
    (h a : ℕ)
    → 0 < reads_at is_write accesses passes h a
    → a < length passes
reads_at-lt is_write accesses [] h a p = absurd (omega (arith, p))
reads_at-lt is_write accesses (pass ∷ passes) h zero p = omega arith
reads_at-lt is_write accesses (pass ∷ passes) h (suc a) p =
    omega (arith, reads_at-lt is_write accesses passes h a p)

All-first :
    (n : ℕ) (ps : List (ℕ × ℕ))
    → All (λ (p : ℕ × ℕ). (p.0 < n) × (p.1 < n)) ps
    → All (λ (p : ℕ × ℕ). p.0 < n) ps
All-first n [] h = tt
All-first n (p ∷ ps) h = (h.0.0, All-first n ps h.1)

checked_ok :
    (n : ℕ) (out' out : List ℕ)
    → some (checked n out') ≡ some (ok out)
    → (out' ≡ out) × (length out ≡ n)
unfolding checked
checked_ok n out' out e = elim (Bool-cases (length out' == n)) [
  | inl all ↦
      let taken : some (ok out') ≡ some (ok out) = rw (checked, all) at e in
      let same : out' ≡ out = cc (taken) in (same, ground (arith, all, ap length same))
  | inr fewer ↦
      let refused : some (err (invalid_config "framegraph: dependency cycle detected"))
          ≡ some (ok out) =
        rw (checked, fewer) at e in
      absurd (cc (refused))
]

pub checked_all : (n : ℕ) (out : List ℕ) → length out ≡ n → checked n out ≡ ok out
unfolding checked
checked_all n out all =
    let same : (length out == n) ≡ true = ground (arith, all) in rw (checked, same) refl

module _ (image_keys buffer_keys : List ℕ) (passes : List PassDecl) where
  abbrev pub pairs : List (ℕ × ℕ)
  pairs = requests image_keys buffer_keys passes

  abbrev pub E : ℕ → List ℕ
  E = (add_edges pairs no_edges).edges

  -- Every writer found, in a list for one handle, writes it.
  pub found-writes :
      {M : Type 0} (is_write : M → Bool) (accesses : PassDecl → List (ℕ × M)) (h a : ℕ)
      → 0 < occurs a (writers is_write accesses h 0 passes)
      → 0 < writes_at is_write accesses passes h a
  found-writes is_write accesses h a m = omega (arith, m, writers_iff is_write accesses passes h a)

  pub pairs-lt : All (λ (p : ℕ × ℕ). (p.0 < length passes) × (p.1 < length passes)) pairs
  pairs-lt =
      requests-All _ image_keys buffer_keys passes
        (λ h.
          windows-members _ (writers writes_to_image image_of h 0 passes)
            λ a b ha hb. (low writes_to_image image_of h a ha, low writes_to_image image_of h b hb))
        (λ h. windows-members _ (writers writes_to_buffer buffer_of h 0 passes) λ a b ha hb.
          (low writes_to_buffer buffer_of h a ha, low writes_to_buffer buffer_of h b hb))
        (
          λ h k w r m ne. (
            low writes_to_image image_of h w m,
            omega (arith, reads_at-lt writes_to_image image_of passes h k r),
          ),
          λ h k w r m ne. (
            low writes_to_buffer buffer_of h w m,
            omega (arith, reads_at-lt writes_to_buffer buffer_of passes h k r),
          ),
        )
    where
      low :
          {M : Type 0} (is_write : M → Bool) (accesses : PassDecl → List (ℕ × M)) (h a : ℕ)
          → 0 < occurs a (writers is_write accesses h 0 passes)
          → a < length passes
      low is_write accesses h a m =
          writes_at-lt is_write accesses passes h a (found-writes is_write accesses h a m)

  lows : All (λ (p : ℕ × ℕ). p.0 < length passes) pairs
  lows = All-first (length passes) pairs pairs-lt

  pub pair_of : (u v : ℕ) → 0 < occurs v (E u) → pair_in u v pairs ≡ true
  pair_of u v e = ground (arith, e, edges_iff (length passes) pairs u v lows)

  pub bounded : (u v : ℕ) → 0 < occurs v (E u) → v < length passes
  bounded u v e = (pair_in-All _ u v pairs pairs-lt (pair_of u v e)).1

  pub edge : (u v : ℕ) → pair_in u v pairs ≡ true → 0 < occurs v (E u)
  edge u v h = ground (arith, h, edges_iff (length passes) pairs u v lows)

  topo_sort-kahn :
      (out : List ℕ)
      → kahn
          (length passes)
          (zeros (length passes) 0 (add_edges pairs no_edges).indegree)
          E
          (add_edges pairs no_edges).indegree
          []
        ≡ some out
      → topo_sort image_keys buffer_keys passes ≡ some (checked (length passes) out)
  unfolding topo_sort checked
  topo_sort-kahn out runs = rw (topo_sort, runs) refl

  -- The loop ends, and leaves what it should.
  pub run :
      (out : List ℕ) × (topo_sort image_keys buffer_keys passes
        ≡ some (checked (length passes) out))
      × Settled (length passes) E bounded out
  run =
      let (out, edges, d, runs, v) =
        kahn-Inv (length passes) E bounded (length passes)
          (zeros (length passes) 0 (add_edges pairs no_edges).indegree) E
          (add_edges pairs no_edges).indegree [] (start-Inv (length passes) pairs lows bounded)
          (omega arith) in
      (out, topo_sort-kahn out runs, Inv-Settled (length passes) E bounded edges d out v)

  -- A pair among one of the three parts of the requests.
  pub among :
      (a b : ℕ)
      → (pair_in a b (serialize writes_to_image image_of passes image_keys)
          || (pair_in a b (serialize writes_to_buffer buffer_of passes buffer_keys)
              || pair_in a b (readers passes 0 passes)))
        ≡ true
      → pair_in a b pairs ≡ true
  unfolding requests
  among a b h = ground (
    arith,
    h,
    pair_in-append a b (serialize writes_to_image image_of passes image_keys)
        (serialize writes_to_buffer buffer_of passes buffer_keys ++ readers passes 0 passes),
    pair_in-append a b (serialize writes_to_buffer buffer_of passes buffer_keys)
        (readers passes 0 passes),
  )

  pub settled :
      (out : List ℕ)
      → topo_sort image_keys buffer_keys passes ≡ some (ok out)
      → Settled (length passes) E bounded out × (length out ≡ length passes)
  settled out sorted =
      let (out', runs, s) = run in
      let (same, all) = checked_ok (length passes) out' out (cc (runs, sorted)) in
      (subst (Settled (length passes) E bounded) same s, all)

  -- What stands in the sorted order is in the order of the pairs.
  pub before :
      (out : List ℕ)
      → topo_sort image_keys buffer_keys passes ≡ some (ok out)
      → (a b : ℕ) → pair_in a b pairs ≡ true
      → index_of a out < index_of b out
  before out sorted a b h =
      let (s, all) = settled out sorted in
      let (la, lb) = pair_in-All _ a b pairs pairs-lt h in
      Respects-index_of (length passes) E bounded [] out a b s.ordered
        (ground (arith, lb, occurs-full (length passes) out s.once s.inside all b)) la (edge a b h)
        refl

  -- With two passes each of which is to come before the other, the sort fails.
  pub topo_sort-cyclic :
      (a b : ℕ)
      → pair_in a b pairs ≡ true
      → pair_in b a pairs ≡ true
      → topo_sort image_keys buffer_keys passes
        ≡ some (err (invalid_config "framegraph: dependency cycle detected"))
  unfolding checked
  topo_sort-cyclic a b there back =
      let (out, runs, s) = run in
      elim (Bool-cases (length out == length passes)) [
        | inl all ↦
            let sorted : topo_sort image_keys buffer_keys passes ≡ some (ok out) =
              runs ∙ ap some (checked_all (length passes) out (ground (arith, all))) in
            absurd (omega (arith, before out sorted a b there, before out sorted b a back))
        | inr fewer ↦ runs ∙ rw (checked, fewer) refl
      ]
