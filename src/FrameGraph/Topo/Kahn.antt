-- ===== src/FrameGraph/Topo/Kahn.antt =====
-- framegraph.rs: the loop of Kahn's algorithm, on any graph.
use ignis_rs.Base.{
  ℕ, zero, suc, ◌+◌, ◌-◌, ◌≤◌, ◌<◌, ◌≡◌, refl, ◌∙◌, inl, inr, ◌&&◌, some, List, [], ◌∷◌, ◌++◌,
  arith, ltb, ◌==◌, if◌then◌else◌, le_cases, length, length-append,
}
use ignis_rs.Base.Occurs.{
  occurs, occurs-append, sum_to, sum_to_at, sum_to-pos, le-sum_to, sum_to-le-sum_to, sum_to-one,
  length-sum_to, sum_to_ext,
}
use ignis_rs.FrameGraph.Topo.{put, release, kahn}

-- What the loop over successors does, node by node.
release_lem :
    (ss : List ℕ) (d : ℕ → ℕ) (ready : List ℕ)
    → ((v : ℕ) → occurs v ss ≤ d v)
    → let (d', ready') = release ss d ready in
      ((v : ℕ) → d' v + occurs v ss ≡ d v)
      × ((v : ℕ)
          → occurs v ready'
            ≡ occurs v ready + (if ltb 0 (occurs v ss) && d v == occurs v ss then 1 else 0))
unfolding release
release_lem [] d ready low = (λ v. omega arith, λ v. ground arith)
release_lem (s ∷ ss) d ready low =
    let d1 : ℕ → ℕ = put s (d s - 1) d in
    let low1 : (v : ℕ) → occurs v ss ≤ d1 v = λ v. ground (arith, low v) in
    let (degrees, found) = release_lem ss d1 (if d1 s == 0 then ready ++ s ∷ [] else ready) low1 in
    (
      λ v. ground (arith, degrees v, low v),
      λ v. ground (arith, found v, low v, low1 v, occurs-append v ready (s ∷ [])),
    )

module _ (n : ℕ) (E : ℕ → List ℕ) (bounded : (u v : ℕ) → 0 < occurs v (E u) → v < n) where
  -- Each node of a list, a later one behind `seen` too, has its predecessors before it.
  abbrev pub Respects : List ℕ → List ℕ → Type 0
  Respects seen [] = Unit {0}
  Respects seen (v ∷ vs) =
      ((u : ℕ) → u < n → 0 < occurs v (E u) → 0 < occurs u seen) × Respects (v ∷ seen) vs

  Respects-snoc :
      (seen vs : List ℕ) (x : ℕ)
      → Respects seen vs
      → ((u : ℕ) → u < n → 0 < occurs x (E u) → 0 < occurs u vs + occurs u seen)
      → Respects seen (vs ++ x ∷ [])
  Respects-snoc seen [] x r h = ((λ u l e. omega (arith, h u l e)), tt)
  Respects-snoc seen (v ∷ vs) x r h =
      (r.0, Respects-snoc (v ∷ seen) vs x r.1 (λ u l e. omega (arith, h u l e)))

  -- What stands before a node in such a list.
  pub Respects-before :
      (seen pre : List ℕ) (v : ℕ) (post : List ℕ)
      → Respects seen (pre ++ v ∷ post)
      → (u : ℕ) → u < n
      → 0 < occurs v (E u)
      → 0 < occurs u pre + occurs u seen
  Respects-before seen [] v post r u l e = omega (arith, r.0 u l e)
  Respects-before seen (x ∷ pre) v post r u l e =
      omega (arith, Respects-before (x ∷ seen) pre v post r.1 u l e)

  -- The edges into `v` whose source has not been put out.
  abbrev open_into : List ℕ → ℕ → ℕ → ℕ
  open_into out v u = if occurs u out == 0 then occurs v (E u) else 0

  pub record Inv (ready : List ℕ) (edges : ℕ → List ℕ) (d : ℕ → ℕ) (out : List ℕ) : Type 0 where
    pub degree : (v : ℕ) → d v ≡ sum_to n (λ u. if occurs u out == 0 then occurs v (E u) else 0)
    pub known : (v : ℕ) → v < n → occurs v out + occurs v ready ≡ (if d v == 0 then 1 else 0)
    pub within : (v : ℕ) → n ≤ v → occurs v out + occurs v ready ≡ 0
    pub left : (u : ℕ) → occurs u out ≡ 0 → edges u ≡ E u
    pub order : Respects [] out

  module _ (node : ℕ) (ready : List ℕ) (edges : ℕ → List ℕ) (d : ℕ → ℕ) (out : List ℕ)
      (v : Inv (node ∷ ready) edges d out) where
    low : node < n
    low = elim (le_cases n node) [
      | inl out_of ↦ absurd (ground (arith, v.within node out_of))
      | inr l ↦ l
    ]

    free : d node ≡ 0
    free = ground (arith, v.known node low)

    fresh : occurs node out ≡ 0
    fresh = ground (arith, v.known node low)

    -- Its predecessors have all been put out.
    preceded : (u : ℕ) → u < n → 0 < occurs node (E u) → 0 < occurs u out
    preceded u l e =
        let none_open : open_into out node u ≤ sum_to n (open_into out node) =
          le-sum_to n u (open_into out node) l in
        ground (arith, e, none_open, v.degree node, free)

    enough : (w : ℕ) → occurs w (E node) ≤ d w
    enough w =
        let one : open_into out w node ≤ sum_to n (open_into out w) =
          le-sum_to n node (open_into out w) low in
        ground (arith, one, v.degree w, fresh)

    d' : ℕ → ℕ
    d' = (release (E node) d ready).0

    ready' : List ℕ
    ready' = (release (E node) d ready).1

    degree' : (w : ℕ) → d' w ≡ sum_to n (open_into (out ++ node ∷ []) w)
    unfolding d'
    degree' w =
        let moved =
          sum_to_at n node (open_into out w) (open_into (out ++ node ∷ []) w) low
            λ u ne. ground (arith, ne, occurs-append u out (node ∷ [])) in
        let gone : open_into (out ++ node ∷ []) w node ≡ 0 =
          ground (arith, occurs-append node out (node ∷ [])) in
        let was : open_into out w node ≡ occurs w (E node) = ground (arith, fresh) in
        omega (arith, moved, gone, was, v.degree w, (release_lem (E node) d ready enough).0 w)

    stepped : Inv ready' (put node [] edges) d' (out ++ node ∷ [])
    unfolding d' ready'
    stepped =
        let (degrees, found) = release_lem (E node) d ready enough in
        record {
          degree = degree';
          known = λ w l.
              ground (arith, v.known w l, degrees w, found w, occurs-append w out (node ∷ []));
          within = λ w l.
              let not_into : occurs w (E node) ≡ 0 = elim (le_cases 1 (occurs w (E node))) [
                | inl into ↦ absurd (omega (arith, l, bounded node w into))
                | inr nothing ↦ omega (arith, nothing)
              ] in
              ground (arith, v.within w l, found w, not_into, occurs-append w out (node ∷ []));
          left = λ u h. ground (arith, v.left u, occurs-append u out (node ∷ []), h);
          order = Respects-snoc [] out node v.order λ u l e. omega (arith, preceded u l e);
        }

  -- A list of distinct nodes is no longer than their number.
  pub length-le :
      (xs : List ℕ)
      → ((v : ℕ) → v < n → occurs v xs ≤ 1)
      → ((v : ℕ) → n ≤ v → occurs v xs ≡ 0)
      → length xs ≤ n
  length-le xs once within' = omega (
    arith,
    length-sum_to n xs low',
    sum_to-le-sum_to n (λ v. occurs v xs) (λ v. 1) once,
    sum_to-one n,
  )
    where
      low' : (v : ℕ) → 0 < occurs v xs → v < n
      low' v h = elim (le_cases n v) [ inl l ↦ absurd (omega (arith, h, within' v l)) | inr l ↦ l ]

  -- The loop ends within as many rounds as there are nodes left.
  pub kahn-Inv :
      (fuel : ℕ) (ready : List ℕ) (edges : ℕ → List ℕ) (d : ℕ → ℕ) (out : List ℕ)
      → Inv ready edges d out
      → n ≤ fuel + length out
      → (out' : List ℕ) × (edges' : ℕ → List ℕ) × (d' : ℕ → ℕ) × (kahn fuel ready edges d out
          ≡ some out')
        × Inv [] edges' d' out'
  unfolding kahn d' ready'
  kahn-Inv fuel [] edges d out v enough' = (out, edges, d, refl, v)
  kahn-Inv zero (node ∷ ready) edges d out v enough' =
      let longer =
        length-le (out ++ node ∷ [])
          (λ w l. ground (arith, v.known w l, occurs-append w out (node ∷ [])))
          (λ w l. ground (arith, v.within w l, occurs-append w out (node ∷ []))) in
      absurd (omega (arith, longer, enough', length-append {0} out (node ∷ [])))
  kahn-Inv (suc fuel) (node ∷ ready) edges d out v enough' =
      let same : edges node ≡ E node = v.left node (fresh node ready edges d out v) in
      rw (kahn, same)
        (kahn-Inv fuel (ready' node ready edges d out v) (put node [] edges)
          (d' node ready edges d out v) (out ++ node ∷ []) (stepped node ready edges d out v)
          (omega (arith, enough', length-append {0} out (node ∷ []))))

  -- What the loop leaves when nothing is ready any more.
  pub record Settled (out : List ℕ) : Type 0 where
    pub once : (v : ℕ) → occurs v out ≤ 1
    pub inside : (v : ℕ) → 0 < occurs v out → v < n
    pub ordered : Respects [] out
    -- A node that is left out has a predecessor that is left out.
    pub stuck :
        (v : ℕ)
        → v < n
        → occurs v out ≡ 0
        → (u : ℕ) × (u < n) × (occurs u out ≡ 0) × (0 < occurs v (E u))

  pub Inv-Settled :
      (edges : ℕ → List ℕ) (d : ℕ → ℕ) (out : List ℕ) → Inv [] edges d out → Settled out
  Inv-Settled edges d out v = record {
    once = λ w. elim (le_cases n w) [
      | inl l ↦ omega (arith, v.within w l)
      | inr l ↦ ground (arith, v.known w l)
    ];
    inside =
        λ w h. elim (le_cases n w) [ inl l ↦ absurd (omega (arith, h, v.within w l)) | inr l ↦ l ];
    ordered = v.order;
    stuck = λ w l missing.
        let (u, low', one) =
          sum_to-pos n (open_into out w) (ground (arith, v.known w l, missing, v.degree w)) in
        (u, low', ground (arith, one), ground (arith, one));
  }

  -- With a rank that every edge raises, no node is left out.
  pub Settled-complete :
      (out : List ℕ) (rank : ℕ → ℕ)
      → Settled out
      → ((u v : ℕ) → u < n → v < n → 0 < occurs v (E u) → rank u < rank v)
      → length out ≡ n
  Settled-complete out rank s raises =
      length-sum_to n out s.inside ∙ (sum_to_ext n _ (λ v. 1) full ∙ sum_to-one n)
    where
      below : (k v : ℕ) → rank v < k → v < n → occurs v out ≡ 1
      below zero v h l = absurd (omega (arith, h))
      below (suc k) v h l = elim (le_cases 1 (occurs v out)) [
        | inl there ↦ omega (arith, there, s.once v)
        | inr missing ↦
            let (u, low', gone, e) = s.stuck v l (omega (arith, missing)) in
            absurd (omega (arith, gone, below k u (omega (arith, h, raises u v low' l e)) low'))
      ]

      full : (v : ℕ) → v < n → occurs v out ≡ 1
      full v l = below (suc (rank v)) v (omega arith) l
