-- ===== src/FrameGraph/Topo/Graph.antt =====
-- framegraph.rs: the graph that `topo_sort` builds from its pairs.
use ignis_rs.Base.{
  ℕ, zero, suc, ◌+◌, ◌<◌, ◌≡◌, refl, sym, ap, ◌∙◌, subst, inl, inr, Bool, true, false, ◌&&◌, ◌||◌,
  not, List, [], ◌∷◌, ◌++◌, arith, ltb, ◌==◌, if◌then◌else◌, Bool-cases, All,
}
use ignis_rs.Base.Occurs.{occurs, occurs-append, sum_to, sum_to_at, sum_to-zero}
use ignis_rs.FrameGraph.Topo.{Edges, add_edge, add_edges, no_edges, put, zeros}
use ignis_rs.FrameGraph.Topo.Kahn.{Inv}

abbrev pub pair_in : ℕ → ℕ → List (ℕ × ℕ) → Bool
pair_in a b [] = false
pair_in a b ((from, to) ∷ rest) = (a == from && b == to) || pair_in a b rest

pub pair_in-append :
    (a b : ℕ) (ps qs : List (ℕ × ℕ)) → pair_in a b (ps ++ qs) ≡ (pair_in a b ps || pair_in a b qs)
pair_in-append a b [] qs = refl
pair_in-append a b ((from, to) ∷ rest) qs = ground (arith, pair_in-append a b rest qs)

pub All-append :
    (P : ℕ × ℕ → Type 0) (ps qs : List (ℕ × ℕ)) → All P ps → All P qs → All P (ps ++ qs)
All-append P [] qs h k = k
All-append P (p ∷ ps) qs h k = (h.0, All-append P ps qs h.1 k)

pub pair_in-All :
    (P : ℕ × ℕ → Type 0) (a b : ℕ) (ps : List (ℕ × ℕ)) → All P ps → pair_in a b ps ≡ true → P (a, b)
pair_in-All P a b [] h e = cc
pair_in-All P a b ((from, to) ∷ rest) h e = elim (Bool-cases (a == from && b == to)) [
  | inl here ↦
      let ea : from ≡ a = ground (arith, here) in
      let eb : to ≡ b = ground (arith, here) in
      subst (λ (t : ℕ). P (t, b)) ea (subst (λ (t : ℕ). P (from, t)) eb h.0)
  | inr later ↦ pair_in-All P a b rest h.1 (ground (arith, e, later))
]

module _ (n : ℕ) where
  -- The three parts of the graph agree.
  pub record Agrees (g : Edges) : Type 0 where
    pub degree : (v : ℕ) → g.indegree v ≡ sum_to n (λ u. occurs v (g.edges u))
    pub single : (u v : ℕ) → occurs v (g.edges u) ≡ (if g.added u v then 1 else 0)

  no_edges-Agrees : Agrees no_edges
  unfolding no_edges
  no_edges-Agrees = record { degree = λ v. sym (sum_to-zero n); single = λ u v. refl }

  add_edge-Agrees : (from to : ℕ) (g : Edges) → from < n → Agrees g → Agrees (add_edge from to g)
  unfolding add_edge
  add_edge-Agrees from to g l v = elim (Bool-cases (g.added from to)) [
    | inl there ↦ rw (add_edge, there) v
    | inr absent ↦
        rw (add_edge, absent)
          (record {
            degree = λ w.
                let moved =
                  sum_to_at n from (λ u. occurs w (put from (g.edges from ++ to ∷ []) g.edges u))
                    (λ u. occurs w (g.edges u)) l λ u ne. ground (arith, ne) in
                let here : occurs w (put from (g.edges from ++ to ∷ []) g.edges from)
                    ≡ occurs w (g.edges from) + (if w == to then 1 else 0) =
                  ground (arith, occurs-append w (g.edges from) (to ∷ [])) in
                ground (arith, moved, here, v.degree w);
            single = λ u w. ground (
              arith,
              v.single u w,
              v.single from w,
              absent,
              occurs-append w (g.edges from) (to ∷ []),
            );
          })
  ]

  pub add_edges-Agrees :
      (ps : List (ℕ × ℕ)) (g : Edges)
      → All (λ (p : ℕ × ℕ). p.0 < n) ps
      → Agrees g
      → Agrees (add_edges ps g)
  unfolding add_edges
  add_edges-Agrees [] g low v = v
  add_edges-Agrees ((from, to) ∷ rest) g low v =
      add_edges-Agrees rest (add_edge from to g) low.1 (add_edge-Agrees from to g low.0 v)

add_edge-added :
    (from to : ℕ) (g : Edges) (a b : ℕ)
    → (add_edge from to g).added a b ≡ (g.added a b || (a == from && b == to))
unfolding add_edge
add_edge-added from to g a b = elim (Bool-cases (g.added from to)) [
  | inl there ↦ rw (add_edge, there) (ground (arith, there))
  | inr absent ↦ rw (add_edge, absent) (ground (arith, absent))
]

pub add_edges-added :
    (ps : List (ℕ × ℕ)) (g : Edges) (a b : ℕ)
    → (add_edges ps g).added a b ≡ (g.added a b || pair_in a b ps)
unfolding add_edges
add_edges-added [] g a b = ground arith
add_edges-added ((from, to) ∷ rest) g a b =
    ground (arith, add_edges-added rest (add_edge from to g) a b, add_edge-added from to g a b)

-- An edge stands in the graph exactly for a pair.
pub edges_iff :
    (n : ℕ) (ps : List (ℕ × ℕ)) (a b : ℕ)
    → All (λ (p : ℕ × ℕ). p.0 < n) ps
    → occurs b ((add_edges ps no_edges).edges a) ≡ (if pair_in a b ps then 1 else 0)
unfolding no_edges
edges_iff n ps a b low =
    (add_edges-Agrees n ps no_edges low (no_edges-Agrees n)).single a b
    ∙ rw (add_edges-added ps no_edges a b) refl

occurs-zeros :
    (left i : ℕ) (d : ℕ → ℕ) (v : ℕ)
    → occurs v (zeros left i d) ≡ (if (not (ltb v i) && ltb v (i + left)) && d v == 0 then 1 else 0)
unfolding zeros
occurs-zeros zero i d v = ground arith
occurs-zeros (suc left) i d v = elim (Bool-cases (v == i)) [
  | inl here ↦
      let e : i ≡ v = ground (arith, here) in
      ground (arith, here, ap d e, occurs-zeros left (i + 1) d v)
  | inr away ↦ ground (arith, away, occurs-zeros left (i + 1) d v)
]

-- The graph and its nodes without predecessors are a start for the loop.
pub start-Inv :
    (n : ℕ) (ps : List (ℕ × ℕ)) (low : All (λ (p : ℕ × ℕ). p.0 < n) ps)
    (bounded : (u v : ℕ) → 0 < occurs v ((add_edges ps no_edges).edges u) → v < n)
    → let g = add_edges ps no_edges in
      Inv n g.edges bounded (zeros n 0 g.indegree) g.edges g.indegree []
start-Inv n ps low bounded =
    let v = add_edges-Agrees n ps no_edges low (no_edges-Agrees n) in
    record {
      degree = v.degree;
      known = λ w l. ground (arith, occurs-zeros n 0 (add_edges ps no_edges).indegree w, l);
      within = λ w l. ground (arith, occurs-zeros n 0 (add_edges ps no_edges).indegree w, l);
      left = λ u h. refl;
      order = tt;
    }
