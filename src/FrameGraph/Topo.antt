-- ===== src/FrameGraph/Topo.antt =====
-- framegraph.rs: `topo_sort`. The vectors that passes index, all within bounds, are functions of
-- the index. The order in which a hash map lists its keys is not documented, so it is an argument:
-- the handles written, of images and of buffers, in the order of `values()`.
pub mod Kahn
pub mod Graph
pub mod Writers
pub mod Pairs
pub mod Readers
pub mod Sorted
pub mod Order
mod Tests
use ignis_rs.Base.{
  ℕ, zero, suc, ◌+◌, ◌-◌, Bool, true, false, Option, none, some, List, [], ◌∷◌, ◌++◌, ◌==◌, not,
  ◌&&◌, if◌then◌else◌, length,
}
use ignis_rs.Error.{Error, invalid_config, Result, ok, err}
use ignis_rs.FrameGraph.{ImageAccessMode, BufferAccessMode, PassDecl}

unfoldable pub writes_to_image : ImageAccessMode → Bool
writes_to_image (ImageAccessMode.read u) = false
writes_to_image (ImageAccessMode.write u) = true

unfoldable pub writes_to_buffer : BufferAccessMode → Bool
writes_to_buffer (BufferAccessMode.read u) = false
writes_to_buffer (BufferAccessMode.write u) = true

-- Pass 2b, for one access that reads.
unfoldable pub from_writers : List ℕ → ℕ → List (ℕ × ℕ)
from_writers [] i = []
from_writers (w ∷ ws) i = if w == i then from_writers ws i else (w, i) ∷ from_writers ws i

-- `windows(2)`.
unfoldable pub windows : List ℕ → List (ℕ × ℕ)
windows [] = []
windows (w ∷ []) = []
windows (w ∷ w' ∷ ws) = (w, w') ∷ windows (w' ∷ ws)

-- What images and buffers share: the accesses of a pass, and which of them write.
module _ {M : Type 0} (is_write : M → Bool) (accesses : PassDecl → List (ℕ × M)) where
  -- Pass 1, for one handle: the indices of its writers, once for each access that writes.
  unfoldable pub writers_in : ℕ → ℕ → List (ℕ × M) → List ℕ
  writers_in h i [] = []
  writers_in h i ((h', mode) ∷ rest) =
      if is_write mode && h' == h then i ∷ writers_in h i rest else writers_in h i rest

  unfoldable pub writers : ℕ → ℕ → List PassDecl → List ℕ
  writers h i [] = []
  writers h i (pass ∷ passes) = writers_in h i (accesses pass) ++ writers h (i + 1) passes

  -- Pass 2b, for the accesses of one pass.
  unfoldable pub reads_of : List PassDecl → ℕ → List (ℕ × M) → List (ℕ × ℕ)
  reads_of passes i [] = []
  reads_of passes i ((h, mode) ∷ rest) =
      (if is_write mode then [] else from_writers (writers h 0 passes) i) ++ reads_of passes i rest

  -- Pass 2a, for the handles written.
  unfoldable pub serialize : List PassDecl → List ℕ → List (ℕ × ℕ)
  serialize passes [] = []
  serialize passes (h ∷ keys) = windows (writers h 0 passes) ++ serialize passes keys

abbrev pub image_of : PassDecl → List (ℕ × ImageAccessMode)
image_of pass = pass.access.image

abbrev pub buffer_of : PassDecl → List (ℕ × BufferAccessMode)
buffer_of pass = pass.access.buffer

-- Pass 2b, over the passes from index `i` on.
unfoldable pub readers : List PassDecl → ℕ → List PassDecl → List (ℕ × ℕ)
readers all i [] = []
readers all i (pass ∷ passes) =
    reads_of writes_to_image image_of all i (image_of pass)
    ++ (reads_of writes_to_buffer buffer_of all i (buffer_of pass) ++ readers all (i + 1) passes)

-- The pairs for which the loops try to add an edge, in their order.
unfoldable pub requests : List ℕ → List ℕ → List PassDecl → List (ℕ × ℕ)
requests image_keys buffer_keys passes =
    serialize writes_to_image image_of passes image_keys
    ++ (serialize writes_to_buffer buffer_of passes buffer_keys ++ readers passes 0 passes)

pub record Edges : Type 0 where
  pub edges : ℕ → List ℕ
  pub indegree : ℕ → ℕ
  pub added : ℕ → ℕ → Bool

abbrev pub put {ℓ} : {A : Type ℓ} → ℕ → A → (ℕ → A) → ℕ → A
put k v f k' = if k' == k then v else f k'

unfoldable pub add_edge : ℕ → ℕ → Edges → Edges
add_edge from to g = if g.added from to then g else record {
  edges = put from (g.edges from ++ to ∷ []) g.edges;
  indegree = put to (g.indegree to + 1) g.indegree;
  added = put from (put to true (g.added from)) g.added;
}

unfoldable pub add_edges : List (ℕ × ℕ) → Edges → Edges
add_edges [] g = g
add_edges ((from, to) ∷ rest) g = add_edges rest (add_edge from to g)

unfoldable pub no_edges : Edges
no_edges = record { edges = λ i. []; indegree = λ i. 0; added = λ i j. false }

-- `(i..i + left).filter(|&i| indegree[i] == 0)`.
unfoldable pub zeros : ℕ → ℕ → (ℕ → ℕ) → List ℕ
zeros zero i indegree = []
zeros (suc left) i indegree =
    if indegree i == 0 then i ∷ zeros left (i + 1) indegree else zeros left (i + 1) indegree

-- The loop over the successors of a node.
unfoldable pub release : List ℕ → (ℕ → ℕ) → List ℕ → (ℕ → ℕ) × List ℕ
release [] indegree ready = (indegree, ready)
release (s ∷ successors) indegree ready =
    let indegree' = put s (indegree s - 1) indegree in
    release successors indegree' (if indegree' s == 0 then ready ++ s ∷ [] else ready)

-- `while let Some(node) = ready.first()`, with fuel.
unfoldable pub kahn : ℕ → List ℕ → (ℕ → List ℕ) → (ℕ → ℕ) → List ℕ → Option (List ℕ)
kahn fuel [] edges indegree out = some out
kahn zero (node ∷ ready) edges indegree out = none
kahn (suc fuel) (node ∷ ready) edges indegree out =
    let released = release (edges node) indegree ready in
    kahn fuel released.1 (put node [] edges) released.0 (out ++ node ∷ [])

unfoldable pub checked : ℕ → List ℕ → Result (List ℕ)
checked n out =
    if length out == n then ok out else err (invalid_config "framegraph: dependency cycle detected")

-- As many rounds as passes are enough.
unfoldable pub topo_sort : List ℕ → List ℕ → List PassDecl → Option (Result (List ℕ))
topo_sort image_keys buffer_keys passes =
    let n = length passes in
    let g = add_edges (requests image_keys buffer_keys passes) no_edges in
    elim (kahn n (zeros n 0 g.indegree) g.edges g.indegree []) [
      | none ↦ none
      | some out ↦ some (checked n out)
    ]
