-- ===== src/FrameGraph/Topo/Writers.antt =====
-- framegraph.rs: which passes `topo_sort` finds as writers of a handle, and the pairs it makes
-- of them.
use ignis_rs.Base.{
  ℕ, zero, suc, ◌+◌, ◌-◌, ◌≤◌, ◌<◌, ◌≡◌, ◌≢◌, refl, subst, inl, inr, Bool, true, ◌&&◌, List, [],
  ◌∷◌, ◌++◌, arith, ◌==◌, if◌then◌else◌, Bool-cases, le_cases, All,
}
use ignis_rs.Base.Occurs.{occurs, occurs-append}
use ignis_rs.FrameGraph.{PassDecl}
use ignis_rs.FrameGraph.Topo.{writers_in, writers, from_writers, windows}
use ignis_rs.FrameGraph.Topo.Graph.{pair_in}

-- From `lo` on, and never down.
abbrev pub Ascending : ℕ → List ℕ → Type 0
Ascending lo [] = Unit {0}
Ascending lo (w ∷ ws) = (lo ≤ w) × Ascending w ws

Ascending-weaken : (lo lo' : ℕ) (ws : List ℕ) → lo' ≤ lo → Ascending lo ws → Ascending lo' ws
Ascending-weaken lo lo' [] l a = tt
Ascending-weaken lo lo' (w ∷ ws) l a = (omega (arith, l, a.0), a.1)

Ascending-le : (lo : ℕ) (ws : List ℕ) (v : ℕ) → Ascending lo ws → 0 < occurs v ws → lo ≤ v
Ascending-le lo [] v a h = absurd (omega (arith, h))
Ascending-le lo (w ∷ ws) v a h = elim (le_cases 1 (occurs v ws)) [
  | inl later ↦ omega (arith, a.0, Ascending-le w ws v a.1 later)
  | inr here ↦ ground (arith, h, here, a.0)
]

-- If the neighbours in an ascending list rise in a rank, all its members do.
pub windows_rise :
    (rank : ℕ → ℕ) (lo : ℕ) (ws : List ℕ) (a b : ℕ)
    → Ascending lo ws
    → ((x y : ℕ) → pair_in x y (windows ws) ≡ true → rank x < rank y)
    → 0 < occurs a ws
    → 0 < occurs b ws
    → a < b
    → rank a < rank b
unfolding windows
windows_rise rank lo [] a b asc rise ha hb l = absurd (omega (arith, ha))
windows_rise rank lo (w ∷ []) a b asc rise ha hb l = absurd (ground (arith, ha, hb, l))
windows_rise rank lo (w ∷ w' ∷ ws) a b asc rise ha hb l = elim (Bool-cases (a == w)) [
  | inl first ↦
      let e : w ≡ a = ground (arith, first) in
      let step : rank a < rank w' = rise a w' (ground (arith, first)) in
      elim (Bool-cases (b == w')) [
        | inl next ↦
            let e' : w' ≡ b = ground (arith, next) in subst (λ (t : ℕ). rank a < rank t) e' step
        | inr beyond ↦
            let hb' : 0 < occurs b ws = ground (arith, hb, beyond, l, e) in
            let low : w' ≤ b = Ascending-le w' ws b asc.1.1 hb' in
            let rest : rank w' < rank b =
              windows_rise rank w (w' ∷ ws) w' b asc.1 (λ x y h. rise x y (ground (arith, h)))
                (ground arith) (ground (arith, hb')) (ground (arith, low, beyond)) in
            omega (arith, step, rest)
      ]
  | inr later ↦
      let ha' : 0 < occurs a (w' ∷ ws) = ground (arith, ha, later) in
      let low : w ≤ a = Ascending-le w (w' ∷ ws) a asc.1 ha' in
      let hb' : 0 < occurs b (w' ∷ ws) = ground (arith, hb, low, l, later) in
      windows_rise rank w (w' ∷ ws) a b asc.1 (λ x y h. rise x y (ground (arith, h))) ha' hb' l
]

-- A pass that is in an ascending list twice is its own neighbour.
pub windows_twice :
    (lo : ℕ) (ws : List ℕ) (a : ℕ)
    → Ascending lo ws
    → 1 < occurs a ws
    → pair_in a a (windows ws) ≡ true
unfolding windows
windows_twice lo [] a asc h = absurd (omega (arith, h))
windows_twice lo (w ∷ []) a asc h = absurd (ground (arith, h))
windows_twice lo (w ∷ w' ∷ ws) a asc h = elim (Bool-cases (a == w)) [
  | inl first ↦
      let more : 0 < occurs a (w' ∷ ws) = ground (arith, h, first) in
      let up : w' ≤ a = elim (Bool-cases (a == w')) [
        | inl same ↦ ground (arith, same)
        | inr other ↦ Ascending-le w' ws a asc.1.1 (ground (arith, more, other))
      ] in
      ground (arith, first, up, asc.1.0)
  | inr later ↦ ground (arith, later, windows_twice w (w' ∷ ws) a asc.1 (ground (arith, h, later)))
]

-- The neighbours in an ascending list in which nothing stands twice.
pub windows-All :
    (P : ℕ × ℕ → Type 0) (lo : ℕ) (ws : List ℕ)
    → Ascending lo ws
    → ((v : ℕ) → occurs v ws ≤ 1)
    → ((a b : ℕ) → 0 < occurs a ws → 0 < occurs b ws → a < b → P (a, b))
    → All P (windows ws)
unfolding windows
windows-All P lo [] asc once h = tt
windows-All P lo (w ∷ []) asc once h = tt
windows-All P lo (w ∷ w' ∷ ws) asc once h = (
  h w w' (ground arith) (ground arith) (ground (arith, asc.1.0, once w)),
  windows-All P w (w' ∷ ws) asc.1 (λ v. ground (arith, once v))
      λ a b ha hb l. h a b (ground (arith, ha)) (ground (arith, hb)) l,
)

-- The neighbours of any list of writers are among them.
pub windows-members :
    (P : ℕ × ℕ → Type 0) (ws : List ℕ)
    → ((a b : ℕ) → 0 < occurs a ws → 0 < occurs b ws → P (a, b))
    → All P (windows ws)
unfolding windows
windows-members P [] h = tt
windows-members P (w ∷ []) h = tt
windows-members P (w ∷ w' ∷ ws) h = (
  h w w' (ground arith) (ground arith),
  windows-members P (w' ∷ ws) λ a b ha hb. h a b (ground (arith, ha)) (ground (arith, hb)),
)

pub pair_in-from_writers :
    (ws : List ℕ) (i w : ℕ) → 0 < occurs w ws → w ≢ i → pair_in w i (from_writers ws i) ≡ true
unfolding from_writers
pair_in-from_writers [] i w h ne = absurd (omega (arith, h))
pair_in-from_writers (x ∷ ws) i w h ne = elim (Bool-cases (w == x)) [
  | inl here ↦ ground (arith, here, ne)
  | inr later ↦ ground (arith, later, pair_in-from_writers ws i w (ground (arith, h, later)) ne)
]

pub from_writers-All :
    (P : ℕ × ℕ → Type 0) (ws : List ℕ) (i : ℕ)
    → ((w : ℕ) → 0 < occurs w ws → w ≢ i → P (w, i))
    → All P (from_writers ws i)
unfolding from_writers
from_writers-All P [] i h = tt
from_writers-All P (x ∷ ws) i h =
    let rest : All P (from_writers ws i) =
      from_writers-All P ws i λ w m ne. h w (ground (arith, m)) ne in
    elim (Bool-cases (x == i)) [
      | inl self ↦ rw (from_writers, self) rest
      | inr other ↦ rw (from_writers, other) (h x (ground arith) (ground (arith, other)), rest)
    ]

module _ {M : Type 0} (is_write : M → Bool) (accesses : PassDecl → List (ℕ × M)) where
  -- How many accesses of a list write a handle.
  abbrev pub write_count : ℕ → List (ℕ × M) → ℕ
  write_count h [] = 0
  write_count h ((h', mode) ∷ rest) =
      (if is_write mode && h' == h then 1 else 0) + write_count h rest

  -- The same for the pass at an index, if there is one.
  abbrev pub writes_at : List PassDecl → ℕ → ℕ → ℕ
  writes_at [] h a = 0
  writes_at (pass ∷ passes) h zero = write_count h (accesses pass)
  writes_at (pass ∷ passes) h (suc a) = writes_at passes h a

  occurs-writers_in :
      (h i : ℕ) (list : List (ℕ × M)) (v : ℕ)
      → occurs v (writers_in is_write accesses h i list)
        ≡ (if v == i then write_count h list else 0)
  unfolding writers_in
  occurs-writers_in h i [] v = ground arith
  occurs-writers_in h i ((h', mode) ∷ rest) v = ground (arith, occurs-writers_in h i rest v)

  Ascending-writers_in :
      (j h i : ℕ) (list : List (ℕ × M)) (rest : List ℕ)
      → j ≤ i
      → Ascending i rest
      → Ascending j (writers_in is_write accesses h i list ++ rest)
  unfolding writers_in
  Ascending-writers_in j h i [] rest l asc = Ascending-weaken i j rest l asc
  Ascending-writers_in j h i ((h', mode) ∷ list) rest l asc =
      elim (Bool-cases (is_write mode && h' == h)) [
        | inl found ↦
            rw (writers_in, found) (l, Ascending-writers_in i h i list rest (omega arith) asc)
        | inr other ↦ rw (writers_in, other) (Ascending-writers_in j h i list rest l asc)
      ]

  pub writers-Ascending :
      (h i : ℕ) (passes : List PassDecl) → Ascending i (writers is_write accesses h i passes)
  unfolding writers
  writers-Ascending h i [] = tt
  writers-Ascending h i (pass ∷ passes) =
      Ascending-writers_in i h i (accesses pass) (writers is_write accesses h (i + 1) passes)
        (omega arith)
        (Ascending-weaken (i + 1) i (writers is_write accesses h (i + 1) passes) (omega arith)
          (writers-Ascending h (i + 1) passes))

  -- A pass occurs among the writers once for each access that writes the handle.
  pub occurs-writers :
      (h i : ℕ) (passes : List PassDecl) (v : ℕ)
      → i ≤ v
      → occurs v (writers is_write accesses h i passes) ≡ writes_at passes h (v - i)
  unfolding writers
  occurs-writers h i [] v l = refl
  occurs-writers h i (pass ∷ passes) v l = elim (le_cases (i + 1) v) [
    | inl later ↦
        let e : v - i ≡ suc (v - (i + 1)) = omega (arith, later) in
        rw e (
          ground (
            arith,
            later,
            occurs-append v (writers_in is_write accesses h i (accesses pass))
                (writers is_write accesses h (i + 1) passes),
            occurs-writers_in h i (accesses pass) v,
            occurs-writers h (i + 1) passes v,
          ))
    | inr now ↦
        let e : v - i ≡ 0 = omega (arith, now) in
        let none_later : occurs v (writers is_write accesses h (i + 1) passes) ≡ 0 =
          elim (le_cases 1 (occurs v (writers is_write accesses h (i + 1) passes))) [
            | inl there ↦ absurd (
                omega
                  (arith, now, Ascending-le (i + 1) _ v (writers-Ascending h (i + 1) passes) there))
            | inr absent ↦ omega (arith, absent)
          ] in
        rw e (
          ground (
            arith,
            l,
            now,
            none_later,
            occurs-append v (writers_in is_write accesses h i (accesses pass))
                (writers is_write accesses h (i + 1) passes),
            occurs-writers_in h i (accesses pass) v,
          ))
  ]
