-- ===== src/Memory/Block/Spot.antt =====
-- memory/allocator.rs: the place that `free_in_block` finds in the free list, and the vector
-- operations at that place.
use ignis_rs.Base.{
  ℕ, suc, ◌+◌, ◌-◌, ◌≤◌, ◌<◌, ◌≡◌, refl, ap, true, false, some, List, [], ◌∷◌, ◌++◌, arith, leb,
  inl, inr, ◌⊎◌, Bool-cases, length, get_elem?, remove_at, insert_at, position_or_len,
}
use ignis_rs.Memory.Block.{FreeRegion, update_at}
use ignis_rs.Memory.Block.Chain.{Chain, inside, covers}

abbrev pub NotFree : List FreeRegion → ℕ → ℕ → Type 0
NotFree rs offset size = (x : ℕ) → inside offset size x ≡ true → covers rs x ≡ false

abbrev pub at_or_after : ℕ → List FreeRegion → ℕ
at_or_after offset = position_or_len (λ r. leb offset r.offset)

-- Where a range that is not free belongs: before all regions, or after a region `p`.
abbrev pub First : ℕ → ℕ → ℕ → List FreeRegion → Type 0
First hi offset size rs = (at_or_after offset rs ≡ 0) × Chain (offset + size) hi rs

abbrev pub After : ℕ → ℕ → ℕ → ℕ → List FreeRegion → Type 0
After lo hi offset size rs =
    (init : List FreeRegion) × (p : FreeRegion) × (post : List FreeRegion) × (rs ≡ init ++ p ∷ post)
    × (at_or_after offset rs ≡ suc (length init))
    × Chain lo p.offset init
    × (lo ≤ p.offset)
    × (0 < p.size)
    × (p.offset + p.size ≤ offset)
    × Chain (offset + size) hi post

module _ (offset size : ℕ) (nonempty : 0 < size) where
  head_after :
      (lo hi : ℕ) (r : FreeRegion) (rs : List FreeRegion)
      → Chain lo hi (r ∷ rs)
      → NotFree (r ∷ rs) offset size
      → leb offset r.offset ≡ true
      → offset + size ≤ r.offset
  unfolding covers
  head_after lo hi r rs c taken later = ground (arith, taken r.offset)

  head_before :
      (lo hi : ℕ) (r : FreeRegion) (rs : List FreeRegion)
      → Chain lo hi (r ∷ rs)
      → NotFree (r ∷ rs) offset size
      → leb offset r.offset ≡ false
      → r.offset + r.size ≤ offset
  unfolding covers
  head_before lo hi r rs c taken earlier = ground (arith, taken offset)

  NotFree-tail :
      (r : FreeRegion) (rs : List FreeRegion)
      → NotFree (r ∷ rs) offset size
      → NotFree rs offset size
  unfolding covers
  NotFree-tail r rs taken x h = ground (arith, taken x h)

  pub spot :
      (lo hi : ℕ) (rs : List FreeRegion)
      → Chain lo hi rs
      → NotFree rs offset size
      → First hi offset size rs ⊎ After lo hi offset size rs
  spot lo hi [] c taken = inl (refl, tt)
  spot lo hi (r ∷ rs) c taken = elim (Bool-cases (leb offset r.offset)) [
    | inl later ↦ inl (rw later, (head_after lo hi r rs c taken later, c.1, c.2, c.3))
    | inr earlier ↦
        let before : r.offset + r.size ≤ offset = head_before lo hi r rs c taken earlier in
        elim (spot (suc (r.offset + r.size)) hi rs c.3 (NotFree-tail r rs taken)) [
          | inl (pos, rest) ↦ inr ([], r, rs, refl, rw (earlier, pos), tt, c.0, c.1, before, rest)
          | inr (init, p, post, e, pos, chain, low, some_size, ends, rest) ↦ inr (
            r ∷ init,
            p,
            post,
            ap (◌∷◌ r) e,
            rw (earlier, pos),
            (c.0, c.1, omega arith, chain),
            omega arith,
            some_size,
            ends,
            rest,
          )
        ]
  ]

-- The vector operations at the place behind a region `p`.
module _ (p : FreeRegion) (post : List FreeRegion) where
  pub get_at : (init : List FreeRegion) → get_elem? (init ++ p ∷ post) (length init) ≡ some p
  get_at [] = refl
  get_at (r ∷ init) = get_at init

  pub get_after :
      (init : List FreeRegion) → get_elem? (init ++ p ∷ post) (suc (length init)) ≡ get_elem? post 0
  get_after [] = refl
  get_after (r ∷ init) = get_after init

  pub insert_after :
      (init : List FreeRegion) (n : FreeRegion)
      → insert_at (init ++ p ∷ post) (suc (length init)) n ≡ init ++ p ∷ n ∷ post
  insert_after [] n = refl
  insert_after (r ∷ init) n = ap (◌∷◌ r) (insert_after init n)

  pub remove_after :
      (init : List FreeRegion) (n : FreeRegion)
      → remove_at (init ++ p ∷ n ∷ post) (suc (length init)) ≡ init ++ p ∷ post
  remove_after [] n = refl
  remove_after (r ∷ init) n = ap (◌∷◌ r) (remove_after init n)

  pub update_after :
      (init : List FreeRegion) (n : FreeRegion) (f : FreeRegion → FreeRegion)
      → update_at (init ++ p ∷ n ∷ post) (suc (length init)) f ≡ init ++ p ∷ f n ∷ post
  unfolding update_at
  update_after [] n f = refl
  update_after (r ∷ init) n f = ap (◌∷◌ r) (update_after init n f)

  pub update_here :
      (init : List FreeRegion) (f : FreeRegion → FreeRegion)
      → update_at (init ++ p ∷ post) (length init) f ≡ init ++ f p ∷ post
  unfolding update_at
  update_here [] f = refl
  update_here (r ∷ init) f = ap (◌∷◌ r) (update_here init f)

  pub update_prev :
      (init : List FreeRegion) (f : FreeRegion → FreeRegion)
      → update_at (init ++ p ∷ post) (suc (length init) - 1) f ≡ init ++ f p ∷ post
  update_prev init f =
      let at : suc (length init) - 1 ≡ length init = omega arith in rw at (update_here init f)
