-- ===== src/Memory/Block/Chain.antt =====
-- The shape of a free list: sorted regions, none empty, no two of which touch or overlap.
use ignis_rs.Base.{
  ℕ, suc, ◌+◌, ◌≤◌, ◌<◌, ◌≡◌, refl, sym, Bool, false, ◌&&◌, ◌||◌, List, [], ◌∷◌, ◌++◌, arith, ltb,
  leb, All,
}
use mathlib.Core.Path.{ap₂}
use ignis_rs.Memory.Block.{FreeRegion, Block}

-- The regions start at `lo` or later, end before `hi`, and leave a gap between any two.
abbrev pub Chain : ℕ → ℕ → List FreeRegion → Type 0
Chain lo hi [] = Unit {0}
Chain lo hi (r ∷ rs) =
    (lo ≤ r.offset)
    × (0 < r.size)
    × (r.offset + r.size < hi)
    × Chain (suc (r.offset + r.size)) hi rs

-- Whether the byte at `x` lies in a range.
abbrev pub inside : ℕ → ℕ → ℕ → Bool
inside offset size x = leb offset x && ltb x (offset + size)

-- Whether the byte at `x` is free.
unfoldable pub covers : List FreeRegion → ℕ → Bool
covers [] x = false
covers (r ∷ rs) x = inside r.offset r.size x || covers rs x

pub Chain-weaken :
    (lo hi lo' hi' : ℕ) (rs : List FreeRegion)
    → Chain lo hi rs
    → lo' ≤ lo
    → hi ≤ hi'
    → Chain lo' hi' rs
Chain-weaken lo hi lo' hi' [] c l h = tt
Chain-weaken lo hi lo' hi' (r ∷ rs) c l h = (
  omega arith,
  c.1,
  omega arith,
  Chain-weaken (suc (r.offset + r.size)) hi (suc (r.offset + r.size)) hi' rs c.3 (omega arith) h,
)

-- A chain splits at any region, and is put together at one.
abbrev pub Around : ℕ → ℕ → List FreeRegion → FreeRegion → List FreeRegion → Type 0
Around lo hi pre r post =
    Chain lo r.offset pre
    × (lo ≤ r.offset)
    × (0 < r.size)
    × (r.offset + r.size < hi)
    × Chain (suc (r.offset + r.size)) hi post

pub Chain-split :
    (lo hi : ℕ) (pre : List FreeRegion) (r : FreeRegion) (post : List FreeRegion)
    → Chain lo hi (pre ++ r ∷ post)
    → Around lo hi pre r post
Chain-split lo hi [] r post c = (tt, c.0, c.1, c.2, c.3)
Chain-split lo hi (p ∷ pre) r post c =
    let a = Chain-split (suc (p.offset + p.size)) hi pre r post c.3 in
    ((c.0, c.1, omega arith, a.0), omega arith, a.2, a.3, a.4)

pub Chain-join :
    (lo hi : ℕ) (pre : List FreeRegion) (r : FreeRegion) (post : List FreeRegion)
    → Around lo hi pre r post
    → Chain lo hi (pre ++ r ∷ post)
Chain-join lo hi [] r post a = (a.1, a.2, a.3, a.4)
Chain-join lo hi (p ∷ pre) r post a = (
  a.0.0,
  a.0.1,
  omega arith,
  Chain-join (suc (p.offset + p.size)) hi pre r post (a.0.3, omega arith, a.2, a.3, a.4),
)

pub Chain-append :
    (lo m hi : ℕ) (pre post : List FreeRegion)
    → Chain lo m pre
    → Chain m hi post
    → lo ≤ m
    → m ≤ hi
    → Chain lo hi (pre ++ post)
Chain-append lo m hi [] post c d l h = Chain-weaken m hi lo hi post d l (omega arith)
Chain-append lo m hi (p ∷ pre) post c d l h = (
  c.0,
  c.1,
  omega arith,
  Chain-append (suc (p.offset + p.size)) m hi pre post c.3 d (omega arith) h,
)

pub covers-append :
    (xs ys : List FreeRegion) (x : ℕ) → covers (xs ++ ys) x ≡ (covers xs x || covers ys x)
unfolding covers
covers-append [] ys x = refl
covers-append (r ∷ rs) ys x = ground (arith, covers-append rs ys x)

pub covers_below :
    (lo hi : ℕ) (rs : List FreeRegion) (x : ℕ) → Chain lo hi rs → x < lo → covers rs x ≡ false
unfolding covers
covers_below lo hi [] x c h = refl
covers_below lo hi (r ∷ rs) x c h =
    ground (arith, covers_below (suc (r.offset + r.size)) hi rs x c.3 (omega arith))

pub covers_above :
    (lo hi : ℕ) (rs : List FreeRegion) (x : ℕ) → Chain lo hi rs → hi ≤ suc x → covers rs x ≡ false
unfolding covers
covers_above lo hi [] x c h = refl
covers_above lo hi (r ∷ rs) x c h =
    ground (arith, covers_above (suc (r.offset + r.size)) hi rs x c.3 h)

-- Every region of a chain starts before its end.
pub Chain-starts :
    (lo hi n : ℕ) (rs : List FreeRegion) → Chain lo hi rs → hi ≤ suc n → All (λ r. r.offset < n) rs
Chain-starts lo hi n [] c h = tt
Chain-starts lo hi n (r ∷ rs) c h =
    (omega arith, Chain-starts (suc (r.offset + r.size)) hi n rs c.3 h)

-- Of two chains that cover the same bytes, neither starts first, nor has the longer first region.
module _ (lo hi lo' hi' : ℕ) (r q : FreeRegion) (rs qs : List FreeRegion) (c : Chain lo hi (r ∷ rs))
    (d : Chain lo' hi' (q ∷ qs)) (h : (x : ℕ) → covers (r ∷ rs) x ≡ covers (q ∷ qs) x) where
  start_le : q.offset ≤ r.offset
  unfolding covers
  start_le = ground (arith, h r.offset, covers_below (suc (q.offset + q.size)) hi' qs r.offset d.3)

  end_le : r.offset ≡ q.offset → q.size ≤ r.size
  unfolding covers
  end_le e = ground (
    arith,
    h (r.offset + r.size),
    covers_below (suc (r.offset + r.size)) hi rs (r.offset + r.size) c.3,
  )

region_eq : (r q : FreeRegion) → r.offset ≡ q.offset → r.size ≡ q.size → r ≡ q
region_eq r q e f = λ i. record { offset = e i; size = f i }

-- Two chains that cover the same bytes are the same list.
pub Chain-unique :
    (lo hi lo' hi' : ℕ) (rs qs : List FreeRegion)
    → Chain lo hi rs
    → Chain lo' hi' qs
    → ((x : ℕ) → covers rs x ≡ covers qs x)
    → rs ≡ qs
unfolding covers
Chain-unique lo hi lo' hi' [] [] c d h = refl
Chain-unique lo hi lo' hi' [] (q ∷ qs) c d h = absurd (ground (arith, h q.offset))
Chain-unique lo hi lo' hi' (r ∷ rs) [] c d h = absurd (ground (arith, h r.offset))
Chain-unique lo hi lo' hi' (r ∷ rs) (q ∷ qs) c d h =
    let h' : (x : ℕ) → covers (q ∷ qs) x ≡ covers (r ∷ rs) x = λ x. sym (h x) in
    let e : r.offset ≡ q.offset =
      omega
        (arith, start_le lo hi lo' hi' r q rs qs c d h, start_le lo' hi' lo hi q r qs rs d c h') in
    let f : r.size ≡ q.size = omega (
      arith,
      end_le lo hi lo' hi' r q rs qs c d h e,
      end_le lo' hi' lo hi q r qs rs d c h' (sym e),
    ) in
    ap₂ ◌∷◌ (region_eq r q e f) (
      Chain-unique (suc (r.offset + r.size)) hi (suc (q.offset + q.size)) hi' rs qs c.3 d.3 λ x.
        ground (
          arith,
          h x,
          covers_below (suc (r.offset + r.size)) hi rs x c.3,
          covers_below (suc (q.offset + q.size)) hi' qs x d.3,
        ))

-- The free list of a block is a chain of regions within the block.
abbrev pub IsValid : Block → Type 0
IsValid b = Chain 0 (suc b.total_size) b.free_list
