-- ===== src/Memory/Block/Carve.antt =====
-- memory/allocator.rs: what `try_region` leaves of the free list.
use mathlib.Core.List.{append_assoc}
use native.Mathlib.Nat.{add-zero}
use ignis_rs.Base.{
  ℕ, zero, suc, ◌+◌, ◌-◌, ◌^◌, ◌≤◌, ◌<◌, ◌≡◌, refl, sym, ◌∙◌, true, false, ◌&&◌, not, List, [], ◌∷◌,
  ◌++◌, arith, ltb, All, length, position_or_len, position_or_len-append, remove_at-append,
  insert_at-append, add64-eq-add, sub64-eq-sub,
}
use ignis_rs.Memory.Block.{FreeRegion, Block, keep_padding, keep_rest, carve}
use ignis_rs.Memory.Block.Chain.{
  Chain, inside, covers, Chain-weaken, Around, Chain-append, covers-append, covers_above,
  covers_below,
}

-- A region of that size, unless it is empty.
pub piece : ℕ → ℕ → List FreeRegion
piece offset zero = []
piece offset (suc n) = record { offset = offset; size = suc n } ∷ []

zero-ltb-suc : (n : ℕ) → ltb 0 (suc n) ≡ true
zero-ltb-suc n = ground arith

piece-Chain :
    (lo hi offset size : ℕ) (post : List FreeRegion)
    → lo ≤ offset
    → offset + size < hi
    → Chain (suc (offset + size)) hi post
    → Chain lo hi (piece offset size ++ post)
unfolding piece
piece-Chain lo hi offset zero post l h c =
    Chain-weaken (suc (offset + 0)) hi lo hi post c (omega arith) (omega arith)
piece-Chain lo hi offset (suc n) post l h c = (l, omega arith, h, c)

piece-Chain_alone :
    (lo hi offset size : ℕ) → lo ≤ offset → offset + size < hi → Chain lo hi (piece offset size)
unfolding piece
piece-Chain_alone lo hi offset zero l h = tt
piece-Chain_alone lo hi offset (suc n) l h = (l, omega arith, h, tt)

covers-piece : (offset size x : ℕ) → covers (piece offset size) x ≡ inside offset size x
unfolding piece covers
covers-piece offset zero x = ground arith
covers-piece offset (suc n) x = ground arith

-- What is left of the list once `[offset, offset + size)` is taken out of a region.
pub remains : List FreeRegion → FreeRegion → List FreeRegion → ℕ → ℕ → List FreeRegion
remains pre r post offset size =
    pre
    ++ (piece r.offset (offset - r.offset)
        ++ (piece (offset + size) (r.offset + r.size - (offset + size)) ++ post))

keep_padding_lem :
    (pre : List FreeRegion) (r : FreeRegion) (post : List FreeRegion) (padding : ℕ)
    → (keep_padding (pre ++ r ∷ post) (length pre) r padding).0
      ≡ pre ++ (piece r.offset padding ++ post)
unfolding keep_padding piece
keep_padding_lem pre r post zero = remove_at-append pre r post
keep_padding_lem pre r post (suc n) =
    rw (zero-ltb-suc n, remove_at-append pre r post)
      (insert_at-append pre post (record { offset = r.offset; size = suc n }))

first_after :
    (n hi : ℕ) (post : List FreeRegion)
    → Chain (suc n) hi post
    → position_or_len (λ r. ltb n r.offset) post ≡ 0
first_after n hi [] c = refl
first_after n hi (r ∷ rs) c = ground arith

keep_rest_lem :
    (p : List FreeRegion × ℕ) (xs post : List FreeRegion) (offset size hi : ℕ)
    → p.0 ≡ xs ++ post
    → All (λ r. ltb offset r.offset ≡ false) xs
    → Chain (suc (offset + size)) hi post
    → (keep_rest p offset size).0 ≡ xs ++ (piece offset size ++ post)
unfolding keep_rest piece
keep_rest_lem p xs post offset zero hi e low c = e
keep_rest_lem p xs post offset (suc k) hi e low c =
    rw
      (
        zero-ltb-suc k,
        e,
        position_or_len-append (λ r. ltb offset r.offset) xs post low,
        first_after offset hi post (Chain-weaken _ hi _ hi post c (omega arith) (omega arith)),
        add-zero (length xs),
      )
      (insert_at-append xs post (record { offset = offset; size = suc k }))

Chain-not-after :
    (lo hi n : ℕ) (rs : List FreeRegion)
    → Chain lo hi rs
    → hi ≤ suc n
    → All (λ r. ltb n r.offset ≡ false) rs
Chain-not-after lo hi n [] c h = tt
Chain-not-after lo hi n (r ∷ rs) c h =
    (ground arith, Chain-not-after (suc (r.offset + r.size)) hi n rs c.3 h)

module _ (block : Block) (hi : ℕ) (pre : List FreeRegion) (r : FreeRegion) (post : List FreeRegion)
    (offset size : ℕ) (whole : block.free_list ≡ pre ++ r ∷ post) (around : Around 0 hi pre r post)
    (small : hi ≤ 2 ^ 64) (starts : r.offset ≤ offset) (nonempty : 0 < size)
    (fits : offset + size ≤ r.offset + r.size) where
  padded_low :
      All (λ q. ltb (offset + size) q.offset ≡ false) (pre ++ piece r.offset (offset - r.offset))
  padded_low =
      Chain-not-after 0 (suc offset) (offset + size) (pre ++ piece r.offset (offset - r.offset))
        (Chain-append 0 r.offset (suc offset) pre (piece r.offset (offset - r.offset)) around.0
          (piece-Chain_alone r.offset (suc offset) r.offset (offset - r.offset) (omega arith)
            (omega arith))
          (omega arith) (omega arith))
        (omega arith)

  -- The two pieces of the region that stay free, in place.
  pub carve_lem : (carve block (length pre) r offset size).0 ≡ remains pre r post offset size
  unfolding carve remains
  carve_lem =
      rw
        (
          sub64-eq-sub offset r.offset starts (omega arith),
          add64-eq-add offset size (omega arith),
          add64-eq-add r.offset r.size (omega arith),
          sub64-eq-sub (r.offset + r.size) (offset + size) fits (omega arith),
          whole,
        )
        (keep_rest_lem (keep_padding (pre ++ r ∷ post) (length pre) r (offset - r.offset))
            (pre ++ piece r.offset (offset - r.offset)) post (offset + size)
            (r.offset + r.size - (offset + size)) hi
            (keep_padding_lem pre r post (offset - r.offset)
              ∙ sym (append_assoc pre (piece r.offset (offset - r.offset)) post))
            padded_low
            (Chain-weaken (suc (r.offset + r.size)) hi
              (suc (offset + size + (r.offset + r.size - (offset + size)))) hi post around.4
              (omega arith) (omega arith))
          ∙ append_assoc pre (piece r.offset (offset - r.offset)) _)

  pub remains-Chain : Chain 0 hi (remains pre r post offset size)
  unfolding remains
  remains-Chain =
      Chain-append 0 r.offset hi pre _ around.0
        (piece-Chain r.offset hi r.offset (offset - r.offset) _ (omega arith) (omega arith) (
          piece-Chain _ hi (offset + size) (r.offset + r.size - (offset + size)) post (omega arith)
            (omega arith)
            (Chain-weaken (suc (r.offset + r.size)) hi
              (suc (offset + size + (r.offset + r.size - (offset + size)))) hi post around.4
              (omega arith) (omega arith))))
        (omega arith) (omega arith)

  pub covers-remains :
      (x : ℕ)
      → covers (remains pre r post offset size) x
        ≡ (covers block.free_list x && not (inside offset size x))
  unfolding remains covers
  covers-remains x =
      rw
        (
          whole,
          covers-append pre
              (piece r.offset (offset - r.offset)
                ++ (piece (offset + size) (r.offset + r.size - (offset + size)) ++ post))
              x,
          covers-append (piece r.offset (offset - r.offset))
              (piece (offset + size) (r.offset + r.size - (offset + size)) ++ post) x,
          covers-append (piece (offset + size) (r.offset + r.size - (offset + size))) post x,
          covers-piece r.offset (offset - r.offset) x,
          covers-piece (offset + size) (r.offset + r.size - (offset + size)) x,
          covers-append pre (r ∷ post) x,
        )
        (ground (
          arith,
          covers_above 0 r.offset pre x around.0,
          covers_below (suc (r.offset + r.size)) hi post x around.4,
        ))
