-- ===== src/Memory/Block/History.antt =====
-- memory/allocator.rs: any history of allocations and frees in one block, as `allocate_block`
-- creates it and the pool then uses it.
use ignis_rs.Base.{
  ℕ, suc, ◌+◌, ◌^◌, ◌≤◌, ◌<◌, ◌≡◌, refl, sym, subst, ◌∙◌, Bool, true, false, ◌||◌, not, Option,
  some, List, [], ◌∷◌, ◌++◌, arith, le_cases, inl, inr, All,
}
use ignis_rs.Memory.Block.{Block, Allocation, try_allocate_from_block, free_in_block}
use ignis_rs.Memory.Block.Chain.{IsValid, inside, covers, covers_above, Chain-unique}
use ignis_rs.Memory.Block.Allocate.{Fits, Allocated}
use ignis_rs.Memory.Block.Free.{free_in_block_lem, Taken}
use ignis_rs.Memory.Block.RoundTrip.{try_allocate_from_block_lem}

-- The block that `BlockAllocator::allocate_block` builds around a memory object.
unfoldable pub fresh_block : ℕ → ℕ → Option ℕ → Block
fresh_block memory size mapped_base = record {
  memory = memory;
  total_size = size;
  mapped_base = mapped_base;
  free_list = record { offset = 0; size = size } ∷ [];
  next_fit = 0;
}

-- Whether a byte belongs to one of the allocations.
pub occupied : List Allocation → ℕ → Bool
occupied [] x = false
occupied (a ∷ live) x = inside a.offset a.size x || occupied live x

-- No byte belongs to two of the allocations.
abbrev pub Disjoint : List Allocation → Type 0
Disjoint [] = Unit {0}
Disjoint (a ∷ live) =
    ((x : ℕ) → inside a.offset a.size x ≡ true → occupied live x ≡ false) × Disjoint live

abbrev pub InBlock : ℕ → Allocation → Type 0
InBlock total a = (0 < a.size) × (a.offset + a.size ≤ total)

-- The block `b` with the allocations that are live in it becomes `b'` with `live'`.
pub data Step (b : Block) (live : List Allocation) : Block → List Allocation → Type 0 where
  allocates :
      (size alignment mem_type : ℕ) (a : Allocation) {b' : Block} {live' : List Allocation}
      → Fits b size alignment
      → try_allocate_from_block b size alignment mem_type ≡ some (a, b')
      → live' ≡ a ∷ live
      → Step b live b' live'
  frees :
      (pre : List Allocation) (a : Allocation) (post : List Allocation) {b' : Block}
      {live' : List Allocation}
      → live ≡ pre ++ a ∷ post
      → live' ≡ pre ++ post
      → b' ≡ free_in_block b a.offset a.size
      → Step b live b' live'

pub data Reach (b : Block) (live : List Allocation) : Block → List Allocation → Type 0 where
  here : Reach b live b live
  next :
      {b' b'' : Block} {live' live'' : List Allocation}
      → Reach b live b' live'
      → Step b' live' b'' live''
      → Reach b live b'' live''

-- The live allocations and the free list share the block out between them.
pub record Accounted (total : ℕ) (b : Block) (live : List Allocation) : Type 0 where
  pub valid : IsValid b
  pub same_total : b.total_size ≡ total
  pub shared_out : (x : ℕ) → x < total → covers b.free_list x ≡ not (occupied live x)
  pub disjoint : Disjoint live
  pub in_block : All (InBlock total) live

occupied-append :
    (pre : List Allocation) (a : Allocation) (post : List Allocation) (x : ℕ)
    → occupied (pre ++ a ∷ post) x ≡ (inside a.offset a.size x || occupied (pre ++ post) x)
unfolding occupied
occupied-append [] a post x = refl
occupied-append (c ∷ pre) a post x = ground (arith, occupied-append pre a post x)

Disjoint-remove :
    (pre : List Allocation) (a : Allocation) (post : List Allocation)
    → Disjoint (pre ++ a ∷ post)
    → Disjoint (pre ++ post)
      × ((x : ℕ) → inside a.offset a.size x ≡ true → occupied (pre ++ post) x ≡ false)
unfolding occupied
Disjoint-remove [] a post d = (d.1, d.0)
Disjoint-remove (c ∷ pre) a post d =
    let (rest, apart) = Disjoint-remove pre a post d.1 in
    (
      (λ x h. ground (arith, d.0 x h, occupied-append pre a post x), rest),
      λ x h. ground (arith, apart x h, d.0 x, occupied-append pre a post x),
    )

All-remove :
    (total : ℕ) (pre : List Allocation) (a : Allocation) (post : List Allocation)
    → All (InBlock total) (pre ++ a ∷ post)
    → All (InBlock total) (pre ++ post) × InBlock total a
All-remove total [] a post h = (h.1, h.0)
All-remove total (c ∷ pre) a post h =
    let (rest, it) = All-remove total pre a post h.1 in ((h.0, rest), it)

module _ (total : ℕ) (small : total < 2 ^ 64) where
  allocates-Accounted :
      (b : Block) (live : List Allocation) (size alignment mem_type : ℕ) (a : Allocation)
      (b' : Block)
      → Fits b size alignment
      → Allocated b size alignment mem_type a b'
      → Accounted total b live
      → Accounted total b' (a ∷ live)
  unfolding occupied
  allocates-Accounted b live size alignment mem_type a b' f given v = record {
    valid = given.valid;
    same_total = given.same_size ∙ v.same_total;
    shared_out = λ x h. ground (arith, v.shared_out x h, given.now_free x, given.size_asked);
    disjoint = (
      λ x h. ground (
        arith,
        h,
        v.shared_out x,
        given.was_free x,
        given.in_block,
        given.size_asked,
        v.same_total,
      ),
      v.disjoint,
    );
    in_block = (
      (
        omega (arith, given.size_asked, f.nonempty),
        omega (arith, given.size_asked, given.in_block, v.same_total),
      ),
      v.in_block,
    );
  }

  module _ (b : Block) (pre : List Allocation) (a : Allocation) (post : List Allocation)
      (v : Accounted total b (pre ++ a ∷ post)) where
    it : InBlock total a
    it = (All-remove total pre a post v.in_block).1

    apart : (x : ℕ) → inside a.offset a.size x ≡ true → occupied (pre ++ post) x ≡ false
    apart = (Disjoint-remove pre a post v.disjoint).1

    live-Taken : Taken b a.offset a.size
    live-Taken = record {
      nonempty = it.0;
      within = omega (arith, it.1, v.same_total);
      taken = λ x h. ground (arith, h, it.1, v.shared_out x, occupied-append pre a post x);
    }

    frees-Accounted : Accounted total (free_in_block b a.offset a.size) (pre ++ post)
    frees-Accounted =
        let (chain, cover, m, t, base, hint) =
          free_in_block_lem b a.offset a.size v.valid (omega (arith, v.same_total, small))
            live-Taken in
        record {
          valid = chain;
          same_total = t ∙ v.same_total;
          shared_out = λ x h.
              ground (arith, cover x, v.shared_out x h, occupied-append pre a post x, apart x);
          disjoint = (Disjoint-remove pre a post v.disjoint).0;
          in_block = (All-remove total pre a post v.in_block).0;
        }

  Step-Accounted :
      {b b' : Block} {live live' : List Allocation}
      → Step b live b' live'
      → Accounted total b live
      → Accounted total b' live'
  Step-Accounted {b} {b'} {live} {live'} (allocates size alignment mem_type a f e more) v =
      subst (Accounted total b') (sym more) (
        allocates-Accounted b live size alignment mem_type a b' f
          (try_allocate_from_block_lem b size alignment mem_type a b' v.valid f e) v)
  Step-Accounted {b} {b'} {live} {live'} (frees pre a post split less result) v =
      rw (result, less) (frees-Accounted b pre a post (subst (Accounted total b) split v))

  fresh-Accounted :
      (memory : ℕ) (mapped_base : Option ℕ)
      → 0 < total
      → Accounted total (fresh_block memory total mapped_base) []
  unfolding fresh_block occupied covers
  fresh-Accounted memory mapped_base pos = record {
    valid = (omega arith, pos, omega arith, tt);
    same_total = refl;
    shared_out = λ x h. ground arith;
    disjoint = tt;
    in_block = tt;
  }

Reach-Accounted :
    (total : ℕ) (b : Block) (live : List Allocation) (b' : Block) (live' : List Allocation)
    → total < 2 ^ 64
    → Accounted total b live
    → Reach b live b' live'
    → Accounted total b' live'
Reach-Accounted total b live b' live' small v here = v
Reach-Accounted total b live b' live' small v (next {b' = c} {live' = mid} r st) =
    Step-Accounted total small st (Reach-Accounted total b live c mid small v r)

-- After any history in a fresh block, of more than 0 and less than 2^64 bytes, of frees and of
-- allocations for nonempty requests with a power of two as alignment that cannot wrap, the live
-- allocations lie in the block, no byte belongs to two of them, a byte is free exactly if it belongs to none, and the
-- free list is sorted and coalesced.
pub Reach-fresh_block :
    (memory total : ℕ) (mapped_base : Option ℕ) (b : Block) (live : List Allocation)
    → 0 < total
    → total < 2 ^ 64
    → Reach (fresh_block memory total mapped_base) [] b live
    → Accounted total b live
Reach-fresh_block memory total mapped_base b live pos small r =
    Reach-Accounted total (fresh_block memory total mapped_base) [] b live small
      (fresh-Accounted total small memory mapped_base pos) r

-- When every allocation of such a history has been freed, in whatever order, the free list is again the one region
-- of the fresh block: nothing leaks and nothing stays fragmented.
pub Reach-fresh_block-empty :
    (memory total : ℕ) (mapped_base : Option ℕ) (b : Block)
    → 0 < total
    → total < 2 ^ 64
    → Reach (fresh_block memory total mapped_base) [] b []
    → b.free_list ≡ (fresh_block memory total mapped_base).free_list
unfolding fresh_block
Reach-fresh_block-empty memory total mapped_base b pos small r =
    let v = Reach-fresh_block memory total mapped_base b [] pos small r in
    let w = fresh-Accounted total small memory mapped_base pos in
    Chain-unique 0 (suc b.total_size) 0 (suc total) b.free_list _ v.valid w.valid λ x.
      elim (le_cases total x) [
        | inl outside ↦
            covers_above 0 (suc b.total_size) b.free_list x v.valid (omega (arith, v.same_total))
            ∙ sym (covers_above 0 (suc total) _ x w.valid (omega arith))
        | inr within ↦ v.shared_out x within ∙ sym (w.shared_out x within)
      ]
