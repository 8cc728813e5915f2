-- ===== src/Tracking/Deletion/Poll.antt =====
-- tracking/deletion.rs: what `poll` destroys.
use ignis_rs.Base.{
  ℕ, ◌+◌, ◌≤◌, ◌≡◌, ◌≢◌, ◌↔◌, refl, ap, subst, inl, inr, Bool, true, Option, none, some, List, [],
  ◌∷◌, arith, ◌==◌, length, Bool-cases, All, leb→le,
}
use ignis_rs.Tracking.Deletion.{
  DeletionGuard, timeline, fence, immediate, DeletionEntry, Device, or_zero, or_false, remember,
  cached_value, is_safe, collect, poll,
}
use ignis_rs.Tracking.Deletion.Loops.{
  kept, gone, destroy_back, flags, remove_back-collect, length-collect,
}

-- The value that an answer of the device stands for.
abbrev pub Answered : Option ℕ → ℕ → Type 0
Answered none v = v ≡ 0
Answered (some read) v = v ≡ read

or_zero-Answered : (o : Option ℕ) → Answered o (or_zero o)
unfolding or_zero
or_zero-Answered none = refl
or_zero-Answered (some v) = refl

true-status : (o : Option Bool) → or_false o ≡ true → o ≡ some true
true-status none h = absurd (unfold or_false in ground (arith, h))
true-status (some b) h = ap (λ (t : Bool). some t) (unfold or_false in h)

module _ (d : Device) where
  open d use {World, current_value, get_fence_status}

  -- The value of a timeline: the one read before in this call, or else what the device answers now,
  -- 0 if it does not, which is remembered.
  abbrev pub Current : Option ℕ → ℕ → (ℕ → Option ℕ) → World → ℕ → (ℕ → Option ℕ) → World → Type 0
  Current (some seen) sem cache w v cache' w' = (v ≡ seen) × (cache' ≡ cache) × (w' ≡ w)
  Current none sem cache w v cache' w' =
      Answered (current_value sem w).0 v
      × (cache' sem ≡ some v)
      × ((s : ℕ) → s ≢ sem → cache' s ≡ cache s)
      × (w' ≡ (current_value sem w).1)

  -- A guard is met exactly if the timeline has reached its value, or the fence is signaled, or there
  -- is nothing to wait for.
  abbrev pub Verdict :
      DeletionGuard → (ℕ → Option ℕ) → World → Bool → (ℕ → Option ℕ) → World → Type 0
  Verdict (timeline sem value) cache w met cache' w' =
      (v : ℕ) × Current (cache sem) sem cache w v cache' w' × ((met ≡ true) ↔ (value ≤ v))
  Verdict (fence f) cache w met cache' w' =
      ((met ≡ true) ↔ ((get_fence_status f w).0 ≡ some true))
      × (cache' ≡ cache)
      × (w' ≡ (get_fence_status f w).1)
  Verdict immediate cache w met cache' w' = (met ≡ true) × (cache' ≡ cache) × (w' ≡ w)

  -- A verdict for each entry, in their order.
  abbrev pub Verdicts : List DeletionEntry → (ℕ → Option ℕ) → World → List Bool → World → Type 0
  Verdicts [] cache w [] w' = w' ≡ w
  Verdicts [] cache w (met ∷ mets) w' = ⊥
  Verdicts (e ∷ es) cache w [] w' = ⊥
  Verdicts (e ∷ es) cache w (met ∷ mets) w' =
      (cache' : ℕ → Option ℕ) × (w1 : World) × Verdict e.guard cache w met cache' w1
      × Verdicts es cache' w1 mets w'

  cached_value-Current :
      (o : Option ℕ) (sem : ℕ) (cache : ℕ → Option ℕ) (w : World)
      → Current o sem cache w
          (cached_value d o sem cache w).0
          (cached_value d o sem cache w).1
          (cached_value d o sem cache w).2
  unfolding cached_value remember
  cached_value-Current (some v) sem cache w = (refl, refl, refl)
  cached_value-Current none sem cache w =
      (or_zero-Answered (current_value sem w).0, ground arith, λ s ne. ground (arith, ne), refl)

  is_safe-Verdict :
      (g : DeletionGuard) (cache : ℕ → Option ℕ) (w : World)
      → Verdict g cache w (is_safe d g cache w).0 (is_safe d g cache w).1 (is_safe d g cache w).2
  unfolding is_safe or_false
  is_safe-Verdict (timeline sem value) cache w = (
    (cached_value d (cache sem) sem cache w).0,
    cached_value-Current (cache sem) sem cache w,
    (λ h. leb→le _ _ h, λ l. ground (arith, l)),
  )
  is_safe-Verdict (fence f) cache w =
      ((true-status (get_fence_status f w).0, λ e. rw (e) refl), refl, refl)
  is_safe-Verdict immediate cache w = (refl, refl, refl)

  flags-Verdicts :
      (es : List DeletionEntry) (i : ℕ) (cache : ℕ → Option ℕ) (w : World)
      → Verdicts es cache w (flags d es cache w) (collect d es i cache w).1
  unfolding flags collect
  flags-Verdicts [] i cache w = refl
  flags-Verdicts (e ∷ es) i cache w = (
    (is_safe d e.guard cache w).1,
    (is_safe d e.guard cache w).2,
    is_safe-Verdict e.guard cache w,
    flags-Verdicts es (i + 1) (is_safe d e.guard cache w).1 (is_safe d e.guard cache w).2,
  )

  -- What `Done` may stand for: that the device is past a guard. A timeline never goes back and
  -- starts at 0, a signaled fence stays so.
  pub record Past (Done : DeletionGuard → Type 0) : Type 0 where
    pub reached :
        (sem v value : ℕ) (w : World)
        → (current_value sem w).0 ≡ some v
        → value ≤ v
        → Done (timeline sem value)
    pub at_start : (sem : ℕ) → Done (timeline sem 0)
    pub signaled : (f : ℕ) (w : World) → (get_fence_status f w).0 ≡ some true → Done (fence f)
    pub ready : Done immediate

module _ (d : Device) (Done : DeletionGuard → Type 0) (past : Past d Done) where
  open d use {World, current_value, get_fence_status}

  -- Every value in the cache was reached.
  abbrev Known : (ℕ → Option ℕ) → Type 0
  Known cache = (sem v value : ℕ) → cache sem ≡ some v → value ≤ v → Done (timeline sem value)

  -- A guard that is found met is past, and what is remembered of it is true.
  abbrev Judged : DeletionGuard → Bool × (ℕ → Option ℕ) × World → Type 0
  Judged g (safe, cache, w) = (safe ≡ true → Done g) × Known cache

  read-reached :
      (sem : ℕ) (w : World) (value : ℕ)
      → value ≤ or_zero (current_value sem w).0
      → Done (timeline sem value)
  read-reached sem w value l =
      by_read (current_value sem w).0 (λ v e. past.reached sem v value w e) l
    where
      by_read :
          (o : Option ℕ)
          → ((v : ℕ) → o ≡ some v → value ≤ v → Done (timeline sem value))
          → value ≤ or_zero o
          → Done (timeline sem value)
      by_read none h k =
          let none_needed : 0 ≡ value = unfold or_zero in omega (arith, k) in
          subst (λ (t : ℕ). Done (timeline sem t)) none_needed (past.at_start sem)
      by_read (some v) h k = h v refl (unfold or_zero in omega (arith, k))

  cached_value-reached :
      (o : Option ℕ) (sem : ℕ) (cache : ℕ → Option ℕ) (w : World)
      → cache sem ≡ o
      → Known cache
      → ((value : ℕ) → value ≤ (cached_value d o sem cache w).0 → Done (timeline sem value))
        × Known (cached_value d o sem cache w).1
  unfolding cached_value
  cached_value-reached (some v) sem cache w e known = (λ value l. known sem v value e l, known)
  cached_value-reached none sem cache w e known = (read-reached sem w, remembered)
    where
      remembered : Known (remember sem (or_zero (current_value sem w).0) cache)
      remembered s v value found l = elim (Bool-cases (s == sem)) [
        | inl same ↦
            let s_is : sem ≡ s = ground (arith, same) in
            let read : or_zero (current_value sem w).0 ≡ v =
              unfold remember in ground (arith, found, same) in
            subst (λ (t : ℕ). Done (timeline t value)) s_is
              (read-reached sem w value (omega (arith, read, l)))
        | inr apart ↦ known s v value (unfold remember in ground (arith, found, apart)) l
      ]

  is_safe-Judged :
      (g : DeletionGuard) (cache : ℕ → Option ℕ) (w : World)
      → Known cache
      → Judged g (is_safe d g cache w)
  unfolding is_safe
  is_safe-Judged (timeline sem value) cache w known =
      let (reached, known') = cached_value-reached (cache sem) sem cache w refl known in
      (λ safe. reached value (leb→le _ _ safe), known')
  is_safe-Judged (fence f) cache w known =
      (λ safe. past.signaled f w (true-status (get_fence_status f w).0 safe), known)
  is_safe-Judged immediate cache w known = (λ safe. past.ready, known)

  gone-Done :
      (es : List DeletionEntry) (cache : ℕ → Option ℕ) (w : World)
      → Known cache
      → All (λ e. Done e.guard) (gone (flags d es cache w) es)
  unfolding flags
  gone-Done [] cache w known = tt
  gone-Done (e ∷ es) cache w known =
      let (done, known') = is_safe-Judged e.guard cache w known in
      let rest = gone-Done es (is_safe d e.guard cache w).1 (is_safe d e.guard cache w).2 known' in
      elim (Bool-cases (is_safe d e.guard cache w).0) [
        | inl safe ↦ rw (safe, gone) (done safe, rest)
        | inr waits ↦ rw (waits, gone) rest
      ]

  -- `poll` judges every guard once, in the order of the entries: that of a timeline is met exactly
  -- if its value is at most the current value, which is read once for each semaphore and is 0 if it
  -- cannot be read; that of a fence exactly if the fence is signaled; the immediate one always. It
  -- keeps the entries whose guard is not met in their order, and destroys the others, the last one
  -- first. It gives their number, and the device is past the guard of each of them.
  pub poll_lem :
      (entries : List DeletionEntry) (w : World)
      → let (count, left, w') = poll d entries w in
        (met : List Bool) × (w1 : World) × Verdicts d entries (λ s. none) w met w1
        × (left ≡ kept met entries)
        × (w' ≡ destroy_back d (gone met entries) w1)
        × (count ≡ length (gone met entries))
        × All (λ e. Done e.guard) (gone met entries)
  unfolding poll
  poll_lem entries w =
      let loop =
        remove_back-collect d [] entries (λ s. none) w (collect d entries 0 (λ s. none) w).1 in
      (
        flags d entries (λ s. none) w,
        (collect d entries 0 (λ s. none) w).1,
        flags-Verdicts d entries 0 (λ s. none) w,
        ap (λ (s : List DeletionEntry × World). s.0) loop,
        ap (λ (s : List DeletionEntry × World). s.1) loop,
        length-collect d entries 0 (λ s. none) w,
        gone-Done entries (λ s. none) w (λ sem v value e l. cc),
      )
