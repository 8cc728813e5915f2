-- ===== src/Tracking/Deletion/Loops.antt =====
-- tracking/deletion.rs: the two loops of `poll`, by a flag for each entry.
use ignis_rs.Base.{
  ℕ, ◌+◌, ◌≡◌, refl, sym, ap, inl, inr, Bool, Option, some, List, [], ◌∷◌, ◌++◌, arith,
  if◌then◌else◌, remove_at, get_elem?, length, Bool-cases,
}
use ignis_rs.Tracking.Deletion.{
  DeletionEntry, Device, is_safe, collect, destroy_found, destroy_resource, remove_back,
}

-- The entries that stay and those that go, by a flag for each.
abbrev pub kept : List Bool → List DeletionEntry → List DeletionEntry
kept [] entries = entries
kept (b ∷ bs) [] = []
kept (b ∷ bs) (e ∷ es) = if b then kept bs es else e ∷ kept bs es

abbrev pub gone : List Bool → List DeletionEntry → List DeletionEntry
gone [] entries = []
gone (b ∷ bs) [] = []
gone (b ∷ bs) (e ∷ es) = if b then e ∷ gone bs es else gone bs es

remove_at-append :
    (pre : List DeletionEntry) (e : DeletionEntry) (post : List DeletionEntry)
    → remove_at (pre ++ e ∷ post) (length pre) ≡ pre ++ post
remove_at-append [] e post = refl
remove_at-append (x ∷ pre) e post = ap (◌∷◌ x) (remove_at-append pre e post)

get_elem?-append :
    (pre : List DeletionEntry) (e : DeletionEntry) (post : List DeletionEntry)
    → get_elem? (pre ++ e ∷ post) (length pre) ≡ some e
get_elem?-append [] e post = refl
get_elem?-append (x ∷ pre) e post = get_elem?-append pre e post

snoc-append :
    (pre : List DeletionEntry) (e : DeletionEntry) (post : List DeletionEntry)
    → (pre ++ e ∷ []) ++ post ≡ pre ++ e ∷ post
snoc-append [] e post = refl
snoc-append (x ∷ pre) e post = ap (◌∷◌ x) (snoc-append pre e post)

length-snoc :
    (pre : List DeletionEntry) (e : DeletionEntry) → length (pre ++ e ∷ []) ≡ length pre + 1
length-snoc [] e = refl
length-snoc (x ∷ pre) e = omega (arith, length-snoc pre e)

module _ (d : Device) where
  open d use {World, current_value, get_fence_status}

  -- The resources destroyed, the last one first.
  unfoldable pub destroy_back : List DeletionEntry → World → World
  destroy_back [] w = w
  destroy_back (e ∷ es) w = destroy_resource d e.resource (destroy_back es w)

  -- Which guards are met, each read once the ones before it have been.
  unfoldable pub flags : List DeletionEntry → (ℕ → Option ℕ) → World → List Bool
  flags [] cache w = []
  flags (e ∷ es) cache w =
      let (safe, cache', w') = is_safe d e.guard cache w in safe ∷ flags es cache' w'

  pub remove_back-collect :
      (pre es : List DeletionEntry) (cache : ℕ → Option ℕ) (w u : World)
      → remove_back d (collect d es (length pre) cache w).0 (pre ++ es, u)
        ≡ (pre ++ kept (flags es cache w) es, destroy_back (gone (flags es cache w) es) u)
  unfolding remove_back collect flags destroy_back destroy_found
  remove_back-collect pre [] cache w u = refl
  remove_back-collect pre (e ∷ es) cache w u =
      let cache' = (is_safe d e.guard cache w).1 in
      let w' = (is_safe d e.guard cache w).2 in
      let later : remove_back d (collect d es (length pre + 1) cache' w').0 (pre ++ e ∷ es, u) ≡ (
        pre ++ e ∷ kept (flags es cache' w') es,
        destroy_back (gone (flags es cache' w') es) u,
      ) =
        rw
          (
            sym (length-snoc pre e),
            sym (snoc-append pre e es),
            sym (snoc-append pre e (kept (flags es cache' w') es)),
          )
          (remove_back-collect (pre ++ e ∷ []) es cache' w' u) in
      elim (Bool-cases (is_safe d e.guard cache w).0) [
        | inl safe ↦
            rw
              (
                safe,
                later,
                remove_at-append pre e (kept (flags es cache' w') es),
                get_elem?-append pre e (kept (flags es cache' w') es),
              )
              refl
        | inr waits ↦ rw (waits) later
      ]

  pub length-collect :
      (es : List DeletionEntry) (i : ℕ) (cache : ℕ → Option ℕ) (w : World)
      → length (collect d es i cache w).0 ≡ length (gone (flags es cache w) es)
  unfolding collect flags
  length-collect [] i cache w = refl
  length-collect (e ∷ es) i cache w =
      ground (
        arith,
        length-collect es (i + 1) (is_safe d e.guard cache w).1 (is_safe d e.guard cache w).2,
      )
