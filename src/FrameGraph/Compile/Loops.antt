-- ===== src/FrameGraph/Compile/Loops.antt =====
-- framegraph.rs: what the loops of `compile` leave on the device.
use ignis_rs.Base.{
  ℕ, suc, ◌+◌, ◌≡◌, refl, sym, ap, length, get_elem?, ◌∙◌, none, some, List, [], ◌∷◌, ◌++◌, arith,
}
use ignis_rs.Error.{Error, Result, ok, err}
use ignis_rs.Memory.Resources.Ledger.{Resource, is, range_of, Same}
use ignis_rs.FrameGraph.Compiled.{RealizedImage, RealizedBuffer}
use ignis_rs.FrameGraph.Compile.{drop_all, realize_all}

-- What a realized image or buffer holds of a resource: its handle and its memory, if it is owned.
abbrev pub held_image : RealizedImage → Resource → ℕ
held_image img r = elim img.owned [
  | none ↦ 0
  | some i ↦ is r (Resource.image i.handle) + is r (range_of i.allocation)
]

abbrev pub held_buffer : RealizedBuffer → Resource → ℕ
held_buffer buf r = elim buf.owned [
  | none ↦ 0
  | some b ↦ is r (Resource.buffer b.handle) + is r (range_of b.allocation)
]

abbrev pub held_all {ℓ} : {A : Type ℓ} → (A → Resource → ℕ) → List A → Resource → ℕ
held_all held [] r = 0
held_all held (a ∷ as') r = held a r + held_all held as' r

snoc-append {ℓ} :
    {A : Type ℓ} (xs : List A) (x : A) (ys : List A) → (xs ++ x ∷ []) ++ ys ≡ xs ++ x ∷ ys
snoc-append [] x ys = refl
snoc-append (y ∷ xs) x ys = ap (◌∷◌ y) (snoc-append xs x ys)

append-nil {ℓ} : {A : Type ℓ} (xs : List A) → xs ++ [] ≡ xs
append-nil [] = refl
append-nil (x ∷ xs) = ap (◌∷◌ x) (append-nil xs)

pub held_all-append :
    {A : Type 0} (held : A → Resource → ℕ) (xs ys : List A) (r : Resource)
    → held_all held (xs ++ ys) r ≡ held_all held xs r + held_all held ys r
held_all-append held [] ys r = omega arith
held_all-append held (x ∷ xs) ys r = omega (arith, held_all-append held xs ys r)

-- One thing for each declaration, in their order.
abbrev pub Matched : {D A : Type 0} → (D → A → Type 0) → List D → List A → Type 0
Matched Fits [] [] = Unit {0}
Matched Fits [] (a ∷ as') = ⊥
Matched Fits (d ∷ ds) [] = ⊥
Matched Fits (d ∷ ds) (a ∷ as') = Fits d a × Matched Fits ds as'

pub Matched-length :
    {D A : Type 0} (Fits : D → A → Type 0) (ds : List D) (as' : List A)
    → Matched Fits ds as'
    → length ds ≡ length as'
Matched-length Fits [] [] m = refl
Matched-length Fits [] (a ∷ as') m = absurd m
Matched-length Fits (d ∷ ds) [] m = absurd m
Matched-length Fits (d ∷ ds) (a ∷ as') m = omega (arith, Matched-length Fits ds as' m.1)

-- The loops, with what is alive otherwise. `Fits` is what a declaration is realized as, `Refuses` why
-- it is not.
module _ {World A D : Type 0} (live : World → Resource → ℕ) (held : A → Resource → ℕ)
    (Fits : D → A → Type 0) (Refuses : D → Error → Type 0) where
  abbrev pub Makes : D → World → Result A × World → Type 0
  Makes d w (err e, w') = Same live w w' × Refuses d e
  Makes d w (ok a, w') = ((r : Resource) → live w' r ≡ live w r + held a r) × Fits d a

  abbrev pub Outcome : List A → List D → (Resource → ℕ) → Result (List A) × World → Type 0
  Outcome made decls base (err e, w) =
      ((r : Resource) → live w r ≡ base r)
      × ((i : ℕ) × (d : D) × (get_elem? decls i ≡ some d) × Refuses d e)
  Outcome made decls base (ok made', w) =
      ((r : Resource) → live w r ≡ base r + held_all held made' r)
      × ((new : List A) × (made' ≡ made ++ new) × Matched Fits decls new)

  later-Outcome :
      (made : List A) (a : A) (d : D) (decls : List D) (base : Resource → ℕ)
      (o : Result (List A) × World)
      → Fits d a
      → Outcome (made ++ a ∷ []) decls base o
      → Outcome made (d ∷ decls) base o
  later-Outcome made a d decls base (err e, w) fits (h, (i, d', found, refuses)) =
      (h, (suc i, d', found, refuses))
  later-Outcome made a d decls base (ok made', w) fits (h, (new, e, matched)) =
      (h, (a ∷ new, e ∙ snoc-append made a new, (fits, matched)))

  module _ (realize : D → World → Result A × World) (drop_one : A → World → World)
      (drops : (a : A) (w : World) (base : Resource → ℕ)
        → ((r : Resource) → live w r ≡ base r + held a r)
        → (r : Resource) → live (drop_one a w) r ≡ base r)
      (makes : (d : D) (w : World) → Makes d w (realize d w)) where
    pub drop_all_lem :
        (made : List A) (w : World) (base : Resource → ℕ)
        → ((r : Resource) → live w r ≡ base r + held_all held made r)
        → (r : Resource) → live (drop_all realize drop_one made w) r ≡ base r
    unfolding drop_all
    drop_all_lem [] w base h = λ r. omega (arith, h r)
    drop_all_lem (a ∷ made) w base h =
        drop_all_lem made (drop_one a w) base
          (drops a w (λ r. base r + held_all held made r) λ r. omega (arith, h r))

    pub realize_all_lem :
        (decls : List D) (made : List A) (w : World) (base : Resource → ℕ)
        → ((r : Resource) → live w r ≡ base r + held_all held made r)
        → Outcome made decls base (realize_all realize drop_one decls made w)
    unfolding realize_all
    realize_all_lem [] made w base h = (h, ([], sym (append-nil made), tt))
    realize_all_lem (d ∷ decls) made w base h =
        next (realize d w).0 (realize d w).1 (makes d w)
          λ a w' h'. realize_all_lem decls (made ++ a ∷ []) w' base h'
      where
        next :
            (step : Result A) (w' : World)
            → Makes d w (step, w')
            → ((a : A) (w2 : World)
                → ((r : Resource) → live w2 r ≡ base r + held_all held (made ++ a ∷ []) r)
                → Outcome
                    (made ++ a ∷ [])
                    decls
                    base
                    (realize_all realize drop_one decls (made ++ a ∷ []) w2))
            → Outcome made (d ∷ decls) base (elim step [
              | err e ↦ (err e, drop_all realize drop_one made w')
              | ok a ↦ realize_all realize drop_one decls (made ++ a ∷ []) w'
            ])
        next (err e) w' (same, refuses) later =
            (drop_all_lem made w' base λ r. same r ∙ h r, (0, d, refl, refuses))
        next (ok a) w' (adds, fits) later =
            later-Outcome made a d decls base
              (realize_all realize drop_one decls (made ++ a ∷ []) w') fits
              (later a w' λ r. omega (arith, adds r, h r, held_all-append held made (a ∷ []) r))
