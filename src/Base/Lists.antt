-- ===== src/Base/Lists.antt =====
-- Vectors as lists, measured and indexed by native numbers, and the `Vec` operations of the code.
use Prim.Native.Nat.{ℕ, zero, suc, ◌+◌, ◌<◌}
use mathlib.Core.Path.{◌≡◌, refl, ap}
use mathlib.Core.Logic.{◌≢◌}
use mathlib.Core.Bool.{Bool, false}
use mathlib.Core.List.{List, [], ◌∷◌, ◌++◌}
use mathlib.Core.Option.{Option, none, some}
use native.Mathlib.Omega.{arith}
use ignis_rs.Base.Tests.{if◌then◌else◌}

module _ {ℓ} {A : Type ℓ} where
  abbrev pub length : List A → ℕ
  length [] = 0
  length (x ∷ xs) = suc (length xs)

  abbrev pub get_elem? : List A → ℕ → Option A
  get_elem? [] i = none
  get_elem? (x ∷ xs) zero = some x
  get_elem? (x ∷ xs) (suc i) = get_elem? xs i

  -- A write out of bounds changes nothing; the code panics there.
  abbrev pub set : List A → ℕ → A → List A
  set [] i v = []
  set (x ∷ xs) zero v = v ∷ xs
  set (x ∷ xs) (suc i) v = x ∷ set xs i v

  abbrev pub replicate : ℕ → A → List A
  replicate zero a = []
  replicate (suc n) a = a ∷ replicate n a

  abbrev pub drop : ℕ → List A → List A
  drop zero xs = xs
  drop (suc n) [] = []
  drop (suc n) (x ∷ xs) = drop n xs

  -- `Vec::remove`.
  abbrev pub remove_at : List A → ℕ → List A
  remove_at [] i = []
  remove_at (x ∷ xs) zero = xs
  remove_at (x ∷ xs) (suc i) = x ∷ remove_at xs i

  -- `Vec::insert`.
  abbrev pub insert_at : List A → ℕ → A → List A
  insert_at xs zero v = v ∷ xs
  insert_at [] (suc i) v = v ∷ []
  insert_at (x ∷ xs) (suc i) v = x ∷ insert_at xs i v

  -- `iter().position(p).unwrap_or(len)`.
  abbrev pub position_or_len : (A → Bool) → List A → ℕ
  position_or_len p [] = 0
  position_or_len p (x ∷ xs) = if p x then 0 else suc (position_or_len p xs)

  abbrev pub All {κ} : (A → Type κ) → List A → Type κ
  All P [] = Unit
  All P (x ∷ xs) = P x × All P xs

module _ {ℓ} {A : Type ℓ} where
  pub length-append : (xs ys : List A) → length (xs ++ ys) ≡ length xs + length ys
  length-append [] ys = omega arith
  length-append (x ∷ xs) ys = omega (arith, length-append xs ys)

  pub drop-nil : (n : ℕ) → drop {A = A} n [] ≡ []
  drop-nil zero = refl
  drop-nil (suc n) = refl

  pub length-set : (xs : List A) (i : ℕ) (v : A) → length (set xs i v) ≡ length xs
  length-set [] i v = refl
  length-set (x ∷ xs) zero v = refl
  length-set (x ∷ xs) (suc i) v = ap suc (length-set xs i v)

  pub get_elem?-set_self :
      (xs : List A) (i : ℕ) (v : A) → i < length xs → get_elem? (set xs i v) i ≡ some v
  get_elem?-set_self [] i v h = elim h [ ]
  get_elem?-set_self (x ∷ xs) zero v h = refl
  get_elem?-set_self (x ∷ xs) (suc i) v h = get_elem?-set_self xs i v (omega arith)

  pub get_elem?-set_ne :
      (xs : List A) (i j : ℕ) (v : A) → i ≢ j → get_elem? (set xs i v) j ≡ get_elem? xs j
  get_elem?-set_ne [] i j v h = refl
  get_elem?-set_ne (x ∷ xs) zero zero v h = absurd (h refl)
  get_elem?-set_ne (x ∷ xs) zero (suc j) v h = refl
  get_elem?-set_ne (x ∷ xs) (suc i) zero v h = refl
  get_elem?-set_ne (x ∷ xs) (suc i) (suc j) v h = get_elem?-set_ne xs i j v (λ e. h (ap suc e))

  pub get_elem?_lt : (xs : List A) (i : ℕ) → i < length xs → (a : A) × (get_elem? xs i ≡ some a)
  get_elem?_lt [] i h = elim h [ ]
  get_elem?_lt (x ∷ xs) zero h = (x, refl)
  get_elem?_lt (x ∷ xs) (suc i) h = get_elem?_lt xs i (omega arith)

  pub get_elem?_in : (xs : List A) (i : ℕ) (a : A) → get_elem? xs i ≡ some a → i < length xs
  get_elem?_in [] i a h = cc
  get_elem?_in (x ∷ xs) zero a h = omega arith
  get_elem?_in (x ∷ xs) (suc i) a h = omega (arith, get_elem?_in xs i a h)

  -- An element in range splits the list at its index.
  pub split_at :
      (xs : List A) (i : ℕ) (a : A)
      → get_elem? xs i ≡ some a
      → (pre : List A) × (post : List A) × (xs ≡ pre ++ a ∷ post) × (length pre ≡ i)
  split_at [] i a h = cc
  split_at (x ∷ xs) zero a h = ([], xs, cc, refl)
  split_at (x ∷ xs) (suc i) a h =
      let (pre, post, e, n) = split_at xs i a h in (x ∷ pre, post, cc, ap suc n)

  pub remove_at-append :
      (pre : List A) (a : A) (post : List A)
      → remove_at (pre ++ a ∷ post) (length pre) ≡ pre ++ post
  remove_at-append [] a post = refl
  remove_at-append (x ∷ pre) a post = ap (◌∷◌ x) (remove_at-append pre a post)

  pub insert_at-append :
      (pre post : List A) (a : A) → insert_at (pre ++ post) (length pre) a ≡ pre ++ a ∷ post
  insert_at-append [] post a = refl
  insert_at-append (x ∷ pre) post a = ap (◌∷◌ x) (insert_at-append pre post a)

  pub get_elem?-append :
      (pre post : List A) (i : ℕ) → get_elem? (pre ++ post) (length pre + i) ≡ get_elem? post i
  get_elem?-append [] post i = ap (get_elem? post) (omega arith)
  get_elem?-append (x ∷ pre) post i =
      let e : suc (length pre) + i ≡ suc (length pre + i) = omega arith in
      rw e (get_elem?-append pre post i)

  pub set-append :
      (pre : List A) (a : A) (post : List A) (v : A)
      → set (pre ++ a ∷ post) (length pre) v ≡ pre ++ v ∷ post
  set-append [] a post v = refl
  set-append (x ∷ pre) a post v = ap (◌∷◌ x) (set-append pre a post v)

  pub position_or_len-append :
      (p : A → Bool) (pre post : List A)
      → All (λ x. p x ≡ false) pre
      → position_or_len p (pre ++ post) ≡ length pre + position_or_len p post
  position_or_len-append p [] post h = omega arith
  position_or_len-append p (x ∷ pre) post h =
      rw h.0 (omega (arith, position_or_len-append p pre post h.1))
