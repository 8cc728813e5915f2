-- ===== src/Base/Occurs.antt =====
-- How often a number occurs in a list, and sums over the numbers below a bound.
use Prim.Native.Nat.{ℕ, zero, suc, ◌+◌, ◌≤◌, ◌<◌}
use mathlib.Core.Path.{◌≡◌, refl, sym, ap}
use mathlib.Core.Logic.{◌≢◌, inl, inr}
use mathlib.Core.List.{List, [], ◌∷◌, ◌++◌}
use native.Mathlib.Omega.{arith}
use ignis_rs.Base.Tests.{◌==◌, if◌then◌else◌, le_cases}
use ignis_rs.Base.Lists.{length}

abbrev pub occurs : ℕ → List ℕ → ℕ
occurs v [] = 0
occurs v (x ∷ xs) = (if v == x then 1 else 0) + occurs v xs

pub occurs-append : (v : ℕ) (xs ys : List ℕ) → occurs v (xs ++ ys) ≡ occurs v xs + occurs v ys
occurs-append v [] ys = omega arith
occurs-append v (x ∷ xs) ys = omega (arith, occurs-append v xs ys)

-- A list in which nothing occurs is empty.
pub occurs-nil : (xs : List ℕ) → ((v : ℕ) → occurs v xs ≡ 0) → xs ≡ []
occurs-nil [] h = refl
occurs-nil (x ∷ xs) h = absurd (ground (arith, h x))

-- A number that occurs splits the list at its first place.
pub occurs-split :
    (v : ℕ) (xs : List ℕ) → 0 < occurs v xs → (pre post : List ℕ) × (xs ≡ pre ++ v ∷ post)
occurs-split v [] h = absurd (omega (arith, h))
occurs-split v (x ∷ xs) h = elim (le_cases 1 (occurs v xs)) [
  | inl later ↦ let (pre, post, e) = occurs-split v xs later in (x ∷ pre, post, ap (◌∷◌ x) e)
  | inr here ↦ let e : x ≡ v = ground (arith, h, here) in ([], xs, ap (λ (t : ℕ). t ∷ xs) e)
]

unfoldable pub sum_to : ℕ → (ℕ → ℕ) → ℕ
sum_to zero f = 0
sum_to (suc n) f = f n + sum_to n f

pub sum_to_ext : (n : ℕ) (f g : ℕ → ℕ) → ((u : ℕ) → u < n → f u ≡ g u) → sum_to n f ≡ sum_to n g
unfolding sum_to
sum_to_ext zero f g h = refl
sum_to_ext (suc n) f g h =
    omega (arith, h n (omega arith), sum_to_ext n f g (λ u l. h u (omega (arith, l))))

-- Two functions that differ in one place.
pub sum_to_at :
    (n k : ℕ) (f g : ℕ → ℕ)
    → k < n
    → ((u : ℕ) → u ≢ k → f u ≡ g u)
    → sum_to n f + g k ≡ sum_to n g + f k
unfolding sum_to
sum_to_at zero k f g l h = absurd (omega (arith, l))
sum_to_at (suc n) k f g l h = elim (le_cases n k) [
  | inl last ↦
      let e : k ≡ n = omega (arith, l, last) in
      rw e (
        omega
          (arith, sum_to_ext n f g (λ u b. h u (λ same. absurd (omega (arith, same, b, last))))))
  | inr before ↦
      omega (arith, sum_to_at n k f g before h, h n (λ same. absurd (omega (arith, same, before))))
]

pub sum_to-pos : (n : ℕ) (f : ℕ → ℕ) → 0 < sum_to n f → (u : ℕ) × (u < n) × (0 < f u)
unfolding sum_to
sum_to-pos zero f h = absurd (omega (arith, h))
sum_to-pos (suc n) f h = elim (le_cases 1 (f n)) [
  | inl here ↦ (n, omega arith, here)
  | inr none_here ↦
      let (u, l, p) = sum_to-pos n f (omega (arith, h, none_here)) in (u, omega (arith, l), p)
]

pub sum_to-le-sum_to :
    (n : ℕ) (f g : ℕ → ℕ) → ((u : ℕ) → u < n → f u ≤ g u) → sum_to n f ≤ sum_to n g
unfolding sum_to
sum_to-le-sum_to zero f g h = omega arith
sum_to-le-sum_to (suc n) f g h =
    omega (arith, h n (omega arith), sum_to-le-sum_to n f g (λ u l. h u (omega (arith, l))))

pub le-sum_to : (n k : ℕ) (f : ℕ → ℕ) → k < n → f k ≤ sum_to n f
unfolding sum_to
le-sum_to zero k f l = absurd (omega (arith, l))
le-sum_to (suc n) k f l = elim (le_cases n k) [
  | inl last ↦ let e : k ≡ n = omega (arith, l, last) in rw e (omega arith)
  | inr before ↦ omega (arith, le-sum_to n k f before)
]

pub sum_to-one : (n : ℕ) → sum_to n (λ u. 1) ≡ n
unfolding sum_to
sum_to-one zero = refl
sum_to-one (suc n) = omega (arith, sum_to-one n)

pub sum_to-zero : (n : ℕ) → sum_to n (λ u. 0) ≡ 0
unfolding sum_to
sum_to-zero zero = refl
sum_to-zero (suc n) = omega (arith, sum_to-zero n)

-- The length of a list of numbers below the bound, counted number by number.
pub length-sum_to :
    (n : ℕ) (xs : List ℕ)
    → ((v : ℕ) → 0 < occurs v xs → v < n)
    → length xs ≡ sum_to n (λ v. occurs v xs)
length-sum_to n [] h = sym (sum_to-zero n)
length-sum_to n (x ∷ xs) h =
    let low : x < n = h x (ground arith) in
    omega (
      arith,
      length-sum_to n xs (λ v p. h v (omega (arith, p))),
      sum_to_at n x (λ v. occurs v (x ∷ xs)) (λ v. occurs v xs) low (λ u ne. ground (arith, ne)),
      one_more,
    )
  where
    one_more : occurs x (x ∷ xs) ≡ occurs x xs + 1
    one_more = ground arith
