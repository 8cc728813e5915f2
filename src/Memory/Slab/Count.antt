-- ===== src/Memory/Slab/Count.antt =====
-- Counting the numbers below a bound that pass a test, and membership in a queue of numbers.
use ignis_rs.Base.{
  ℕ, zero, suc, ◌+◌, ◌<◌, ◌≡◌, refl, ap, ◌∙◌, ◌≢◌, inl, inr, Bool, true, false, ◌||◌, List, [], ◌∷◌,
  ◌++◌, arith, ◌==◌, if◌then◌else◌, Bool-cases, le_cases,
}

unfoldable pub count : (ℕ → Bool) → ℕ → ℕ
count p zero = 0
count p (suc n) = (if p n then 1 else 0) + count p n

pub count_ext : (p q : ℕ → Bool) (n : ℕ) → ((i : ℕ) → i < n → p i ≡ q i) → count p n ≡ count q n
unfolding count
count_ext p q zero h = refl
count_ext p q (suc n) h = ground (arith, h n, count_ext p q n (λ i l. h i (omega arith)))

-- Two tests that differ at one number below the bound alone.
pub count_flip :
    (p q : ℕ → Bool) (n s : ℕ)
    → s < n
    → p s ≡ true
    → q s ≡ false
    → ((i : ℕ) → i < n → i ≢ s → p i ≡ q i)
    → count p n ≡ suc (count q n)
unfolding count
count_flip p q zero s l a b h = absurd (omega arith)
count_flip p q (suc n) s l a b h = elim (le_cases n s) [
  | inl last ↦
      let here : n ≡ s = omega arith in
      let same : count p n ≡ count q n =
        count_ext p q n (λ i k. h i (omega arith) (λ e. absurd (omega (arith, e)))) in
      let pn : p n ≡ true = ap p here ∙ a in
      let qn : q n ≡ false = ap q here ∙ b in ground (arith, pn, qn, same)
  | inr before ↦ ground (
    arith,
    h n (omega arith) (λ e. absurd (omega (arith, e))),
    count_flip p q n s before a b (λ i k. h i (omega arith)),
  )
]

pub count_find : (p : ℕ → Bool) (n : ℕ) → 0 < count p n → (s : ℕ) × (s < n) × (p s ≡ true)
unfolding count
count_find p zero h = absurd (omega arith)
count_find p (suc n) h = elim (Bool-cases (p n)) [
  | inl it ↦ (n, omega arith, it)
  | inr other ↦
      let (s, l, e) = count_find p n (ground (arith, h, other)) in (s, omega (arith, l), e)
]

pub count_zero : (p : ℕ → Bool) (n i : ℕ) → count p n ≡ 0 → i < n → p i ≡ false
unfolding count
count_zero p zero i e l = absurd (omega arith)
count_zero p (suc n) i e l = elim (le_cases n i) [
  | inl last ↦ let here : i ≡ n = omega arith in ap p here ∙ ground (arith, e)
  | inr before ↦ count_zero p n i (ground (arith, e)) before
]

unfoldable pub member : ℕ → List ℕ → Bool
member i [] = false
member i (j ∷ js) = i == j || member i js

pub member-append : (i : ℕ) (xs ys : List ℕ) → member i (xs ++ ys) ≡ (member i xs || member i ys)
unfolding member
member-append i [] ys = refl
member-append i (x ∷ xs) ys = ground (arith, member-append i xs ys)

-- No number stands twice in the list.
abbrev pub Distinct : List ℕ → Type 0
Distinct [] = Unit {0}
Distinct (i ∷ is) = (member i is ≡ false) × Distinct is

pub Distinct-snoc :
    (xs : List ℕ) (i : ℕ) → Distinct xs → member i xs ≡ false → Distinct (xs ++ i ∷ [])
unfolding member
Distinct-snoc [] i d m = (refl, tt)
Distinct-snoc (x ∷ xs) i d m = (
  member-append x xs (i ∷ []) ∙ ground (arith, d.0, m),
  Distinct-snoc xs i d.1 (ground (arith, m)),
)
