-- ===== src/Base/Lists.antt =====
-- Lists measured by native numbers, and lists of numbers as the sets that the program keeps.
use Prim.Native.Nat.{ℕ, zero, suc, ◌+◌, ◌≤◌, ◌<◌}
use mathlib.Core.Path.{◌≡◌, refl, ◌∙◌}
use mathlib.Core.Logic.{◌≢◌, inl, inr}
use mathlib.Core.Bool.{Bool, true, false, ◌||◌}
use mathlib.Core.List.{List, [], ◌∷◌, ◌++◌}
use native.Mathlib.Omega.{arith}
use foc_devnet.Base.Tests.{◌==◌, if◌then◌else◌, Bool-cases}

module _ {ℓ} {A : Type ℓ} where
  abbrev pub length : List A → ℕ
  length [] = 0
  length (x ∷ xs) = suc (length xs)

  pub length-append : (xs ys : List A) → length (xs ++ ys) ≡ length xs + length ys
  length-append [] ys = omega arith
  length-append (x ∷ xs) ys = omega (arith, length-append xs ys)

  -- A predicate on every element, as a tuple.
  abbrev pub All {κ} : (A → Type κ) → List A → Type κ
  All P [] = Unit
  All P (x ∷ xs) = P x × All P xs

  pub All-append {κ} : (P : A → Type κ) (xs ys : List A) → All P xs → All P ys → All P (xs ++ ys)
  All-append P [] ys hx hy = hy
  All-append P (x ∷ xs) ys hx hy = (hx.0, All-append P xs ys hx.1 hy)

-- Membership in a set of numbers.
unfoldable pub contains : ℕ → List ℕ → Bool
contains q [] = false
contains q (x ∷ xs) = (x == q) || contains q xs

-- The first occurrence taken out.
pub remove : ℕ → List ℕ → List ℕ
remove q [] = []
remove q (x ∷ xs) = if x == q then xs else x ∷ remove q xs

-- No number stands twice.
abbrev pub Distinct : List ℕ → Type 0
Distinct [] = Unit
Distinct (x ∷ xs) = (contains x xs ≡ false) × Distinct xs

pub length-remove :
    (q : ℕ) (xs : List ℕ) → contains q xs ≡ true → length (remove q xs) + 1 ≡ length xs
unfolding contains remove
length-remove q [] h = ground arith
length-remove q (x ∷ xs) h = ground (arith, length-remove q xs)

pub contains-remove : (q x : ℕ) (xs : List ℕ) → q ≢ x → contains q (remove x xs) ≡ contains q xs
unfolding contains remove
contains-remove q x [] h = refl
contains-remove q x (y ∷ xs) h = ground (arith, contains-remove q x xs)

-- A list that holds every number of a range is at least as long as the range.
pub range-le-length :
    (n start : ℕ) (xs : List ℕ)
    → ((q : ℕ) → start ≤ q → q < start + n → contains q xs ≡ true)
    → n ≤ length xs
range-le-length zero start xs h = omega arith
range-le-length (suc n) start xs h = omega (
  arith,
  length-remove (start + n) xs (h (start + n) (omega arith) (omega arith)),
  range-le-length n start (remove (start + n) xs)
      (λ q lo hi. contains-remove q (start + n) xs (omega arith) ∙ h q lo (omega arith)),
)

abbrev pub InRange : ℕ → ℕ → ℕ → Type 0
InRange start n q = (start ≤ q) × (q < start + n)

pub remove-Distinct : (q : ℕ) (xs : List ℕ) → Distinct xs → Distinct (remove q xs)
unfolding contains remove
remove-Distinct q [] d = tt
remove-Distinct q (x ∷ xs) d = ground (arith, remove-Distinct q xs d.1, contains-remove x q xs)

-- Without its last number a list lies in the shorter range.
below_last :
    (n start : ℕ) (xs : List ℕ)
    → contains (start + n) xs ≡ false
    → All (InRange start (suc n)) xs
    → All (InRange start n) xs
unfolding contains
below_last n start [] c h = tt
below_last n start (x ∷ xs) c h = ground (arith, below_last n start xs)

remove_last-InRange :
    (n start : ℕ) (xs : List ℕ)
    → Distinct xs
    → All (InRange start (suc n)) xs
    → All (InRange start n) (remove (start + n) xs)
unfolding contains remove
remove_last-InRange n start [] d h = tt
remove_last-InRange n start (x ∷ xs) d h =
    ground (arith, below_last n start xs, remove_last-InRange n start xs d.1)

remove-absent : (q : ℕ) (xs : List ℕ) → contains q xs ≡ false → remove q xs ≡ xs
unfolding contains remove
remove-absent q [] h = refl
remove-absent q (x ∷ xs) h = ground (arith, remove-absent q xs)

length-le-remove : (q : ℕ) (xs : List ℕ) → length xs ≤ length (remove q xs) + 1
length-le-remove q xs = elim (Bool-cases (contains q xs)) [
  | inl h ↦ omega (arith, length-remove q xs h)
  | inr h ↦ rw (remove-absent q xs h) (omega arith)
]

-- Distinct numbers of a range are at most as many as the range.
pub length-le-range :
    (n start : ℕ) (xs : List ℕ) → Distinct xs → All (InRange start n) xs → length xs ≤ n
length-le-range zero start [] d h = omega arith
length-le-range zero start (x ∷ xs) d h = omega arith
length-le-range (suc n) start xs d h = omega (
  arith,
  length-le-remove (start + n) xs,
  length-le-range n start (remove (start + n) xs) (remove-Distinct (start + n) xs d)
      (remove_last-InRange n start xs d h),
)
