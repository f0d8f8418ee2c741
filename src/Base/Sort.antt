-- ===== src/Base/Sort.antt =====
-- Go's stable sort (`sort.SliceStable`), as insertion: an element goes past those that are less.
use Prim.Native.Nat.{suc}
use mathlib.Core.Path.{◌≡◌, refl, ◌∙◌}
use mathlib.Core.Logic.{inl, inr}
use mathlib.Core.List.{List, [], ◌∷◌, ◌++◌}
use mathlib.Core.Bool.{Bool, true, false}
use native.Mathlib.Omega.{arith}
use opod_core.Base.Tests.{if◌then◌else◌, Bool-cases}
use opod_core.Base.Lists.{length, keep, All, All-before, All-after}

module _ {ℓ} {A : Type ℓ} (less : A → A → Bool) where
  unfoldable pub insert : A → List A → List A
  insert x [] = x ∷ []
  insert x (y ∷ ys) = let rest = insert x ys in if less y x then y ∷ rest else x ∷ y ∷ ys

  unfoldable pub stable_sort : List A → List A
  unfolding insert
  stable_sort [] = []
  stable_sort (x ∷ xs) = insert x (stable_sort xs)

  -- Nothing later is less.
  abbrev pub Sorted : List A → Type 0
  Sorted [] = Unit {0}
  Sorted (x ∷ xs) = All (λ y. less y x ≡ false) xs × Sorted xs

module _ {ℓ} {A : Type ℓ} (less : A → A → Bool) where
  All-insert {κ} :
      (P : A → Type κ) (x : A) (ys : List A) → P x → All P ys → All P (insert less x ys)
  unfolding insert
  All-insert P x [] p a = (p, tt)
  All-insert P x (y ∷ ys) p a = elim (Bool-cases (less y x)) [
    | inl e ↦ rw e (a.0, All-insert P x ys p a.1)
    | inr e ↦ rw e (p, a)
  ]

  pub All-stable_sort {κ} : (P : A → Type κ) (xs : List A) → All P xs → All P (stable_sort less xs)
  unfolding stable_sort
  All-stable_sort P [] a = tt
  All-stable_sort P (x ∷ xs) a = All-insert P x (stable_sort less xs) a.0 (All-stable_sort P xs a.1)

  length-insert : (x : A) (ys : List A) → length (insert less x ys) ≡ suc (length ys)
  unfolding insert
  length-insert x [] = refl
  length-insert x (y ∷ ys) = elim (Bool-cases (less y x)) [
    | inl e ↦ rw e (omega (arith, length-insert x ys))
    | inr e ↦ rw e refl
  ]

  pub length-stable_sort : (xs : List A) → length (stable_sort less xs) ≡ length xs
  unfolding stable_sort
  length-stable_sort [] = refl
  length-stable_sort (x ∷ xs) =
      omega (arith, length-insert x (stable_sort less xs), length-stable_sort xs)

  -- As many elements pass any test after the sort as before it.
  keep-insert :
      (p : A → Bool) (x : A) (ys : List A)
      → length (keep p (insert less x ys)) ≡ length (keep p (x ∷ ys))
  unfolding insert
  keep-insert p x [] = refl
  keep-insert p x (y ∷ ys) = elim (Bool-cases (less y x)) [
    | inl e ↦ rw e (swapped (p x) (p y) (keep-insert p x ys))
    | inr e ↦ rw e refl
  ]
    where
      swapped :
          (b c : Bool)
          → length (keep p (insert less x ys)) ≡ length (if b then x ∷ keep p ys else keep p ys)
          → length (if c then y ∷ keep p (insert less x ys) else keep p (insert less x ys))
            ≡ length (
                if b
                then x ∷ (if c then y ∷ keep p ys else keep p ys)
                else (if c then y ∷ keep p ys else keep p ys))
      swapped true true h = omega arith
      swapped true false h = omega arith
      swapped false true h = omega arith
      swapped false false h = omega arith

  pub keep-stable_sort :
      (p : A → Bool) (xs : List A) → length (keep p (stable_sort less xs)) ≡ length (keep p xs)
  unfolding stable_sort
  keep-stable_sort p [] = refl
  keep-stable_sort p (x ∷ xs) =
      keep-insert p x (stable_sort less xs) ∙ more (p x) (keep-stable_sort p xs)
    where
      more :
          (b : Bool)
          → length (keep p (stable_sort less xs)) ≡ length (keep p xs)
          → length (if b then x ∷ keep p (stable_sort less xs) else keep p (stable_sort less xs))
            ≡ length (if b then x ∷ keep p xs else keep p xs)
      more true h = omega arith
      more false h = h

-- `less` is a strict weak order.
pub record WeakOrder {ℓ} {A : Type ℓ} (less : A → A → Bool) : Type ℓ where
  pub asym : (a b : A) → less a b ≡ true → less b a ≡ false
  pub trans : (a b c : A) → less b a ≡ false → less c b ≡ false → less c a ≡ false

module _ {ℓ} {A : Type ℓ} (less : A → A → Bool) (order : WeakOrder less) where
  All-trans :
      (x y : A) (ys : List A)
      → less y x ≡ false
      → All (λ z. less z y ≡ false) ys
      → All (λ z. less z x ≡ false) ys
  All-trans x y [] e a = tt
  All-trans x y (z ∷ ys) e a = (order.trans x y z e a.0, All-trans x y ys e a.1)

  Sorted-insert : (x : A) (ys : List A) → Sorted less ys → Sorted less (insert less x ys)
  unfolding insert
  Sorted-insert x [] s = (tt, tt)
  Sorted-insert x (y ∷ ys) s = elim (Bool-cases (less y x)) [
    | inl e ↦ rw e (
      All-insert less (λ z. less z y ≡ false) x ys (order.asym y x e) s.0,
      Sorted-insert x ys s.1,
    )
    | inr e ↦ rw e ((e, All-trans x y ys e s.0), s)
  ]

  pub stable_sort-Sorted : (xs : List A) → Sorted less (stable_sort less xs)
  unfolding stable_sort
  stable_sort-Sorted [] = tt
  stable_sort-Sorted (x ∷ xs) = Sorted-insert x (stable_sort less xs) (stable_sort-Sorted xs)

module _ {ℓ} {A : Type ℓ} (less : A → A → Bool) where
  -- What is sorted, cut in two: nothing after the cut is less than anything before it.
  pub Sorted-append :
      (xs ys : List A) → Sorted less (xs ++ ys) → All (λ x. All (λ y. less y x ≡ false) ys) xs
  Sorted-append [] ys s = tt
  Sorted-append (x ∷ xs) ys s =
      (All-after (λ y. less y x ≡ false) xs ys s.0, Sorted-append xs ys s.1)

  pub Sorted-before : (xs ys : List A) → Sorted less (xs ++ ys) → Sorted less xs
  Sorted-before [] ys s = tt
  Sorted-before (x ∷ xs) ys s =
      (All-before (λ y. less y x ≡ false) xs ys s.0, Sorted-before xs ys s.1)
