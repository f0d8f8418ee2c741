-- ===== src/Base/Lists.antt =====
-- Lists measured and indexed by native numbers, under the library's names.
use Prim.Native.Nat.{ℕ, zero, suc, ◌+◌, ◌≤◌, ◌<◌}
use mathlib.Core.Path.{◌≡◌, refl, ap}
use mathlib.Core.List.{List, [], ◌∷◌, ◌++◌}
use mathlib.Core.Option.{Option, none, some}
use mathlib.Core.Bool.{Bool, true, false}
use mathlib.Core.Logic.{inl, inr}
use native.Mathlib.Omega.{arith}
use opod_core.Base.Tests.{if◌then◌else◌, Bool-cases}

module _ {ℓ} {A : Type ℓ} where
  abbrev pub length : List A → ℕ
  length [] = 0
  length (x ∷ xs) = suc (length xs)

  abbrev pub get_elem? : List A → ℕ → Option A
  get_elem? [] i = none
  get_elem? (x ∷ xs) zero = some x
  get_elem? (x ∷ xs) (suc i) = get_elem? xs i

  abbrev pub take : ℕ → List A → List A
  take zero xs = []
  take (suc n) [] = []
  take (suc n) (x ∷ xs) = x ∷ take n xs

  abbrev pub drop : ℕ → List A → List A
  drop zero xs = xs
  drop (suc n) [] = []
  drop (suc n) (x ∷ xs) = drop n xs

  abbrev pub keep : (A → Bool) → List A → List A
  keep p [] = []
  keep p (x ∷ xs) = let rest = keep p xs in if p x then x ∷ rest else rest

  abbrev pub All {κ} : (A → Type κ) → List A → Type κ
  All P [] = Unit
  All P (x ∷ xs) = P x × All P xs

module _ {ℓ} {A : Type ℓ} where
  pub length-append : (xs ys : List A) → length (xs ++ ys) ≡ length xs + length ys
  length-append [] ys = omega arith
  length-append (x ∷ xs) ys = omega (arith, length-append xs ys)

  pub length-keep-le : (p : A → Bool) (xs : List A) → length (keep p xs) ≤ length xs
  length-keep-le p [] = omega arith
  length-keep-le p (x ∷ xs) = ground (arith, length-keep-le p xs)

  pub keep-append : (p : A → Bool) (xs ys : List A) → keep p (xs ++ ys) ≡ keep p xs ++ keep p ys
  keep-append p [] ys = refl
  keep-append p (x ∷ xs) ys = ground (arith, keep-append p xs ys)

  pub append-nil : (xs : List A) → xs ++ [] ≡ xs
  append-nil [] = refl
  append-nil (x ∷ xs) = ap (◌∷◌ x) (append-nil xs)

  pub append_assoc : (xs ys zs : List A) → (xs ++ ys) ++ zs ≡ xs ++ (ys ++ zs)
  append_assoc [] ys zs = refl
  append_assoc (x ∷ xs) ys zs = ap (◌∷◌ x) (append_assoc xs ys zs)

  pub take-append-drop : (n : ℕ) (xs : List A) → take n xs ++ drop n xs ≡ xs
  take-append-drop zero xs = refl
  take-append-drop (suc n) [] = refl
  take-append-drop (suc n) (x ∷ xs) = ap (◌∷◌ x) (take-append-drop n xs)

  -- The entry at a place, with the list on both sides of it.
  pub split_at :
      (xs : List A) (i : ℕ) {a : A}
      → get_elem? xs i ≡ some a
      → xs ≡ take i xs ++ a ∷ drop (suc i) xs
  split_at [] i h = ground arith
  split_at (x ∷ xs) zero h = ground arith
  split_at (x ∷ xs) (suc i) h = ap (◌∷◌ x) (split_at xs i h)

  pub drop_at :
      (xs : List A) (i : ℕ) {a : A} → get_elem? xs i ≡ some a → drop i xs ≡ a ∷ drop (suc i) xs
  drop_at [] i h = ground arith
  drop_at (x ∷ xs) zero h = ground arith
  drop_at (x ∷ xs) (suc i) h = drop_at xs i h

  pub take_at :
      (xs : List A) (i : ℕ) {a : A}
      → get_elem? xs i ≡ some a
      → take (suc i) xs ≡ take i xs ++ a ∷ []
  take_at [] i h = ground arith
  take_at (x ∷ xs) zero h = ground arith
  take_at (x ∷ xs) (suc i) h = ap (◌∷◌ x) (take_at xs i h)

  pub get_elem?_below : (xs : List A) (i : ℕ) → i < length xs → (a : A) × (get_elem? xs i ≡ some a)
  get_elem?_below [] i h = absurd (omega arith)
  get_elem?_below (x ∷ xs) zero h = (x, refl)
  get_elem?_below (x ∷ xs) (suc i) h = get_elem?_below xs i (omega arith)

  pub length_split : (xs : List A) (i : ℕ) → i ≤ length xs → length (take i xs) ≡ i
  length_split xs zero h = refl
  length_split [] (suc i) h = absurd (omega arith)
  length_split (x ∷ xs) (suc i) h = ap suc (length_split xs i (omega arith))

  pub take-length : (xs : List A) → take (length xs) xs ≡ xs
  take-length [] = refl
  take-length (x ∷ xs) = ap (◌∷◌ x) (take-length xs)

  pub drop-length : (xs : List A) → drop (length xs) xs ≡ []
  drop-length [] = refl
  drop-length (x ∷ xs) = drop-length xs

  -- Taking and dropping where the first part ends.
  pub take-append_self : (xs ys : List A) → take (length xs) (xs ++ ys) ≡ xs
  take-append_self [] ys = refl
  take-append_self (x ∷ xs) ys = ap (◌∷◌ x) (take-append_self xs ys)

  pub drop-append_self : (xs ys : List A) → drop (length xs) (xs ++ ys) ≡ ys
  drop-append_self [] ys = refl
  drop-append_self (x ∷ xs) ys = drop-append_self xs ys

  -- The same one entry further.
  pub take-append_suc : (b a : List A) (d : A) → take (suc (length b)) (b ++ d ∷ a) ≡ b ++ d ∷ []
  take-append_suc [] a d = refl
  take-append_suc (y ∷ b) a d = ap (◌∷◌ y) (take-append_suc b a d)

  pub drop-append_suc : (b a : List A) (d : A) → drop (suc (length b)) (b ++ d ∷ a) ≡ a
  drop-append_suc [] a d = refl
  drop-append_suc (y ∷ b) a d = drop-append_suc b a d

  pub get_elem?-append : (b a : List A) (d : A) → get_elem? (b ++ d ∷ a) (length b) ≡ some d
  get_elem?-append [] a d = refl
  get_elem?-append (y ∷ b) a d = get_elem?-append b a d

  pub All-keep : (p : A → Bool) (xs : List A) → All (λ x. p x ≡ true) (keep p xs)
  All-keep p [] = tt
  All-keep p (x ∷ xs) = elim (Bool-cases (p x)) [
    | inl e ↦ rw e (e, All-keep p xs)
    | inr e ↦ rw e (All-keep p xs)
  ]

  pub All-middle {κ} :
      (P : A → Type κ) (xs : List A) (y : A) (ys : List A) → All P (xs ++ y ∷ ys) → P y
  All-middle P [] y ys a = a.0
  All-middle P (x ∷ xs) y ys a = All-middle P xs y ys a.1

  -- What holds of a list holds of what is kept of it.
  pub All-keep_of {κ} : (P : A → Type κ) (p : A → Bool) (xs : List A) → All P xs → All P (keep p xs)
  All-keep_of P p [] a = tt
  All-keep_of P p (x ∷ xs) a = elim (Bool-cases (p x)) [
    | inl e ↦ rw e (a.0, All-keep_of P p xs a.1)
    | inr e ↦ rw e (All-keep_of P p xs a.1)
  ]

  pub All-map {κ μ} :
      (P : A → Type κ) (Q : A → Type μ)
      → ((x : A) → P x → Q x)
      → (xs : List A) → All P xs
      → All Q xs
  All-map P Q f [] a = tt
  All-map P Q f (x ∷ xs) a = (f x a.0, All-map P Q f xs a.1)

  -- What is kept passes the test and had what the list had.
  pub All-keep_and {κ} :
      (P : A → Type κ) (p : A → Bool) (xs : List A)
      → All P xs
      → All (λ x. (p x ≡ true) × P x) (keep p xs)
  All-keep_and P p [] a = tt
  All-keep_and P p (x ∷ xs) a = elim (Bool-cases (p x)) [
    | inl e ↦ rw e ((e, a.0), All-keep_and P p xs a.1)
    | inr e ↦ rw e (All-keep_and P p xs a.1)
  ]

  -- No entry passes the test if none is kept.
  pub none_kept : (p : A → Bool) (xs : List A) → length (keep p xs) ≡ 0 → All (λ x. p x ≡ false) xs
  none_kept p [] e = tt
  none_kept p (x ∷ xs) e = elim (Bool-cases (p x)) [
    | inl f ↦ absurd (one f e)
    | inr f ↦ (f, none_kept p xs (rest f e))
  ]
    where
      one : p x ≡ true → length (keep p (x ∷ xs)) ≡ 0 → ⊥
      one f e = ground (arith, f, e)

      rest : p x ≡ false → length (keep p (x ∷ xs)) ≡ 0 → length (keep p xs) ≡ 0
      rest f e = ground (arith, f, e)

  pub none_passes :
      (p : A → Bool) (xs : List A) → All (λ x. p x ≡ false) xs → length (keep p xs) ≡ 0
  none_passes p [] a = refl
  none_passes p (x ∷ xs) a = rw (a.0) (none_passes p xs a.1)

  pub All-before {κ} : (P : A → Type κ) (xs ys : List A) → All P (xs ++ ys) → All P xs
  All-before P [] ys a = tt
  All-before P (x ∷ xs) ys a = (a.0, All-before P xs ys a.1)

  pub All-after {κ} : (P : A → Type κ) (xs ys : List A) → All P (xs ++ ys) → All P ys
  All-after P [] ys a = a
  All-after P (x ∷ xs) ys a = All-after P xs ys a.1
