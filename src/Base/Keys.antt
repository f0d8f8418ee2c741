-- ===== src/Base/Keys.antt =====
-- The keys of a Go map, as a list that has each of them once.
use Prim.Native.Nat.{ℕ, suc, ◌+◌}
use Prim.Native.String.{String}
use mathlib.Core.Path.{◌≡◌, refl, ap, sym, subst, ◌∙◌}
use mathlib.Core.Logic.{inl, inr}
use mathlib.Core.Bool.{Bool, true, false, not}
use mathlib.Core.List.{List, [], ◌∷◌}
use native.Mathlib.Omega.{arith}
use text.Mathlib.TextEquality.{eq_iff}
use text.Mathlib.TextPositions.{eq_refl}
use opod_core.Base.Tests.{if◌then◌else◌, ◌===◌, ltb, Bool-cases}
use opod_core.Base.Lists.{length, keep}
use opod_core.Base.Maps.{contains}

abbrev pub without_key : String → List String → List String
without_key k ks = keep (λ j. not (j === k)) ks

abbrev pub times : String → List String → ℕ
times k ks = length (keep (λ j. j === k) ks)

pub same_text : (j k : String) → (j === k) ≡ true → j ≡ k
same_text j k e = (eq_iff j k).0 e

pub times-without_key :
    (j k : String) (ks : List String)
    → times j (without_key k ks) ≡ (if k === j then 0 else times j ks)
times-without_key j k [] = if_same (k === j)
  where
    if_same : (b : Bool) → times j [] ≡ (if b then 0 else times j [])
    if_same true = refl
    if_same false = refl
times-without_key j k (x ∷ ks) = elim (Bool-cases (x === k)) [
  | inl e ↦ rw e (times-without_key j k ks ∙ skips (same_text x k e))
  | inr e ↦ elim (Bool-cases (x === j)) [
    | inr f ↦ rw (e, f) (times-without_key j k ks)
    | inl f ↦
        let k_not_j : (k === j) ≡ false =
          subst (λ t. (k === t) ≡ false) (same_text x j f) (not_sym x k e) in
        rw (e, f, k_not_j) (ap suc (times-without_key j k ks ∙ rw k_not_j refl))
  ]
]
  where
    skips :
        x ≡ k
        → (if k === j then 0 else times j ks) ≡ (
            if k === j
            then 0
            else length (if x === j then x ∷ keep (λ i. i === j) ks else keep (λ i. i === j) ks))
    skips e = elim (Bool-cases (k === j)) [
      | inl f ↦ rw f refl
      | inr f ↦ rw (f, subst (λ t. (t === j) ≡ false) (sym e) f) refl
    ]

    not_sym : (x k : String) → (x === k) ≡ false → (k === x) ≡ false
    not_sym x k e = elim (Bool-cases (k === x)) [
      | inr f ↦ f
      | inl f ↦
          absurd
            (clash (sym (subst (λ t. (x === t) ≡ true) (sym (same_text k x f)) (eq_refl x)) ∙ e))
    ]
      where
        clash : true ≡ false → ⊥
        clash e = cc

pub length-without_key :
    (k : String) (ks : List String) → length (without_key k ks) + times k ks ≡ length ks
length-without_key k [] = refl
length-without_key k (x ∷ ks) = elim (Bool-cases (x === k)) [
  | inl h ↦ rw h (omega (arith, length-without_key k ks))
  | inr h ↦ rw h (omega (arith, length-without_key k ks))
]

pub contains-times : (k : String) (ks : List String) → contains ks k ≡ ltb 0 (times k ks)
contains-times k [] = refl
contains-times k (x ∷ ks) = elim (Bool-cases (x === k)) [
  | inl h ↦ rw h (positive (times k ks))
  | inr h ↦ rw h (contains-times k ks)
]
  where
    positive : (n : ℕ) → true ≡ ltb 0 (suc n)
    positive n = ground arith
