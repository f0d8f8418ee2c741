-- ===== src/Router/Latency/Percentile.antt =====
-- What the percentile says of the window (internal/router/latency.go: p95).
use opod_core.Base.{
  ℕ, zero, suc, ◌*◌, ◌≤◌, ◌<◌, ◌≡◌, refl, subst, Bool, true, false, List, [], ◌∷◌, none, some,
  some_inj, String, arith, if◌then◌else◌, ltb, leb, length, keep, All, get_elem?, get_elem?_below,
  Sorted, WeakOrder, stable_sort-Sorted, keep-stable_sort, length-stable_sort,
}
use opod_core.Router.Latency.{Stats, window, p95, p95_index, sorted_samples, or_zero}

ltb-WeakOrder : WeakOrder ltb
ltb-WeakOrder = record { asym = λ a b h. ground arith; trans = λ a b c h k. ground arith }

All-at : (P : ℕ → Type 0) (xs : List ℕ) (i v : ℕ) → All P xs → get_elem? xs i ≡ some v → P v
All-at P [] i v a e = absurd (none_some e)
  where
    none_some : {v : ℕ} → none ≡ some v → ⊥
    none_some e = cc
All-at P (x ∷ xs) zero v a e = subst P (some_inj e) a.0
All-at P (x ∷ xs) (suc i) v a e = All-at P xs i v a.1 e

-- In a sorted list the entries up to a place are no more than the entry there.
count_below :
    (xs : List ℕ) (i v : ℕ)
    → Sorted ltb xs
    → get_elem? xs i ≡ some v
    → suc i ≤ length (keep (λ x. leb x v) xs)
count_below [] i v s e = ground arith
count_below (x ∷ xs) zero v s e = ground (arith, some_inj e)
count_below (x ∷ xs) (suc i) v s e =
    more (leb x v) (below (All-at (λ y. ltb y x ≡ false) xs i v s.0 e)) (count_below xs i v s.1 e)
  where
    below : ltb v x ≡ false → leb x v ≡ true
    below h = ground arith

    more :
        (b : Bool)
        → b ≡ true
        → suc i ≤ length (keep (λ x. leb x v) xs)
        → suc (suc i) ≤ length (if b then x ∷ keep (λ x. leb x v) xs else keep (λ x. leb x v) xs)
    more true t h = omega arith
    more false t h = cc

-- In a sorted list no more entries are less than the entry at a place than stand before it.
count_less :
    (xs : List ℕ) (i v : ℕ)
    → Sorted ltb xs
    → get_elem? xs i ≡ some v
    → length (keep (λ x. ltb x v) xs) ≤ i
count_less [] i v s e = omega arith
count_less (x ∷ xs) zero v s e =
    subst (λ w. length (keep (λ y. ltb y w) (x ∷ xs)) ≤ 0) (some_inj e)
      (nobody x refl (none_less xs s.0))
  where
    none_less : (ys : List ℕ) → All (λ y. ltb y x ≡ false) ys → keep (λ y. ltb y x) ys ≡ []
    none_less [] a = refl
    none_less (y ∷ ys) a = rw (a.0) (none_less ys a.1)

    not_less : (n m : ℕ) → n ≡ m → ltb n m ≡ false
    not_less n m e = ground arith

    nobody :
        (n : ℕ) → n ≡ x → keep (λ y. ltb y x) xs ≡ [] → length (keep (λ y. ltb y x) (x ∷ xs)) ≤ 0
    nobody n e h = rw (not_less x x refl, h) (omega arith)
count_less (x ∷ xs) (suc i) v s e = more (ltb x v) (count_less xs i v s.1 e)
  where
    more :
        (b : Bool)
        → length (keep (λ x. ltb x v) xs) ≤ i
        → length (if b then x ∷ keep (λ x. ltb x v) xs else keep (λ x. ltb x v) xs) ≤ suc i
    more true h = omega arith
    more false h = omega arith

index_ok :
    (n : ℕ)
    → 5 ≤ n
    → (p95_index n < n) × (95 * n ≤ 100 * suc (p95_index n)) × (100 * p95_index n < 95 * n)
index_ok n h = ground arith

-- The value is the 95th percentile of the list: at least 95 in 100 are no greater, and fewer than 95
-- in 100 are less. No other value is.
abbrev pub IsP95 : ℕ → List ℕ → Type 0
IsP95 v xs =
    (95 * length xs ≤ 100 * length (keep (λ x. leb x v) xs))
    × (100 * length (keep (λ x. ltb x v) xs) < 95 * length xs)

-- With five samples or more, at least 95 in 100 of the window are no slower than its p95, and fewer
-- than 95 in 100 are faster.
pub p95-IsP95 :
    (s : Stats) (model : String)
    → 5 ≤ length (window (s.samples model))
    → IsP95 (p95 s model) (window (s.samples model))
unfolding p95
p95-IsP95 s model enough = covers (window (s.samples model)) enough
  where
    value : List ℕ → ℕ
    value xs =
        if ltb (length xs) 5
        then 0
        else or_zero (get_elem? (sorted_samples xs) (p95_index (length xs)))

    long : (n : ℕ) → 5 ≤ n → ltb n 5 ≡ false
    long n h = ground arith

    covers : (xs : List ℕ) → 5 ≤ length xs → IsP95 (value xs) xs
    covers xs h =
        let (inside, most, few) = index_ok (length xs) h in
        let (v, e) =
          get_elem?_below (sorted_samples xs) (p95_index (length xs))
            (omega (arith, length-stable_sort ltb xs)) in
        let at_v : value xs ≡ v = rw (long (length xs) h, e) refl in
        let sorted = stable_sort-Sorted ltb ltb-WeakOrder xs in
        rw at_v (
          (
            omega (
              arith,
              count_below (sorted_samples xs) (p95_index (length xs)) v sorted e,
              keep-stable_sort ltb (λ x. leb x v) xs,
            ),
            omega (
              arith,
              count_less (sorted_samples xs) (p95_index (length xs)) v sorted e,
              keep-stable_sort ltb (λ x. ltb x v) xs,
            ),
          ))
