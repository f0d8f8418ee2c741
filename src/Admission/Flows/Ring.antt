-- ===== src/Admission/Flows/Ring.antt =====
-- Lists of flow ids without repeats.
use opod_core.Base.{◌≡◌, refl, false, ◌||◌, List, [], ◌∷◌, ◌++◌, String, arith, eq_iff, contains}

abbrev pub Distinct : List String → Type 0
Distinct [] = Unit {0}
Distinct (x ∷ xs) = (contains xs x ≡ false) × Distinct xs

pub contains-append :
    (xs ys : List String) (k : String) → contains (xs ++ ys) k ≡ (contains xs k || contains ys k)
contains-append [] ys k = refl
contains-append (x ∷ xs) ys k = ground (arith, contains-append xs ys k)

pub Distinct-split :
    (xs ys : List String) (id : String)
    → Distinct (xs ++ id ∷ ys)
    → (contains xs id ≡ false) × (contains ys id ≡ false) × Distinct (xs ++ ys)
Distinct-split [] ys id d = (refl, d.0, d.1)
Distinct-split (x ∷ xs) ys id d = ground (
  arith,
  Distinct-split xs ys id d.1,
  contains-append xs (id ∷ ys) x,
  contains-append xs ys x,
  eq_iff id x,
  eq_iff x id,
)

pub Distinct-insert :
    (xs ys : List String) (id : String)
    → Distinct (xs ++ ys)
    → contains xs id ≡ false
    → contains ys id ≡ false
    → Distinct (xs ++ id ∷ ys)
Distinct-insert [] ys id d p q = (q, d)
Distinct-insert (x ∷ xs) ys id d p q = ground (
  arith,
  Distinct-insert xs ys id d.1,
  contains-append xs (id ∷ ys) x,
  contains-append xs ys x,
  eq_iff id x,
  eq_iff x id,
)
