-- ===== src/Admission/Flows/Order.antt =====
-- The order in which a queue visits its flows: the ring from `pos` round to `pos`.
use opod_core.Base.{
  ℕ, zero, suc, ◌+◌, ◌≤◌, ◌<◌, ◌≡◌, refl, ap, sym, List, [], ◌∷◌, ◌++◌, some, String, arith, leb,
  length, get_elem?, take, drop, append-nil, append_assoc, Bool-cases, inl, inr, drop_at, take_at,
  length_split, take-length, drop-length, take-append_self, drop-append_self,
}
use opod_core.Admission.Flows.{insert_at, remove_at, wrapped}

abbrev pub order : ℕ → List String → List String
order pos ring = drop pos ring ++ take pos ring

-- What comes after the flow at `pos`.
abbrev pub behind : ℕ → List String → List String
behind pos ring = drop (suc pos) ring ++ take pos ring

pub order-at :
    (pos : ℕ) (ring : List String) {id : String}
    → get_elem? ring pos ≡ some id
    → order pos ring ≡ id ∷ behind pos ring
order-at pos ring h = rw (drop_at ring pos h)

pub order-suc :
    (pos : ℕ) (ring : List String) {id : String}
    → get_elem? ring pos ≡ some id
    → order (suc pos) ring ≡ behind pos ring ++ id ∷ []
order-suc pos ring h =
    rw (take_at ring pos h) (sym (append_assoc (drop (suc pos) ring) (take pos ring) _))

pub order-wrapped :
    (pos : ℕ) (ring : List String)
    → pos ≤ length ring
    → order (wrapped pos ring) ring ≡ order pos ring
order-wrapped pos ring h = elim (Bool-cases (leb (length ring) pos)) [
  | inl e ↦
      let at_end : pos ≡ length ring = ground arith in
      rw e (rw at_end (rw (take-length ring, drop-length ring) (append-nil ring)))
  | inr e ↦ rw e
]

drop-suc-append :
    (xs : List String) (id : String) (ys : List String)
    → drop (suc (length xs)) (xs ++ id ∷ ys) ≡ ys
drop-suc-append [] id ys = refl
drop-suc-append (x ∷ xs) id ys = drop-suc-append xs id ys

take-suc-append :
    (xs : List String) (id : String) (ys : List String)
    → take (suc (length xs)) (xs ++ id ∷ ys) ≡ xs ++ id ∷ []
take-suc-append [] id ys = refl
take-suc-append (x ∷ xs) id ys = ap (◌∷◌ x) (take-suc-append xs id ys)

pub order-insert :
    (pos : ℕ) (ring : List String) (id : String)
    → pos ≤ length ring
    → order (suc pos) (insert_at pos id ring) ≡ order pos ring ++ id ∷ []
order-insert pos ring id h =
    let at_pos = length_split ring pos h in
    let dropped : drop (suc pos) (insert_at pos id ring) ≡ drop pos ring =
      rw at_pos at (drop-suc-append (take pos ring) id (drop pos ring)) in
    let taken : take (suc pos) (insert_at pos id ring) ≡ take pos ring ++ id ∷ [] =
      rw at_pos at (take-suc-append (take pos ring) id (drop pos ring)) in
    rw (dropped, taken) (sym (append_assoc (drop pos ring) (take pos ring) _))

pub order-remove :
    (pos : ℕ) (ring : List String)
    → pos ≤ length ring
    → order pos (remove_at pos ring) ≡ behind pos ring
order-remove pos ring h =
    let at_pos = length_split ring pos h in
    let dropped : drop pos (remove_at pos ring) ≡ drop (suc pos) ring =
      rw at_pos at (drop-append_self (take pos ring) (drop (suc pos) ring)) in
    let taken : take pos (remove_at pos ring) ≡ take pos ring =
      rw at_pos at (take-append_self (take pos ring) (drop (suc pos) ring)) in
    rw (dropped, taken)

pub length-insert_at :
    (pos : ℕ) (ring : List String) (id : String)
    → length (insert_at pos id ring) ≡ suc (length ring)
length-insert_at zero ring id = refl
length-insert_at (suc pos) [] id = refl
length-insert_at (suc pos) (x ∷ ring) id = ap suc (length-insert_at pos ring id)

pub length-remove_at :
    (pos : ℕ) (ring : List String)
    → pos < length ring
    → length (remove_at pos ring) + 1 ≡ length ring
length-remove_at pos [] h = absurd (omega arith)
length-remove_at zero (x ∷ ring) h = omega arith
length-remove_at (suc pos) (x ∷ ring) h = omega (arith, length-remove_at pos ring)
