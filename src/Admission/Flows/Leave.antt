-- ===== src/Admission/Flows/Leave.antt =====
-- A flow that leaves the ring at any place: what stays, and in which order.
use opod_core.Base.{
  ℕ, zero, suc, ◌+◌, ◌-◌, ◌≡◌, refl, sym, not, true, false, List, [], ◌∷◌, ◌++◌, none, some, String,
  arith, eq_iff, if◌then◌else◌, ◌===◌, length, update, contains, keep, get_elem?, ltb, take, drop,
  append-nil, keep-append, subst, take-append-drop,
}
use opod_core.Admission.Flows.{remove_at}
use opod_core.Admission.Flows.Ring.{Distinct, Distinct-insert, contains-append}
use opod_core.Admission.Flows.Order.{order}
use opod_core.Admission.Flows.Inv.{Flows, reqs_of, BusyAll, waiting, line, Holds, waiting-update}

abbrev pub others : String → List String → List String
others id = keep (λ x. not (x === id))

pub others-absent :
    (id : String) (ids : List String) → contains ids id ≡ false → others id ids ≡ ids
others-absent id [] c = refl
others-absent id (x ∷ ids) c = ground (arith, others-absent id ids)

contains-others :
    (id k : String) (ids : List String)
    → contains ids k ≡ false
    → contains (others id ids) k ≡ false
contains-others id k [] c = refl
contains-others id k (x ∷ ids) c = ground (arith, contains-others id k ids)

contains_of_others :
    (id k : String) (ids : List String)
    → (id === k) ≡ false
    → contains (others id ids) k ≡ false
    → contains ids k ≡ false
contains_of_others id k [] e c = refl
contains_of_others id k (x ∷ ids) e c =
    ground (arith, eq_iff x id, eq_iff x k, eq_iff id k, contains_of_others id k ids e)

Distinct-others : (id : String) (ids : List String) → Distinct ids → Distinct (others id ids)
Distinct-others id [] d = tt
Distinct-others id (x ∷ ids) d =
    ground (arith, Distinct-others id ids d.1, contains-others id x ids)

pub Distinct-swap : (xs ys : List String) → Distinct (xs ++ ys) → Distinct (ys ++ xs)
Distinct-swap [] ys d = rw (append-nil ys) d
Distinct-swap (x ∷ xs) ys d =
    let (e, f) = Distinct-parts xs ys x d.0 in Distinct-insert ys xs x (Distinct-swap xs ys d.1) f e
  where
    Distinct-parts :
        (xs ys : List String) (x : String)
        → contains (xs ++ ys) x ≡ false
        → (contains xs x ≡ false) × (contains ys x ≡ false)
    Distinct-parts xs ys x c = ground (arith, contains-append xs ys x)

-- `pos` after the flow at `j` left: one less when `j` stood before it.
abbrev pub moved : ℕ → ℕ → ℕ
moved j pos = if ltb j pos then pos - 1 else pos

moved_zero : (pos : ℕ) → moved 0 (suc pos) ≡ pos
moved_zero pos = ground arith

moved-suc : (j pos : ℕ) → moved (suc j) (suc pos) ≡ suc (moved j pos)
moved-suc j pos = ground arith

contains-take :
    (pos : ℕ) (ids : List String) (k : String)
    → contains ids k ≡ false
    → contains (take pos ids) k ≡ false
contains-take zero ids k c = refl
contains-take (suc pos) [] k c = refl
contains-take (suc pos) (x ∷ ids) k c = ground (arith, contains-take pos ids k)

contains-drop :
    (pos : ℕ) (ids : List String) (k : String)
    → contains ids k ≡ false
    → contains (drop pos ids) k ≡ false
contains-drop zero ids k c = c
contains-drop (suc pos) [] k c = refl
contains-drop (suc pos) (x ∷ ids) k c = contains-drop pos ids k (ground arith)

pub contains_at :
    (ids : List String) (j : ℕ) (id : String) → get_elem? ids j ≡ some id → contains ids id ≡ true
contains_at [] j id e = cc
contains_at (x ∷ ids) zero id e = ground (arith, eq_iff x id)
contains_at (x ∷ ids) (suc j) id e = ground (arith, contains_at ids j id)

-- The flow at `j` stands nowhere else.
head_differs :
    (x : String) (ids : List String) (j : ℕ) (id : String)
    → get_elem? ids j ≡ some id
    → Distinct (x ∷ ids)
    → (x === id) ≡ false
head_differs x ids j id e d = ground (arith, contains_at ids j id, eq_iff x id)

remove_at-others :
    (ids : List String) (j : ℕ) (id : String)
    → get_elem? ids j ≡ some id
    → Distinct ids
    → remove_at j ids ≡ others id ids
remove_at-others [] j id e d = cc
remove_at-others (x ∷ ids) zero id e d = ground (arith, eq_iff x id, others-absent id ids)
remove_at-others (x ∷ ids) (suc j) id e d =
    rw (head_differs x ids j id e d, remove_at-others ids j id e d.1)

take-remove_at :
    (ring : List String) (pos j : ℕ) (id : String)
    → get_elem? ring j ≡ some id
    → Distinct ring
    → take (moved j pos) (remove_at j ring) ≡ others id (take pos ring)
take-remove_at ring zero j id e d = ground arith
take-remove_at [] (suc pos) j id e d = ground arith
take-remove_at (x ∷ ring) (suc pos) zero id e d =
    rw (moved_zero pos)
      (ground (arith, eq_iff x id, others-absent id (take pos ring), contains-take pos ring id))
take-remove_at (x ∷ ring) (suc pos) (suc j) id e d =
    rw (moved-suc j pos, head_differs x ring j id e d, take-remove_at ring pos j id e d.1)

drop-remove_at :
    (ring : List String) (pos j : ℕ) (id : String)
    → get_elem? ring j ≡ some id
    → Distinct ring
    → drop (moved j pos) (remove_at j ring) ≡ others id (drop pos ring)
drop-remove_at ring zero j id e d =
    let still : moved j 0 ≡ 0 = ground arith in rw still (remove_at-others ring j id e d)
drop-remove_at [] (suc pos) j id e d = cc
drop-remove_at (x ∷ ring) (suc pos) zero id e d =
    rw (moved_zero pos)
      (ground (arith, eq_iff x id, others-absent id (drop pos ring), contains-drop pos ring id))
drop-remove_at (x ∷ ring) (suc pos) (suc j) id e d =
    rw (moved-suc j pos) (drop-remove_at ring pos j id e d.1)

-- The flows that stay keep their order.
pub order-others :
    (pos j : ℕ) (ring : List String) {id : String}
    → get_elem? ring j ≡ some id
    → Distinct (order pos ring)
    → order (moved j pos) (remove_at j ring) ≡ others id (order pos ring)
order-others pos j ring {id} e d =
    let distinct : Distinct ring =
      subst Distinct (take-append-drop pos ring)
        (Distinct-swap (drop pos ring) (take pos ring) d) in
    rw (drop-remove_at ring pos j id e distinct, take-remove_at ring pos j id e distinct)
      (sym (keep-append (λ x. not (x === id)) (drop pos ring) (take pos ring)))

module _ (flows : Flows) (id : String) where
  abbrev pub without : Flows
  without = update flows id none

  others-BusyAll : (ids : List String) → BusyAll flows ids → BusyAll without (others id ids)
  others-BusyAll [] b = tt
  others-BusyAll (x ∷ ids) b = ground (arith, eq_iff id x, eq_iff x id, others-BusyAll ids)

  pub line-others : (ids : List String) → line without (others id ids) ≡ line flows (others id ids)
  line-others [] = refl
  line-others (x ∷ ids) = ground (arith, eq_iff id x, eq_iff x id, line-others ids)

  waiting-others :
      (ids : List String)
      → Distinct ids
      → contains ids id ≡ true
      → waiting without (others id ids) + length (reqs_of (flows id)) ≡ waiting flows ids
  waiting-others [] d c = cc
  waiting-others (x ∷ ids) d c =
      ground (arith, eq_iff id x, eq_iff x id, waiting-others ids d.1, waiting_absent ids)
    where
      waiting_absent :
          (ids : List String)
          → contains ids id ≡ false
          → waiting without (others id ids) ≡ waiting flows ids
      waiting_absent ids c = rw (others-absent id ids c) (waiting-update flows id none ids c)

  pub others-Holds :
      (ids : List String) (n m : ℕ)
      → Holds flows ids n
      → contains ids id ≡ true
      → m + length (reqs_of (flows id)) ≡ n
      → Holds without (others id ids) m
  others-Holds ids n m v c count = record {
    distinct = Distinct-others id ids v.distinct;
    busy = others-BusyAll ids v.busy;
    only = λ k e. ground (arith, contains_of_others id k ids, v.only k);
    count = omega (arith, v.count, count, waiting-others ids v.distinct c);
  }
