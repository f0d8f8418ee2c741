-- ===== src/Admission/Flows/Found.antt =====
-- Where a request waits in a queue, and the line without it (internal/leader/admission_classes.go: remove).
use opod_core.Base.{
  ℕ, zero, suc, ◌<◌, ◌≡◌, refl, ap, sym, ◌∙◌, ◌||◌, Bool, true, false, some_inj, List, [], ◌∷◌,
  Option, none, some, String, arith, eq_iff, if◌then◌else◌, ◌===◌, ◌==◌, length, contains, All,
  Bool-cases, inl, inr, get_elem?, subst, take, drop, take-append-drop, Option-cases,
}
use opod_core.Admission.Flows.{HeldReq, FlowQueue, index_of, without_req, consed}
use opod_core.Admission.Flows.Ring.{Distinct, contains-append}
use opod_core.Admission.Flows.Order.{order}
use opod_core.Admission.Flows.Inv.{Flows, Line, line}
use opod_core.Admission.Flows.Replace.{replace_line}
use opod_core.Admission.Flows.Leave.{others, others-absent}

-- The requests without the first of the id.
abbrev pub drop_req : ℕ → List HeldReq → List HeldReq
drop_req id [] = []
drop_req id (r ∷ rs) = if r.id == id then rs else r ∷ drop_req id rs

abbrev pub has_req : ℕ → List HeldReq → Bool
has_req id [] = false
has_req id (r ∷ rs) = r.id == id || has_req id rs

-- One entry, which leaves the line when it is empty.
abbrev pub entry_left : String → List HeldReq → Line → Line
entry_left x [] l = l
entry_left x (r ∷ rs) l = (x, r ∷ rs) ∷ l

-- The line without the request: its flow keeps its place, or leaves with its last request.
abbrev pub leave_line : HeldReq → Line → Line
leave_line h [] = []
leave_line h ((x, xs) ∷ l) =
    let rest = leave_line h l in
    if x === h.flow
    then (if has_req h.id xs then entry_left x (drop_req h.id xs) l else (x, xs) ∷ l)
    else (x, xs) ∷ rest

abbrev pub waits : HeldReq → Line → Bool
waits h [] = false
waits h ((x, xs) ∷ l) = let rest = waits h l in if x === h.flow then has_req h.id xs else rest

abbrev pub is_found : Option (List HeldReq) → Bool
is_found none = false
is_found (some rs) = true

-- What the search of the code finds.
pub without_req_lem :
    (id : ℕ) (rs : List HeldReq)
    → without_req id rs ≡ (if has_req id rs then some (drop_req id rs) else none)
unfolding without_req
without_req_lem id [] = refl
without_req_lem id (r ∷ rs) = elim (Bool-cases (r.id == id)) [
  | inl hit ↦ rw hit refl
  | inr miss ↦ rw (miss, without_req_lem id rs) (carried (has_req id rs))
]
  where
    carried :
        (b : Bool)
        → consed r (if b then some (drop_req id rs) else none)
          ≡ (if b then some (r ∷ drop_req id rs) else none)
    carried true = refl
    carried false = refl

pub has_req-found : (id : ℕ) (rs : List HeldReq) → has_req id rs ≡ is_found (without_req id rs)
has_req-found id rs = rw (without_req_lem id rs) (answer (has_req id rs))
  where
    answer : (b : Bool) → b ≡ is_found (if b then some (drop_req id rs) else none)
    answer true = refl
    answer false = refl

pub drop-found : (id : ℕ) (rs ss : List HeldReq) → without_req id rs ≡ some ss → drop_req id rs ≡ ss
drop-found id rs ss e = same (has_req id rs) (sym (without_req_lem id rs) ∙ e)
  where
    same : (b : Bool) → (if b then some (drop_req id rs) else none) ≡ some ss → drop_req id rs ≡ ss
    same true h = some_inj h
    same false h = cc

pub length-without_req :
    (id : ℕ) (rs ss : List HeldReq) → without_req id rs ≡ some ss → length rs ≡ suc (length ss)
unfolding without_req
length-without_req id [] ss e = cc
length-without_req id (r ∷ rs) ss e = elim (Option-cases (without_req id rs)) [
  | inl m ↦ ground arith
  | inr (ss', m) ↦ ground (arith, length-without_req id rs ss' m)
]

pub All-without_req :
    (flow : String) (id : ℕ) (rs ss : List HeldReq)
    → without_req id rs ≡ some ss
    → All (λ r. r.flow ≡ flow) rs
    → All (λ r. r.flow ≡ flow) ss
unfolding without_req
All-without_req flow id [] ss e a = cc
All-without_req flow id (r ∷ rs) ss e a = elim (Bool-cases (r.id == id)) [
  | inl hit ↦ subst (All (λ r. r.flow ≡ flow)) (some_inj (rw hit at e)) a.1
  | inr miss ↦
      later (without_req id rs) (λ ss' m. All-without_req flow id rs ss' m a.1) (rw miss at e)
]
  where
    later :
        (o : Option (List HeldReq))
        → ((ss' : List HeldReq) → o ≡ some ss' → All (λ r. r.flow ≡ flow) ss')
        → consed r o ≡ some ss
        → All (λ r. r.flow ≡ flow) ss
    later none m e = cc
    later (some ss') m e = subst (All (λ r. r.flow ≡ flow)) (some_inj e) (a.0, m ss' refl)

pub index_of_lem :
    (id : String) (ring : List String)
    → contains ring id ≡ true
    → (j : ℕ) × (index_of id ring ≡ some j) × (get_elem? ring j ≡ some id)
unfolding index_of
index_of_lem id [] c = cc
index_of_lem id (x ∷ ring) c = elim (Bool-cases (x === id)) [
  | inl e ↦ (0, rw e, ap some ((eq_iff x id).0 e))
  | inr e ↦ later (index_of_lem id ring (ground arith)) e
]
  where
    later :
        (j : ℕ) × (index_of id ring ≡ some j) × (get_elem? ring j ≡ some id)
        → (x === id) ≡ false
        → (j : ℕ) × (index_of id (x ∷ ring) ≡ some j) × (get_elem? (x ∷ ring) j ≡ some id)
    later (j, p, q) e = (suc j, rw (e, p), q)

pub contains-order :
    (pos : ℕ) (ring : List String) (id : String)
    → contains (order pos ring) id ≡ true
    → contains ring id ≡ true
contains-order pos ring id c =
    subst (λ r. contains r id ≡ true) (take-append-drop pos ring)
      (ground (
        arith,
        contains-append (take pos ring) (drop pos ring) id,
        contains-append (drop pos ring) (take pos ring) id,
      ))

pub get_elem?-lt :
    (xs : List String) (j : ℕ) {id : String} → get_elem? xs j ≡ some id → j < length xs
get_elem?-lt [] j e = cc
get_elem?-lt (x ∷ xs) zero e = omega arith
get_elem?-lt (x ∷ xs) (suc j) e = omega (arith, get_elem?-lt xs j e)

at-flow :
    (flows : Flows) (h : HeldReq) (f : FlowQueue) (ids : List String)
    → flows h.flow ≡ some f
    → contains ids h.flow ≡ true
    → waits h (line flows ids) ≡ has_req h.id f.reqs
at-flow flows h f [] here c = cc
at-flow flows h f (x ∷ ids) here c = elim (Bool-cases (x === h.flow)) [
  | inl e ↦ ground (arith, eq_iff x h.flow, here, e)
  | inr e ↦ ground (arith, eq_iff x h.flow, here, e, at-flow flows h f ids here (ground arith))
]

-- Where the flow of `h` stands, its requests decide.
pub leave-line_at :
    (flows : Flows) (h : HeldReq) (f : FlowQueue) (ids : List String)
    → flows h.flow ≡ some f
    → contains ids h.flow ≡ true
    → waits h (line flows ids) ≡ is_found (without_req h.id f.reqs)
leave-line_at flows h f ids here c = at-flow flows h f ids here c ∙ has_req-found h.id f.reqs

pub leave_absent :
    (flows : Flows) (h : HeldReq) (ids : List String)
    → contains ids h.flow ≡ false
    → (leave_line h (line flows ids) ≡ line flows ids) × (waits h (line flows ids) ≡ false)
leave_absent flows h [] c = (refl, refl)
leave_absent flows h (x ∷ ids) c = ground (arith, leave_absent flows h ids)

pub leave_missing :
    (flows : Flows) (h : HeldReq) (f : FlowQueue) (ids : List String)
    → flows h.flow ≡ some f
    → without_req h.id f.reqs ≡ none
    → leave_line h (line flows ids) ≡ line flows ids
leave_missing flows h f ids here e = missing ids (has_req-found h.id f.reqs ∙ rw e refl)
  where
    missing :
        (ids : List String)
        → has_req h.id f.reqs ≡ false
        → leave_line h (line flows ids) ≡ line flows ids
    missing [] miss = refl
    missing (x ∷ ids) miss = ground (arith, eq_iff x h.flow, here, miss, missing ids miss)

pub leave_shorter :
    (flows : Flows) (h r : HeldReq) (f : FlowQueue) (rs : List HeldReq) (ids : List String)
    → flows h.flow ≡ some f
    → without_req h.id f.reqs ≡ some (r ∷ rs)
    → leave_line h (line flows ids) ≡ replace_line h.flow (r ∷ rs) (line flows ids)
leave_shorter flows h r f rs ids here e =
    shorter ids (has_req-found h.id f.reqs ∙ rw e refl) (drop-found h.id f.reqs (r ∷ rs) e)
  where
    shorter :
        (ids : List String)
        → has_req h.id f.reqs ≡ true
        → drop_req h.id f.reqs ≡ r ∷ rs
        → leave_line h (line flows ids) ≡ replace_line h.flow (r ∷ rs) (line flows ids)
    shorter [] hit left = refl
    shorter (x ∷ ids) hit left =
        ground (arith, eq_iff x h.flow, here, hit, left, shorter ids hit left)

pub leave_dry :
    (flows : Flows) (h : HeldReq) (f : FlowQueue) (ids : List String)
    → flows h.flow ≡ some f
    → without_req h.id f.reqs ≡ some []
    → Distinct ids
    → leave_line h (line flows ids) ≡ line flows (others h.flow ids)
leave_dry flows h f ids here e d =
    dry ids d (has_req-found h.id f.reqs ∙ rw e refl) (drop-found h.id f.reqs [] e)
  where
    dry :
        (ids : List String)
        → Distinct ids
        → has_req h.id f.reqs ≡ true
        → drop_req h.id f.reqs ≡ []
        → leave_line h (line flows ids) ≡ line flows (others h.flow ids)
    dry [] d hit left = refl
    dry (x ∷ ids) d hit left =
        ground
          (arith, eq_iff x h.flow, here, hit, left, dry ids d.1 hit left, others-absent h.flow ids)
