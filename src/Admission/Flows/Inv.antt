-- ===== src/Admission/Flows/Inv.antt =====
-- When a queue is well formed, and the list of flows that it stands for.
use opod_core.Base.{
  ℕ, ◌+◌, ◌≤◌, ◌<◌, ◌≡◌, refl, ap, false, List, [], ◌∷◌, ◌++◌, Option, none, some, String, arith,
  eq_iff, length, update, contains, All,
}
use opod_core.Admission.Flows.{HeldReq, FlowQueue, DrrQueue, empty_queue}
use opod_core.Admission.Flows.Ring.{Distinct}
use opod_core.Admission.Flows.Order.{order}

abbrev pub Flows : Type 0
Flows = String → Option FlowQueue

abbrev pub reqs_of : Option FlowQueue → List HeldReq
reqs_of none = []
reqs_of (some f) = f.reqs

-- A flow of the ring has requests, all its own, and no credit left over.
abbrev pub Busy : String → Option FlowQueue → Type 0
Busy id none = ⊥
Busy id (some f) = (f.deficit ≡ 0) × (0 < length f.reqs) × All (λ r. r.flow ≡ id) f.reqs

abbrev pub BusyAll : Flows → List String → Type 0
BusyAll flows [] = Unit {0}
BusyAll flows (id ∷ ids) = Busy id (flows id) × BusyAll flows ids

abbrev pub waiting : Flows → List String → ℕ
waiting flows [] = 0
waiting flows (id ∷ ids) = length (reqs_of (flows id)) + waiting flows ids

-- The flows in the order of their visits, each with its requests, oldest first.
abbrev pub Line : Type 0
Line = List (String × List HeldReq)

abbrev pub line : Flows → List String → Line
line flows [] = []
line flows (id ∷ ids) = (id, reqs_of (flows id)) ∷ line flows ids

abbrev pub line_of : DrrQueue → Line
line_of q = line q.flows (order q.pos q.ring)

-- The parts of the invariant that speak of the visiting order `ids`.
pub record Holds (flows : Flows) (ids : List String) (n : ℕ) : Type 0 where
  pub distinct : Distinct ids
  pub busy : BusyAll flows ids
  pub only : (id : String) → contains ids id ≡ false → flows id ≡ none
  pub count : n ≡ waiting flows ids

pub record Inv (q : DrrQueue) : Type 0 where
  pub pos_ok : q.pos ≤ length q.ring
  pub holds : Holds q.flows (order q.pos q.ring) q.n

pub empty-Inv : Inv empty_queue
empty-Inv = record {
  pos_ok = omega arith;
  holds = record { distinct = tt; busy = tt; only = λ id h. refl; count = refl };
}

pub line-append :
    (flows : Flows) (xs ys : List String) → line flows (xs ++ ys) ≡ line flows xs ++ line flows ys
line-append flows [] ys = refl
line-append flows (x ∷ xs) ys = ap (◌∷◌ (x, reqs_of (flows x))) (line-append flows xs ys)

pub waiting-append :
    (flows : Flows) (xs ys : List String)
    → waiting flows (xs ++ ys) ≡ waiting flows xs + waiting flows ys
waiting-append flows [] ys = omega arith
waiting-append flows (x ∷ xs) ys = omega (arith, waiting-append flows xs ys)

pub BusyAll-append :
    (flows : Flows) (xs ys : List String)
    → BusyAll flows xs
    → BusyAll flows ys
    → BusyAll flows (xs ++ ys)
BusyAll-append flows [] ys b c = c
BusyAll-append flows (x ∷ xs) ys b c = (b.0, BusyAll-append flows xs ys b.1 c)

-- A write to a flow outside `ids` changes none of these.
pub line-update :
    (flows : Flows) (id : String) (v : Option FlowQueue) (ids : List String)
    → contains ids id ≡ false
    → line (update flows id v) ids ≡ line flows ids
line-update flows id v [] h = refl
line-update flows id v (x ∷ ids) h =
    ground (arith, eq_iff x id, eq_iff id x, line-update flows id v ids)

pub waiting-update :
    (flows : Flows) (id : String) (v : Option FlowQueue) (ids : List String)
    → contains ids id ≡ false
    → waiting (update flows id v) ids ≡ waiting flows ids
waiting-update flows id v [] h = refl
waiting-update flows id v (x ∷ ids) h =
    ground (arith, eq_iff x id, eq_iff id x, waiting-update flows id v ids)

pub BusyAll-update :
    (flows : Flows) (id : String) (v : Option FlowQueue) (ids : List String)
    → contains ids id ≡ false
    → BusyAll flows ids
    → BusyAll (update flows id v) ids
BusyAll-update flows id v [] h b = tt
BusyAll-update flows id v (x ∷ ids) h b =
    ground (arith, eq_iff x id, eq_iff id x, BusyAll-update flows id v ids)
