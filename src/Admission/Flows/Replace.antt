-- ===== src/Admission/Flows/Replace.antt =====
-- A flow that keeps its place gets other requests.
use opod_core.Base.{
  ℕ, ◌+◌, ◌<◌, ◌≡◌, refl, ap, subst, ◌∙◌, true, List, [], ◌∷◌, some, String, arith, eq_iff,
  if◌then◌else◌, ◌===◌, length, update, contains, All, Bool-cases, inl, inr,
}
use opod_core.Admission.Flows.{HeldReq, FlowQueue}
use opod_core.Admission.Flows.Ring.{Distinct}
use opod_core.Admission.Flows.Inv.{
  Flows, Busy, BusyAll, waiting, Line, line, Holds, line-update, waiting-update,
}

abbrev pub replace_line : String → List HeldReq → Line → Line
replace_line id rs [] = []
replace_line id rs ((x, xs) ∷ l) =
    let rest = replace_line id rs l in if x === id then (x, rs) ∷ l else (x, xs) ∷ rest

-- What the invariant says of a flow in the order.
pub Busy-at :
    (flows : Flows) (id : String) (f : FlowQueue) (ids : List String)
    → flows id ≡ some f
    → BusyAll flows ids
    → contains ids id ≡ true
    → Busy id (some f)
Busy-at flows id f [] here b c = cc
Busy-at flows id f (x ∷ ids) here b c = elim (Bool-cases (x === id)) [
  | inl e ↦
      let same : x ≡ id = (eq_iff x id).0 e in
      subst (λ k. Busy k (some f)) same (subst (Busy x) (ap flows same ∙ here) b.0)
  | inr e ↦ Busy-at flows id f ids here b.1 (ground arith)
]

module _ (flows : Flows) (id : String) (f : FlowQueue) (rs : List HeldReq) where
  abbrev pub replaced : Flows
  replaced = update flows id (some (record f { reqs = rs }))

  replaced-BusyAll :
      (ids : List String)
      → BusyAll flows ids
      → Busy id (some (record f { reqs = rs }))
      → BusyAll replaced ids
  replaced-BusyAll [] b g = tt
  replaced-BusyAll (x ∷ ids) b g = (
    elim (Bool-cases (id === x)) [
      | inl e ↦ rw e (subst (λ k. Busy k (some (record f { reqs = rs }))) ((eq_iff id x).0 e) g)
      | inr e ↦ rw e b.0
    ],
    replaced-BusyAll ids b.1 g,
  )

  pub replaced-waiting :
      (ids : List String)
      → flows id ≡ some f
      → Distinct ids
      → contains ids id ≡ true
      → waiting replaced ids + length f.reqs ≡ waiting flows ids + length rs
  replaced-waiting [] here d c = cc
  replaced-waiting (x ∷ ids) here d c = ground (
    arith,
    eq_iff id x,
    eq_iff x id,
    waiting-update flows id (some (record f { reqs = rs })) ids,
    here,
    replaced-waiting ids here d.1,
  )

  pub replaced-line :
      (ids : List String) → Distinct ids → line replaced ids ≡ replace_line id rs (line flows ids)
  replaced-line [] d = refl
  replaced-line (x ∷ ids) d = ground (
    arith,
    eq_iff id x,
    eq_iff x id,
    line-update flows id (some (record f { reqs = rs })) ids,
    replaced-line ids d.1,
  )

  module _ (here : flows id ≡ some f) where
    pub replaced-Holds :
        (ids : List String) (n m : ℕ)
        → Holds flows ids n
        → contains ids id ≡ true
        → 0 < length rs
        → All (λ r. r.flow ≡ id) rs
        → m + length f.reqs ≡ n + length rs
        → Holds replaced ids m
    replaced-Holds ids n m v c pos own count = record {
      distinct = v.distinct;
      busy = replaced-BusyAll ids v.busy ((Busy-at flows id f ids here v.busy c).0, pos, own);
      only = λ k e. ground (arith, eq_iff id k, v.only k e);
      count = omega (arith, v.count, count, replaced-waiting ids here v.distinct c);
    }
