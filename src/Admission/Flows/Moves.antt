-- ===== src/Admission/Flows/Moves.antt =====
-- How a served flow, a flow that has run dry and a new flow change what a queue holds.
use opod_core.Base.{
  ℕ, ◌+◌, ◌<◌, ◌≡◌, refl, false, List, [], ◌∷◌, ◌++◌, Option, none, some, String, arith, eq_refl,
  length, update, contains, All, append-nil,
}
use opod_core.Admission.Flows.{HeldReq, FlowQueue}
use opod_core.Admission.Flows.Ring.{Distinct, Distinct-insert, contains-append}
use opod_core.Admission.Flows.Inv.{
  Flows, Busy, BusyAll, waiting, line, Holds, line-append, waiting-append, BusyAll-append,
  line-update, waiting-update, BusyAll-update,
}

abbrev pub queue_of : List HeldReq → Option FlowQueue
queue_of rs = some (record { reqs = rs; deficit = 0 })

pub All-snoc :
    (id : String) (rs : List HeldReq) (h : HeldReq)
    → All (λ r. r.flow ≡ id) rs
    → h.flow ≡ id
    → All (λ r. r.flow ≡ id) (rs ++ h ∷ [])
All-snoc id [] h a e = (e, tt)
All-snoc id (r ∷ rs) h a e = (a.0, All-snoc id rs h a.1 e)

module _ (flows : Flows) (id : String) (rs : List HeldReq) where
  abbrev pub set_flow : Flows
  set_flow = update flows id (queue_of rs)

  pub set_flow_self : set_flow id ≡ queue_of rs
  set_flow_self = simp eq_refl

  Busy-set : 0 < length rs → All (λ r. r.flow ≡ id) rs → Busy id (set_flow id)
  Busy-set h a = rw set_flow_self (refl, h, a)

  only-set :
      (ids : List String)
      → ((k : String) → contains ids k ≡ false → flows k ≡ none)
      → (k : String) → contains (ids ++ id ∷ []) k ≡ false
      → set_flow k ≡ none
  only-set ids only k h = ground (arith, contains-append ids (id ∷ []) k, only k)

  -- The flow `id` goes to the back of the order with the requests `rs`.
  pub Holds-back :
      (ids : List String) (n : ℕ)
      → Distinct ids
      → contains ids id ≡ false
      → BusyAll flows ids
      → ((k : String) → contains (id ∷ ids) k ≡ false → flows k ≡ none)
      → 0 < length rs
      → All (λ r. r.flow ≡ id) rs
      → n ≡ length rs + waiting flows ids
      → Holds set_flow (ids ++ id ∷ []) n
  Holds-back ids n d fresh busy only pos own count = record {
    distinct = Distinct-insert ids [] id (rw append-nil d) fresh refl;
    busy =
        BusyAll-append set_flow ids (id ∷ []) (BusyAll-update flows id (queue_of rs) ids fresh busy)
          (Busy-set pos own, tt);
    only = λ k h. ground (arith, contains-append ids (id ∷ []) k, only k);
    count =
        rw
          (
            waiting-append set_flow ids (id ∷ []),
            waiting-update flows id (queue_of rs) ids fresh,
            set_flow_self,
          )
          (omega arith);
  }

  pub line-back :
      (ids : List String)
      → contains ids id ≡ false
      → line set_flow (ids ++ id ∷ []) ≡ line flows ids ++ (id, rs) ∷ []
  line-back ids fresh = rw (
    line-append set_flow ids (id ∷ []),
    line-update flows id (queue_of rs) ids fresh,
    set_flow_self,
  )
