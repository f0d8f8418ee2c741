-- ===== src/Admission/Flows/Push.antt =====
-- `push` adds a request behind those of its flow, and a new flow at the end of the line.
use opod_core.Base.{
  suc, ◌≤◌, ◌<◌, ◌≡◌, refl, ◌≢◌, ◌∙◌, true, false, List, [], ◌∷◌, ◌++◌, Option, none, some, String,
  arith, eq_iff, if◌then◌else◌, ◌===◌, length, update, contains, All, inl, inr, length-append, ltb,
  update_self, Option-cases,
}
use opod_core.Admission.Flows.{HeldReq, FlowQueue, DrrQueue, push, flow, joined, with_flow}
use opod_core.Admission.Flows.Order.{order, order-insert, length-insert_at}
use opod_core.Admission.Flows.Inv.{
  Flows, Busy, BusyAll, Line, line, line_of, Inv, line-update, waiting-update, BusyAll-update,
}
use opod_core.Admission.Flows.Replace.{replace_line, replaced-Holds, replaced-line, Busy-at}
use opod_core.Admission.Flows.Moves.{queue_of, All-snoc, Holds-back, line-back}

-- The request joins its flow where that stands, or opens a new flow at the end.
abbrev pub join_line : HeldReq → Line → Line
join_line h [] = (h.flow, h ∷ []) ∷ []
join_line h ((id, rs) ∷ l) =
    let rest = join_line h l in if id === h.flow then (id, rs ++ h ∷ []) ∷ l else (id, rs) ∷ rest

join_line-absent :
    (flows : Flows) (h : HeldReq) (ids : List String)
    → contains ids h.flow ≡ false
    → join_line h (line flows ids) ≡ line flows ids ++ (h.flow, h ∷ []) ∷ []
join_line-absent flows h [] e = refl
join_line-absent flows h (id ∷ ids) e = ground (arith, join_line-absent flows h ids)

-- A flow without a queue is not in the order.
pub absent :
    (flows : Flows) (id : String) (ids : List String)
    → BusyAll flows ids
    → flows id ≡ none
    → contains ids id ≡ false
absent flows id [] b e = refl
absent flows id (x ∷ ids) b e =
    ground (arith, eq_iff x id, absent flows id ids b.1 e, busy_some (flows x) b.0)
  where
    busy_some : (o : Option FlowQueue) → Busy x o → o ≢ none
    busy_some none b = absurd b
    busy_some (some f) b = λ e. cc

replace-join :
    (flows : Flows) (h : HeldReq) (f : FlowQueue) (ids : List String)
    → flows h.flow ≡ some f
    → contains ids h.flow ≡ true
    → replace_line h.flow (f.reqs ++ h ∷ []) (line flows ids) ≡ join_line h (line flows ids)
replace-join flows h f [] here c = cc
replace-join flows h f (id ∷ ids) here c =
    ground (arith, eq_iff id h.flow, here, replace-join flows h f ids here)

abbrev Pushed : DrrQueue → HeldReq → DrrQueue → Type 0
Pushed q h q' = Inv q' × (q'.n ≡ suc q.n) × (line_of q' ≡ join_line h (line_of q))

push_old :
    (q : DrrQueue) (h : HeldReq) (f : FlowQueue)
    → Inv q
    → q.flows h.flow ≡ some f
    → Pushed q h (push q h)
unfolding push flow
push_old q h f v here =
    rw (here, push, flow)
      (rw here (
        record {
          pos_ok = v.pos_ok;
          holds =
              replaced-Holds q.flows h.flow f rs here ids q.n (suc q.n) v.holds inside longer own
                (omega (arith, more));
        },
        refl,
        replaced-line q.flows h.flow f rs ids v.holds.distinct
            ∙ replace-join q.flows h f ids here inside,
      ))
  where
    ids : List String
    ids = order q.pos q.ring

    rs : List HeldReq
    rs = f.reqs ++ h ∷ []

    inside : contains ids h.flow ≡ true
    inside = ground (arith, v.holds.only h.flow)

    more : length rs ≡ suc (length f.reqs)
    more = omega (arith, length-append f.reqs (h ∷ []))

    longer : 0 < length rs
    longer = omega (arith, more)

    own : All (λ r. r.flow ≡ h.flow) rs
    own = All-snoc h.flow f.reqs h (Busy-at q.flows h.flow f ids here v.holds.busy inside).2 refl

flow_new :
    (q : DrrQueue) (id : String)
    → q.pos ≤ length q.ring
    → q.flows id ≡ none
    → flow q id ≡ joined q id q.pos
unfolding flow
flow_new q id p e =
    let kept : ltb (length q.ring) q.pos ≡ false = ground arith in rw (e, with_flow) (rw kept)

push_new : (q : DrrQueue) (h : HeldReq) → Inv q → q.flows h.flow ≡ none → Pushed q h (push q h)
unfolding push
push_new q h v missing =
    rw (flow_new q h.flow v.pos_ok missing, update_self q.flows h.flow (queue_of []))
      (inv, refl, lines)
  where
    ids : List String
    ids = order q.pos q.ring

    base : Flows
    base = update q.flows h.flow (queue_of [])

    q' : DrrQueue
    q' = record (joined q h.flow q.pos) {
      flows = update base h.flow (queue_of (h ∷ []));
      n = suc q.n;
    }

    turned : order q'.pos q'.ring ≡ ids ++ h.flow ∷ []
    turned = order-insert q.pos q.ring h.flow v.pos_ok

    fresh : contains ids h.flow ≡ false
    fresh = absent q.flows h.flow ids v.holds.busy missing

    inv : Inv q'
    inv = record {
      pos_ok = omega (arith, length-insert_at q.pos q.ring h.flow, v.pos_ok);
      holds = rw turned (
          Holds-back base h.flow (h ∷ []) ids (suc q.n) v.holds.distinct fresh
            (BusyAll-update q.flows h.flow (queue_of []) ids fresh v.holds.busy)
            (λ k c. ground (arith, eq_iff h.flow k, v.holds.only k)) (omega arith) (refl, tt)
            (omega (arith, v.holds.count, waiting-update q.flows h.flow (queue_of []) ids fresh)));
    }

    lines : line_of q' ≡ join_line h (line_of q)
    lines = rw (
      turned,
      line-back base h.flow (h ∷ []) ids fresh,
      line-update q.flows h.flow (queue_of []) ids fresh,
      join_line-absent q.flows h ids fresh,
    )

-- `push` keeps the queue well formed, counts the request, and joins it to the line.
pub push-refines :
    (q : DrrQueue) (h : HeldReq)
    → Inv q
    → Inv (push q h) × ((push q h).n ≡ suc q.n) × (line_of (push q h) ≡ join_line h (line_of q))
push-refines q h v = elim (Option-cases (q.flows h.flow)) [
  | inl e ↦ push_new q h v e
  | inr (f, e) ↦ push_old q h f v e
]
