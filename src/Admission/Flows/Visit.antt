-- ===== src/Admission/Flows/Visit.antt =====
-- One visit of the loop of `pop` (internal/leader/admission_classes.go), on a flow that has a request.
use opod_core.Base.{
  suc, ◌+◌, ◌-◌, ◌≤◌, ◌<◌, ◌≡◌, refl, ◌∙◌, false, List, [], ◌∷◌, ◌++◌, Option, none, some, String,
  arith, length, update, contains, All, get_elem?,
}
use opod_core.Admission.Flows.{
  HeldReq, FlowQueue, DrrQueue, pop, drop_flow, take_oldest, wrapped, remove_at, after_take,
}
use opod_core.Admission.Flows.Ring.{Distinct}
use opod_core.Admission.Flows.Order.{
  order, behind, order-suc, order-wrapped, order-remove, length-remove_at,
}
use opod_core.Admission.Flows.Inv.{
  Flows, BusyAll, waiting, Line, line, line_of, Inv, line-update, waiting-update, BusyAll-update,
}
use opod_core.Admission.Flows.Moves.{queue_of, Holds-back, line-back}

-- What deficit round robin over requests of one cost comes to: flows in a line, one request each
-- time, and back to the end of the line.
abbrev pub serve_head : Line → Option HeldReq × Line
serve_head [] = (none, [])
serve_head ((id, []) ∷ l) = (none, l)
serve_head ((id, h ∷ []) ∷ l) = (some h, l)
serve_head ((id, h ∷ r ∷ rs) ∷ l) = (some h, l ++ (id, r ∷ rs) ∷ [])

-- A queue that a flow `id` heads, with its requests.
pub record Heads (q : DrrQueue) (id : String) (f : FlowQueue) (h : HeldReq) (rs : List HeldReq)
    (ids : List String) : Type 0 where
  pub at_pos : get_elem? q.ring q.pos ≡ some id
  pub here : q.flows id ≡ some f
  pub reqs_eq : f.reqs ≡ h ∷ rs
  pub idle : f.deficit ≡ 0
  pub ids_eq : behind q.pos q.ring ≡ ids
  pub own : All (λ r. r.flow ≡ id) rs
  pub inside : q.pos < length q.ring
  pub distinct : Distinct ids
  pub fresh : contains ids id ≡ false
  pub busy : BusyAll q.flows ids
  pub only : (k : String) → contains (id ∷ ids) k ≡ false → q.flows k ≡ none
  pub count : q.n ≡ suc (length rs + waiting q.flows ids)

abbrev pub Popped : DrrQueue → HeldReq → Line → Type 0
Popped q h l =
    (q' : DrrQueue) × (pop q ≡ some (some h, q')) × Inv q' × (q'.n + 1 ≡ q.n) × (line_of q' ≡ l)

abbrev pub Visited : DrrQueue → HeldReq → Line → Option (Option HeldReq × DrrQueue) → Type 0
Visited q h l r =
    (q' : DrrQueue) × (r ≡ some (some h, q')) × Inv q' × (q'.n + 1 ≡ q.n) × (line_of q' ≡ l)

-- The head flow still has requests.
pub visit_more :
    (q : DrrQueue) (id : String) (f : FlowQueue) (h r : HeldReq) (rs : List HeldReq)
    (ids : List String)
    → Heads q id f h (r ∷ rs) ids
    → Visited q h (line q.flows ids ++ (id, r ∷ rs) ∷ []) (take_oldest q id f.reqs f.deficit)
visit_more q id f h r rs ids e =
    rw (e.reqs_eq, e.idle) (q', refl, inv, omega (arith, e.count), lines)
  where
    q' : DrrQueue
    q' = record q { flows = update q.flows id (queue_of (r ∷ rs)); pos = suc q.pos; n = q.n - 1 }

    turned : order (suc q.pos) q.ring ≡ ids ++ id ∷ []
    turned = rw (order-suc q.pos q.ring e.at_pos, e.ids_eq)

    inv : Inv q'
    inv = record {
      pos_ok = e.inside;
      holds = rw turned (
          Holds-back q.flows id (r ∷ rs) ids (q.n - 1) e.distinct e.fresh e.busy e.only
            (omega arith) e.own (omega (arith, e.count)));
    }

    lines : line_of q' ≡ line q.flows ids ++ (id, r ∷ rs) ∷ []
    lines = rw turned (line-back q.flows id (r ∷ rs) ids e.fresh)

-- The head flow has run dry and leaves the ring.
pub visit_last :
    (q : DrrQueue) (id : String) (f : FlowQueue) (h : HeldReq) (ids : List String)
    → Heads q id f h [] ids
    → Visited q h (line q.flows ids) (take_oldest q id f.reqs f.deficit)
unfolding drop_flow
visit_last q id f h ids e = rw (e.reqs_eq, e.idle) (q', reached, inv, omega (arith, e.count), lines)
  where
    base : Flows
    base = update q.flows id (queue_of [])

    q' : DrrQueue
    q' = record q {
      flows = update base id none;
      ring = remove_at q.pos q.ring;
      pos = wrapped q.pos (remove_at q.pos q.ring);
      n = q.n - 1;
    }

    reached : after_take (record q { n = q.n - 1 }) id h [] 0 ≡ some (some h, q')
    reached = rw e.at_pos (ground arith)

    short : q.pos ≤ length (remove_at q.pos q.ring)
    short = omega (arith, length-remove_at q.pos q.ring e.inside, e.inside)

    turned : order q'.pos q'.ring ≡ ids
    turned =
        order-wrapped q.pos (remove_at q.pos q.ring) short
        ∙ order-remove q.pos q.ring (omega (arith, e.inside))
        ∙ e.ids_eq

    inv : Inv q'
    inv = record {
      pos_ok = ground arith;
      holds = rw turned (record {
        distinct = e.distinct;
        busy =
            BusyAll-update base id none ids e.fresh
              (BusyAll-update q.flows id (queue_of []) ids e.fresh e.busy);
        only = λ k c. ground (arith, e.only k);
        count =
            rw
              (
                waiting-update base id none ids e.fresh,
                waiting-update q.flows id (queue_of []) ids e.fresh,
              )
              (omega (arith, e.count));
      });
    }

    lines : line_of q' ≡ line q.flows ids
    lines = rw (
      turned,
      line-update base id none ids e.fresh,
      line-update q.flows id (queue_of []) ids e.fresh,
    )
