-- ===== src/Admission/Flows/Pop.antt =====
-- `pop` serves the head of the line and sends its flow to the back.
use opod_core.Base.{
  ℕ, zero, suc, ◌<◌, ◌≡◌, refl, ap, sym, ◌∙◌, false, List, [], ◌∷◌, Option, none, some, String,
  arith, ◌==◌, length, All, Bool-cases, inl, inr, ltb, get_elem?, get_elem?_below,
}
use opod_core.Admission.Flows.{HeldReq, FlowQueue, DrrQueue, pop, take_oldest, wrapped}
use opod_core.Admission.Flows.Order.{order, behind, order-at, order-wrapped}
use opod_core.Admission.Flows.Inv.{
  Flows, reqs_of, Busy, BusyAll, waiting, Line, line, line_of, Holds, Inv,
}
use opod_core.Admission.Flows.Visit.{serve_head, Heads, Popped, Visited, visit_more, visit_last}

pub order-empty : (pos : ℕ) (ring : List String) → length ring ≡ 0 → order pos ring ≡ []
order-empty zero [] h = refl
order-empty (suc pos) [] h = refl
order-empty pos (x ∷ ring) h = absurd (omega arith)

-- The queue with `pos` brought back into the ring, as `pop` begins.
abbrev begun : DrrQueue → DrrQueue
begun q = record q { pos = wrapped q.pos q.ring }

begun_inside : (q : DrrQueue) → Inv q → 0 < q.n → wrapped q.pos q.ring < length q.ring
begun_inside q v h = elim (Bool-cases (ltb 0 (length q.ring))) [
  | inl e ↦ ground (arith, v.pos_ok)
  | inr e ↦
      let flat = order-empty q.pos q.ring (ground arith) in
      absurd (omega (arith, v.holds.count, ap (waiting q.flows) flat))
]

order-begun :
    (q : DrrQueue) {id : String}
    → Inv q
    → get_elem? q.ring (begun q).pos ≡ some id
    → order q.pos q.ring ≡ id ∷ behind (begun q).pos q.ring
order-begun q v e = sym (order-wrapped q.pos q.ring v.pos_ok) ∙ order-at (begun q).pos q.ring e

-- A queue with requests is headed by a flow.
begun-Heads :
    (q : DrrQueue)
    → Inv q
    → 0 < q.n
    → (id : String) × (f : FlowQueue) × (h : HeldReq) × (rs : List HeldReq) × Heads
        (begun q)
        id
        f
        h
        rs
        (behind (begun q).pos q.ring)
begun-Heads q v pos = at_id (get_elem?_below q.ring (begun q).pos inside)
  where
    inside : (begun q).pos < length q.ring
    inside = begun_inside q v pos

    Goal : Type 0
    Goal =
        (id : String) × (f : FlowQueue) × (h : HeldReq) × (rs : List HeldReq) × Heads (begun q) id f
          h rs (behind (begun q).pos q.ring)

    with_reqs :
        (id : String) (f : FlowQueue) (l : List HeldReq)
        → get_elem? q.ring (begun q).pos ≡ some id
        → q.flows id ≡ some f
        → f.reqs ≡ l
        → (f.deficit ≡ 0) × (0 < length l) × All (λ r. r.flow ≡ id) l
        → Holds q.flows (id ∷ behind (begun q).pos q.ring) q.n
        → Goal
    with_reqs id f [] at_id here reqs b w = absurd (omega (arith, b.1))
    with_reqs id f (h ∷ rs) at_id here reqs b w = (
      id,
      f,
      h,
      rs,
      record {
        at_pos = at_id;
        here = here;
        reqs_eq = reqs;
        idle = b.0;
        ids_eq = refl;
        own = b.2.1;
        inside = inside;
        distinct = w.distinct.1;
        fresh = w.distinct.0;
        busy = w.busy.1;
        only = w.only;
        count = w.count ∙ rw (here, reqs) (omega arith);
      },
    )

    with_flow :
        (id : String) (o : Option FlowQueue)
        → get_elem? q.ring (begun q).pos ≡ some id
        → q.flows id ≡ o
        → Busy id o
        → Holds q.flows (id ∷ behind (begun q).pos q.ring) q.n
        → Goal
    with_flow id none at_id here b w = absurd b
    with_flow id (some f) at_id here b w = with_reqs id f f.reqs at_id here refl b w

    at_id : (id : String) × (get_elem? q.ring (begun q).pos ≡ some id) → Goal
    at_id (id, e) =
        let w = rw (order-begun q v e) at v.holds in with_flow id (q.flows id) e refl w.busy.0 w

Heads-line :
    (q : DrrQueue) (id : String) (f : FlowQueue) (h : HeldReq) (rs : List HeldReq)
    → Inv q
    → Heads (begun q) id f h rs (behind (begun q).pos q.ring)
    → line_of q ≡ (id, h ∷ rs) ∷ line q.flows (behind (begun q).pos q.ring)
Heads-line q id f h rs v e = rw (order-begun q v e.at_pos, e.here, e.reqs_eq)

pop-begun :
    (q : DrrQueue) (id : String) (f : FlowQueue) (h : HeldReq) (rs : List HeldReq)
    → 0 < q.n
    → Heads (begun q) id f h rs (behind (begun q).pos q.ring)
    → pop q ≡ take_oldest (begun q) id f.reqs f.deficit
unfolding pop
pop-begun q id f h rs pos e = elim (Bool-cases (q.n == 0)) [
  | inl z ↦ absurd (ground arith)
  | inr z ↦ rw z (rw e.at_pos (rw e.here))
]

visit_head :
    (q : DrrQueue) (id : String) (f : FlowQueue) (h : HeldReq) (rs : List HeldReq)
    (ids : List String)
    → Heads q id f h rs ids
    → Visited q h
        (serve_head ((id, h ∷ rs) ∷ line q.flows ids)).1
        (take_oldest q id f.reqs f.deficit)
visit_head q id f h [] ids e = visit_last q id f h ids e
visit_head q id f h (r ∷ rs) ids e = visit_more q id f h r rs ids e

serve_head-some :
    (id : String) (h : HeldReq) (rs : List HeldReq) (l : Line)
    → (serve_head ((id, h ∷ rs) ∷ l)).0 ≡ some h
serve_head-some id h [] l = refl
serve_head-some id h (r ∷ rs) l = refl

-- `pop` of a queue with requests returns, without a panic, what serving the head of the line gives.
pub pop_serves :
    (q : DrrQueue)
    → Inv q
    → 0 < q.n
    → (h : HeldReq) × ((serve_head (line_of q)).0 ≡ some h) × Popped q h (serve_head (line_of q)).1
pop_serves q v pos =
    let (id, f, h, rs, e) = begun-Heads q v pos in
    (
      h,
      rw (Heads-line q id f h rs v e) (serve_head-some id h rs _),
      rw (Heads-line q id f h rs v e, pop-begun q id f h rs pos e)
          (visit_head (begun q) id f h rs (behind (begun q).pos q.ring) e),
    )

pub line-none :
    (flows : Flows) (ids : List String) → BusyAll flows ids → waiting flows ids ≡ 0 → ids ≡ []
line-none flows [] b w = refl
line-none flows (id ∷ ids) b w = absurd (dry (flows id) b.0 (omega arith))
  where
    dry : (o : Option FlowQueue) → Busy id o → length (reqs_of o) ≡ 0 → ⊥
    dry none b w = b
    dry (some f) b w = omega arith

-- On every well-formed queue `pop` panics nowhere, keeps the queue well formed, and gives what
-- serving the head of the line gives: nothing exactly when the line is empty.
pub pop-refines :
    (q : DrrQueue)
    → Inv q
    → (r : Option HeldReq) × (q' : DrrQueue) × (pop q ≡ some (r, q'))
      × Inv q'
      × (serve_head (line_of q) ≡ (r, line_of q'))
unfolding pop
pop-refines q v = elim (Bool-cases (ltb 0 q.n)) [
  | inl e ↦ served (pop_serves q v (ground arith))
  | inr e ↦
      let flat =
        line-none q.flows (order q.pos q.ring) v.holds.busy
          (omega (arith, v.holds.count, zero_n e)) in
      (none, q, rw (zero_n e) refl, v, rw flat refl)
]
  where
    zero_n : ltb 0 q.n ≡ false → q.n ≡ 0
    zero_n e = ground arith

    served :
        (h : HeldReq) × ((serve_head (line_of q)).0 ≡ some h)
          × Popped q h (serve_head (line_of q)).1
        → (r : Option HeldReq) × (q' : DrrQueue) × (pop q ≡ some (r, q'))
          × Inv q'
          × (serve_head (line_of q) ≡ (r, line_of q'))
    served (h, e, (q', p, i, c, l)) = (some h, q', p, i, ground arith)
