-- ===== src/Admission/Flows/Remove.antt =====
-- `remove` takes one request out of the line, wherever it stands.
use opod_core.Base.{
  ℕ, ◌+◌, ◌-◌, ◌≤◌, ◌≡◌, refl, sym, ◌∙◌, true, false, List, [], ◌∷◌, Option, none, some, String,
  arith, if◌then◌else◌, length, update, contains, get_elem?, update_twice,
}
use opod_core.Admission.Flows.{
  HeldReq, FlowQueue, DrrQueue, remove, remove_at, index_of, without_req, drop_flow, wrapped,
  after_remove, drop_found, remove_from,
}
use opod_core.Admission.Flows.Order.{order, order-wrapped, length-remove_at}
use opod_core.Admission.Flows.Inv.{Flows, line_of, Holds, Inv}
use opod_core.Admission.Flows.Replace.{replaced-Holds, replaced-line, replaced-waiting, Busy-at}
use opod_core.Admission.Flows.Push.{absent}
use opod_core.Admission.Flows.Leave.{others, others-Holds, order-others, line-others, moved}
use opod_core.Admission.Flows.Found.{
  leave_line, waits, length-without_req, All-without_req, index_of_lem, contains-order,
  get_elem?-lt, leave-line_at, leave_absent, leave_missing, leave_shorter, leave_dry,
}

enough :
    (q : DrrQueue) (id : String) (f : FlowQueue)
    → Inv q
    → q.flows id ≡ some f
    → contains (order q.pos q.ring) id ≡ true
    → length f.reqs ≤ q.n
enough q id f v here c = omega (
  arith,
  v.holds.count,
  replaced-waiting q.flows id f [] (order q.pos q.ring) here v.holds.distinct c,
)

abbrev pub Removed : DrrQueue → HeldReq → Type 0
Removed q h =
    (q' : DrrQueue) × (remove q h ≡ some (waits h (line_of q), q'))
    × Inv q'
    × (q'.n + (if waits h (line_of q) then 1 else 0) ≡ q.n)
    × (line_of q' ≡ leave_line h (line_of q))

-- The flow's last request leaves, and the flow with it.
remove_dry :
    (q : DrrQueue) (h : HeldReq) (f : FlowQueue)
    → Inv q
    → q.flows h.flow ≡ some f
    → without_req h.id f.reqs ≡ some []
    → contains (order q.pos q.ring) h.flow ≡ true
    → Removed q h
unfolding remove drop_flow
remove_dry q h f v here e c = (q', ran, inv, counted, lines)
  where
    ids : List String
    ids = order q.pos q.ring

    in_ring : contains q.ring h.flow ≡ true
    in_ring = contains-order q.pos q.ring h.flow c

    found : (j : ℕ) × (index_of h.flow q.ring ≡ some j) × (get_elem? q.ring j ≡ some h.flow)
    found = index_of_lem h.flow q.ring in_ring

    base : Flows
    base = update q.flows h.flow (some (record f { reqs = [] }))

    pos' : ℕ
    pos' = moved found.0 q.pos

    ring' : List String
    ring' = remove_at found.0 q.ring

    q' : DrrQueue
    q' = record q {
      flows = update base h.flow none;
      ring = ring';
      pos = wrapped pos' ring';
      n = q.n - 1;
    }

    single : length f.reqs ≡ 1
    single = length-without_req h.id f.reqs [] e

    room : length f.reqs ≤ q.n
    room = enough q h.flow f v here c

    waits_true : waits h (line_of q) ≡ true
    waits_true = leave-line_at q.flows h f ids here c ∙ rw e

    ran : remove q h ≡ some (waits h (line_of q), q')
    ran =
        rw waits_true
          (rw (here, remove_from) (rw (e, after_remove) (rw (found.1, drop_found) (rw found.2))))

    turned : order q'.pos ring' ≡ others h.flow ids
    turned =
        order-wrapped pos' ring' (
          ground
            (arith, v.pos_ok, get_elem?-lt q.ring found.0 found.2, length-remove_at found.0 q.ring))
        ∙ order-others q.pos found.0 q.ring found.2 v.holds.distinct

    base_Holds : Holds (update base h.flow none) (others h.flow ids) (q.n - 1)
    base_Holds = rw (update_twice q.flows h.flow (some (record f { reqs = [] })) none) (
        others-Holds q.flows h.flow ids q.n (q.n - 1) v.holds c
          (rw here (omega (arith, single, room))))

    inv : Inv q'
    inv = record { pos_ok = ground arith; holds = rw turned base_Holds }

    counted : q'.n + (if waits h (line_of q) then 1 else 0) ≡ q.n
    counted = rw waits_true (omega (arith, single, room))

    lines : line_of q' ≡ leave_line h (line_of q)
    lines =
        rw
          (
            turned,
            update_twice q.flows h.flow (some (record f { reqs = [] })) none,
            line-others q.flows h.flow ids,
          )
          (sym (leave_dry q.flows h f ids here e v.holds.distinct))

-- `remove` reports whether the request was waiting; it panics nowhere, takes that request alone,
-- and leaves every other one in its place.
pub remove-refines : (q : DrrQueue) (h : HeldReq) → Inv q → Removed q h
unfolding remove
remove-refines q h v = in_flow (q.flows h.flow) refl
  where
    ids : List String
    ids = order q.pos q.ring

    with_reqs :
        (f : FlowQueue) (o : Option (List HeldReq))
        → q.flows h.flow ≡ some f
        → contains ids h.flow ≡ true
        → without_req h.id f.reqs ≡ o
        → Removed q h
    with_reqs f none here c e =
        let waits_false : waits h (line_of q) ≡ false =
          leave-line_at q.flows h f ids here c ∙ rw e in
        (
          q,
          rw (waits_false, here, remove_from) (rw (e, after_remove)),
          v,
          rw waits_false (omega arith),
          sym (leave_missing q.flows h f ids here e),
        )
    with_reqs f (some []) here c e = remove_dry q h f v here e c
    with_reqs f (some (r ∷ rs)) here c e =
        let waits_true : waits h (line_of q) ≡ true = leave-line_at q.flows h f ids here c ∙ rw e in
        let room = enough q h.flow f v here c in
        let one_less = length-without_req h.id f.reqs (r ∷ rs) e in
        (
          record q {
            flows = update q.flows h.flow (some (record f { reqs = r ∷ rs }));
            n = q.n - 1;
          },
          rw (waits_true, here, remove_from) (rw (e, after_remove)),
          record {
            pos_ok = v.pos_ok;
            holds =
                replaced-Holds q.flows h.flow f (r ∷ rs) here ids q.n (q.n - 1) v.holds c
                  (omega arith)
                  (All-without_req h.flow h.id f.reqs (r ∷ rs) e
                    (Busy-at q.flows h.flow f ids here v.holds.busy c).2)
                  (omega (arith, one_less, room));
          },
          rw waits_true (omega (arith, one_less, room)),
          replaced-line q.flows h.flow f (r ∷ rs) ids v.holds.distinct
              ∙ sym (leave_shorter q.flows h r f rs ids here e),
        )

    in_flow : (o : Option FlowQueue) → q.flows h.flow ≡ o → Removed q h
    in_flow none here =
        let missing = absent q.flows h.flow ids v.holds.busy here in
        let (l, w) = leave_absent q.flows h ids missing in
        (q, rw (w, here, remove_from), v, rw w (omega arith), sym l)
    in_flow (some f) here =
        with_reqs f (without_req h.id f.reqs) here (ground (arith, v.holds.only h.flow)) refl
