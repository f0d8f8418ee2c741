-- ===== src/Admission/Flows/Shed.antt =====
-- `newest_of_largest`: the request that makes room is the last of a flow that holds the most.
use opod_core.Base.{
  ℕ, ◌≤◌, ◌<◌, ◌≡◌, refl, ap, sym, subst, ◌∙◌, ◌⊎◌, inl, inr, true, List, [], ◌∷◌, ◌++◌, none, some,
  String, arith, eq_iff, ltb→lt, Option-cases, length, contains, All, take, drop, take-append-drop,
  Bool-cases, ltb, length-append,
}
use opod_core.Admission.Flows.{
  HeldReq, FlowQueue, DrrQueue, larger, largest, newest, newest_of_largest, without_req,
}
use opod_core.Admission.Flows.Ring.{contains-append}
use opod_core.Admission.Flows.Order.{order}
use opod_core.Admission.Flows.Inv.{
  Flows, reqs_of, Busy, BusyAll, waiting, line_of, Inv, BusyAll-append,
}
use opod_core.Admission.Flows.Pop.{order-empty, line-none}
use opod_core.Admission.Flows.Replace.{Busy-at}
use opod_core.Admission.Flows.Found.{is_found, waits, leave-line_at}

BusyAll-split :
    (flows : Flows) (xs ys : List String)
    → BusyAll flows (xs ++ ys)
    → BusyAll flows xs × BusyAll flows ys
BusyAll-split flows [] ys b = (tt, b)
BusyAll-split flows (x ∷ xs) ys b = let (p, q) = BusyAll-split flows xs ys b.1 in ((b.0, p), q)

BusyAll-ring : (q : DrrQueue) → BusyAll q.flows (order q.pos q.ring) → BusyAll q.flows q.ring
BusyAll-ring q b =
    let (d, t) = BusyAll-split q.flows (drop q.pos q.ring) (take q.pos q.ring) b in
    subst (BusyAll q.flows) (take-append-drop q.pos q.ring)
      (BusyAll-append q.flows (take q.pos q.ring) (drop q.pos q.ring) t d)

abbrev pub NoMore : Flows → List String → ℕ → Type 0
NoMore flows [] n = Unit {0}
NoMore flows (id ∷ ids) n = (length (reqs_of (flows id)) ≤ n) × NoMore flows ids n

NoMore-mono :
    (flows : Flows) (ids : List String) (m n : ℕ) → m ≤ n → NoMore flows ids m → NoMore flows ids n
NoMore-mono flows [] m n h l = tt
NoMore-mono flows (id ∷ ids) m n h l = (omega arith, NoMore-mono flows ids m n h l.1)

-- What the loop has when it ends, having begun with `b`.
record Chosen (flows : Flows) (ids : List String) (b f : FlowQueue) : Type 0 where
  among : (f ≡ b) ⊎ ((id : String) × (contains ids id ≡ true) × (flows id ≡ some f))
  most : NoMore flows ids (length f.reqs)
  grew : length b.reqs ≤ length f.reqs

largest_from :
    (flows : Flows) (ids : List String) (b : FlowQueue)
    → BusyAll flows ids
    → (f : FlowQueue) × (largest flows ids (some b) ≡ some f) × Chosen flows ids b f
unfolding largest
largest_from flows [] b busy = (b, refl, record { among = inl refl; most = tt; grew = omega arith })
largest_from flows (id ∷ ids) b busy = elim (Option-cases (flows id)) [
  | inl e ↦ absurd (subst (Busy id) e busy.0)
  | inr (g, e) ↦ elim (Bool-cases (ltb (length b.reqs) (length g.reqs))) [
    | inl more ↦
        let (f, ran, c) = largest_from flows ids g busy.1 in
        (
          f,
          rw (e, larger) (rw more ran),
          record {
            among = elim c.among [
              | inl same ↦ inr (id, ground (arith, eq_iff id id), e ∙ ap some (sym same))
              | inr (k, inside, at_k) ↦ inr (k, ground arith, at_k)
            ];
            most = (rw e c.grew, c.most);
            grew = omega (arith, ltb→lt _ _ more, c.grew);
          },
        )
    | inr less ↦
        let (f, ran, c) = largest_from flows ids b busy.1 in
        (
          f,
          rw (e, larger) (rw less ran),
          record {
            among = elim c.among [
              | inl same ↦ inl same
              | inr (k, inside, at_k) ↦ inr (k, ground arith, at_k)
            ];
            most = (rw e (ground (arith, c.grew)), c.most);
            grew = c.grew;
          },
        )
  ]
]

found_later :
    (id : ℕ) (r : HeldReq) (rs : List HeldReq)
    → is_found (without_req id rs) ≡ true
    → is_found (without_req id (r ∷ rs)) ≡ true
unfolding without_req
found_later id r rs h = ground arith

newest-some :
    (id : String) (rs : List HeldReq)
    → 0 < length rs
    → All (λ r. r.flow ≡ id) rs
    → (v : HeldReq) × (newest rs ≡ some v) × (v.flow ≡ id) × (is_found (without_req v.id rs) ≡ true)
newest-some id [] h a = absurd (omega arith)
newest-some id (r ∷ []) h a = (r, refl, a.0, unfold without_req in ground arith)
newest-some id (r ∷ s ∷ rs) h a =
    let (v, e, own, found) = newest-some id (s ∷ rs) (omega arith) a.1 in
    (v, e, own, found_later v.id r (s ∷ rs) found)

largest-some :
    (flows : Flows) (ids : List String)
    → BusyAll flows ids
    → 0 < length ids
    → (f : FlowQueue) × (id : String) × (largest flows ids none ≡ some f)
      × (contains ids id ≡ true)
      × (flows id ≡ some f)
      × NoMore flows ids (length f.reqs)
unfolding largest
largest-some flows [] b h = absurd (omega arith)
largest-some flows (id ∷ ids) b h = elim (Option-cases (flows id)) [
  | inl e ↦ absurd (subst (Busy id) e b.0)
  | inr (g, e) ↦
      let (f, ran, c) = largest_from flows ids g b.1 in
      let ran' : largest flows ids (larger none (flows id)) ≡ some f = rw e ran in
      let most : NoMore flows (id ∷ ids) (length f.reqs) = (rw e c.grew, c.most) in
      elim c.among [
        | inl same ↦ (f, id, ran', ground (arith, eq_iff id id), e ∙ ap some (sym same), most)
        | inr (k, inside, at_k) ↦ (f, k, ran', ground arith, at_k, most)
      ]
]

ring_nonempty : (q : DrrQueue) → Inv q → 0 < q.n → 0 < length q.ring
ring_nonempty q v pos = elim (Bool-cases (ltb 0 (length q.ring))) [
  | inl e ↦ ltb→lt _ _ e
  | inr e ↦
      let flat = order-empty q.pos q.ring (ground arith) in
      absurd (omega (arith, v.holds.count, ap (waiting q.flows) flat))
]

contains-order :
    (pos : ℕ) (ring : List String) (id : String)
    → contains ring id ≡ true
    → contains (order pos ring) id ≡ true
contains-order pos ring id c =
    let whole : contains (take pos ring ++ drop pos ring) id ≡ true =
      subst (λ r. contains r id ≡ true) (sym (take-append-drop pos ring)) c in
    ground (
      arith,
      contains-append (take pos ring) (drop pos ring) id,
      contains-append (drop pos ring) (take pos ring) id,
    )

pub newest_of_largest_lem :
    (q : DrrQueue)
    → Inv q
    → 0 < q.n
    → (v : HeldReq) × (f : FlowQueue) × (newest_of_largest q ≡ some v)
      × (waits v (line_of q) ≡ true)
      × (q.flows v.flow ≡ some f)
      × (newest f.reqs ≡ some v)
      × NoMore q.flows q.ring (length (reqs_of (q.flows v.flow)))
unfolding newest_of_largest
newest_of_largest_lem q v pos =
    let ring_busy = BusyAll-ring q v.holds.busy in
    let (f, id, ran, inside, here, most) =
      largest-some q.flows q.ring ring_busy (ring_nonempty q v pos) in
    let busy = Busy-at q.flows id f q.ring here ring_busy inside in
    let (r, e, own, found) = newest-some id f.reqs busy.1 busy.2 in
    let here' : q.flows r.flow ≡ some f = ap q.flows own ∙ here in
    (
      r,
      f,
      rw ran e,
      leave-line_at q.flows r f (order q.pos q.ring) here' (
            subst (λ k. contains (order q.pos q.ring) k ≡ true) (sym own)
              (contains-order q.pos q.ring id inside))
          ∙ found,
      here',
      e,
      rw here' most,
    )

nil_of_length : (xs : List String) → length xs ≡ 0 → xs ≡ []
nil_of_length [] h = refl
nil_of_length (x ∷ xs) h = absurd (omega arith)

-- A queue with no request has none to shed.
pub newest_of_largest_empty : (q : DrrQueue) → Inv q → q.n ≡ 0 → newest_of_largest q ≡ none
unfolding newest_of_largest largest
newest_of_largest_empty q v z =
    let flat = line-none q.flows (order q.pos q.ring) v.holds.busy (omega (arith, v.holds.count)) in
    let short : length q.ring ≡ 0 = omega (
      arith,
      ap length flat,
      ap length (take-append-drop q.pos q.ring),
      length-append (take q.pos q.ring) (drop q.pos q.ring),
      length-append (drop q.pos q.ring) (take q.pos q.ring),
    ) in
    rw (nil_of_length q.ring short)
