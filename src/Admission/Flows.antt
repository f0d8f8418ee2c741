-- ===== src/Admission/Flows.antt =====
-- One class's waiting room: deficit round robin over flows (`flowQueue`, `drrQueue` of
-- internal/leader/admission_classes.go). `none` as a result is a Go panic: an index out of range or
-- a nil flow.
pub mod Ring
pub mod Order
pub mod Inv
pub mod Moves
pub mod Pop
pub mod Replace
pub mod Leave
pub mod Push
pub mod Turn
pub mod Shed
pub mod Remove
pub mod Visit
pub mod Found
use opod_core.Base.{
  ℕ, zero, suc, ◌+◌, ◌-◌, ◌≡◌, refl, Bool, true, false, List, [], ◌∷◌, ◌++◌, Option, none, some,
  String, if◌then◌else◌, ◌==◌, ◌===◌, ltb, leb, length, get_elem?, take, drop, update,
}
use opod_core.Admission.Classes.{Class}

-- `heldReq`: what identifies a waiting request. `id` is its pointer; the flags that the gate
-- writes behind the pointer are kept by Admission.Pool.
pub record HeldReq : Type 0 where
  pub id : ℕ
  pub class : Class
  pub flow : String

pub record FlowQueue : Type 0 where
  pub reqs : List HeldReq
  pub deficit : ℕ

pub record DrrQueue : Type 0 where
  pub flows : String → Option FlowQueue
  pub ring : List String
  pub pos : ℕ
  pub n : ℕ

abbrev pub empty_queue : DrrQueue
empty_queue = record { flows = λ _. none; ring = []; pos = 0; n = 0 }

abbrev pub drr_quantum : ℕ
drr_quantum = 1

abbrev pub insert_at : ℕ → String → List String → List String
insert_at i id ring = take i ring ++ id ∷ drop i ring

abbrev pub remove_at : ℕ → List String → List String
remove_at i ring = take i ring ++ drop (suc i) ring

-- A new flow joins just behind the flow whose visit is next.
abbrev pub joined : DrrQueue → String → ℕ → DrrQueue
joined q id pos = record q {
  flows = update q.flows id (some (record { reqs = []; deficit = 0 }));
  ring = insert_at pos id q.ring;
  pos = suc pos;
}

abbrev pub with_flow : DrrQueue → String → Option FlowQueue → DrrQueue
with_flow q id (some f) = q
with_flow q id none = joined q id (if ltb (length q.ring) q.pos then length q.ring else q.pos)

-- The queue once `q.flow(id)` has run; the flow it returns is then `(flow q id).flows id`.
unfoldable pub flow : DrrQueue → String → DrrQueue
flow q id = with_flow q id (q.flows id)

abbrev pub add_req : HeldReq → Option FlowQueue → Option FlowQueue
add_req h none = none
add_req h (some f) = some (record f { reqs = f.reqs ++ h ∷ [] })

unfoldable pub push : DrrQueue → HeldReq → DrrQueue
unfolding flow
push q h = record (flow q h.flow) {
  flows = update (flow q h.flow).flows h.flow (add_req h ((flow q h.flow).flows h.flow));
  n = suc (flow q h.flow).n;
}

abbrev pub wrapped : ℕ → List String → ℕ
wrapped pos ring = if leb (length ring) pos then 0 else pos

abbrev pub drop_entry : ℕ → DrrQueue → Option String → Option DrrQueue
drop_entry i q none = none
drop_entry i q (some id) = some (record q {
  flows = update q.flows id none;
  ring = remove_at i q.ring;
  pos = wrapped (if ltb i q.pos then q.pos - 1 else q.pos) (remove_at i q.ring);
})

unfoldable pub drop_flow : ℕ → DrrQueue → Option DrrQueue
drop_flow i q = drop_entry i q (get_elem? q.ring i)

-- The deficit after a visit's credit and one request's cost.
abbrev pub spent : ℕ → ℕ
spent d = (if ltb d 1 then d + drr_quantum else d) - 1

abbrev pub taking : DrrQueue → HeldReq → Option DrrQueue → Option (Option HeldReq × DrrQueue)
taking q h none = none
taking q h (some q') = some (some h, q')

-- The oldest request `h` of the flow `id` at `pos` has been taken; `rest` stay.
abbrev pub after_take :
    DrrQueue → String → HeldReq → List HeldReq → ℕ → Option (Option HeldReq × DrrQueue)
after_take q id h [] d = taking q h (
    drop_flow q.pos
      (record q { flows = update q.flows id (some (record { reqs = []; deficit = d })) }))
after_take q id h (r ∷ rest) d = some (
  some h,
  record q {
    flows = update q.flows id (some (record { reqs = r ∷ rest; deficit = d }));
    pos = if ltb d 1 then suc q.pos else q.pos;
  },
)

abbrev pub take_oldest : DrrQueue → String → List HeldReq → ℕ → Option (Option HeldReq × DrrQueue)
take_oldest q id [] d = none
take_oldest q id (h ∷ rest) d = after_take (record q { n = q.n - 1 }) id h rest (spent d)

abbrev pub visit : DrrQueue → String → Option FlowQueue → Option (Option HeldReq × DrrQueue)
visit q id none = none
visit q id (some f) = take_oldest q id f.reqs f.deficit

abbrev pub visit_at : DrrQueue → Option String → Option (Option HeldReq × DrrQueue)
visit_at q none = none
visit_at q (some id) = visit q id (q.flows id)

unfoldable pub pop : DrrQueue → Option (Option HeldReq × DrrQueue)
unfolding drop_flow
pop q =
    if q.n == 0
    then some (none, q)
    else visit_at (record q { pos = wrapped q.pos q.ring })
        (get_elem? q.ring (wrapped q.pos q.ring))

abbrev pub consed : HeldReq → Option (List HeldReq) → Option (List HeldReq)
consed r none = none
consed r (some rs) = some (r ∷ rs)

-- The requests without the one that `id` points at; `none` when it is not among them.
unfoldable pub without_req : ℕ → List HeldReq → Option (List HeldReq)
without_req id [] = none
without_req id (r ∷ rs) =
    let rest = consed r (without_req id rs) in if r.id == id then some rs else rest

abbrev pub next_index : Option ℕ → Option ℕ
next_index none = none
next_index (some i) = some (suc i)

-- The loop that looks for a flow's place in the ring.
unfoldable pub index_of : String → List String → Option ℕ
index_of id [] = none
index_of id (x ∷ ring) =
    let rest = next_index (index_of id ring) in if x === id then some 0 else rest

abbrev pub drop_found : DrrQueue → Option ℕ → Option DrrQueue
drop_found q none = some q
drop_found q (some j) = drop_flow j q

abbrev pub removed : Option DrrQueue → Option (Bool × DrrQueue)
removed none = none
removed (some q) = some (true, q)

abbrev pub after_remove :
    DrrQueue → String → FlowQueue → Option (List HeldReq) → Option (Bool × DrrQueue)
after_remove q id f none = some (false, q)
after_remove q id f (some []) = removed (
    drop_found (record q { flows = update q.flows id (some (record f { reqs = [] })); n = q.n - 1 })
      (index_of id q.ring))
after_remove q id f (some (r ∷ rs)) =
    some (
      true,
      record q { flows = update q.flows id (some (record f { reqs = r ∷ rs })); n = q.n - 1 },
    )

abbrev pub remove_from : DrrQueue → HeldReq → Option FlowQueue → Option (Bool × DrrQueue)
remove_from q h none = some (false, q)
remove_from q h (some f) = after_remove q h.flow f (without_req h.id f.reqs)

unfoldable pub remove : DrrQueue → HeldReq → Option (Bool × DrrQueue)
unfolding drop_flow without_req index_of
remove q h = remove_from q h (q.flows h.flow)

abbrev pub larger : Option FlowQueue → Option FlowQueue → Option FlowQueue
larger none f = f
larger (some b) none = some b
larger (some b) (some f) = if ltb (length b.reqs) (length f.reqs) then some f else some b

-- A ring entry with no flow would be a nil dereference in Go; `Inv` excludes it.
unfoldable pub largest :
    (String → Option FlowQueue) → List String → Option FlowQueue → Option FlowQueue
largest flows [] best = best
largest flows (id ∷ ring) best = largest flows ring (larger best (flows id))

abbrev pub newest : List HeldReq → Option HeldReq
newest [] = none
newest (r ∷ []) = some r
newest (r ∷ s ∷ rs) = newest (s ∷ rs)

abbrev pub newest_in : Option FlowQueue → Option HeldReq
newest_in none = none
newest_in (some f) = newest f.reqs

unfoldable pub newest_of_largest : DrrQueue → Option HeldReq
unfolding largest
newest_of_largest q = newest_in (largest q.flows q.ring none)
