-- ===== src/Admission/Queues/Order.antt =====
-- The class queues keep each request in the queue of its class, and serve them by rank.
use opod_core.Base.{
  ℕ, suc, ◌+◌, ◌<◌, ◌≡◌, inl, inr, ap, ◌∙◌, true, List, [], ◌∷◌, ◌++◌, some, if◌then◌else◌, ◌==◌,
  ◌===◌, String, All, arith, Bool-cases, contains, eq_iff,
}
use opod_core.Admission.Classes.{Class, critical, standard, sheddable, at, put}
use opod_core.Admission.Flows.{HeldReq, FlowQueue, DrrQueue, without_req, consed, newest}
use opod_core.Admission.Flows
use opod_core.Admission.Flows.Inv.{Flows, Line, line, line_of, Inv}
use opod_core.Admission.Flows.Pop.{pop_serves}
use opod_core.Admission.Flows.Visit.{serve_head}
use opod_core.Admission.Flows.Push.{join_line, push-refines}
use opod_core.Admission.Flows.Remove.{remove-refines}
use opod_core.Admission.Flows.Found.{drop_req, has_req, leave_line, entry_left, waits}
use opod_core.Admission.Flows.Order.{order}
use opod_core.Admission.Flows.Shed.{newest_of_largest_lem}
use opod_core.Admission.Queues.{ClassQueues}

-- Every request of a line is of the class.
abbrev pub OfClass : Class → Line → Type 0
OfClass c [] = Unit {0}
OfClass c ((id, rs) ∷ l) = All (λ r. r.class ≡ c) rs × OfClass c l

OfClass-append : (c : Class) (k l : Line) → OfClass c k → OfClass c l → OfClass c (k ++ l)
OfClass-append c [] l a b = b
OfClass-append c ((id, rs) ∷ k) l a b = (a.0, OfClass-append c k l a.1 b)

OfClass-serve :
    (c : Class) (l : Line) (h : HeldReq)
    → OfClass c l
    → (serve_head l).0 ≡ some h
    → (h.class ≡ c) × OfClass c (serve_head l).1
OfClass-serve c [] h o e = cc
OfClass-serve c ((id, []) ∷ l) h o e = cc
OfClass-serve c ((id, r ∷ []) ∷ l) h o e = (ground (arith, o.0.0), o.1)
OfClass-serve c ((id, r ∷ s ∷ rs) ∷ l) h o e =
    (ground (arith, o.0.0), OfClass-append c l ((id, s ∷ rs) ∷ []) o.1 (o.0.1, tt))

All-class-snoc :
    (c : Class) (rs : List HeldReq) (h : HeldReq)
    → All (λ r. r.class ≡ c) rs
    → h.class ≡ c
    → All (λ r. r.class ≡ c) (rs ++ h ∷ [])
All-class-snoc c [] h a e = (e, tt)
All-class-snoc c (r ∷ rs) h a e = (a.0, All-class-snoc c rs h a.1 e)

OfClass-join :
    (c : Class) (h : HeldReq) (l : Line) → OfClass c l → h.class ≡ c → OfClass c (join_line h l)
OfClass-join c h [] o e = ((e, tt), tt)
OfClass-join c h ((id, rs) ∷ l) o e = elim (Bool-cases (id === h.flow)) [
  | inl same ↦ rw same (All-class-snoc c rs h o.0 e, o.1)
  | inr other ↦ rw other (o.0, OfClass-join c h l o.1 e)
]

All-class-drop :
    (c : Class) (id : ℕ) (rs : List HeldReq)
    → All (λ r. r.class ≡ c) rs
    → All (λ r. r.class ≡ c) (drop_req id rs)
All-class-drop c id [] a = tt
All-class-drop c id (r ∷ rs) a = elim (Bool-cases (r.id == id)) [
  | inl hit ↦ rw hit (a.1)
  | inr miss ↦ rw miss (a.0, All-class-drop c id rs a.1)
]

OfClass-leave : (c : Class) (h : HeldReq) (l : Line) → OfClass c l → OfClass c (leave_line h l)
OfClass-leave c h [] o = tt
OfClass-leave c h ((id, rs) ∷ l) o = elim (Bool-cases (id === h.flow)) [
  | inl same ↦ elim (Bool-cases (has_req h.id rs)) [
    | inl here ↦ rw (same, here) (entry (drop_req h.id rs) (All-class-drop c h.id rs o.0))
    | inr gone ↦ rw (same, gone) o
  ]
  | inr other ↦ rw other (o.0, OfClass-leave c h l o.1)
]
  where
    entry : (w : List HeldReq) → All (λ r. r.class ≡ c) w → OfClass c (entry_left id w l)
    entry [] m = o.1
    entry (s ∷ ss) m = (m, o.1)

-- A queue of the class, well formed.
pub record Sound (c : Class) (q : DrrQueue) : Type 0 where
  pub inv : Inv q
  pub own : OfClass c (line_of q)

pub record AllSound (c : ClassQueues) : Type 0 where
  pub critical_ok : Sound critical c.of_critical
  pub standard_ok : Sound standard c.of_standard
  pub sheddable_ok : Sound sheddable c.of_sheddable

abbrev pub sound_at : (c : ClassQueues) → AllSound c → (i : Class) → Sound i (at c i)
sound_at c s critical = s.critical_ok
sound_at c s standard = s.standard_ok
sound_at c s sheddable = s.sheddable_ok

pub AllSound-put :
    (c : ClassQueues) (i : Class) (q : DrrQueue) → AllSound c → Sound i q → AllSound (put c i q)
AllSound-put c critical q s t = record {
  critical_ok = t;
  standard_ok = s.standard_ok;
  sheddable_ok = s.sheddable_ok;
}
AllSound-put c standard q s t = record {
  critical_ok = s.critical_ok;
  standard_ok = t;
  sheddable_ok = s.sheddable_ok;
}
AllSound-put c sheddable q s t = record {
  critical_ok = s.critical_ok;
  standard_ok = s.standard_ok;
  sheddable_ok = t;
}

pub push_sound :
    (c : Class) (q : DrrQueue) (h : HeldReq)
    → Sound c q
    → h.class ≡ c
    → Sound c (Flows.push q h) × ((Flows.push q h).n ≡ suc q.n)
push_sound c q h s e =
    let (v, n, l) = push-refines q h s.inv in
    (record { inv = v; own = rw l (OfClass-join c h (line_of q) s.own e) }, n)

pub pop_sound :
    (c : Class) (q : DrrQueue)
    → Sound c q
    → 0 < q.n
    → (h : HeldReq) × (q' : DrrQueue) × (Flows.pop q ≡ some (some h, q'))
      × Sound c q'
      × (h.class ≡ c)
      × (q'.n + 1 ≡ q.n)
      × ((serve_head (line_of q)).0 ≡ some h)
      × (line_of q' ≡ (serve_head (line_of q)).1)
pop_sound c q s pos =
    let (h, first, popped) = pop_serves q s.inv pos in
    let (q', ran, v, n, l) = popped in
    let (own, rest) = OfClass-serve c (line_of q) h s.own first in
    (h, q', ran, record { inv = v; own = rw l rest }, own, n, first, l)

pub remove_sound_line :
    (c : Class) (q : DrrQueue) (h : HeldReq)
    → Sound c q
    → (q' : DrrQueue) × (Flows.remove q h ≡ some (waits h (line_of q), q'))
      × Sound c q'
      × (q'.n + (if waits h (line_of q) then 1 else 0) ≡ q.n)
      × (line_of q' ≡ leave_line h (line_of q))
remove_sound_line c q h s =
    let (q', ran, v, n, l) = remove-refines q h s.inv in
    (q', ran, record { inv = v; own = rw l (OfClass-leave c h (line_of q) s.own) }, n, l)

pub remove_sound :
    (c : Class) (q : DrrQueue) (h : HeldReq)
    → Sound c q
    → (q' : DrrQueue) × (Flows.remove q h ≡ some (waits h (line_of q), q'))
      × Sound c q'
      × (q'.n + (if waits h (line_of q) then 1 else 0) ≡ q.n)
remove_sound c q h s = let (q', ran, v, n, l) = remove_sound_line c q h s in (q', ran, v, n)

OfClass-at :
    (c : Class) (flows : Flows) (id : String) (f : FlowQueue) (ids : List String)
    → OfClass c (line flows ids)
    → flows id ≡ some f
    → contains ids id ≡ true
    → All (λ r. r.class ≡ c) f.reqs
OfClass-at c flows id f [] o here e = cc
OfClass-at c flows id f (x ∷ ids) o here e = elim (Bool-cases (x === id)) [
  | inl same ↦
      let at_x : flows x ≡ some f = ap flows ((eq_iff x id).0 same) ∙ here in rw at_x at o.0
  | inr other ↦ OfClass-at c flows id f ids o.1 here (ground arith)
]

newest-class :
    (c : Class) (rs : List HeldReq) (v : HeldReq)
    → All (λ r. r.class ≡ c) rs
    → newest rs ≡ some v
    → v.class ≡ c
newest-class c [] v a e = cc
newest-class c (r ∷ []) v a e = ground (arith, a.0)
newest-class c (r ∷ s ∷ rs) v a e = newest-class c (s ∷ rs) v a.1 e

-- A queue with requests gives one of its own to shed.
pub newest_sound :
    (c : Class) (q : DrrQueue)
    → Sound c q
    → 0 < q.n
    → (v : HeldReq) × (Flows.newest_of_largest q ≡ some v)
      × (waits v (line_of q) ≡ true)
      × (v.class ≡ c)
newest_sound c q s pos =
    let (v, f, ran, found, here, last, most) = newest_of_largest_lem q s.inv pos in
    let inside : contains (order q.pos q.ring) v.flow ≡ true =
      ground (arith, s.inv.holds.only v.flow) in
    (
      v,
      ran,
      found,
      newest-class c f.reqs v (OfClass-at c q.flows v.flow f (order q.pos q.ring) s.own here inside)
          last,
    )
