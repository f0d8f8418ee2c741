-- ===== src/Admission/Pool/Dispatch.antt =====
-- `dispatch` ends without a panic, leaves no slot idle that a waiting request may use, and loses
-- no request.
use opod_core.Base.{
  ℕ, zero, suc, ◌+◌, ◌-◌, ◌≤◌, ◌<◌, ◌≡◌, refl, inl, inr, Bool, Option, some, String, arith, ◌==◌,
  Bool-cases,
}
use opod_core.Admission.Classes.{Class, critical, standard, sheddable, at, put, Floats, ClassConfig}
use opod_core.Admission.Flows.{HeldReq, DrrQueue}
use opod_core.Admission.Queues.{ClassQueues}
use opod_core.Admission.Queues.Rank.{BlockedAll, Served, pop_eligible_lem}
use opod_core.Admission.Pool.{Gate, grant_to, can_grant, dispatch, dispatch_loop, dispatched}
use opod_core.Admission.Pool.Inv.{GateInv, grant_to-Inv}

all_grant_to :
    (h : HeldReq) (c : ClassQueues) (s : Gate) → (grant_to h c s).pool.all ≡ s.pool.all - 1
unfolding grant_to
all_grant_to h c s = refl

in_use_grant_to :
    (h : HeldReq) (c : ClassQueues) (s : Gate) → (grant_to h c s).pool.in_use ≡ suc s.pool.in_use
unfolding grant_to
in_use_grant_to h c s = refl

some_waits :
    {eligible : Class → Bool} {c : ClassQueues} {h : HeldReq} {q : DrrQueue}
    → Served eligible c h q
    → 0 < (at c h.class).n
some_waits e = omega (arith, e.one_less)

all_pos :
    (others : ℕ) (s : Gate) (c : Class) → GateInv others s → 0 < (at s.pool.q c).n → 0 < s.pool.all
all_pos others s critical v h = omega arith
all_pos others s standard v h = omega arith
all_pos others s sheddable v h = omega arith

all_zero :
    (others : ℕ) (s : Gate) (e : Class → Bool)
    → GateInv others s
    → s.pool.all ≡ 0
    → BlockedAll e s.pool.q
all_zero others s e v z = (inl (omega arith), inl (omega arith), inl (omega arith))

module _ (f : Floats) (cfg : ClassConfig f) (node : ℕ → String) (others : ℕ) where
  -- How `dispatch` ends: `P` holds, and every class is empty or may take no slot.
  abbrev pub Settled {κ} : (Gate → Type κ) → Option Gate → Type κ
  Settled P r =
      (s' : Gate) × (r ≡ some s')
      × GateInv others s'
      × P s'
      × BlockedAll (can_grant f cfg node s'.pool) s'.pool.q

  -- What each single grant keeps, the whole of `dispatch` keeps.
  abbrev pub Keeps {κ} : (Gate → Type κ) → Type κ
  Keeps P =
      (s : Gate) (h : HeldReq) (q : DrrQueue)
      → GateInv others s
      → Served (can_grant f cfg node s.pool) s.pool.q h q
      → P s
      → P (grant_to h (put s.pool.q h.class q) s)

  loop_settles {κ} :
      (P : Gate → Type κ)
      → Keeps P
      → (fuel : ℕ) (s : Gate) → s.pool.all ≤ fuel
      → GateInv others s
      → P s
      → Settled P (dispatch_loop f cfg node fuel s)
  unfolding dispatch_loop
  loop_settles P keeps zero s enough v p =
      (s, ground arith, v, p, all_zero others s (can_grant f cfg node s.pool) v (omega arith))
  loop_settles P keeps (suc fuel) s enough v p = elim (Bool-cases (s.pool.all == 0)) [
    | inl e ↦ (s, rw e refl, v, p, all_zero others s (can_grant f cfg node s.pool) v (ground arith))
    | inr e ↦ elim (pop_eligible_lem (can_grant f cfg node s.pool) s.pool.q v.sound) [
      | inl (blocked, ran) ↦ (s, rw e (rw (ran, dispatched) refl), v, p, blocked)
      | inr (h, q, ran, served) ↦
          let t = grant_to h (put s.pool.q h.class q) s in
          let less : t.pool.all ≤ fuel = omega (arith, all_grant_to h (put s.pool.q h.class q) s) in
          rw e (
            rw (ran, dispatched)
              (loop_settles P keeps fuel t less
                (grant_to-Inv others s h q v served.sound served.one_less)
                (keeps s h q v served p)))
    ]
  ]

  pub dispatch_settles {κ} :
      (P : Gate → Type κ)
      → Keeps P
      → (s : Gate) → GateInv others s
      → P s
      → Settled P (dispatch f cfg node s)
  unfolding dispatch
  dispatch_settles P keeps s v p = loop_settles P keeps s.pool.all s (omega arith) v p

  -- On every gate whose counters are right `dispatch` ends without a panic; the counters are right
  -- after it, no request is lost or made up, and every class that still waits may take no slot.
  pub dispatch_work_conserving :
      (s : Gate)
      → GateInv others s
      → (s' : Gate) × (dispatch f cfg node s ≡ some s')
        × GateInv others s'
        × (s'.pool.in_use + s'.pool.all ≡ s.pool.in_use + s.pool.all)
        × BlockedAll (can_grant f cfg node s'.pool) s'.pool.q
  dispatch_work_conserving s v =
      dispatch_settles (λ t. t.pool.in_use + t.pool.all ≡ s.pool.in_use + s.pool.all)
        (λ t h q w served e. omega (
          arith,
          all_grant_to h (put t.pool.q h.class q) t,
          in_use_grant_to h (put t.pool.q h.class q) t,
          all_pos others t h.class w (some_waits served),
          e,
        ))
        s v refl
