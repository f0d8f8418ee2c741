-- ===== src/Admission/Pool/Inv.antt =====
-- What the gate's counters count, at every moment the lock is free.
use opod_core.Base.{ℕ, ◌+◌, ◌≡◌, arith, length}
use opod_core.Admission.Classes.{Class, critical, standard, sheddable, at, put}
use opod_core.Admission.Flows.{HeldReq, DrrQueue}
use opod_core.Admission.Queues.Order.{Sound, AllSound, AllSound-put}
use opod_core.Admission.Pool.{Gate, of_class, grant_to}

-- `others` requests wait in the other pools.
pub record GateInv (others : ℕ) (s : Gate) : Type 0 where
  pub sound : AllSound s.pool.q
  pub held_critical : s.pool.held.of_critical ≡ s.pool.q.of_critical.n
  pub held_standard : s.pool.held.of_standard ≡ s.pool.q.of_standard.n
  pub held_sheddable : s.pool.held.of_sheddable ≡ s.pool.q.of_sheddable.n
  pub all_held :
      s.pool.all ≡ s.pool.held.of_critical + s.pool.held.of_standard + s.pool.held.of_sheddable
  pub total_held : s.held_total ≡ others + s.pool.all
  pub in_use_granted : s.pool.in_use ≡ length s.pool.grants
  pub critical_granted : s.pool.by_class.of_critical ≡ length (of_class critical s.pool.grants)
  pub standard_granted : s.pool.by_class.of_standard ≡ length (of_class standard s.pool.grants)
  pub sheddable_granted : s.pool.by_class.of_sheddable ≡ length (of_class sheddable s.pool.grants)

pub held_at :
    {others : ℕ} {s : Gate} → GateInv others s → (c : Class) → at s.pool.held c ≡ (at s.pool.q c).n
held_at v critical = v.held_critical
held_at v standard = v.held_standard
held_at v sheddable = v.held_sheddable

pub granted_at :
    {others : ℕ} {s : Gate}
    → GateInv others s
    → (c : Class) → at s.pool.by_class c ≡ length (of_class c s.pool.grants)
granted_at v critical = v.critical_granted
granted_at v standard = v.standard_granted
granted_at v sheddable = v.sheddable_granted

-- The counters after a slot was given to the request `h` that left `q'` behind.
pub grant_to-Inv :
    (others : ℕ) (s : Gate) (h : HeldReq) (q' : DrrQueue)
    → GateInv others s
    → Sound h.class q'
    → q'.n + 1 ≡ (at s.pool.q h.class).n
    → GateInv others (grant_to h (put s.pool.q h.class q') s)
unfolding grant_to
grant_to-Inv others s h q' v sound n = record {
  sound = AllSound-put s.pool.q h.class q' v.sound sound;
  held_critical = ground arith;
  held_standard = ground arith;
  held_sheddable = ground arith;
  all_held = ground arith;
  total_held = ground arith;
  in_use_granted = ground arith;
  critical_granted = ground arith;
  standard_granted = ground arith;
  sheddable_granted = ground arith;
}
