-- ===== src/Admission/Gate/Counts.antt =====
-- The counters after a request was queued, shed or withdrawn.
use opod_core.Base.{ℕ, ◌+◌, ◌-◌, ◌≡◌, refl, true, some, String, arith, mark}
use opod_core.Admission.Classes.{Class, critical, standard, sheddable, at, put, at-put_self}
use opod_core.Admission.Flows.{HeldReq, DrrQueue}
use opod_core.Admission.Flows.Inv.{line_of}
use opod_core.Admission.Flows.Found.{waits, leave_line}
use opod_core.Admission.Queues.{ClassQueues}
use opod_core.Admission.Queues
use opod_core.Admission.Queues.Order.{
  Sound, AllSound-put, sound_at, push_sound, remove_sound, remove_sound_line,
}
use opod_core.Admission.Pool.{Gate, Status, idle, shed_for, uncount, shed, with_status, with_queues}
use opod_core.Admission.Pool.Inv.{GateInv}
use opod_core.Admission.Gate.{wait_in, withdraw, is_queued}

-- A request of the class leaves the queue `q'` behind.
uncount-Inv :
    (others : ℕ) (s : Gate) (h : HeldReq) (st : Status) (q' : DrrQueue)
    → GateInv others s
    → Sound h.class q'
    → q'.n + 1 ≡ (at s.pool.q h.class).n
    → GateInv others (uncount h (with_status h.id st (with_queues (put s.pool.q h.class q') s)))
unfolding uncount
uncount-Inv others s h st q' v sound n = record {
  sound = AllSound-put s.pool.q h.class q' v.sound sound;
  held_critical = ground arith;
  held_standard = ground arith;
  held_sheddable = ground arith;
  all_held = ground arith;
  total_held = ground arith;
  in_use_granted = v.in_use_granted;
  critical_granted = v.critical_granted;
  standard_granted = v.standard_granted;
  sheddable_granted = v.sheddable_granted;
}

-- `t` differs from `s` in who waits only: capacity and grants are those of `s`.
abbrev pub SameUse : Gate → Gate → Type 0
SameUse s t = t.pool ≡ record (s.pool) { q = t.pool.q; held = t.pool.held; all = t.pool.all }

-- How the counters of `t` differ from those of `s` when one request of the class has left.
pub record OneLess (s t : Gate) (c : Class) : Type 0 where
  pub held_less : t.pool.held ≡ put s.pool.held c (at s.pool.held c - 1)
  pub all_less : t.pool.all + 1 ≡ s.pool.all
  pub same_slots_use : SameUse s t

at_least_one :
    (others : ℕ) (s : Gate) (c : Class) (n : ℕ)
    → GateInv others s
    → n + 1 ≡ (at s.pool.q c).n
    → (s.pool.all - 1) + 1 ≡ s.pool.all
at_least_one others s critical n v e = omega arith
at_least_one others s standard n v e = omega arith
at_least_one others s sheddable n v e = omega arith

-- A request that waits can be shed.
pub shed_lem :
    (others : ℕ) (s : Gate) (h : HeldReq) (why reason : String)
    → GateInv others s
    → waits h (line_of (at s.pool.q h.class)) ≡ true
    → (t : Gate) × (shed h why reason s ≡ some t) × GateInv others t × OneLess s t h.class
unfolding shed uncount Queues.remove
shed_lem others s h why reason v w =
    let (q', ran, sound, n) =
      remove_sound h.class (at s.pool.q h.class) h (sound_at s.pool.q v.sound h.class) in
    let n' : q'.n + 1 ≡ (at s.pool.q h.class).n = rw w at n in
    (
      uncount h (with_status h.id (shed_for why reason) (with_queues (put s.pool.q h.class q') s)),
      rw ran refl,
      uncount-Inv others s h (shed_for why reason) q' v sound n',
      record {
        held_less = refl;
        all_less = at_least_one others s h.class q'.n v n';
        same_slots_use = refl;
      },
    )

-- The request has left its line, which is else as it was, and its flag is cleared.
pub record Left (s t : Gate) (h : HeldReq) : Type 0 where
  pub cleared : t.status h.id ≡ idle
  pub line_less : line_of (at t.pool.q h.class) ≡ leave_line h (line_of (at s.pool.q h.class))

-- A request that waits can be withdrawn; one that no longer does is left to the gate.
pub withdraw_lem :
    (others : ℕ) (s : Gate) (h : HeldReq)
    → GateInv others s
    → waits h (line_of (at s.pool.q h.class)) ≡ true
    → is_queued (s.status h.id) ≡ true
    → (t : Gate) × (withdraw h s ≡ some (true, t))
      × GateInv others t
      × OneLess s t h.class
      × Left s t h
unfolding withdraw uncount Queues.remove
withdraw_lem others s h v w queued_now =
    let (q', ran, sound, n, l) =
      remove_sound_line h.class (at s.pool.q h.class) h (sound_at s.pool.q v.sound h.class) in
    let n' : q'.n + 1 ≡ (at s.pool.q h.class).n = rw w at n in
    (
      uncount h (with_status h.id idle (with_queues (put s.pool.q h.class q') s)),
      rw (queued_now, ran) refl,
      uncount-Inv others s h idle q' v sound n',
      record {
        held_less = refl;
        all_less = at_least_one others s h.class q'.n v n';
        same_slots_use = refl;
      },
      record { cleared = own_id h.id; line_less = rw (at-put_self s.pool.q h.class q') l },
    )
  where
    own_id : (i : ℕ) → mark s.status i idle i ≡ idle
    own_id i = ground arith

pub wait_in-Inv :
    (others : ℕ) (s : Gate) (h : HeldReq) → GateInv others s → GateInv others (wait_in h s)
unfolding wait_in Queues.push
wait_in-Inv others s h v =
    let (sound, n) =
      push_sound h.class (at s.pool.q h.class) h (sound_at s.pool.q v.sound h.class) refl in
    record {
      sound = AllSound-put s.pool.q h.class _ v.sound sound;
      held_critical = ground arith;
      held_standard = ground arith;
      held_sheddable = ground arith;
      all_held = ground arith;
      total_held = ground arith;
      in_use_granted = v.in_use_granted;
      critical_granted = v.critical_granted;
      standard_granted = v.standard_granted;
      sheddable_granted = v.sheddable_granted;
    }
