-- ===== src/Admission/Tests.antt =====
-- Concrete queues, gates and requests, on which the theorems about the admission gate
-- (internal/leader/admission.go, admission_classes.go) are applied.
mod Queues
use opod_core.Base.{
  ℕ, zero, suc, ◌+◌, ◌*◌, ◌/◌, ◌≤◌, ◌<◌, ◌≡◌, ◌⊎◌, refl, Bool, true, false, ◌&&◌, [], ◌∷◌, Option,
  none, some, arith, max, ℤ, ltb, leb, length, String, if◌then◌else◌, inl, List, max, ℤ,
}
use opod_core.Admission.Classes.{
  Class, critical, standard, sheddable, at, put, every, Floats, ClassConfig, share_cap, Policy,
  sheddable_name, new_class_config,
}
use opod_core.Admission.Classes.Laws.{SharesOut, share_cap-SharesOut}
use opod_core.Admission.Flows.{
  HeldReq, DrrQueue, FlowQueue, empty_queue, push, without_req, pop, newest_of_largest, newest,
}
use opod_core.Admission.Flows.Inv.{Inv, empty-Inv, line_of, reqs_of}
use opod_core.Admission.Flows.Pop.{pop-refines}
use opod_core.Admission.Flows.Visit.{serve_head}
use opod_core.Admission.Flows.Push.{join_line, push-refines}
use opod_core.Admission.Flows.Remove.{Removed, remove-refines}
use opod_core.Admission.Flows.Found.{waits}
use opod_core.Admission.Flows.Shed.{NoMore, newest_of_largest_lem}
use opod_core.Admission.Flows.Turn.{arrive, serve, run, served_in_turn}
use opod_core.Admission.Queues.{ClassQueues, pop_eligible}
use opod_core.Admission.Queues.Order.{AllSound, push_sound}
use opod_core.Admission.Queues.Rank.{BlockedAll, Served, pop_eligible_lem}
use opod_core.Admission.Pool.{CapView, Gate, idle, queued, can_grant, dispatch}
use opod_core.Admission.Pool.Inv.{GateInv}
use opod_core.Admission.Pool.Dispatch.{dispatch_work_conserving}
use opod_core.Admission.Pool.Capacity.{Within, dispatch-Within}
use opod_core.Admission.Gate.{Answer, admit, enqueue, release, set_cap}
use opod_core.Admission.Gate.Enqueue.{Capped}
use opod_core.Admission.Gate.Caps.{Enqueued, enqueue-Capped}
use opod_core.Admission.Gate.Safe.{Safe, release-Safe, admit-Safe}
use opod_core.Admission.Gate.Capacity.{Installed, set_cap_settles}
use opod_core.Admission.Wait.{by_deadline}
use opod_core.Admission.Wait.Ends.{FlagTrue, Resumes, resume-Resumes}
use opod_core.Admission.Tests.Queues.{
  batch_req, second_batch_req, nightly_req, chat_req, two_flows, two_flows-Inv, two_flows-n,
  two_flows-positive, two_flows-line, sheddable_only, sheddable_only-AllSound, yes,
}

four_times : (s n : ℕ) → s ≤ 4 → s * n ≤ 4 * n
four_times zero n h = omega arith
four_times (suc zero) n h = omega arith
four_times (suc (suc zero)) n h = omega arith
four_times (suc (suc (suc zero))) n h = omega arith
four_times (suc (suc (suc (suc zero)))) n h = omega arith
four_times (suc (suc (suc (suc (suc s))))) n h = absurd (omega arith)

quarters_le : (s n : ℕ) → (ltb 0 s && leb s 4) ≡ true → s * n / 4 ≤ n
quarters_le s n h = omega (arith, four_times s n (ground arith))

-- Shares in quarters.
abbrev quarters : Floats
quarters = record {
  Share = ℕ;
  one = 4;
  quarter = 1;
  in_unit = λ s. ltb 0 s && leb s 4;
  floor_mul = λ s n. s * n / 4;
  one-in_unit = refl;
  quarter-in_unit = refl;
  floor_mul-one = λ n small. omega arith;
  floor_mul-quarter = λ n small. omega arith;
  floor_mul-le = λ s n small h. quarters_le s n h;
}

abbrev sheddable_tail : List ℕ
sheddable_tail = b'h' ∷ b'e' ∷ b'd' ∷ b'd' ∷ b'a' ∷ b'b' ∷ b'l' ∷ b'e' ∷ []

abbrev one_slot : ClassConfig quarters
one_slot = record {
  classed = true;
  hold_ms = every 0;
  max_held = every 0;
  max_share = record { of_critical = 4; of_standard = 4; of_sheddable = 1 };
  total = 3;
}

abbrev half_policy : Policy quarters
half_policy = record {
  hold_ms = ℤ.pos 500;
  max_held = ℤ.negsuc 0;
  classes =
      record { name = sheddable_name; hold_ms = ℤ.pos 0; max_held = ℤ.pos 8; max_share = 2 } ∷ [];
}

share_cap-SharesOut_example :
    SharesOut quarters half_policy.classes sheddable 6
      (share_cap quarters (new_class_config quarters half_policy) sheddable 6)
share_cap-SharesOut_example = share_cap-SharesOut quarters half_policy sheddable 6 (omega arith)

-- Every granted request is in flight on the pool's one worker.
abbrev on_worker : ℕ → String
on_worker id = "w1"

-- One request holds the only slot, three sheddable ones wait.
abbrev busy_gate : Gate
busy_gate = record {
  pool = record {
    model = "m";
    cap = record {
      slots = 1;
      ungoverned = 0;
      kv_bound = false;
      reason = "";
      gen = 1;
      holders = some (λ node. true);
    };
    in_use = 1;
    by_class = record { of_critical = 0; of_standard = 1; of_sheddable = 0 };
    grants = record { id = 7; class = standard } ∷ [];
    q = sheddable_only;
    held = record { of_critical = 0; of_standard = 0; of_sheddable = 3 };
    all = 3;
  };
  held_total = 5;
  status = λ id. if leb 8 id && leb id 10 then queued else idle;
}

busy_gate-GateInv : GateInv 2 busy_gate
unfolding push
busy_gate-GateInv = record {
  sound = sheddable_only-AllSound;
  held_critical = refl;
  held_standard = refl;
  held_sheddable = refl;
  all_held = refl;
  total_held = refl;
  in_use_granted = refl;
  critical_granted = refl;
  standard_granted = refl;
  sheddable_granted = refl;
}

busy_gate-Capped : Capped quarters one_slot busy_gate
busy_gate-Capped = record { in_total = omega arith; in_class = λ c. inl (uncapped c) }
  where
    uncapped : (c : Class) → at one_slot.max_held c ≡ 0
    uncapped critical = refl
    uncapped standard = refl
    uncapped sheddable = refl

busy_gate-Within : Within quarters one_slot on_worker 1 busy_gate
unfolding share_cap
busy_gate-Within = record {
  is_bounded = refl;
  same_slots = refl;
  fits = omega arith;
  critical_fits = omega arith;
  standard_fits = omega arith;
  sheddable_fits = omega arith;
}

busy_gate-Safe : Safe quarters one_slot on_worker 2 1 busy_gate
busy_gate-Safe = record {
  inv = busy_gate-GateInv;
  capped = busy_gate-Capped;
  within = busy_gate-Within;
}

dispatch_work_conserving_example :
    (s' : Gate) × (dispatch quarters one_slot on_worker busy_gate ≡ some s')
    × GateInv 2 s'
    × (s'.pool.in_use + s'.pool.all ≡ busy_gate.pool.in_use + busy_gate.pool.all)
    × BlockedAll (can_grant quarters one_slot on_worker s'.pool) s'.pool.q
dispatch_work_conserving_example =
    dispatch_work_conserving quarters one_slot on_worker 2 busy_gate busy_gate-GateInv

dispatch-Within_example :
    (s' : Gate) × (dispatch quarters one_slot on_worker busy_gate ≡ some s')
    × Within quarters one_slot on_worker 1 s'
dispatch-Within_example =
    dispatch-Within quarters one_slot on_worker 2 1 busy_gate busy_gate-GateInv busy_gate-Within

-- The hold is full of sheddable requests when a critical one arrives.
enqueue-Capped_example :
    (accepted : Bool) × (s' : Gate) × (enqueue quarters one_slot chat_req busy_gate
      ≡ some (accepted, s'))
    × Enqueued quarters one_slot 2 chat_req busy_gate accepted s'
enqueue-Capped_example =
    enqueue-Capped quarters one_slot 2 chat_req busy_gate busy_gate-GateInv busy_gate-Capped
      (omega arith)

release-Safe_example :
    (t : Gate) × (release quarters one_slot on_worker
        (record { id = 7; class = standard })
        false
        busy_gate
      ≡ some t)
    × Safe quarters one_slot on_worker 2 1 t
release-Safe_example =
    release-Safe quarters one_slot on_worker 2 1 (record { id = 7; class = standard }) false
      busy_gate busy_gate-Safe

admit-Safe_example :
    (a : Answer) × (t : Gate) × (admit quarters one_slot on_worker chat_req busy_gate.pool.cap
        5000000 busy_gate
      ≡ some (a, t))
    × Safe quarters one_slot on_worker 2 1 t
admit-Safe_example =
    admit-Safe quarters one_slot on_worker 2 1 chat_req busy_gate.pool.cap 5000000 busy_gate
      (omega arith) busy_gate-Safe

batch_req-FlagTrue : FlagTrue second_batch_req busy_gate
unfolding push
batch_req-FlagTrue = record { queued_waits = refl; granted_holds = refl }

resume-Resumes_example :
    Resumes quarters one_slot on_worker 2 1 second_batch_req by_deadline busy_gate
resume-Resumes_example =
    resume-Resumes quarters one_slot on_worker 2 1 second_batch_req by_deadline busy_gate
      busy_gate-Safe batch_req-FlagTrue

-- The worker is gone.
abbrev no_worker : CapView
no_worker = record {
  slots = 0;
  ungoverned = 0;
  kv_bound = false;
  reason = "no worker";
  gen = 2;
  holders = some (λ node. false);
}

set_cap_settles_example :
    (t : Gate) × (set_cap quarters one_slot on_worker no_worker busy_gate ≡ some t)
    × GateInv 2 t
    × Installed quarters one_slot on_worker 2 no_worker t
    × BlockedAll (can_grant quarters one_slot on_worker t.pool) t.pool.q
set_cap_settles_example =
    set_cap_settles quarters one_slot on_worker 2 no_worker busy_gate busy_gate-GateInv refl
