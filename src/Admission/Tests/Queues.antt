-- ===== src/Admission/Tests/Queues.antt =====
-- Concrete queues, on which the theorems about them are applied (internal/leader/admission_classes.go).
use opod_core.Base.{suc, ◌<◌, ◌≡◌, ◌⊎◌, refl, Bool, true, [], ◌∷◌, Option, none, some, arith}
use opod_core.Admission.Classes.{Class, critical, sheddable, put}
use opod_core.Admission.Flows.{HeldReq, DrrQueue, empty_queue, push, pop}
use opod_core.Admission.Flows.Inv.{Inv, empty-Inv, line_of}
use opod_core.Admission.Flows.Pop.{pop-refines}
use opod_core.Admission.Flows.Visit.{serve_head}
use opod_core.Admission.Flows.Push.{join_line, push-refines}
use opod_core.Admission.Flows.Remove.{Removed, remove-refines}
use opod_core.Admission.Flows.Turn.{arrive, serve, run, served_in_turn}
use opod_core.Admission.Queues.{ClassQueues, pop_eligible}
use opod_core.Admission.Queues.Order.{AllSound, push_sound}
use opod_core.Admission.Queues.Rank.{BlockedAll, Served, pop_eligible_lem}

abbrev pub batch_req : HeldReq
batch_req = record { id = 8; class = sheddable; flow = "batch" }

abbrev pub second_batch_req : HeldReq
second_batch_req = record { id = 9; class = sheddable; flow = "batch" }

abbrev pub nightly_req : HeldReq
nightly_req = record { id = 10; class = sheddable; flow = "nightly" }

abbrev pub chat_req : HeldReq
chat_req = record { id = 11; class = critical; flow = "chat" }

abbrev pub two_flows : DrrQueue
two_flows = push (push (push empty_queue batch_req) second_batch_req) nightly_req

pub two_flows-Inv : Inv two_flows
two_flows-Inv =
    (push-refines (push (push empty_queue batch_req) second_batch_req) nightly_req
      (push-refines (push empty_queue batch_req) second_batch_req
        (push-refines empty_queue batch_req empty-Inv).0).0).0

pub two_flows-n : two_flows.n ≡ 3
unfolding push
two_flows-n = refl

push-refines_example :
    Inv (push two_flows chat_req)
    × ((push two_flows chat_req).n ≡ suc two_flows.n)
    × (line_of (push two_flows chat_req) ≡ join_line chat_req (line_of two_flows))
push-refines_example = push-refines two_flows chat_req two_flows-Inv

pop-refines_example :
    (r : Option HeldReq) × (q' : DrrQueue) × (pop two_flows ≡ some (r, q'))
    × Inv q'
    × (serve_head (line_of two_flows) ≡ (r, line_of q'))
pop-refines_example = pop-refines two_flows two_flows-Inv

remove-refines_example : Removed two_flows second_batch_req
remove-refines_example = remove-refines two_flows second_batch_req two_flows-Inv

pub two_flows-positive : 0 < two_flows.n
two_flows-positive = omega (arith, two_flows-n)

pub two_flows-line :
    line_of two_flows
    ≡ ("batch", batch_req ∷ second_batch_req ∷ []) ∷ ("nightly", nightly_req ∷ []) ∷ []
unfolding push
two_flows-line = refl

served_in_turn_example :
    (q' : DrrQueue) × (q'' : DrrQueue) × (run
        (arrive chat_req ∷ serve ∷ arrive batch_req ∷ [])
        two_flows
      ≡ some q')
    × (pop q' ≡ some (some nightly_req, q''))
served_in_turn_example =
    served_in_turn (arrive chat_req ∷ serve ∷ arrive batch_req ∷ []) two_flows 1 "nightly"
      nightly_req two_flows-Inv
      (("batch", batch_req ∷ second_batch_req ∷ []) ∷ [], [], [], two_flows-line, refl) refl

abbrev pub sheddable_only : ClassQueues
sheddable_only = record {
  of_critical = empty_queue;
  of_standard = empty_queue;
  of_sheddable = two_flows;
}

pub sheddable_only-AllSound : AllSound sheddable_only
sheddable_only-AllSound = record {
  critical_ok = record { inv = empty-Inv; own = tt };
  standard_ok = record { inv = empty-Inv; own = tt };
  sheddable_ok =
      (push_sound sheddable (push (push empty_queue batch_req) second_batch_req) nightly_req
        (push_sound sheddable (push empty_queue batch_req) second_batch_req
          (push_sound sheddable empty_queue batch_req (record { inv = empty-Inv; own = tt }) refl).0
          refl).0
        refl).0;
}

abbrev pub yes : Class → Bool
yes c = true

pop_eligible_lem_example :
    (BlockedAll yes sheddable_only
      × (pop_eligible yes sheddable_only ≡ some (none, sheddable_only)))
    ⊎ ((h : HeldReq) × (q' : DrrQueue) × (pop_eligible yes sheddable_only
          ≡ some (some h, put sheddable_only h.class q'))
        × Served yes sheddable_only h q')
pop_eligible_lem_example = pop_eligible_lem yes sheddable_only sheddable_only-AllSound
