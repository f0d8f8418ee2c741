-- ===== src/Scheduler/Tests.antt =====
-- Concrete creates, on which the theorems about the scheduler are applied (internal/scheduler).
mod Placing
use opod_core.Base.{ℤ, arith, inl, inr, ◌≡◌, refl, true, false, [], ◌∷◌, some, ◌⊎◌, update}
use opod_core.Scheduler.GangId.{valid_gang_id, default_gang_id}
use opod_core.Scheduler.Shape.{Parallelism, Split, resolve, shard_count_for}
use opod_core.Scheduler.Shape.Fits.{Fits, resolve-Fits, resolve_complete}
use opod_core.Scheduler.Forms.{
  Guard, Holder, gang_of, held_by, claim, claimed, in_flight, release, no_creates, clashes, Apart,
  Reachable, at_start, by_claim, by_release, claim_lem, Reachable-Apart,
}
use opod_core.Scheduler.Forms.Begin.{
  begin_create, Create, Passes, forms, another_forms, bare_create_lets_in,
}

-- Two gangs of one model form at once; then the first is done.
abbrev g0_forms : Guard
g0_forms = update no_creates "llama" (("g0", gang_of "g0") ∷ [])

abbrev both_form : Guard
both_form = update g0_forms "llama" (("g1", gang_of "g1") ∷ ("g0", gang_of "g0") ∷ [])

both_form-Reachable : Reachable both_form
unfolding claim
both_form-Reachable =
    by_claim "llama" "g1" g0_forms both_form
      (by_claim "llama" "g0" no_creates g0_forms at_start refl) refl

Reachable-Apart_example : Apart (release "llama" "g0" both_form "llama")
Reachable-Apart_example =
    Reachable-Apart (release "llama" "g0" both_form)
      (by_release "llama" "g0" both_form both_form-Reachable) "llama"

claim_lem_example :
    ((clashes "" (both_form "llama") ≡ true)
      × (w : Holder) × (claim "llama" "" both_form ≡ in_flight w))
    ⊎ ((clashes "" (both_form "llama") ≡ false)
        × (claim "llama" "" both_form
            ≡ claimed (update both_form "llama" (("", held_by "") ∷ both_form "llama"))))
claim_lem_example = claim_lem "llama" "" both_form

g1-valid : valid_gang_id "g1" ≡ true
unfolding valid_gang_id
g1-valid = refl

-- A model that the catalog shards in two, without expert parallelism.
abbrev plain : Create
plain = record {
  required = true;
  default_shards = ℤ.pos 2;
  shard_count = ℤ.pos 0;
  named_nodes = 0;
  expert_ok = λ n. true;
  pipeline_ok = λ n. true;
}

plain-Passes : Passes plain
unfolding shard_count_for
plain-Passes = (2, refl, refl, refl, refl)

bare_create_lets_in_example :
    (g' : Guard) × (begin_create plain "llama" "" no_creates ≡ forms g')
    × ((("g1" ≡ default_gang_id)
          × (w : Holder) × (begin_create plain "llama" "g1" g' ≡ another_forms w))
        ⊎ ((¬ ("g1" ≡ default_gang_id))
            × (g'' : Guard) × (begin_create plain "llama" "g1" g' ≡ forms g'')))
bare_create_lets_in_example =
    bare_create_lets_in plain plain "llama" "g1" no_creates plain-Passes plain-Passes refl g1-valid

-- Three parts of two GPUs each; the plan gives the tensor size alone.
abbrev wide : Parallelism
wide = record { tp = ℤ.pos 2; pp = ℤ.negsuc 0; devices_per_rank = ℤ.pos 2 }

abbrev two_by_three : Split
two_by_three = record { tp = 2; pp = 3; devices = 2 }

wide-resolve : resolve wide 3 ≡ some two_by_three
unfolding resolve
wide-resolve = refl

resolve-Fits_example : Fits wide 3 two_by_three
resolve-Fits_example = resolve-Fits wide 3 two_by_three (omega arith) (omega arith) wide-resolve

two_by_three-Fits : Fits wide 3 two_by_three
two_by_three-Fits = record {
  devices = refl;
  whole = refl;
  inside = refl;
  keeps_tp = inr refl;
  keeps_pp = inl refl;
  default = inl (omega arith);
}

resolve_complete_example : resolve wide 3 ≡ some two_by_three
resolve_complete_example = resolve_complete wide 3 two_by_three (omega arith) two_by_three-Fits
