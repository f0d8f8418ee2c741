-- ===== src/Scheduler/Tests/Placing.antt =====
-- Concrete ports and nodes, on which the theorems about placement are applied (internal/scheduler).
use opod_core.Base.{
  ℕ, ◌<◌, ◌*◌, ◌≡◌, ◌⊎◌, refl, [], ◌∷◌, ◌++◌, List, none, some, String, ◌===◌, if◌then◌else◌,
  length, keep, stable_sort,
}
use opod_core.Store.Live.{Node, ns_per_second, why_no_new_work}
use opod_core.Scheduler.Ports.{Ports, take_range}
use opod_core.Scheduler.Ports.FirstFit.{FirstFree, Marked, take_range_lem}
use opod_core.Scheduler.Placement.{
  Hardware, these, too_few, picked, qualifies, ids_of, refusals, pick_workers, pick_workers_by_id,
  on_worker, pick_coordinator_host,
}
use opod_core.Scheduler.Placement.Choice.{
  Picks, Resolves, Tells, pick_workers_lem, pick_workers_by_id_lem, coordinator_on_first,
}

-- Two ports are taken on the node.
abbrev two_taken : Ports
two_taken node = if node === "w1" then 9001 ∷ 9004 ∷ [] else []

take_range_lem_example :
    (base : ℕ) × (a' : Ports) × (take_range "w1" 9000 1 two_taken ≡ some (base, a'))
    × FirstFree (two_taken "w1") 1 9000 base
    × Marked "w1" base 2 two_taken a'
take_range_lem_example = take_range_lem "w1" 9000 1 two_taken

abbrev node_of : String → String → Node
node_of id state = record {
  id = id;
  hostname = id;
  address = "10.0.0.9:8080";
  state = state;
  last_heartbeat = 90 * ns_per_second;
  engine_silent_since = none;
}

-- One ready worker has a card, one has none, and one is draining.
abbrev fleet : List Node
fleet = node_of "cpu" "ready" ∷ node_of "gpu" "ready" ∷ node_of "old" "draining" ∷ []

abbrev hardware : Hardware
hardware = record {
  cards = λ n. if n.id === "gpu" then some (24 ∷ 24 ∷ []) else none;
  ram_gb = λ n. if n.id === "cpu" then 512 else 64;
}

abbrev now : ℕ
now = 100 * ns_per_second

abbrev minute : ℕ
minute = 60 * ns_per_second

pick_workers_lem_example :
    ((length (keep (qualifies minute now) fleet) < 1)
      × (pick_workers hardware (some fleet) minute now 1
          ≡ too_few (ids_of (keep (qualifies minute now) fleet)) (refusals minute now fleet)))
    ⊎ ((ws : List Node) × (rest : List Node) × (pick_workers hardware (some fleet) minute now 1
          ≡ picked ws)
        × Picks hardware fleet minute now 1 ws rest)
pick_workers_lem_example = pick_workers_lem hardware fleet minute now 1

coordinator_on_first_example :
    pick_coordinator_host hardware "" "" (node_of "gpu" "ready" ∷ node_of "cpu" "ready" ∷ [])
    ≡ on_worker (node_of "gpu" "ready")
unfolding pick_workers why_no_new_work stable_sort
coordinator_on_first_example =
    coordinator_on_first hardware fleet minute now 2 (node_of "gpu" "ready")
      (node_of "cpu" "ready" ∷ []) refl

pick_workers_by_id_lem_example :
    ((ns : List Node) × (pick_workers_by_id (some fleet) minute now ("gpu" ∷ "old" ∷ []) ≡ these ns)
      × Resolves fleet minute now ("gpu" ∷ "old" ∷ []) ns)
    ⊎ ((pre : List String) × (id : String) × (post : List String) × (ns : List Node) × ("gpu"
            ∷ "old" ∷ []
          ≡ pre ++ id ∷ post)
        × Resolves fleet minute now pre ns
        × Tells fleet minute now id
            (pick_workers_by_id (some fleet) minute now ("gpu" ∷ "old" ∷ [])))
pick_workers_by_id_lem_example = pick_workers_by_id_lem fleet minute now ("gpu" ∷ "old" ∷ [])
