-- ===== src/Router/Tests/Pick.antt =====
-- Two workers of one model, on which the theorems about a pick are applied (internal/router).
use opod_core.Base.{
  ℕ, ◌<◌, ◌+◌, ◌-◌, ◌≡◌, ◌⊎◌, true, false, [], ◌∷◌, List, none, some, ◌===◌, if◌then◌else◌, ltb,
  leb, length, keep, arith,
}
use opod_core.Router.Candidates.{
  Placement, new_pick_state, RevisionWeight, live_weights, total_weight, choose_revision,
  pick_revision_group,
}
use opod_core.Router.Candidates.Revisions.{
  FallsTo, Joins, choose_revision-shares, pick_revision_group-Joins,
}
use opod_core.Router.Gangs.{Part, Gang, shard_coordinator}
use opod_core.Router.Gangs.Turns.{HasTurn, serving, shard_coordinator-HasTurn}
use opod_core.Router.Pick.{Scores, View, Memory, taking_requests, in_order, pick}
use opod_core.Router.Pick.Filter.{accepts, cools, or_these, taking_requests-refines}
use opod_core.Router.Pick.Fit.{Ends, pick-Ends}
use opod_core.Router.Pick.Free.{FullOnlyIfAll, in_order-FullOnlyIfAll}

abbrev pub whole_scores : Scores
whole_scores = record {
  Score = ℕ;
  less = ltb;
  order = record { asym = λ a b e. ground arith; trans = λ a b c e h. ground arith };
  of_count = λ n. n;
  plus = λ a b. a + b;
  minus = λ a b. a - b;
  kv_weighted = true;
  kv_cost = λ kv. kv;
  saturates = λ kv. leb 90 kv;
}

abbrev w1 : Placement
w1 = record { node_id = "w1"; model_id = "m"; status = "loaded" }

abbrev w2 : Placement
w2 = record { node_id = "w2"; model_id = "m"; status = "loaded" }

abbrev halves : List RevisionWeight
halves = record { revision = 1; weight = 3 } ∷ record { revision = 2; weight = 1 } ∷ []

-- The first worker is busier, and the pin is on it.
abbrev pub two_workers : View whole_scores
two_workers = record {
  model = "m";
  local_node = "local";
  heartbeat_max_age = 60;
  now = 100;
  later = 101;
  gang = none;
  every_gang_skipped = false;
  local_has = false;
  placements = some (w1 ∷ w2 ∷ []);
  node_of = λ node. some (record {
    id = node;
    hostname = node;
    address = "10.0.0.1:9000";
    state = "ready";
    last_heartbeat = 90;
    engine_silent_since = none;
  });
  engine_down = λ node. false;
  role = λ node. "";
  revision = λ node. if node === "w1" then 1 else 2;
  weights = halves;
  roll = λ n. n - 1;
  inflight = λ node. if node === "w1" then 4 else 1;
  slots = λ node. some 4;
  load = λ node. none;
  credit = λ node. 0;
  warm = false;
  prefix_pins = "w1" ∷ [];
  sticky = "";
}

-- The first worker is in the penalty box.
abbrev benched_one : Memory
benched_one = record {
  box = record {
    cooldowns = λ node. if node === "w1" then some 200 else none;
    failures = λ node. 0;
  };
  stale_warned = λ node. false;
}

below : (n : ℕ) → 0 < n → n - 1 < n
below n h = omega arith

choose_revision-shares_example :
    ((choose_revision halves (λ r. 1) (λ n. n - 1) ≡ 0)
      × ((length (live_weights (λ r. 1) halves) < 2)
          ⊎ (total_weight (live_weights (λ r. 1) halves) ≡ 0)))
    ⊎ FallsTo
        (total_weight (live_weights (λ r. 1) halves) - 1)
        (choose_revision halves (λ r. 1) (λ n. n - 1))
        (live_weights (λ r. 1) halves)
choose_revision-shares_example = choose_revision-shares halves (λ r. 1) (λ n. n - 1) below

pick_revision_group-Joins_example :
    Joins halves
      (λ n. n - 1)
      two_workers.revision
      "m"
      (w1 ∷ w2 ∷ [])
      new_pick_state
      (pick_revision_group halves
        (λ n. n - 1)
        two_workers.revision
        "m"
        (w1 ∷ w2 ∷ [])
        new_pick_state)
pick_revision_group-Joins_example =
    pick_revision_group-Joins halves (λ n. n - 1) two_workers.revision "m" (w1 ∷ w2 ∷ [])
      new_pick_state below

taking_requests-refines_example :
    (taking_requests whole_scores two_workers (w1 ∷ w2 ∷ []) benched_one).0
    ≡ or_these whole_scores two_workers
        (keep (accepts whole_scores two_workers benched_one) (w1 ∷ w2 ∷ []))
        (keep (cools whole_scores two_workers benched_one) (w1 ∷ w2 ∷ []))
taking_requests-refines_example =
    taking_requests-refines whole_scores two_workers (w1 ∷ w2 ∷ []) benched_one

pick-Ends_example :
    Ends whole_scores two_workers benched_one new_pick_state two_workers.placements
      (pick whole_scores two_workers benched_one new_pick_state)
pick-Ends_example = pick-Ends whole_scores two_workers benched_one new_pick_state below

in_order-FullOnlyIfAll_example :
    FullOnlyIfAll whole_scores two_workers
      (w1 ∷ w2 ∷ [])
      (in_order whole_scores two_workers (w1 ∷ w2 ∷ []))
in_order-FullOnlyIfAll_example = in_order-FullOnlyIfAll whole_scores two_workers (w1 ∷ w2 ∷ [])

-- Two gangs with a part each, on the leader.
abbrev head_part : Part
head_part = record { role = "coordinator"; status = "ready"; node_id = "local" }

abbrev two_gangs : List Gang
two_gangs = ("g0", head_part ∷ []) ∷ ("g1", head_part ∷ []) ∷ []

shard_coordinator-HasTurn_example :
    HasTurn whole_scores two_workers
      (serving whole_scores two_workers new_pick_state.skipped two_gangs)
      3
      (shard_coordinator whole_scores two_workers two_gangs new_pick_state 3)
shard_coordinator-HasTurn_example =
    shard_coordinator-HasTurn whole_scores two_workers two_gangs new_pick_state 3 (omega arith)
