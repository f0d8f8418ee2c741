-- ===== src/Store/Tests.antt =====
-- Concrete nodes, on which the theorems about nodes are applied (internal/store/nodelive.go).
use opod_core.Base.{◌≡◌, some, ◌*◌}
use opod_core.Store.Live.{
  Node, takes_new_work, serving, live_state, ns_per_second, takes_new_work_lem,
}

-- It heartbeats, and its engine has been silent for 90 of the last 100 seconds.
abbrev rank_one : Node
rank_one = record {
  id = "w2";
  hostname = "box2";
  address = "10.0.0.2:8080";
  state = "ready";
  last_heartbeat = 98 * ns_per_second;
  engine_silent_since = some (10 * ns_per_second);
}

takes_new_work_lem_example :
    takes_new_work rank_one (60 * ns_per_second) (100 * ns_per_second)
    ≡ serving (live_state rank_one (60 * ns_per_second) (100 * ns_per_second))
takes_new_work_lem_example = takes_new_work_lem rank_one (60 * ns_per_second) (100 * ns_per_second)
