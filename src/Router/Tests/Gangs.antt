-- ===== src/Router/Tests/Gangs.antt =====
-- A gang whose second part answers no HTTP, as a rank of a distributed engine does (internal/router,
-- internal/leader).
use opod_core.Base.{
  ◌≡◌, ◌*◌, ℤ, refl, ◌&&◌, true, false, [], ◌∷◌, List, none, some, ◌===◌, if◌then◌else◌,
}
use opod_core.Store.Live.{ns_per_second, why_no_new_work, why_no_part_work, heartbeat_bound}
use opod_core.Router.Pick.{View}
use opod_core.Router.Gangs.{Part, shard_group_routable}
use opod_core.Router.Gangs.Counted.{
  gang_servable, is_some, all_strict, has_ready_head, gang_servable_lem,
}
use opod_core.Router.Tests.Pick.{whole_scores, two_workers}

abbrev head_and_rank : List Part
head_and_rank =
    record { role = "coordinator"; status = "ready"; node_id = "w1" }
    ∷ record { role = "rank"; status = "ready"; node_id = "w2" }
    ∷ []

-- The engine of the second worker was never heard.
abbrev silent_rank : View whole_scores
silent_rank = record two_workers {
  heartbeat_max_age = 60 * ns_per_second;
  now = 100 * ns_per_second;
  node_of = λ node. some (record {
    id = node;
    hostname = node;
    address = "10.0.0.1:9000";
    state = "ready";
    last_heartbeat = 90 * ns_per_second;
    engine_silent_since = if node === "w2" then some (10 * ns_per_second) else none;
  });
}

router_routes_to_it : shard_group_routable whole_scores silent_rank head_and_rank ≡ true
unfolding shard_group_routable why_no_new_work why_no_part_work
router_routes_to_it = refl

leader_does_not_count_it :
    gang_servable whole_scores silent_rank false (ℤ.pos 60) head_and_rank ≡ none
unfolding gang_servable why_no_new_work heartbeat_bound
leader_does_not_count_it = refl

gang_servable_lem_example :
    is_some whole_scores silent_rank false
      (ℤ.pos 60)
      (gang_servable whole_scores silent_rank false (ℤ.pos 60) head_and_rank)
    ≡ ((shard_group_routable whole_scores silent_rank head_and_rank
          && all_strict whole_scores silent_rank false (ℤ.pos 60) head_and_rank)
        && has_ready_head whole_scores silent_rank false (ℤ.pos 60) head_and_rank)
gang_servable_lem_example =
    gang_servable_lem whole_scores silent_rank false (ℤ.pos 60) head_and_rank (refl, refl)
