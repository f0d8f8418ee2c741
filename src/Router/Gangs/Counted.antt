-- ===== src/Router/Gangs/Counted.antt =====
-- The gangs that the leader counts as serving (internal/leader/liveness.go: heartbeatMaxAge,
-- routableNodes, shardAlive, gangServable), beside those that the router routes to. Both read the same
-- rows, found by their id, which is the key of their table, and bound the age of a heartbeat by the
-- same setting, each in its own way (internal/leader/server.go: New).
use opod_core.Base.{
  ℕ, zero, suc, ◌*◌, ◌≡◌, inl, inr, refl, ap, ltb, ℤ, clip, ◌∙◌, Bool, true, false, not, ◌&&◌, ◌||◌,
  List, [], ◌∷◌, Option, none, some, String, arith, if◌then◌else◌, ◌==◌, ◌===◌, Bool-cases,
}
use opod_core.Store.Live.{
  Node, ns_per_second, default_heartbeat_max_age, heartbeat_bound, alive, silent_past,
  why_no_part_work, takes_new_work, takes_part_work, engine_silent, takes_part_work_lem,
}
use opod_core.Router.Pick.{Scores, View}
use opod_core.Router.Gangs.{Part, judged_node, part_routable, shard_group_routable}

-- The leader's bound; a gateway has none.
abbrev pub heartbeat_max_age : Bool → ℤ → ℕ
heartbeat_max_age is_gateway seconds = if is_gateway then 0 else heartbeat_bound seconds

-- What `New` gives the router: its check is off when the setting is not positive.
abbrev pub router_max_age : ℤ → ℕ
router_max_age seconds = clip seconds * ns_per_second

silent-router :
    (n : Node) (seconds : ℤ) (now : ℕ)
    → engine_silent n (router_max_age seconds) now ≡ engine_silent n (heartbeat_bound seconds) now
unfolding engine_silent heartbeat_bound
silent-router n seconds now = since n.engine_silent_since (clip seconds)
  where
    positive : (s : ℕ) → ltb 0 (suc s) ≡ true
    positive s = ground arith

    since :
        (o : Option ℕ) (s : ℕ)
        → silent_past (s * ns_per_second) now o
          ≡ silent_past (if ltb 0 s then s * ns_per_second else default_heartbeat_max_age) now o
    since none s = refl
    since (some t) zero = refl
    since (some t) (suc s) = rw (positive s) refl

-- The router asks of a node that serves by itself what it asks of a part's, and an engine that is not
-- silent under the leader's bound.
router_new :
    (n : Node) (seconds : ℤ) (now : ℕ)
    → takes_new_work n (router_max_age seconds) now ≡ (
        takes_part_work n (router_max_age seconds) now
        && not (engine_silent n (heartbeat_bound seconds) now))
router_new n seconds now =
    takes_part_work_lem n (router_max_age seconds) now
    ∙ ap (λ b. takes_part_work n (router_max_age seconds) now && not b)
        (silent-router n seconds now)

-- The leader's bound is the stricter one.
takes_part-wider :
    (n : Node) (seconds : ℤ) (now : ℕ)
    → takes_part_work n (heartbeat_bound seconds) now
      ≡ (takes_part_work n (router_max_age seconds) now && alive n (heartbeat_bound seconds) now)
unfolding why_no_part_work alive heartbeat_bound
takes_part-wider n seconds now = wider (clip seconds)
  where
    bound_of : ℕ → ℕ
    bound_of s = if ltb 0 s then s * ns_per_second else default_heartbeat_max_age

    wider :
        (s : ℕ)
        → takes_part_work n (bound_of s) now
          ≡ (takes_part_work n (s * ns_per_second) now && alive n (bound_of s) now)
    wider zero = ground arith
    wider (suc s) = ground arith

module _ (f : Scores) (v : View f) (is_gateway : Bool) (seconds : ℤ) where
  -- What `routableNodes` maps the id of a node to.
  abbrev pub routable_node : Option Node → Bool
  routable_node none = false
  routable_node (some n) =
      takes_new_work n (heartbeat_max_age is_gateway seconds) v.now && not (v.engine_down n.id)

  abbrev pub shard_alive : Part → Bool
  shard_alive p =
      if p.node_id === "" || p.node_id === "local"
      then true
      else routable_node (v.node_of p.node_id)

  abbrev pub is_ready_head : Part → Bool
  is_ready_head p = p.role === "coordinator" && p.status === "ready"

  -- The loop of `gangServable`: the head found so far, and whether a part is lost.
  unfoldable pub judge_parts : List Part → Option Part → Bool → Option Part
  judge_parts [] coord part_lost = if part_lost then none else coord
  judge_parts (p ∷ ps) coord part_lost =
      judge_parts ps (if is_ready_head p then some p else coord) (part_lost || not (shard_alive p))

  unfoldable pub gang_servable : List Part → Option Part
  unfolding judge_parts
  gang_servable parts = judge_parts parts none false

  abbrev pub is_some : Option Part → Bool
  is_some none = false
  is_some (some p) = true

  abbrev pub has_ready_head : List Part → Bool
  has_ready_head [] = false
  has_ready_head (p ∷ ps) = is_ready_head p || has_ready_head ps

  abbrev all_alive : List Part → Bool
  all_alive [] = true
  all_alive (p ∷ ps) = shard_alive p && all_alive ps

  judge_parts_lem :
      (ps : List Part) (coord : Option Part) (lost : Bool)
      → is_some (judge_parts ps coord lost)
        ≡ (not lost && all_alive ps && (is_some coord || has_ready_head ps))
  unfolding judge_parts
  judge_parts_lem [] none true = refl
  judge_parts_lem [] none false = refl
  judge_parts_lem [] (some c) true = refl
  judge_parts_lem [] (some c) false = refl
  judge_parts_lem (p ∷ ps) coord lost =
      judge_parts_lem ps (if is_ready_head p then some p else coord) (lost || not (shard_alive p))
      ∙ regroup (is_ready_head p) coord lost (shard_alive p) (all_alive ps) (has_ready_head ps)
    where
      regroup :
          (head : Bool) (coord : Option Part) (lost alive all ready : Bool)
          → (not (lost || not alive) && all && (is_some (if head then some p else coord) || ready))
            ≡ (not lost && (alive && all) && (is_some coord || (head || ready)))
      regroup true none lost alive all ready = ground arith
      regroup false none lost alive all ready = ground arith
      regroup true (some c) lost alive all ready = ground arith
      regroup false (some c) lost alive all ready = ground arith

  -- What the leader asks of a part's node beyond what the router asks: its row is known, the worker did
  -- not say that its engine is gone, the engine of a part that is not the head is not silent, and the
  -- heartbeat is within the leader's bound also where the router's check is off.
  abbrev pub strict_node : String → Option Node → Bool
  strict_node role none = false
  strict_node role (some n) =
      not (v.engine_down n.id)
      && (role === "coordinator" || not (engine_silent n (heartbeat_bound seconds) v.now))
      && alive n (heartbeat_bound seconds) v.now

  abbrev pub strict_part : Part → Bool
  strict_part p =
      if p.node_id === "" || p.node_id === "local"
      then true
      else strict_node p.role (v.node_of p.node_id)

  abbrev pub all_strict : List Part → Bool
  all_strict [] = true
  all_strict (p ∷ ps) = strict_part p && all_strict ps

  -- The leader is the one that has a bound, and the router's is the one that the setting gives.
  abbrev pub SameSetting : Type 0
  SameSetting = (is_gateway ≡ false) × (v.heartbeat_max_age ≡ router_max_age seconds)

  node_alive :
      (role : String) (o : Option Node)
      → SameSetting
      → routable_node o ≡ (judged_node f v role o && strict_node role o)
  node_alive role none same = by_age (v.heartbeat_max_age == 0)
    where
      by_age : (b : Bool) → false ≡ (b && false)
      by_age true = refl
      by_age false = refl
  node_alive role (some n) (leader, bound) = rw leader (
      by_role (role === "coordinator") (takes_new_work n (heartbeat_bound seconds) v.now)
        (takes_part_work n (heartbeat_bound seconds) v.now)
        (takes_new_work n v.heartbeat_max_age v.now) (takes_part_work n v.heartbeat_max_age v.now)
        (v.engine_down n.id) (engine_silent n (heartbeat_bound seconds) v.now)
        (alive n (heartbeat_bound seconds) v.now)
        (takes_part_work_lem n (heartbeat_bound seconds) v.now)
        (rw bound (router_new n seconds v.now)) (rw bound (takes_part-wider n seconds v.now)))
    where
      by_role :
          (head new part new' part' down silent live : Bool)
          → new ≡ (part && not silent)
          → new' ≡ (part' && not silent)
          → part ≡ (part' && live)
          → (new && not down)
            ≡ ((if head then new' else part') && (not down && (head || not silent) && live))
      by_role true new part new' part' down silent live e e' p = ground (arith, e, e', p)
      by_role false new part new' part' down silent live e e' p = ground (arith, e, e', p)

  part_alive : (p : Part) → SameSetting → shard_alive p ≡ (part_routable f v p && strict_part p)
  part_alive p same = elim (Bool-cases (p.node_id === "" || p.node_id === "local")) [
    | inl e ↦ rw e refl
    | inr e ↦ rw e (node_alive p.role (v.node_of p.node_id) same)
  ]

  all_alive_lem :
      (ps : List Part) → SameSetting → all_alive ps ≡ (shard_group_routable f v ps && all_strict ps)
  unfolding shard_group_routable
  all_alive_lem [] same = refl
  all_alive_lem (p ∷ ps) same =
      rw (part_alive p same, all_alive_lem ps same)
        (regroup (part_routable f v p) (strict_part p) (shard_group_routable f v ps)
          (all_strict ps))
    where
      regroup : (a b c d : Bool) → ((a && b) && (c && d)) ≡ ((a && c) && (b && d))
      regroup a b c d = ground arith

  -- On a leader, whatever the setting, where the router's bound is the one that the setting gives: a
  -- gang is counted as serving exactly when the router routes to it, its head is ready, and of every
  -- part that is on a worker the row is known, the engine is not said to be gone and, unless the part
  -- is the head, not silent, and the heartbeat is within the leader's bound, which is the router's too
  -- unless the router's check is off.
  pub gang_servable_lem :
      (parts : List Part)
      → SameSetting
      → is_some (gang_servable parts)
        ≡ ((shard_group_routable f v parts && all_strict parts) && has_ready_head parts)
  unfolding gang_servable
  gang_servable_lem parts same =
      judge_parts_lem parts none false ∙ rw (all_alive_lem parts same) refl
