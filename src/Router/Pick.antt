-- ===== src/Router/Pick.antt =====
-- The choice of a worker for one request (internal/router/pick.go: pick, takesRequests,
-- takingRequests, staleEpisode; load.go: slotsFull, loadRank, prefixPick). What the store, the
-- heartbeats, the block index and the pins say is an argument, the record `View`. float64 is the
-- parameter `Scores`. The router's own state that a pick changes, the penalty box and the workers it
-- warned of, is passed on. `none` as a result is a Go panic.
pub mod Filter
pub mod Fit
pub mod Free
use opod_core.Base.{
  ℕ, zero, suc, ◌+◌, ◌≡◌, Bool, true, false, not, ◌&&◌, ◌||◌, List, [], ◌∷◌, Option, none, some,
  String, if◌then◌else◌, ◌==◌, ◌===◌, ltb, leb, length, keep, update, stable_sort, WeakOrder,
}
use opod_core.Store.Live.{Node, takes_new_work}
use opod_core.Router.Cooldown.{Box, in_cooldown}
use opod_core.Router.Candidates.{
  Placement, PickState, RevisionWeight, without_skipped, decode_only, pick_revision_group,
  prefer_node,
}

-- float64, with no NaN among the scores: the order of scores, a count as a score, and what a worker's
-- KV use costs it and whether it saturates it.
pub record Scores : Type 1 where
  pub Score : Type 0
  pub less : Score → Score → Bool
  pub order : WeakOrder less
  pub of_count : ℕ → Score
  pub plus : Score → Score → Score
  pub minus : Score → Score → Score
  pub kv_weighted : Bool
  pub kv_cost : Score → Score
  pub saturates : Score → Bool

module _ (f : Scores) where
  open f use {Score, less, of_count, plus, minus, kv_weighted, kv_cost, saturates}

  pub record LoadSignal : Type 0 where
    pub kv_used_pct : Score
    pub queue_depth : ℕ

  -- What a pick of one model reads.
  pub record View : Type 0 where
    pub model : String
    pub local_node : String
    pub heartbeat_max_age : ℕ
    pub now : ℕ
    pub later : ℕ  -- the clock when the box is swept
    pub gang : Option String  -- the key of a gang that serves the model
    pub every_gang_skipped : Bool
    pub local_has : Bool
    pub placements : Option (List Placement)  -- `none`: the store could not be read
    pub node_of : String → Option Node
    pub engine_down : String → Bool
    pub role : String → String
    pub revision : String → ℕ
    pub weights : List RevisionWeight
    pub roll : ℕ → ℕ
    pub inflight : String → ℕ
    pub slots : String → Option ℕ
    pub load : String → Option LoadSignal
    pub credit : String → Score  -- for the blocks of the prompt that a worker holds
    pub warm : Bool
    pub prefix_pins : List String  -- live pins, the longest link first
    pub sticky : String  -- "" = no live pin

-- Why a worker takes no request.
pub data Refusal : Type 0 where
  no_row draining stale_heartbeat engine_stopped in_box : Refusal

pub record Memory : Type 0 where
  pub box : Box
  pub stale_warned : String → Bool

abbrev pub after_box : Memory → Bool × Box → Option Refusal × Memory
after_box m (true, b) = (some in_box, record m { box = b })
after_box m (false, b) = (none, record m { box = b })

-- A worker, or a gang, whose requests in flight have reached the slots that it reports.
abbrev pub reached : ℕ → Option ℕ → Bool
reached n none = false
reached n (some slots) = ltb 0 slots && leb slots n

module _ (f : Scores) where
  open f use {Score, less, of_count, plus, minus, kv_weighted, kv_cost, saturates}

  abbrev pub row_takes : View f → Memory → Option Node → Option Refusal × Memory
  row_takes v m none = (some no_row, m)
  row_takes v m (some n) =
      let boxed = after_box m (in_cooldown n.id v.now v.later m.box) in
      if n.address === ""
      then (some no_row, m)
      else if n.state === "draining"
      then (some draining, m)
      else if not (takes_new_work n v.heartbeat_max_age v.now)
      then (some stale_heartbeat, m)
      else if v.engine_down n.id
      then (some engine_stopped, m)
      else boxed

  unfoldable pub takes_requests : View f → Memory → String → Option Refusal × Memory
  takes_requests v m id = row_takes v m (v.node_of id)

-- `staleEpisode`: what is remembered, and whether it began now.
unfoldable pub stale_episode : String → Bool → Memory → Bool × Memory
stale_episode node stale m =
    if not stale
    then (false, record m { stale_warned = update m.stale_warned node false })
    else if m.stale_warned node
    then (false, m)
    else (true, record m { stale_warned = update m.stale_warned node true })

abbrev pub is_stale : Option Refusal → Bool
is_stale (some stale_heartbeat) = true
is_stale _ = false

-- The workers that take requests, and those refused for the box alone.
pub record Taking : Type 0 where
  pub out : List Placement
  pub cooling : List Placement
  pub memory : Memory

abbrev pub sorted_out : Placement → Option Refusal → Taking → Taking
sorted_out p none t = record t { out = p ∷ t.out }
sorted_out p (some in_box) t = record t { cooling = p ∷ t.cooling }
sorted_out p (some _) t = t

abbrev pub or_cooling : Taking → List Placement → List Placement
or_cooling t [] = t.cooling
or_cooling t (p ∷ out) = p ∷ out

module _ (f : Scores) where
  open f use {Score, less, of_count, plus, minus, kv_weighted, kv_cost, saturates}

  abbrev pub noted : (Memory → Taking) → Placement → Option Refusal × Memory → Taking
  noted rest p (why, m) = sorted_out p why (rest (stale_episode p.node_id (is_stale why) m).1)

  -- The loop of `takingRequests`.
  unfoldable pub take_each : View f → List Placement → Memory → Taking
  unfolding takes_requests stale_episode
  take_each v [] m = record { out = []; cooling = []; memory = m }
  take_each v (p ∷ ps) m = noted (take_each v ps) p (takes_requests f v m p.node_id)

  unfoldable pub taking_requests : View f → List Placement → Memory → List Placement × Memory
  unfolding take_each
  taking_requests v ps m = let t = take_each v ps m in (or_cooling t t.out, t.memory)

  abbrev pub slots_full : View f → String → Bool
  slots_full v key = reached (v.inflight key) (v.slots key)

  abbrev pub signal_rank : Score → Option (LoadSignal f) → Bool × Score
  signal_rank score none = (false, score)
  signal_rank score (some sig) =
      let queued = plus score (of_count sig.queue_depth) in
      (
        saturates sig.kv_used_pct,
        if kv_weighted then plus queued (kv_cost sig.kv_used_pct) else queued,
      )

  unfoldable pub load_rank : View f → String → Bool × Score
  load_rank v node =
      let score = of_count (v.inflight node) in
      if slots_full v node then (true, score) else signal_rank score (v.load node)

  -- The place of a worker in the order, the credit for its blocks taken off.
  abbrev pub rank_of : View f → String → Bool × Score
  rank_of v node = let r = load_rank v node in (r.0, minus r.1 (v.credit node))

  abbrev pub rank_less : Bool × Score → Bool × Score → Bool
  rank_less (true, a) (true, b) = less a b
  rank_less (false, a) (false, b) = less a b
  rank_less (false, a) (true, b) = true
  rank_less (true, a) (false, b) = false

  abbrev pub placement_less : View f → Placement → Placement → Bool
  placement_less v p q = rank_less (rank_of v p.node_id) (rank_of v q.node_id)

  abbrev pub is_candidate : String → List Placement → Bool
  is_candidate node [] = false
  is_candidate node (p ∷ ps) = p.node_id === node || is_candidate node ps

  -- A pin is used on a candidate that would not queue the request.
  abbrev pub usable_pin : View f → List Placement → String → Bool
  usable_pin v ws node = is_candidate node ws && not (rank_of v node).0 && not (slots_full v node)

  unfoldable pub first_usable : View f → List Placement → List String → String
  unfolding load_rank
  first_usable v ws [] = ""
  first_usable v ws (pin ∷ pins) =
      let rest = first_usable v ws pins in if usable_pin v ws pin then pin else rest

  abbrev pub with_prefix_pin : View f → List Placement → List Placement
  with_prefix_pin v ws =
      let pin = first_usable v ws v.prefix_pins in
      if v.warm || pin === "" then ws else prefer_node ws pin

  abbrev pub with_sticky_pin : View f → List Placement → List Placement
  with_sticky_pin v ws =
      if not (v.sticky === "") && not (slots_full v v.sticky) then prefer_node ws v.sticky else ws

  unfoldable pub in_order : View f → List Placement → List Placement
  unfolding load_rank first_usable
  in_order v ws = with_sticky_pin v (with_prefix_pin v (stable_sort (placement_less v) ws))

pub data Picked : Type 0 where
  local_engine no_worker_left : Picked
  gang_of worker : String → Picked

abbrev pub first_of : Memory → PickState → List Placement → Option (Picked × Memory × PickState)
first_of m st [] = none
first_of m st (p ∷ ps) = some (worker p.node_id, m, st)

module _ (f : Scores) where
  abbrev pub from_group :
      View f → Memory → List Placement × PickState → Option (Picked × Memory × PickState)
  from_group v m (ws, st) = first_of m st (in_order f v ws)

  abbrev pub from_left :
      View f → Memory → PickState → List Placement → Option (Picked × Memory × PickState)
  from_left v m st [] = some (no_worker_left, m, st)
  from_left v m st (p ∷ ps) =
      from_group v m
        (pick_revision_group v.weights v.roll v.revision v.model (decode_only v.role (p ∷ ps)) st)

  abbrev pub from_taking :
      View f → PickState → List Placement × Memory → Option (Picked × Memory × PickState)
  from_taking v st ([], m) = some (local_engine, m, st)
  from_taking v st (p ∷ ps, m) = from_left v m st (without_skipped st (p ∷ ps))

  abbrev pub from_workers :
      View f → Memory → PickState → List Placement → Option (Picked × Memory × PickState)
  from_workers v m st [] = some (local_engine, m, st)
  from_workers v m st (p ∷ ps) = from_taking v st (taking_requests f v (p ∷ ps) m)

  abbrev pub from_placements :
      View f → Memory → PickState → Option (List Placement) → Option (Picked × Memory × PickState)
  from_placements v m st none = some (local_engine, m, st)
  from_placements v m st (some ps) =
      from_workers v m st (keep (λ p. not (p.node_id === v.local_node)) ps)

  abbrev pub without_gang : View f → Memory → PickState → Option (Picked × Memory × PickState)
  without_gang v m st =
      if v.every_gang_skipped
      then some (no_worker_left, m, st)
      else if v.local_has
      then some (local_engine, m, st)
      else from_placements v m st v.placements

  abbrev pub from_gang :
      View f → Memory → PickState → Option String → Option (Picked × Memory × PickState)
  from_gang v m st (some key) = some (gang_of key, m, st)
  from_gang v m st none = without_gang v m st

  unfoldable pub pick : View f → Memory → PickState → Option (Picked × Memory × PickState)
  unfolding taking_requests without_skipped decode_only pick_revision_group in_order
  pick v m st = if v.model === "" then some (local_engine, m, st) else from_gang v m st v.gang
