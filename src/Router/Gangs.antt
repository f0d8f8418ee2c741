-- ===== src/Router/Gangs.antt =====
-- The choice among the gangs of a sharded model (internal/router/pick.go: shardCoordinator, gangRank,
-- shardGroupRoutable), and the whole pick with it. The gangs come in the order of their ids, each with
-- its parts. How a gang's key is written is the code's own `gangKey`.
pub mod Turns
pub mod Counted
use opod_core.Base.{
  ℕ, zero, suc, ◌+◌, ◌%◌, Bool, true, false, not, ◌&&◌, ◌||◌, List, [], ◌∷◌, ◌++◌, Option, none,
  some, String, if◌then◌else◌, ◌==◌, ◌===◌, ltb, length, get_elem?, update,
}
use Prim.Native.String.{◌++◌ as text_append}
use opod_core.Store.Live.{Node, takes_new_work, takes_part_work}
use opod_core.Router.Candidates.{PickState}
use opod_core.Router.Pick.{Scores, View, Memory, Picked, slots_full, signal_rank, rank_less, pick}

-- What a shard row says of one part.
pub record Part : Type 0 where
  pub role : String
  pub status : String
  pub node_id : String

abbrev pub Gang : Type 0
Gang = String × List Part

pub record Candidate : Type 0 where
  pub gang : String
  pub coord : Part

abbrev pub gang_key : String → String → String
gang_key model gang = text_append "shard:" (text_append model (text_append ":" gang))

module _ (f : Scores) where
  open f use {Score, of_count}

  abbrev pub judged_node : View f → String → Option Node → Bool
  judged_node v role none = v.heartbeat_max_age == 0
  judged_node v role (some n) =
      if role === "coordinator"
      then takes_new_work n v.heartbeat_max_age v.now
      else takes_part_work n v.heartbeat_max_age v.now

  abbrev pub part_routable : View f → Part → Bool
  part_routable v p =
      if p.node_id === "" || p.node_id === "local"
      then true
      else judged_node v p.role (v.node_of p.node_id)

  unfoldable pub shard_group_routable : View f → List Part → Bool
  shard_group_routable v [] = true
  shard_group_routable v (p ∷ ps) = part_routable v p && shard_group_routable v ps

  abbrev pub ready_coordinator : List Part → Option Part
  ready_coordinator [] = none
  ready_coordinator (p ∷ ps) =
      let rest = ready_coordinator ps in
      if p.role === "coordinator" && p.status === "ready" then some p else rest

  abbrev pub with_candidate :
      String → Option Part → List Candidate × PickState → List Candidate × PickState
  with_candidate gang none r = r
  with_candidate gang (some p) (ready, st) = (record { gang = gang; coord = p } ∷ ready, st)

  abbrev pub note_skipped_gang : String → PickState → PickState
  note_skipped_gang model st = record st { gangless = update st.gangless model true }

  -- The gangs that may serve, and what the request has noted of the others.
  unfoldable pub ready_gangs : View f → List Gang → PickState → List Candidate × PickState
  unfolding shard_group_routable
  ready_gangs v [] st = ([], st)
  ready_gangs v ((gang, parts) ∷ gangs) st =
      let passed = ready_gangs v gangs (note_skipped_gang v.model st) in
      let rest = ready_gangs v gangs st in
      if not (shard_group_routable v parts)
      then rest
      else if st.skipped (gang_key v.model gang)
      then passed
      else with_candidate gang (ready_coordinator parts) rest

  unfoldable pub gang_rank : View f → Candidate → Bool × Score
  gang_rank v c =
      let key = gang_key v.model c.gang in
      let score = of_count (v.inflight key) in
      if slots_full f v key
      then (true, score)
      else if c.coord.node_id === "" || c.coord.node_id === "local"
      then (false, score)
      else signal_rank f score (v.load c.coord.node_id)

  -- The loop over the candidates: the best rank so far, and who ties for it.
  unfoldable pub least_loaded :
      View f → List Candidate → Bool × Score → List Candidate → List Candidate
  unfolding gang_rank
  least_loaded v [] best tied = tied
  least_loaded v (c ∷ cs) best tied =
      let better = least_loaded v cs (gang_rank v c) (c ∷ []) in
      let behind = least_loaded v cs best tied in
      let same = least_loaded v cs best (tied ++ c ∷ []) in
      if rank_less f (gang_rank v c) best
      then better
      else if rank_less f best (gang_rank v c)
      then behind
      else same

  abbrev pub in_turn : List Candidate → ℕ → Option Candidate × ℕ
  in_turn tied turn =
      if ltb 1 (length tied)
      then (get_elem? tied (turn % length tied), suc turn)
      else (get_elem? tied 0, turn)

  abbrev pub least_of : View f → List Candidate → ℕ → Option Candidate × ℕ
  least_of v [] turn = (none, turn)
  least_of v (c ∷ []) turn = (some c, turn)
  least_of v (c ∷ d ∷ cs) turn = in_turn (least_loaded v (d ∷ cs) (gang_rank v c) (c ∷ [])) turn

  abbrev pub key_of : String → Option Candidate → Option String
  key_of model none = none
  key_of model (some c) = some (gang_key model c.gang)

  -- The key of the gang, the request's state and the turn. A store that cannot be read has no gang.
  unfoldable pub shard_coordinator :
      View f → List Gang → PickState → ℕ → (Option String × PickState) × ℕ
  unfolding ready_gangs least_loaded
  shard_coordinator v gangs st turn =
      let r = ready_gangs v gangs st in
      let chosen = least_of v r.0 turn in ((key_of v.model chosen.0, r.1), chosen.1)

  -- `pick` from its first line, the gangs included.
  unfoldable pub pick_with_gangs :
      View f → List Gang → Memory → PickState → ℕ → Option (Picked × Memory × PickState) × ℕ
  unfolding shard_coordinator pick
  pick_with_gangs v gangs m st turn =
      let r = shard_coordinator v gangs st turn in
      if v.model === "" then (pick f v m st, turn) else (
        pick f (record v { gang = r.0.0; every_gang_skipped = r.0.1.gangless v.model }) m r.0.1,
        r.1,
      )
