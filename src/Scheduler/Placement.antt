-- ===== src/Scheduler/Placement.antt =====
-- Which nodes get the parts of a gang, and which one its coordinator (internal/scheduler/placement.go:
-- WorkerFor, pickWorkersByID, pickWorkers, coordinatorOverride, pickCoordinatorHost; autoshard.go:
-- workerCardBytes, strongerWorker). What a node reports of its hardware is a parameter. An error is a
-- value that holds what its text tells.
pub mod Choice
use opod_core.Base.{
  ℕ, zero, suc, ◌+◌, ◌*◌, Bool, true, false, not, ◌&&◌, ◌||◌, List, [], ◌∷◌, Option, none, some,
  String, if◌then◌else◌, ◌==◌, ◌===◌, ltb, length, keep, take, stable_sort,
}
use opod_core.Store.Live.{Node, Reason, why_no_new_work, default_heartbeat_max_age}

-- Why a node gets no part.
pub data Why : Type 0 where
  leader_row no_address : Why
  no_new_work : Reason → Why
  not_ready : String → Why

abbrev pub ready_worker : Node → Option Reason → Option Why
ready_worker n (some why) = some (no_new_work why)
ready_worker n none =
    if not (n.state === "ready")
    then some (not_ready n.state)
    else if n.address === ""
    then some no_address
    else none

-- `none` when the node qualifies. A bound that is not positive is the number 0.
unfoldable pub worker_for : Node → ℕ → ℕ → Option Why
worker_for n max_age now =
    let bound = if max_age == 0 then default_heartbeat_max_age else max_age in
    if n.id === "local" then some leader_row else ready_worker n (why_no_new_work n bound now)

abbrev pub qualifies : ℕ → ℕ → Node → Bool
qualifies max_age now n = is_none (worker_for n max_age now)
  where
    is_none : Option Why → Bool
    is_none none = true
    is_none (some why) = false

-- What the nodes report: the memory of each card, `none` for a report that cannot be read, and RAM.
pub record Hardware : Type 0 where
  pub cards : Node → Option (List ℕ)
  pub ram_gb : Node → ℕ

abbrev pub sum : List ℕ → ℕ
sum [] = 0
sum (x ∷ xs) = x + sum xs

abbrev pub card_bytes : Option (List ℕ) → ℕ
card_bytes none = 0
card_bytes (some cards) = sum cards * 1073741824

abbrev pub worker_card_bytes : Hardware → Node → ℕ
worker_card_bytes hw n = card_bytes (hw.cards n)

unfoldable pub stronger_worker : Hardware → Node → Node → Bool
stronger_worker hw a b =
    if worker_card_bytes hw a == worker_card_bytes hw b
    then ltb (hw.ram_gb b) (hw.ram_gb a)
    else ltb (worker_card_bytes hw b) (worker_card_bytes hw a)

-- `byID[key]`: a later row takes the key from an earlier one.
abbrev pub row_named : String → List Node → Option Node → Option Node
row_named key [] found = found
row_named key (n ∷ ns) found =
    row_named key ns
      (if n.id === key || (not (n.hostname === "") && n.hostname === key) then some n else found)

pub data ById : Type 0 where
  unreadable : ById
  not_found : String → ById
  not_fit : String → Why → ById
  these : List Node → ById

abbrev pub with_node : Node → ById → ById
with_node n (these ns) = these (n ∷ ns)
with_node n unreadable = unreadable
with_node n (not_found id) = not_found id
with_node n (not_fit id why) = not_fit id why

abbrev pub fit_row : String → Node → Option Why → ById → ById
fit_row id n (some why) rest = not_fit id why
fit_row id n none rest = with_node n rest

abbrev pub named_row : ℕ → ℕ → String → Option Node → ById → ById
named_row max_age now id none rest = not_found id
named_row max_age now id (some n) rest = fit_row id n (worker_for n max_age now) rest

unfoldable pub pick_named : List Node → ℕ → ℕ → List String → ById
unfolding worker_for
pick_named all max_age now [] = these []
pick_named all max_age now (id ∷ ids) =
    named_row max_age now id (row_named id all none) (pick_named all max_age now ids)

-- `none` in place of the rows: the store could not be read.
unfoldable pub pick_workers_by_id : Option (List Node) → ℕ → ℕ → List String → ById
unfolding pick_named
pick_workers_by_id none max_age now ids = unreadable
pick_workers_by_id (some all) max_age now ids = pick_named all max_age now ids

pub data Strongest : Type 0 where
  unreadable_rows : Strongest
  too_few : List String → List (String × Why) → Strongest  -- who qualifies, and why each other does not
  picked : List Node → Strongest

abbrev pub ids_of : List Node → List String
ids_of [] = []
ids_of (n ∷ ns) = n.id ∷ ids_of ns

abbrev pub with_refusal : Node → Option Why → List (String × Why) → List (String × Why)
with_refusal n none out = out
with_refusal n (some why) out = (n.id, why) ∷ out

abbrev pub refusals : ℕ → ℕ → List Node → List (String × Why)
refusals max_age now [] = []
refusals max_age now (n ∷ ns) = with_refusal n (worker_for n max_age now) (refusals max_age now ns)

abbrev pub among_rows : Hardware → List Node → ℕ → ℕ → ℕ → Strongest
among_rows hw all max_age now n =
    let ready = keep (qualifies max_age now) all in
    if ltb (length ready) n
    then too_few (ids_of ready) (refusals max_age now all)
    else picked (take n (stable_sort (stronger_worker hw) ready))

unfoldable pub pick_workers : Hardware → Option (List Node) → ℕ → ℕ → ℕ → Strongest
unfolding worker_for stronger_worker
pick_workers hw none max_age now n = unreadable_rows
pick_workers hw (some all) max_age now n = among_rows hw all max_age now n

pub data CoordinatorChoice : Type 0 where
  on_leader : CoordinatorChoice
  on_worker : Node → CoordinatorChoice

-- The head that the request names, else the leader's setting.
abbrev pub coordinator_override : String → String → String
coordinator_override head setting = if not (head === "") then head else setting

abbrev pub strongest_of : Hardware → Node → List Node → Node
strongest_of hw best [] = best
strongest_of hw best (w ∷ ws) = strongest_of hw (if stronger_worker hw w best then w else best) ws

abbrev pub default_host : Hardware → List Node → CoordinatorChoice
default_host hw [] = on_leader
default_host hw (w ∷ ws) = on_worker (strongest_of hw w ws)

abbrev pub worker_of_id : String → List Node → Option Node
worker_of_id id [] = none
worker_of_id id (w ∷ ws) = let rest = worker_of_id id ws in if w.id === id then some w else rest

abbrev pub or_default : CoordinatorChoice → Option Node → CoordinatorChoice
or_default fallback none = fallback
or_default fallback (some w) = on_worker w

unfoldable pub pick_coordinator_host : Hardware → String → String → List Node → CoordinatorChoice
unfolding stronger_worker
pick_coordinator_host hw head setting ws =
    let named = coordinator_override head setting in
    if named === ""
    then default_host hw ws
    else if named === "local"
    then on_leader
    else or_default (default_host hw ws) (worker_of_id named ws)
