-- ===== src/Router/Candidates.antt =====
-- The candidates of one pick, narrowed step by step (internal/router: nextworker.go, roles.go,
-- revisions.go, sticky.go). The roll of the dice and what a worker registered are arguments; a
-- registered revision is taken as a natural number, 0 for none.
pub mod Revisions
pub mod Steps
use opod_core.Router.Cooldown.{Config, Box, set_aside}
use opod_core.Base.{
  ℕ, zero, suc, ◌+◌, ◌-◌, ◌≡◌, Bool, true, false, not, ◌&&◌, ◌||◌, List, [], ◌∷◌, ◌++◌, Option,
  none, some, String, if◌then◌else◌, ◌==◌, ◌===◌, ltb, leb, length, keep, update, ℤ, clip,
}

-- `store.Placement`.
pub record Placement : Type 0 where
  pub node_id : String
  pub model_id : String
  pub status : String

-- What one request remembers between its picks (`pickState`).
pub record PickState : Type 0 where
  pub skipped : String → Bool
  pub revision : String → Option ℕ
  pub gangless : String → Bool

abbrev pub new_pick_state : PickState
new_pick_state = record {
  skipped = λ node. false;
  revision = λ model. none;
  gangless = λ model. false;
}

unfoldable pub without_skipped : PickState → List Placement → List Placement
without_skipped st ws = keep (λ w. not (st.skipped w.node_id)) ws

abbrev pub any_decode : (String → String) → List Placement → Bool
any_decode role [] = false
any_decode role (w ∷ ws) = role w.node_id === "decode" || any_decode role ws

unfoldable pub decode_only : (String → String) → List Placement → List Placement
decode_only role ws =
    if not (any_decode role ws) then ws else keep (λ w. not (role w.node_id === "prefill")) ws

pub record RevisionWeight : Type 0 where
  pub revision : ℕ
  pub weight : ℕ

-- What a policy's entry becomes: one that is not positive is dropped.
abbrev pub usable_weight : ℤ × ℤ → Bool
usable_weight (rev, weight) = ltb 0 (clip weight) && ltb 0 (clip rev)

unfoldable pub set_revision_weights : List (ℤ × ℤ) → List RevisionWeight
set_revision_weights [] = []
set_revision_weights ((rev, weight) ∷ ws) =
    let rest = set_revision_weights ws in
    if usable_weight (rev, weight)
    then record { revision = clip rev; weight = clip weight } ∷ rest
    else rest

abbrev pub live_weights : (ℕ → ℕ) → List RevisionWeight → List RevisionWeight
live_weights live ws = keep (λ w. not (live w.revision == 0)) ws

abbrev pub total_weight : List RevisionWeight → ℕ
total_weight [] = 0
total_weight (w ∷ ws) = w.weight + total_weight ws

abbrev pub last_revision : RevisionWeight → List RevisionWeight → ℕ
last_revision w [] = w.revision
last_revision w (v ∷ ws) = last_revision v ws

-- The walk over the candidates; `last` is the answer past their end.
unfoldable pub walk : ℕ → ℕ → List RevisionWeight → ℕ
walk last n [] = last
walk last n (w ∷ ws) =
    let rest = walk last (n - w.weight) ws in if ltb n w.weight then w.revision else rest

abbrev pub among_live : (ℕ → ℕ) → List RevisionWeight → ℕ
among_live roll [] = 0
among_live roll (w ∷ ws) =
    if ltb (length (w ∷ ws)) 2 || total_weight (w ∷ ws) == 0
    then 0
    else walk (last_revision w ws) (roll (total_weight (w ∷ ws))) (w ∷ ws)

unfoldable pub choose_revision : List RevisionWeight → (ℕ → ℕ) → (ℕ → ℕ) → ℕ
unfolding walk
choose_revision ws live roll = among_live roll (live_weights live ws)

-- How many of the workers registered a revision.
abbrev pub live_count : (String → ℕ) → List Placement → ℕ → ℕ
live_count revision ws r = length (keep (λ w. revision w.node_id == r) ws)

abbrev pub in_group : (String → ℕ) → ℕ → List Placement → List Placement
in_group revision r ws = keep (λ w. revision w.node_id == r) ws

abbrev pub or_all : List Placement → List Placement → List Placement
or_all ws [] = ws
or_all ws (w ∷ out) = w ∷ out

abbrev pub assign_revision : String → ℕ → PickState → PickState
assign_revision model r st = record st { revision = update st.revision model (some r) }

abbrev pub rolled_group :
    (String → ℕ) → String → List Placement → PickState → ℕ → List Placement × PickState
rolled_group revision model ws st r =
    if r == 0 then (ws, st) else (or_all ws (in_group revision r ws), assign_revision model r st)

abbrev pub roll_group :
    List RevisionWeight
    → (ℕ → ℕ)
    → (String → ℕ)
    → String
    → List Placement
    → PickState
    → List Placement × PickState
roll_group weights roll revision model ws st =
    if ltb (length ws) 2
    then (ws, st)
    else rolled_group revision model ws st (choose_revision weights (live_count revision ws) roll)

abbrev pub stay_or_roll :
    List RevisionWeight
    → (ℕ → ℕ)
    → (String → ℕ)
    → String
    → List Placement
    → PickState
    → Option ℕ
    → List Placement × PickState
stay_or_roll weights roll revision model ws st none = roll_group weights roll revision model ws st
stay_or_roll weights roll revision model ws st (some r) =
    if live_count revision ws r == 0
    then roll_group weights roll revision model ws st
    else (or_all ws (in_group revision r ws), st)

abbrev pub no_weights : List RevisionWeight → Bool
no_weights [] = true
no_weights (w ∷ ws) = false

unfoldable pub pick_revision_group :
    List RevisionWeight
    → (ℕ → ℕ)
    → (String → ℕ)
    → String
    → List Placement
    → PickState
    → List Placement × PickState
unfolding choose_revision
pick_revision_group weights roll revision model ws st =
    if no_weights weights
    then (ws, st)
    else stay_or_roll weights roll revision model ws st (st.revision model)

abbrev pub found_first :
    Bool
    → Placement
    → List Placement
    → Option (Placement × List Placement)
    → Option (Placement × List Placement)
found_first true w ws found = some (w, ws)
found_first false w ws none = none
found_first false w ws (some (found, rest)) = some (found, w ∷ rest)

-- The first entry of the node, and the others in their order.
abbrev pub put_first : String → List Placement → Option (Placement × List Placement)
put_first node [] = none
put_first node (w ∷ ws) = found_first (w.node_id === node) w ws (put_first node ws)

abbrev pub or_same : List Placement → Option (Placement × List Placement) → List Placement
or_same ws none = ws
or_same ws (some (w, rest)) = w ∷ rest

unfoldable pub prefer_node : List Placement → String → List Placement
prefer_node ws node = or_same ws (put_first node ws)

-- Only a remote worker or a gang that gave no part of an answer is set aside, by the request and in
-- the penalty box (`tryNextWorker`).
unfoldable pub try_next_worker :
    Config → Bool → String → ℕ → PickState → Box → (PickState × Box) × Bool
unfolding set_aside
try_next_worker cfg nothing_answered node now st b =
    if not nothing_answered || node === "" || node === cfg.local_node
    then ((st, b), false)
    else ((record st { skipped = update st.skipped node true }, set_aside cfg node now b), true)
