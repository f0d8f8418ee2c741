-- ===== src/Prefix/Index.antt =====
-- The prefix-cache block index (internal/leader/prefixindex.go: workerBlocks, evicted, computed, apply,
-- forget, leading, leadingAny, state, ghostState). A map from hashes to list elements is the hashes it
-- has, beside the list in its order, oldest first. Sequence numbers are taken as natural numbers. `none`
-- as a result is a Go panic.
pub mod Sets
pub mod Ghosts
pub mod Evictions
pub mod Holds
use opod_core.Base.{
  ℕ, zero, suc, ◌+◌, ◌-◌, Bool, true, false, not, ◌&&◌, ◌||◌, List, [], ◌∷◌, ◌++◌, Option, none,
  some, String, if◌then◌else◌, ◌==◌, ◌===◌, ltb, leb, max, length, contains, without_key, update, ℤ,
  clip,
}

abbrev pub per_worker : ℕ
per_worker = 200000

abbrev pub ghost_cap : ℕ
ghost_cap = 131072

abbrev pub ghost_buckets : List ℕ
ghost_buckets = 1024 ∷ 4096 ∷ 16384 ∷ 65536 ∷ ghost_cap ∷ []

pub record Blocks : Type 0 where
  pub held : List String
  pub order : List String

abbrev pub no_blocks : Blocks
no_blocks = record { held = []; order = [] }

unfoldable pub remove_block : String → Blocks → Blocks
remove_block h b =
    if contains b.held h
    then record { held = without_key h b.held; order = without_key h b.order }
    else b

abbrev pub without_first : Blocks → List String → Option Blocks
without_first b [] = none
without_first b (old ∷ order) = some (record { held = without_key old b.held; order = order })

abbrev pub bounded : Blocks → Option Blocks
bounded b =
    let shorter = without_first b b.order in
    if ltb per_worker (length b.order) then shorter else some b

unfoldable pub store_block : String → Blocks → Option Blocks
store_block h b =
    let added = bounded (record { held = h ∷ b.held; order = b.order ++ h ∷ [] }) in
    if contains b.held h then some (record b { order = without_key h b.order ++ h ∷ [] }) else added

pub record Ghost : Type 0 where
  pub evictions : ℕ
  pub ghost : String → Option ℕ  -- hash → its eviction number
  pub ghost_order : List (String × ℕ)  -- oldest first
  pub stored : ℕ
  pub returns : List ℕ

abbrev pub no_ghosts : Ghost
no_ghosts = record {
  evictions = 0;
  ghost = λ h. none;
  ghost_order = [];
  stored = 0;
  returns = 0 ∷ 0 ∷ 0 ∷ 0 ∷ 0 ∷ [];
}

abbrev pub is_at : Option ℕ → ℕ → Bool
is_at none at = false
is_at (some a) at = a == at

-- A missing number reads 0, and eviction numbers start at 1.
abbrev pub forget_ghost : (String → Option ℕ) → String × ℕ → String → Option ℕ
forget_ghost ghost (h, at) = if is_at (ghost h) at then update ghost h none else ghost

-- The loop of `evicted`, over the list that it shortens.
unfoldable pub shorten : List (String × ℕ) → Ghost → Ghost
shorten [] g = record g { ghost_order = [] }
shorten (old ∷ rest) g =
    let shorter = shorten rest (record g { ghost = forget_ghost g.ghost old }) in
    if ltb ghost_cap (length (old ∷ rest)) then shorter else record g { ghost_order = old ∷ rest }

unfoldable pub evicted : String → Ghost → Ghost
unfolding shorten
evicted h g =
    let n = suc g.evictions in
    shorten (g.ghost_order ++ (h, n) ∷ [])
      (record g { evictions = n; ghost = update g.ghost h (some n) })

abbrev pub onto : ℕ → Option (List ℕ) → Option (List ℕ)
onto r none = none
onto r (some rs) = some (r ∷ rs)

-- One more in the first bucket that is deep enough.
unfoldable pub count_return : ℕ → List ℕ → List ℕ → Option (List ℕ)
count_return depth [] rs = some rs
count_return depth (b ∷ bs) [] =
    let later = count_return depth bs [] in if leb depth b then none else later
count_return depth (b ∷ bs) (r ∷ rs) =
    let later = onto r (count_return depth bs rs) in
    if leb depth b then some (suc r ∷ rs) else later

abbrev pub with_returns : Ghost → Option (List ℕ) → Option Ghost
with_returns g none = none
with_returns g (some rs) = some (record g { returns = rs })

abbrev pub returned : String → Ghost → Option ℕ → Option Ghost
returned h g none = some g
returned h g (some at) =
    with_returns (record g { ghost = update g.ghost h none })
      (count_return (g.evictions - at) ghost_buckets g.returns)

unfoldable pub computed : String → Ghost → Option Ghost
unfolding count_return
computed h g = returned h (record g { stored = suc g.stored }) (g.ghost h)

pub record WorkerBlocks : Type 0 where
  pub seq : ℕ
  pub block_size : ℕ
  pub at : ℕ
  pub card : Blocks
  pub cpu : Blocks
  pub ghosts : Ghost

-- One heartbeat's changes (`nodeapi.KVBlocks`).
pub record KvBlocks : Type 0 where
  pub cleared : Bool
  pub seq : ℕ
  pub block_size : ℤ
  pub removed : List String
  pub stored : List String
  pub cpu_removed : List String
  pub cpu_stored : List String

-- The ghost counters are a history and survive a start over.
abbrev pub fresh_worker : Ghost → WorkerBlocks
fresh_worker g = record {
  seq = 0;
  block_size = 0;
  at = 0;
  card = no_blocks;
  cpu = no_blocks;
  ghosts = g;
}

abbrev pub start_over : Option WorkerBlocks → WorkerBlocks
start_over none = fresh_worker no_ghosts
start_over (some w) =
    fresh_worker (record no_ghosts { stored = w.ghosts.stored; returns = w.ghosts.returns })

-- The worker's own word, or a batch that the leader never saw, starts over.
abbrev pub kept_or_fresh : KvBlocks → Option WorkerBlocks → WorkerBlocks
kept_or_fresh kb none = start_over none
kept_or_fresh kb (some w) =
    if kb.cleared || (not (w.seq == 0) && not (kb.seq == suc w.seq)) then start_over (some w) else w

unfoldable pub remove_all : List String → WorkerBlocks → WorkerBlocks
unfolding remove_block evicted
remove_all [] w = w
remove_all (h ∷ hs) w =
    remove_all hs (record w { card = remove_block h w.card; ghosts = evicted h w.ghosts })

abbrev pub counted_in : Bool → String → WorkerBlocks → Option Ghost
counted_in true h w = some w.ghosts
counted_in false h w = computed h w.ghosts

abbrev pub with_both :
    (WorkerBlocks → Option WorkerBlocks)
    → WorkerBlocks
    → Option Blocks
    → Option Ghost
    → Option WorkerBlocks
with_both rest w none g = none
with_both rest w (some b) none = none
with_both rest w (some b) (some g) = rest (record w { card = b; ghosts = g })

unfoldable pub store_all : List String → WorkerBlocks → Option WorkerBlocks
unfolding store_block computed
store_all [] w = some w
store_all (h ∷ hs) w =
    with_both (store_all hs) w (store_block h w.card) (counted_in (contains w.card.held h) h w)

unfoldable pub cpu_remove_all : List String → Blocks → Blocks
unfolding remove_block
cpu_remove_all [] b = b
cpu_remove_all (h ∷ hs) b = cpu_remove_all hs (remove_block h b)

abbrev pub then_blocks : (Blocks → Option Blocks) → Option Blocks → Option Blocks
then_blocks rest none = none
then_blocks rest (some b) = rest b

unfoldable pub cpu_store_all : List String → Blocks → Option Blocks
unfolding store_block
cpu_store_all [] b = some b
cpu_store_all (h ∷ hs) b = then_blocks (cpu_store_all hs) (store_block h b)

abbrev pub with_cpu : WorkerBlocks → Option Blocks → Option WorkerBlocks
with_cpu w none = none
with_cpu w (some b) = some (record w { cpu = b })

abbrev pub on_cpu : KvBlocks → Option WorkerBlocks → Option WorkerBlocks
on_cpu kb none = none
on_cpu kb (some w) = with_cpu w (cpu_store_all kb.cpu_stored (cpu_remove_all kb.cpu_removed w.cpu))

abbrev pub noted_in : KvBlocks → ℕ → WorkerBlocks → WorkerBlocks
noted_in kb now w =
    let size = if clip kb.block_size == 0 then w.block_size else clip kb.block_size in
    record w { seq = kb.seq; at = now; block_size = size }

unfoldable pub changed : KvBlocks → ℕ → Option WorkerBlocks → Option WorkerBlocks
unfolding remove_all store_all cpu_remove_all cpu_store_all
changed kb now w =
    on_cpu kb (store_all kb.stored (remove_all kb.removed (noted_in kb now (kept_or_fresh kb w))))

-- `workers`: node id → what it holds.
abbrev pub Index : Type 0
Index = String → Option WorkerBlocks

abbrev pub put_worker : Index → String → Option WorkerBlocks → Option Index
put_worker ix node none = none
put_worker ix node (some w) = some (update ix node (some w))

abbrev pub apply_some : String → ℕ → Index → Option KvBlocks → Option Index
apply_some node now ix none = some ix
apply_some node now ix (some kb) = put_worker ix node (changed kb now (ix node))

unfoldable pub apply : String → ℕ → Option KvBlocks → Index → Option Index
unfolding changed
apply node now kb ix = apply_some node now ix kb

unfoldable pub forget : String → Index → Index
forget node ix = update ix node none

abbrev pub leading_of : (String → Bool) → List String → ℕ
leading_of has [] = 0
leading_of has (h ∷ hs) = let rest = leading_of has hs in if has h then suc rest else 0

abbrev pub on_card : WorkerBlocks → String → Bool
on_card w h = contains w.card.held h

abbrev pub on_any : WorkerBlocks → String → Bool
on_any w h = contains w.card.held h || contains w.cpu.held h

abbrev pub leading_in : (WorkerBlocks → String → Bool) → List String → Option WorkerBlocks → ℕ
leading_in has hashes none = 0
leading_in has hashes (some w) = leading_of (has w) hashes

unfoldable pub leading : String → List String → Index → ℕ
leading node hashes ix = leading_in on_card hashes (ix node)

unfoldable pub leading_any : String → List String → Index → ℕ
leading_any node hashes ix = leading_in on_any hashes (ix node)
