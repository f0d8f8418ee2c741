-- ===== src/Cache/Memory.antt =====
-- The response cache in memory (internal/cache/memory.go: Memory). A time is the nanoseconds since
-- some moment before every other, so it is never Go's zero time. The map `items` is the keys it has;
-- the list element that it gives for a key is the entry of the list with that key. `none` as a result
-- is a Go panic, or a loop that ran out of fuel.
pub mod Sound
pub mod Uses
pub mod Runs
pub mod Keeps
pub mod Evict
use opod_core.Base.{
  ℕ, zero, suc, ◌+◌, ◌-◌, ◌*◌, Bool, true, false, not, List, [], ◌∷◌, Option, none, some, String,
  if◌then◌else◌, ◌==◌, ◌===◌, ltb, length, keep, contains, without_key, ℤ, clip,
}
use text.Mathlib.Text.{starts_with}
use Prim.Native.String.{◌++◌ as text_append}

pub record Entry : Type 0 where
  pub key : String
  pub value : List ℕ
  pub expires_at : ℕ

pub record Memory : Type 0 where
  pub max_entries : ℕ
  pub default_ttl : ℕ
  pub items : List String
  pub order : List Entry  -- the last used first
  pub hits : ℕ
  pub misses : ℕ
  pub evicted : ℕ
  pub bytes : ℕ

abbrev pub day : ℕ
day = 24 * 3600 * 1000000000

unfoldable pub new_memory : ℤ → ℤ → Memory
new_memory max_entries default_ttl = record {
  max_entries = if clip max_entries == 0 then 1000 else clip max_entries;
  default_ttl = if clip default_ttl == 0 then day else clip default_ttl;
  items = [];
  order = [];
  hits = 0;
  misses = 0;
  evicted = 0;
  bytes = 0;
}

abbrev pub entry_of : String → List Entry → Option Entry
entry_of k [] = none
entry_of k (e ∷ es) = let rest = entry_of k es in if e.key === k then some e else rest

abbrev pub without_entry : String → List Entry → List Entry
without_entry k es = keep (λ e. not (e.key === k)) es

unfoldable pub remove_locked : Entry → Memory → Memory
remove_locked e m = record m {
  items = without_key e.key m.items;
  order = without_entry e.key m.order;
  bytes = m.bytes - length e.value;
}

abbrev pub missed : Memory → Memory
missed m = record m { misses = suc m.misses }

abbrev pub read_entry : ℕ → Memory → Option Entry → Option (Option (List ℕ) × Memory)
read_entry now m none = none
read_entry now m (some e) =
    if ltb e.expires_at now
    then some (none, missed (remove_locked e m))
    else some
        (some e.value, record m { order = e ∷ without_entry e.key m.order; hits = suc m.hits })

unfoldable pub get : ℕ → String → Memory → Option (Option (List ℕ) × Memory)
unfolding remove_locked
get now key m =
    let found = read_entry now m (entry_of key m.order) in
    if not (contains m.items key) then some (none, missed m) else found

abbrev pub rewrite_entry : List ℕ → ℕ → Memory → Option Entry → Option Memory
rewrite_entry value expires_at m none = none
rewrite_entry value expires_at m (some old) = some (record m {
  order = record old { value = value; expires_at = expires_at } ∷ without_entry old.key m.order;
  bytes = m.bytes - length old.value + length value;
})

abbrev pub last_entry : List Entry → Option Entry
last_entry [] = none
last_entry (e ∷ []) = some e
last_entry (e ∷ f ∷ es) = last_entry (f ∷ es)

-- One round of the loop in `Set`.
abbrev pub evict_last : (Memory → Option Memory) → Memory → Option Entry → Option Memory
evict_last again m none = some m
evict_last again m (some e) =
    again (let n = remove_locked e m in record n { evicted = suc n.evicted })

unfoldable pub evict_over : ℕ → Memory → Option Memory
unfolding remove_locked
evict_over zero m = none
evict_over (suc fuel) m =
    let round = evict_last (evict_over fuel) m (last_entry m.order) in
    if ltb m.max_entries (length m.items) then round else some m

abbrev pub with_new : Entry → Memory → Memory
with_new e m = record m {
  items = e.key ∷ m.items;
  order = e ∷ m.order;
  bytes = m.bytes + length e.value;
}

abbrev pub ttl_of : Memory → ℤ → ℕ
ttl_of m ttl = if clip ttl == 0 then m.default_ttl else clip ttl

unfoldable pub set : ℕ → String → List ℕ → ℤ → Memory → Option Memory
unfolding evict_over
set now key value ttl m =
    let expires_at = now + ttl_of m ttl in
    let rewritten = rewrite_entry value expires_at m (entry_of key m.order) in
    let added = with_new (record { key = key; value = value; expires_at = expires_at }) m in
    let grown = evict_over (suc (length added.items)) added in
    if contains m.items key then rewritten else grown

abbrev pub remove_found : Memory → Option Entry → Option Memory
remove_found m none = none
remove_found m (some e) = some (remove_locked e m)

unfoldable pub delete : String → Memory → Option Memory
unfolding remove_locked
delete key m =
    let removed = remove_found m (entry_of key m.order) in
    if contains m.items key then removed else some m

abbrev pub sweep_entry :
    (Entry → Bool)
    → (Memory → Memory)
    → (Memory → Option Memory)
    → Memory
    → Option Entry
    → Option Memory
sweep_entry goes counted rest m none = none
sweep_entry goes counted rest m (some e) =
    let removed = rest (counted (remove_locked e m)) in
    let kept = rest m in if goes e then removed else kept

-- A loop over the map; `counted` is what a removal counts.
unfoldable pub sweep_keys :
    (Entry → Bool) → (Memory → Memory) → List String → Memory → Option Memory
unfolding remove_locked
sweep_keys goes counted [] m = some m
sweep_keys goes counted (k ∷ ks) m =
    sweep_entry goes counted (sweep_keys goes counted ks) m (entry_of k m.order)

unfoldable pub sweep : ℕ → Memory → Option Memory
unfolding sweep_keys
sweep now m =
    sweep_keys (λ e. ltb e.expires_at now) (λ n. record n { evicted = suc n.evicted }) m.items m

unfoldable pub delete_namespace : String → Memory → Option Memory
unfolding sweep_keys
delete_namespace ns m = sweep_keys (λ e. starts_with e.key (text_append ns "/")) (λ n. n) m.items m

unfoldable pub delete_all : Memory → Memory
delete_all m = record m { items = []; order = []; bytes = 0 }
