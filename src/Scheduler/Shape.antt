-- ===== src/Scheduler/Shape.antt =====
-- How a gang is cut into parts (internal/scheduler/sharding.go: Parallelism.resolve, shardCountFor).
-- The number of a gang's GPUs is taken to fit an int; the product of the sizes that a plan gives
-- wraps at 64 bits, as it does in Go.
pub mod Fits
use opod_core.Base.{
  ℕ, zero, suc, ◌+◌, ◌-◌, ◌*◌, ◌/◌, ◌%◌, ◌≡◌, Bool, true, false, not, ◌&&◌, Option, none, some,
  if◌then◌else◌, ◌==◌, ltb, leb, max, ℤ, clip,
}

-- The sizes of a plan; one that is not positive is not given.
pub record Parallelism : Type 0 where
  pub tp : ℤ
  pub pp : ℤ
  pub devices_per_rank : ℤ

pub record Split : Type 0 where
  pub tp : ℕ
  pub pp : ℕ
  pub devices : ℕ

abbrev pub word : ℕ
word = 18446744073709551616

-- The first number past an int.
abbrev pub int_end : ℕ
int_end = 9223372036854775808

abbrev pub chosen : ℕ → ℕ → ℕ → ℕ → Option (ℕ × ℕ)
chosen tp pp ranks k =
    if tp == 0 && pp == 0
    then some (k, ranks)
    else if ltb 0 tp && pp == 0
    then (if (ranks * k) % tp == 0 then some (tp, ranks * k / tp) else none)
    else if ltb 0 pp && tp == 0
    then (if (ranks * k) % pp == 0 then some (ranks * k / pp, pp) else none)
    else some (tp, pp)

abbrev pub checked : ℕ → ℕ → Option (ℕ × ℕ) → Option Split
checked ranks k none = none
checked ranks k (some (tp, pp)) =
    if not (tp % k == 0)
    then none
    else if not ((tp * pp) % word == ranks * k)
    then none
    else some (record { tp = tp; pp = pp; devices = k })

abbrev pub devices_of : Parallelism → ℕ
devices_of p = max 1 (clip p.devices_per_rank)

unfoldable pub resolve : Parallelism → ℕ → Option Split
resolve p ranks = checked ranks (devices_of p) (chosen (clip p.tp) (clip p.pp) ranks (devices_of p))

-- The nodes named, else the caller's count, else the catalog's; `none` is the refusal.
unfoldable pub shard_count_for : ℤ → ℤ → ℕ → Option ℕ
shard_count_for default_shards shard_count named =
    let asked : ℕ = if ltb 0 named then named else clip shard_count in
    let count : ℕ = if asked == 0 then clip default_shards else asked in
    if ltb count 1 then none else some count
