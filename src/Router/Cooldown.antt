-- ===== src/Router/Cooldown.antt =====
-- The penalty box of workers (internal/router/cooldown.go: setAside, inCooldown, CooldownUntil,
-- recordOutcome). A time is the nanoseconds since some moment before every other. Each method reads
-- and writes under the router's lock, so it is one function on what the lock guards; `inCooldown`
-- reads the clock again once it holds the write lock, and takes both readings.
pub mod Breaker
use opod_core.Base.{
  ℕ, zero, suc, ◌+◌, ◌*◌, ◌≡◌, refl, Bool, true, false, not, ◌&&◌, ◌||◌, Option, none, some, String,
  if◌then◌else◌, ◌==◌, ◌===◌, ltb, leb, update, ℤ, clip,
}
use text.Mathlib.Text.{starts_with}

pub record Config : Type 0 where
  pub local_node : String
  pub allowed_fails : ℤ
  pub cooldown_dur : ℤ  -- nanoseconds

pub record Box : Type 0 where
  pub cooldowns : String → Option ℕ  -- until when
  pub failures : String → ℕ  -- a missing entry reads 0

abbrev pub set_aside_for : ℕ
set_aside_for = 5 * 1000000000

-- A gang and the local engine are never benched.
abbrev pub never_benched : Config → String → Bool
never_benched cfg node = node === "" || node === cfg.local_node || starts_with node "shard:"

abbrev pub is_past : Option ℕ → ℕ → Bool
is_past none now = true
is_past (some until) now = ltb until now

abbrev pub later_of : Option ℕ → ℕ → Option ℕ
later_of none until = some until
later_of (some cur) until = if ltb cur until then some until else some cur

unfoldable pub set_aside : Config → String → ℕ → Box → Box
set_aside cfg node now b = if never_benched cfg node then b else record b {
  cooldowns = update b.cooldowns node (later_of (b.cooldowns node) (now + set_aside_for));
}

abbrev pub swept : String → Box → Option ℕ → ℕ → Box
swept node b none later = b
swept node b (some until) later =
    if ltb until later then record b { cooldowns = update b.cooldowns node none } else b

unfoldable pub in_cooldown : String → ℕ → ℕ → Box → Bool × Box
in_cooldown node now later b =
    if is_past (b.cooldowns node) now
    then (false, swept node b (b.cooldowns node) later)
    else (true, b)

-- `none` is Go's zero time.
unfoldable pub cooldown_until : String → ℕ → Box → Option ℕ
cooldown_until node now b = if is_past (b.cooldowns node) now then none else b.cooldowns node

abbrev pub is_boxed : Option ℕ → Bool
is_boxed none = false
is_boxed (some until) = true

abbrev pub on_success : String → Box → Box
on_success node b =
    if not (is_boxed (b.cooldowns node)) && not (ltb 0 (b.failures node))
    then b
    else record { cooldowns = update b.cooldowns node none; failures = update b.failures node 0 }

abbrev pub on_failure : Config → String → ℕ → Box → Box
on_failure cfg node now b =
    if clip cfg.cooldown_dur == 0 || clip cfg.allowed_fails == 0
    then b
    else if ltb (suc (b.failures node)) (clip cfg.allowed_fails)
    then record b { failures = update b.failures node (suc (b.failures node)) }
    else record {
      cooldowns = update b.cooldowns node (some (now + clip cfg.cooldown_dur));
      failures = update b.failures node 0;
    }

unfoldable pub record_outcome : Config → String → Bool → ℕ → Box → Box
record_outcome cfg node ok now b =
    if never_benched cfg node
    then b
    else if ok
    then on_success node b
    else on_failure cfg node now b
