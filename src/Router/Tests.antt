-- ===== src/Router/Tests.antt =====
-- Concrete workers, on which the theorems about the router are applied (internal/router).
mod Latency
mod Pick
mod Gangs
use opod_core.Base.{ℕ, ◌+◌, ◌≡◌, refl, true, false, ◌||◌, [], ◌∷◌, none, some, leb, ℤ, arith}
use opod_core.Router.Cooldown.{Config, Box, record_outcome, set_aside, set_aside_for, in_cooldown}
use opod_core.Router.Cooldown.Breaker.{failing, breaker_trips}

abbrev three_strikes : Config
three_strikes = record { local_node = "local"; allowed_fails = ℤ.pos 3; cooldown_dur = ℤ.pos 30 }

abbrev fresh : Box
fresh = record { cooldowns = λ node. none; failures = λ node. 0 }

abbrev benched : Box
benched = record { cooldowns = λ node. some 40; failures = λ node. 1 }

breaker_trips_example :
    ((failing three_strikes "w1" (1 ∷ 4 ∷ []) fresh).cooldowns "w1" ≡ none)
    × ((record_outcome three_strikes "w1" false 9
            (failing three_strikes "w1" (1 ∷ 4 ∷ []) fresh)).failures
          "w1"
        ≡ 0)
    × ((now later : ℕ)
        → (in_cooldown "w1" now later (
            record_outcome three_strikes "w1" false 9
              (failing three_strikes "w1" (1 ∷ 4 ∷ []) fresh))).0
          ≡ leb now (9 + 30))
breaker_trips_example =
    breaker_trips three_strikes "w1" (1 ∷ 4 ∷ []) 9 fresh refl (omega arith, omega arith) refl refl
