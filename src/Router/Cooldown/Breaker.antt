-- ===== src/Router/Cooldown/Breaker.antt =====
-- When a worker enters the penalty box and when it leaves it.
use opod_core.Base.{
  ℕ, zero, suc, ◌+◌, ◌≤◌, ◌<◌, ◌≡◌, refl, true, false, not, ◌||◌, List, [], ◌∷◌, Option, none, some,
  String, arith, ◌==◌, ltb, leb, update, update_self, lt→ltb, clip, Bool-cases, inl, inr, length,
}
use opod_core.Router.Cooldown.{
  Config, Box, never_benched, set_aside_for, set_aside, in_cooldown, record_outcome, on_success,
  later_of, is_past,
}

-- The failures of one worker, one after another, at these times.
unfoldable pub failing : Config → String → List ℕ → Box → Box
failing cfg node [] b = b
failing cfg node (now ∷ times) b = failing cfg node times (record_outcome cfg node false now b)

pub in_cooldown-answer :
    (node : String) (now later : ℕ) (b : Box)
    → (in_cooldown node now later b).0 ≡ not (is_past (b.cooldowns node) now)
unfolding in_cooldown
in_cooldown-answer node now later b = elim (Bool-cases (is_past (b.cooldowns node) now)) [
  | inl e ↦ rw e refl
  | inr e ↦ rw e refl
]

until_then : (now until : ℕ) → not (is_past (some until) now) ≡ leb now until
until_then now until = ground arith

-- An answer of a worker that may be benched takes it out of the box and clears its strikes.
success_clears :
    (cfg : Config) (node : String) (now : ℕ) (b : Box)
    → never_benched cfg node ≡ false
    → ((record_outcome cfg node true now b).cooldowns node ≡ none)
      × ((record_outcome cfg node true now b).failures node ≡ 0)
unfolding record_outcome
success_clears cfg node now b e = rw e (cleared (b.cooldowns node) (b.failures node) refl refl)
  where
    cleared :
        (o : Option ℕ) (n : ℕ)
        → b.cooldowns node ≡ o
        → b.failures node ≡ n
        → ((on_success node b).cooldowns node ≡ none) × ((on_success node b).failures node ≡ 0)
    cleared none zero c d = rw (on_success, c, d) (c, d)
    cleared none (suc n) c d =
        rw (on_success, c, d, lt→ltb 0 (suc n) (omega arith))
          (update_self b.cooldowns node none, update_self b.failures node 0)
    cleared (some until) n c d =
        rw (on_success, c) (update_self b.cooldowns node none, update_self b.failures node 0)

-- The breaker is on.
abbrev pub Armed : Config → Type 0
Armed cfg = (0 < clip cfg.cooldown_dur) × (0 < clip cfg.allowed_fails)

armed_test : (d a : ℕ) → 0 < d → 0 < a → (d == 0 || a == 0) ≡ false
armed_test d a p q = ground arith

-- A strike that is not the last.
strike :
    (cfg : Config) (node : String) (now : ℕ) (b : Box)
    → never_benched cfg node ≡ false
    → Armed cfg
    → suc (b.failures node) < clip cfg.allowed_fails
    → record_outcome cfg node false now b
      ≡ record b { failures = update b.failures node (suc (b.failures node)) }
unfolding record_outcome
strike cfg node now b e armed few =
    rw
      (
        e,
        armed_test (clip cfg.cooldown_dur) (clip cfg.allowed_fails) armed.0 armed.1,
        lt→ltb _ _ few,
      )
      refl

last_strike :
    (cfg : Config) (node : String) (now : ℕ) (b : Box)
    → never_benched cfg node ≡ false
    → Armed cfg
    → clip cfg.allowed_fails ≤ suc (b.failures node)
    → record_outcome cfg node false now b ≡ record {
      cooldowns = update b.cooldowns node (some (now + clip cfg.cooldown_dur));
      failures = update b.failures node 0;
    }
unfolding record_outcome
last_strike cfg node now b e armed enough =
    rw
      (
        e,
        armed_test (clip cfg.cooldown_dur) (clip cfg.allowed_fails) armed.0 armed.1,
        not_less _ _ enough,
      )
      refl
  where
    not_less : (m n : ℕ) → n ≤ m → ltb m n ≡ false
    not_less m n h = ground arith

strikes :
    (cfg : Config) (node : String) (times : List ℕ) (b : Box)
    → never_benched cfg node ≡ false
    → Armed cfg
    → b.failures node + length times < clip cfg.allowed_fails
    → ((failing cfg node times b).cooldowns node ≡ b.cooldowns node)
      × ((failing cfg node times b).failures node ≡ b.failures node + length times)
unfolding failing
strikes cfg node [] b e armed few = (refl, omega arith)
strikes cfg node (now ∷ times) b e armed few =
    let b' : Box = record b { failures = update b.failures node (suc (b.failures node)) } in
    let one : b'.failures node ≡ suc (b.failures node) =
      update_self b.failures node (suc (b.failures node)) in
    let (c, n) = strikes cfg node times b' e armed (omega (arith, one)) in
    rw (failing, strike cfg node now b e armed (omega arith)) (c, omega (arith, n, one))

-- Where the breaker is on, fewer failures in a row than it allows leave the worker in rotation as it
-- was, and the one that reaches the number benches it until the cooldown after that failure is over:
-- at any time, the worker is in the box exactly until then.
pub breaker_trips :
    (cfg : Config) (node : String) (times : List ℕ) (last : ℕ) (b : Box)
    → never_benched cfg node ≡ false
    → Armed cfg
    → b.failures node ≡ 0
    → suc (length times) ≡ clip cfg.allowed_fails
    → ((failing cfg node times b).cooldowns node ≡ b.cooldowns node)
      × ((record_outcome cfg node false last (failing cfg node times b)).failures node ≡ 0)
      × ((now later : ℕ)
          → (in_cooldown node now later
              (record_outcome cfg node false last (failing cfg node times b))).0
            ≡ leb now (last + clip cfg.cooldown_dur))
breaker_trips cfg node times last b e armed fresh many =
    let (c, n) = strikes cfg node times b e armed (omega arith) in
    let b' = failing cfg node times b in
    (
      c,
      rw (last_strike cfg node last b' e armed (omega (arith, n))) (update_self b'.failures node 0),
      λ now later.
          rw
            (
              last_strike cfg node last b' e armed (omega (arith, n)),
              in_cooldown-answer node now later _,
              update_self b'.cooldowns node (some (last + clip cfg.cooldown_dur)),
            )
            (until_then now (last + clip cfg.cooldown_dur)),
    )

-- Setting a worker aside keeps it in the box for five seconds at least, and never takes one out
-- earlier.
set_aside_lasts :
    (cfg : Config) (node : String) (now t later : ℕ) (b : Box)
    → never_benched cfg node ≡ false
    → (in_cooldown node t later (set_aside cfg node now b)).0
      ≡ (leb t (now + set_aside_for) || (in_cooldown node t later b).0)
unfolding set_aside
set_aside_lasts cfg node now t later b e =
    rw
      (
        e,
        in_cooldown-answer node t later b,
        in_cooldown-answer node t later _,
        update_self b.cooldowns node (later_of (b.cooldowns node) (now + set_aside_for)),
      )
      (kept (b.cooldowns node) (now + set_aside_for))
  where
    kept :
        (o : Option ℕ) (until : ℕ)
        → not (is_past (later_of o until) t) ≡ (leb t until || not (is_past o t))
    kept none until = ground arith
    kept (some cur) until = ground arith
