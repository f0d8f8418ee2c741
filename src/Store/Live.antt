-- ===== src/Store/Live.antt =====
-- Whether a node takes new work, and the state to show for it (internal/store/nodelive.go).
-- A time is the nanoseconds since some moment before every other, so `now.Sub(t) <= age` is
-- `now ≤ t + age`; a bound that is not positive is the number 0. A reason is what it is about, since
-- only its text rounds the age.
use opod_core.Base.{
  ℕ, ◌+◌, ◌*◌, ◌≡◌, refl, sym, Bool, true, false, not, ◌&&◌, ◌||◌, Option, none, some, String,
  arith, if◌then◌else◌, ◌==◌, ◌===◌, ltb, leb, Bool-cases, inl, inr, ℤ, clip,
}

abbrev pub ns_per_second : ℕ
ns_per_second = 1000000000

abbrev pub default_heartbeat_max_age : ℕ
default_heartbeat_max_age = 60 * ns_per_second

unfoldable pub heartbeat_bound : ℤ → ℕ
heartbeat_bound seconds =
    if ltb 0 (clip seconds) then clip seconds * ns_per_second else default_heartbeat_max_age

pub record Node : Type 0 where
  pub id : String
  pub hostname : String
  pub address : String
  pub state : String
  pub last_heartbeat : ℕ
  pub engine_silent_since : Option ℕ  -- `none` is the zero time

abbrev pub silent_past : ℕ → ℕ → Option ℕ → Bool
silent_past bound now none = false
silent_past bound now (some t) =
    ltb (t + (if bound == 0 then default_heartbeat_max_age else bound)) now

unfoldable pub engine_silent : Node → ℕ → ℕ → Bool
engine_silent n bound now = silent_past bound now n.engine_silent_since

unfoldable pub alive : Node → ℕ → ℕ → Bool
alive n max_age now =
    if n.id === "local" || max_age == 0 then true else leb now (n.last_heartbeat + max_age)

-- The states that serve: ready, joining and the empty one.
abbrev pub serving : String → Bool
serving s = s === "ready" || s === "joining" || s === ""

pub data Reason : Type 0 where
  in_state : String → Reason
  no_heartbeat : Reason
  no_engine : Reason

unfoldable pub why_no_part_work : Node → ℕ → ℕ → Option Reason
unfolding alive
why_no_part_work n max_age now =
    if not (serving n.state)
    then some (in_state n.state)
    else if not (alive n max_age now)
    then some no_heartbeat
    else none

unfoldable pub why_no_new_work : Node → ℕ → ℕ → Option Reason
unfolding alive engine_silent
why_no_new_work n max_age now =
    if not (serving n.state)
    then some (in_state n.state)
    else if not (alive n max_age now)
    then some no_heartbeat
    else if engine_silent n max_age now
    then some no_engine
    else none

abbrev pub is_none : Option Reason → Bool
is_none none = true
is_none (some w) = false

abbrev pub takes_part_work : Node → ℕ → ℕ → Bool
takes_part_work n max_age now = is_none (why_no_part_work n max_age now)

abbrev pub takes_new_work : Node → ℕ → ℕ → Bool
takes_new_work n max_age now = is_none (why_no_new_work n max_age now)

unfoldable pub state_when_silent : String → String
state_when_silent state = if serving state then "lost" else state

unfoldable pub live_state : Node → ℕ → ℕ → String
unfolding alive engine_silent state_when_silent
live_state n max_age now =
    if not (alive n max_age now)
    then state_when_silent n.state
    else if engine_silent n max_age now && state_when_silent n.state === "lost"
    then "engine-silent"
    else n.state

-- The state that is shown says whether the node takes new work: it does exactly when that state is
-- a serving one.
pub takes_new_work_lem :
    (n : Node) (max_age now : ℕ) → takes_new_work n max_age now ≡ serving (live_state n max_age now)
unfolding why_no_new_work live_state state_when_silent
takes_new_work_lem n max_age now = elim (Bool-cases (serving n.state)) [
  | inl up ↦ elim (Bool-cases (alive n max_age now)) [
    | inl here ↦ elim (Bool-cases (engine_silent n max_age now)) [
      | inl mute ↦ rw (up, here, mute) refl
      | inr speaks ↦ rw (up, here, speaks, up) refl
    ]
    | inr gone ↦ rw (up, gone) refl
  ]
  | inr down ↦ stays (alive n max_age now) (engine_silent n max_age now) n.state down
]
  where
    stays :
        (here mute : Bool) (state : String)
        → serving state ≡ false
        → is_none (
            if not (serving state)
            then some (in_state state)
            else if not here
            then some no_heartbeat
            else if mute
            then some no_engine
            else none)
          ≡ serving (
              if not here
              then (if serving state then "lost" else state)
              else if mute && (if serving state then "lost" else state) === "lost"
              then "engine-silent"
              else state)
    stays false mute state down = rw down (sym down)
    stays true false state down = rw down refl
    stays true true state down = elim (Bool-cases (state === "lost")) [
      | inl lost ↦ rw (down, lost) refl
      | inr kept ↦ rw (down, kept, down) refl
    ]

-- A part's node is judged like a node that serves by itself, but for the silence of its engine.
pub takes_part_work_lem :
    (n : Node) (max_age now : ℕ)
    → takes_new_work n max_age now
      ≡ (takes_part_work n max_age now && not (engine_silent n max_age now))
unfolding why_no_new_work why_no_part_work
takes_part_work_lem n max_age now = ground arith

-- A node that was drained, or is in any state that does not serve, is shown as it is stored, unless
-- it was stored as lost.
live_state_kept :
    (n : Node) (max_age now : ℕ)
    → serving n.state ≡ false
    → (n.state === "lost") ≡ false
    → live_state n max_age now ≡ n.state
unfolding live_state state_when_silent
live_state_kept n max_age now down stored = ground arith
