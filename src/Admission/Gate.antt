-- ===== src/Admission/Gate.antt =====
-- What the request path and the capacity path do with a pool: `setCap`, `enqueue`, `withdraw`,
-- `releaser`, `admit`, `admissionBound` and `busyReason` of internal/leader/admission.go.
-- The store and the clock are arguments: a computed view, and the time since the request started.
-- `none` as a result is a Go panic.
pub mod Counts
pub mod Enqueue
pub mod Caps
pub mod Safe
pub mod Shedding
pub mod Capacity
use opod_core.Base.{
  ℕ, zero, suc, ◌+◌, ◌-◌, ◌*◌, ◌%◌, ◌≡◌, Bool, true, false, not, ◌&&◌, ◌||◌, List, [], ◌∷◌, Option,
  none, some, String, if◌then◌else◌, ◌==◌, ◌===◌, ltb, leb,
}
use opod_core.Admission.Classes.{
  Class, critical, standard, sheddable, PerClass, at, put, Floats, ClassConfig, class_of,
}
use opod_core.Admission.Flows.{HeldReq, newest_of_largest}
use opod_core.Admission.Queues.{victim_below}
use opod_core.Admission.Queues
use opod_core.Admission.Pool.{
  CapView, servable, bounded, Grant, Pool, Gate, Status, idle, queued, granted, shed_for, take,
  give, count, uncount, with_queues, with_status, shed, can_grant, dispatch,
}

abbrev pub shed_next : (Gate → Option Gate) → String → Gate → Option HeldReq → Option Gate
shed_next again reason s none = none
shed_next again reason s (some h) = shed_then again (shed h "unavailable" reason s)
  where
    shed_then : (Gate → Option Gate) → Option Gate → Option Gate
    shed_then again none = none
    shed_then again (some t) = again t

-- `for p.q.q[class].n > 0`, on fuel.
unfoldable pub shed_class : ℕ → Class → String → Gate → Option Gate
unfolding shed
shed_class zero class reason s = if (at s.pool.q class).n == 0 then some s else none
shed_class (suc fuel) class reason s =
    let round =
      shed_next (shed_class fuel class reason) reason s (newest_of_largest (at s.pool.q class)) in
    if (at s.pool.q class).n == 0 then some s else round

abbrev pub then_class : List Class → (List Class → Gate → Option Gate) → Option Gate → Option Gate
then_class is next none = none
then_class is next (some s) = next is s

unfoldable pub wait_in : HeldReq → Gate → Gate
unfolding count
wait_in h s = count h (with_queues (Queues.push s.pool.q h) (with_status h.id queued s))

abbrev pub then_wait : HeldReq → Option Gate → Option (Bool × Gate)
then_wait h none = none
then_wait h (some s) = some (true, wait_in h s)

-- The hold is full: someone of a lower class makes room, or the request itself is refused.
abbrev pub make_room : HeldReq → Gate → Option HeldReq → Option (Bool × Gate)
make_room h s none = some (false, s)
make_room h s (some v) = then_wait h (shed v "evicted" "" s)

abbrev pub is_queued : Status → Bool
is_queued queued = true
is_queued _ = false

abbrev pub withdrawn : HeldReq → Gate → Option (Bool × Queues.ClassQueues) → Option (Bool × Gate)
unfolding uncount
withdrawn h s none = none
withdrawn h s (some (b, c)) = some (true, uncount h (with_status h.id idle (with_queues c s)))

unfoldable pub withdraw : HeldReq → Gate → Option (Bool × Gate)
unfolding uncount
withdraw h s =
    if is_queued (s.status h.id) then withdrawn h s (Queues.remove s.pool.q h) else some (false, s)

unfoldable pub busy_reason : (String → ℕ → String) → CapView → String → String
busy_reason busy_text cv model = if not (servable cv) then cv.reason else busy_text model cv.slots

-- What `admit` answers before it waits.
pub data Answer : Type 0 where
  admitted : Grant → Answer
  unavailable : String → Answer
  deadline_passed : Answer
  over_cap : Answer
  waits_for : Option ℕ → Answer  -- the nanoseconds it may wait; `none` = no deadline

abbrev pub ns_per_ms : ℕ
ns_per_ms = 1000000

-- `time.Duration(ms) * time.Millisecond`, which wraps at 64 bits; a budget below 0 is treated as none
-- wherever it is asked for, so it is 0 here.
abbrev pub budget_of : ℕ → ℕ
budget_of ms =
    let ns = (ms * ns_per_ms) % 18446744073709551616 in if ltb ns 9223372036854775808 then ns else 0

abbrev pub grant_of : HeldReq → Grant
grant_of h = record { id = h.id; class = h.class }

abbrev pub is_granted : Status → Bool
is_granted granted = true
is_granted _ = false

abbrev pub queued_answer : HeldReq → ℕ → ℕ → Option Gate → Option (Answer × Gate)
queued_answer h budget elapsed none = none
queued_answer h budget elapsed (some s) =
    if is_granted (s.status h.id)
    then some (admitted (grant_of h), s)
    else some (waits_for (if ltb 0 budget then some (budget - elapsed) else none), s)

module _ (f : Floats) (cfg : ClassConfig f) where
  unfoldable pub enqueue : HeldReq → Gate → Option (Bool × Gate)
  unfolding wait_in shed
  enqueue h s =
      if ltb 0 (at cfg.max_held h.class) && leb (at cfg.max_held h.class) (at s.pool.held h.class)
      then some (false, s)
      else if leb cfg.total s.pool.all
      then make_room h s (victim_below s.pool.q h.class)
      else some (true, wait_in h s)

module _ (f : Floats) (cfg : ClassConfig f) (node : ℕ → String) where
  -- The classes that wait with no budget are shed when nothing can serve.
  unfoldable pub shed_unheld : List Class → String → Gate → Option Gate
  unfolding shed_class
  shed_unheld [] reason s = some s
  shed_unheld (class ∷ is) reason s =
      let kept = shed_unheld is reason s in
      let shed_first =
        then_class is (λ is' t. shed_unheld is reason t)
          (shed_class (at s.pool.q class).n class reason s) in
      if ltb 0 (at cfg.hold_ms class) then kept else shed_first

  abbrev pub then_dispatch : Option Gate → Option Gate
  then_dispatch none = none
  then_dispatch (some s) = dispatch f cfg node s

  unfoldable pub set_cap : CapView → Gate → Option Gate
  unfolding shed_unheld
  set_cap c s =
      let t = record s { pool = record (s.pool) { cap = c } } in
      let installed =
        then_dispatch
          (if not (servable c) then shed_unheld Queues.by_rank c.reason t else some t) in
      if ltb c.gen s.pool.cap.gen then some s else installed

  -- The release of one granted request: what its `sync.Once` has let through so far, and the gate.
  unfoldable pub release : Grant → Bool → Gate → Option Gate
  unfolding give
  release g released s =
      let completed = dispatch f cfg node (record s { pool = give g s.pool }) in
      if released then some s else completed

  abbrev pub enqueue_answer : HeldReq → ℕ → ℕ → Option (Bool × Gate) → Option (Answer × Gate)
  enqueue_answer h budget elapsed none = none
  enqueue_answer h budget elapsed (some (false, s)) = some (over_cap, s)
  enqueue_answer h budget elapsed (some (true, s)) =
      queued_answer h budget elapsed (dispatch f cfg node s)

  -- `admit` for the request `h` at the view `cv`, `elapsed` nanoseconds after it reached dispatch.
  unfoldable pub admit : HeldReq → CapView → ℕ → Gate → Option (Answer × Gate)
  unfolding take enqueue
  admit h cv elapsed s =
      let budget = budget_of (at cfg.hold_ms h.class) in
      if s.pool.all == 0 && can_grant f cfg node s.pool h.class
      then some (admitted (grant_of h), record s { pool = take h s.pool })
      else if not (servable cv) && budget == 0
      then some (unavailable cv.reason, s)
      else if ltb 0 budget && leb budget elapsed
      then some (deadline_passed, s)
      else enqueue_answer h budget elapsed (enqueue f cfg h s)
