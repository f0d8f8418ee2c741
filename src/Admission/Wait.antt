-- ===== src/Admission/Wait.antt =====
-- How a request that waits in the hold ends: the second half of `admit` of
-- internal/leader/admission.go, from its `select` on. `none` as a result is a Go panic.
pub mod Ends
pub mod Flags
use opod_core.Base.{ℕ, Bool, true, false, Option, none, some, String, if◌then◌else◌, ◌===◌}
use opod_core.Admission.Classes.{Floats, ClassConfig}
use opod_core.Admission.Flows.{HeldReq}
use opod_core.Admission.Pool.{Grant, Gate, Status, granted, shed_for}
use opod_core.Admission.Gate.{withdraw, release, is_granted, grant_of}

-- What wakes the request: the gate closed `done`, its budget is spent, or its caller went away.
pub data Wake : Type 0 where
  by_gate by_deadline by_cancel : Wake

-- What `admit` returns then.
pub data Ending : Type 0 where
  served : Grant → Ending
  shed_unavailable : String → Ending
  shed_evicted shed_deadline cancelled : Ending

abbrev pub shed_ending : String → String → Ending
shed_ending why reason = if why === "unavailable" then shed_unavailable reason else shed_evicted

abbrev pub ending_of : HeldReq → Status → Ending
ending_of h granted = served (grant_of h)
ending_of h (shed_for why reason) = shed_ending why reason
ending_of h _ = shed_evicted

-- The request has left the queue by the gate's hand.
abbrev pub left_by_gate : HeldReq → Gate → Option (Ending × Gate)
left_by_gate h s = some (ending_of h (s.status h.id), s)

abbrev pub past_deadline : HeldReq → Option (Bool × Gate) → Option (Ending × Gate)
past_deadline h none = none
past_deadline h (some (true, s)) = some (shed_deadline, s)
past_deadline h (some (false, s)) = left_by_gate h s

abbrev pub given_up : Option Gate → Option (Ending × Gate)
given_up none = none
given_up (some s) = some (cancelled, s)

module _ (f : Floats) (cfg : ClassConfig f) (node : ℕ → String) where
  -- A slot that was granted at the same moment is given straight back.
  abbrev pub past_cancel : HeldReq → Option (Bool × Gate) → Option (Ending × Gate)
  past_cancel h none = none
  past_cancel h (some (true, s)) = some (cancelled, s)
  past_cancel h (some (false, s)) =
      let gives_back = given_up (release f cfg node (grant_of h) false s) in
      if is_granted (s.status h.id) then gives_back else some (cancelled, s)

  unfoldable pub resume : HeldReq → Wake → Gate → Option (Ending × Gate)
  unfolding withdraw release
  resume h by_gate s = left_by_gate h s
  resume h by_deadline s = past_deadline h (withdraw h s)
  resume h by_cancel s = past_cancel h (withdraw h s)
