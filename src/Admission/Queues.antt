-- ===== src/Admission/Queues.antt =====
-- The waiting room of a pool, one queue for each class (`classQueues` of
-- internal/leader/admission_classes.go). `none` as a result is a Go panic.
pub mod Order
pub mod Rank
use opod_core.Base.{
  ℕ, ◌+◌, Bool, true, false, not, ◌||◌, List, [], ◌∷◌, Option, none, some, if◌then◌else◌, ◌==◌,
}
use opod_core.Admission.Classes.{Class, critical, standard, sheddable, PerClass, at, put}
use opod_core.Admission.Flows.{HeldReq, DrrQueue}
use opod_core.Admission.Flows

abbrev pub ClassQueues : Type 0
ClassQueues = PerClass DrrQueue

unfoldable pub push : ClassQueues → HeldReq → ClassQueues
push c h = put c h.class (Flows.push (at c h.class) h)

abbrev pub put_removed :
    ClassQueues → Class → Option (Bool × DrrQueue) → Option (Bool × ClassQueues)
put_removed c i none = none
put_removed c i (some (b, q)) = some (b, put c i q)

unfoldable pub remove : ClassQueues → HeldReq → Option (Bool × ClassQueues)
remove c h = put_removed c h.class (Flows.remove (at c h.class) h)

unfoldable pub total : ClassQueues → ℕ
total c = c.of_critical.n + c.of_standard.n + c.of_sheddable.n

-- The rest of the loop after one class was asked.
abbrev pub asked :
    ClassQueues
    → Class
    → (ClassQueues → Option (Option HeldReq × ClassQueues))
    → Option (Option HeldReq × DrrQueue)
    → Option (Option HeldReq × ClassQueues)
asked c i next none = none
asked c i next (some (some h, q)) = some (some h, put c i q)
asked c i next (some (none, q)) = next (put c i q)

unfoldable pub pop_among :
    (Class → Bool) → List Class → ClassQueues → Option (Option HeldReq × ClassQueues)
pop_among eligible [] c = some (none, c)
pop_among eligible (i ∷ is) c =
    let skipped = pop_among eligible is c in
    let taken = asked c i (pop_among eligible is) (Flows.pop (at c i)) in
    if (at c i).n == 0 || not (eligible i) then skipped else taken

abbrev pub by_rank : List Class
by_rank = critical ∷ standard ∷ sheddable ∷ []

unfoldable pub pop_eligible : (Class → Bool) → ClassQueues → Option (Option HeldReq × ClassQueues)
unfolding pop_among
pop_eligible eligible c = pop_among eligible by_rank c

unfoldable pub pop : ClassQueues → Option (Option HeldReq × ClassQueues)
unfolding pop_eligible
pop c = pop_eligible (λ _. true) c

-- The classes below one, the lowest first.
abbrev pub below : Class → List Class
below critical = sheddable ∷ standard ∷ []
below standard = sheddable ∷ []
below sheddable = []

abbrev pub or_next : Option HeldReq → Option HeldReq → Option HeldReq
or_next none rest = rest
or_next (some h) rest = some h

unfoldable pub victim_among : List Class → ClassQueues → Option HeldReq
victim_among [] c = none
victim_among (i ∷ is) c = or_next (Flows.newest_of_largest (at c i)) (victim_among is c)

unfoldable pub victim_below : ClassQueues → Class → Option HeldReq
unfolding victim_among
victim_below c class = victim_among (below class) c
