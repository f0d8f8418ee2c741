-- ===== src/Admission/Pool.antt =====
-- One model's pool of worker slots (`pool`, `slotGate`, `admit` of internal/leader/admission.go).
-- A call that holds the gate's lock sees the pool, the process-wide count of held requests and the
-- flags behind each request's pointer: `Gate`. A request and its grant have one identity. `node`
-- is what the router's trace says of each request now. `none` as a result is a Go panic.
pub mod Inv
pub mod Dispatch
pub mod Capacity
pub mod Give
use opod_core.Base.{
  ℕ, zero, suc, ◌+◌, ◌-◌, ◌*◌, ◌≡◌, Bool, true, false, not, ◌&&◌, ◌||◌, List, [], ◌∷◌, Option, none,
  some, String, if◌then◌else◌, ◌==◌, ◌===◌, ltb, leb, mark, keep, length,
}
use opod_core.Admission.Classes.{
  Class, critical, standard, sheddable, rank, same_class, PerClass, at, put, Floats, ClassConfig,
  share_cap,
}
use opod_core.Admission.Flows.{HeldReq, newest_of_largest}
use opod_core.Admission.Queues.{ClassQueues, pop_eligible, victim_below}
use opod_core.Admission.Queues

pub record CapView : Type 0 where
  pub slots : ℕ
  pub ungoverned : ℕ
  pub kv_bound : Bool
  pub reason : String
  pub gen : ℕ
  pub holders : Option (String → Bool)  -- `none` is the nil map

abbrev pub servable : CapView → Bool
servable c = c.reason === ""

abbrev pub bounded : CapView → Bool
bounded c = c.ungoverned == 0

pub record Grant : Type 0 where
  pub id : ℕ
  pub class : Class

pub record Pool : Type 0 where
  pub model : String
  pub cap : CapView
  pub in_use : ℕ
  pub by_class : PerClass ℕ
  pub grants : List Grant
  pub q : ClassQueues
  pub held : PerClass ℕ
  pub all : ℕ

-- `heldReq`'s flags: `queued`, `granted`, and `shedWhy` with the 503 text.
pub data Status : Type 0 where
  idle queued granted : Status
  shed_for : String → String → Status

pub record Gate : Type 0 where
  pub pool : Pool
  pub held_total : ℕ
  pub status : ℕ → Status

abbrev pub same_grant : Grant → Grant → Bool
same_grant g h = g.id == h.id && same_class g.class h.class

abbrev pub has_grant : Grant → List Grant → Bool
has_grant g [] = false
has_grant g (h ∷ hs) = same_grant g h || has_grant g hs

abbrev pub delete_grant : Grant → List Grant → List Grant
delete_grant g [] = []
delete_grant g (h ∷ hs) = let rest = delete_grant g hs in if same_grant g h then hs else h ∷ rest

-- Where a request is in flight, and whether that place is outside the pool.
abbrev pub is_stranded : Option (String → Bool) → String → Bool
is_stranded none n = false
is_stranded (some holders) n = not (n === "" || n === "local" || holders n)

abbrev pub stranded_grants : (ℕ → String) → Pool → List Grant
stranded_grants node p = keep (λ g. is_stranded p.cap.holders (node g.id)) p.grants

abbrev pub of_class : Class → List Grant → List Grant
of_class c = keep (λ g. same_class g.class c)

-- `stranded`: in all, and of one class.
abbrev pub stranded : (ℕ → String) → Pool → ℕ
stranded node p = length (stranded_grants node p)

abbrev pub stranded_of : (ℕ → String) → Pool → Class → ℕ
stranded_of node p c = length (of_class c (stranded_grants node p))

unfoldable pub take : HeldReq → Pool → Pool
take h p = record p {
  grants = record { id = h.id; class = h.class } ∷ p.grants;
  in_use = suc p.in_use;
  by_class = put p.by_class h.class (suc (at p.by_class h.class));
}

-- A grant that is not among the pool's is given back already.
unfoldable pub give : Grant → Pool → Pool
give g p =
    if has_grant g p.grants
    then record p {
      grants = delete_grant g p.grants;
      by_class = put p.by_class g.class (at p.by_class g.class - 1);
      in_use = p.in_use - 1;
    }
    else p

unfoldable pub count : HeldReq → Gate → Gate
count h s = record s {
  pool = record (s.pool) {
    held = put s.pool.held h.class (suc (at s.pool.held h.class));
    all = suc s.pool.all;
  };
  held_total = suc s.held_total;
}

unfoldable pub uncount : HeldReq → Gate → Gate
uncount h s = record s {
  pool = record (s.pool) {
    held = put s.pool.held h.class (at s.pool.held h.class - 1);
    all = s.pool.all - 1;
  };
  held_total = s.held_total - 1;
}

abbrev pub with_queues : ClassQueues → Gate → Gate
with_queues c s = record s { pool = record (s.pool) { q = c } }

abbrev pub with_status : ℕ → Status → Gate → Gate
with_status id st s = record s { status = mark s.status id st }

abbrev pub shed_rest : HeldReq → String → String → Gate → Option (Bool × ClassQueues) → Option Gate
unfolding uncount
shed_rest h why reason s none = none
shed_rest h why reason s (some (b, c)) =
    some (uncount h (with_status h.id (shed_for why reason) (with_queues c s)))

unfoldable pub shed : HeldReq → String → String → Gate → Option Gate
unfolding uncount
shed h why reason s = shed_rest h why reason s (Queues.remove s.pool.q h)

-- One request that left the queue by the gate's hand gets its slot.
unfoldable pub grant_to : HeldReq → ClassQueues → Gate → Gate
unfolding take uncount
grant_to h c s =
    let t = uncount h (with_status h.id granted (with_queues c s)) in
    record t { pool = take h t.pool }

module _ (f : Floats) (cfg : ClassConfig f) (node : ℕ → String) where
  -- Whether a request of the class may take a slot now. The Go code subtracts the stranded
  -- requests on the left; here they stand on the right, which is the same on integers.
  unfoldable pub can_grant : Pool → Class → Bool
  can_grant p class =
      if not (servable p.cap)
      then false
      else if not (bounded p.cap)
      then true
      else if ltb p.in_use p.cap.slots
          && ltb (at p.by_class class) (share_cap f cfg class p.cap.slots)
      then true
      else ltb p.in_use (p.cap.slots + stranded node p)
        && ltb (at p.by_class class) (share_cap f cfg class p.cap.slots + stranded_of node p class)

  abbrev pub dispatched :
      (Gate → Option Gate) → Gate → Option (Option HeldReq × ClassQueues) → Option Gate
  dispatched again s none = none
  dispatched again s (some (none, c)) = some (with_queues c s)
  dispatched again s (some (some h, c)) = again (grant_to h c s)

  -- `for p.all > 0` on fuel; `none` also when the fuel runs out.
  unfoldable pub dispatch_loop : ℕ → Gate → Option Gate
  unfolding grant_to
  dispatch_loop zero s = if s.pool.all == 0 then some s else none
  dispatch_loop (suc fuel) s =
      let round = dispatched (dispatch_loop fuel) s (pop_eligible (can_grant s.pool) s.pool.q) in
      if s.pool.all == 0 then some s else round

  -- Each round grants one of the `all` requests that wait.
  unfoldable pub dispatch : Gate → Option Gate
  unfolding dispatch_loop
  dispatch s = dispatch_loop s.pool.all s
