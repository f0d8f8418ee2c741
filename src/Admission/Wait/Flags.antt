-- ===== src/Admission/Wait/Flags.antt =====
-- The flag of a request stays true while others arrive and are granted slots.
use opod_core.Base.{
  ℕ, ◌≡◌, refl, sym, ap, subst, true, false, not, ◌&&◌, ◌||◌, Bool, List, [], ◌∷◌, ◌++◌, some,
  some_inj, String, arith, eq_iff, ◌==◌, ◌===◌, contains, mark, All, Bool-cases, inl, inr,
}
use opod_core.Admission.Classes.{
  Class, same_class, at, put, at-put, at-put_self, Floats, ClassConfig,
}
use opod_core.Admission.Flows.{HeldReq, DrrQueue}
use opod_core.Admission.Flows.Ring.{Distinct}
use opod_core.Admission.Flows.Order.{order}
use opod_core.Admission.Flows.Inv.{Flows, Line, line, line_of}
use opod_core.Admission.Flows.Visit.{serve_head}
use opod_core.Admission.Flows.Push.{join_line, push-refines}
use opod_core.Admission.Flows
use opod_core.Admission.Queues
use opod_core.Admission.Flows.Found.{waits, has_req}
use opod_core.Admission.Queues.Order.{sound_at}
use opod_core.Admission.Queues.Rank.{Served}
use opod_core.Admission.Pool.{Gate, queued, count, grant_to, dispatch, has_grant}
use opod_core.Admission.Pool.Inv.{GateInv}
use opod_core.Admission.Pool.Dispatch.{dispatch_settles}
use opod_core.Admission.Gate.{is_queued, is_granted, grant_of, wait_in}
use opod_core.Admission.Wait.Ends.{FlagTrue}

abbrev keys : Line → List String
keys [] = []
keys ((x, rs) ∷ l) = x ∷ keys l

keys-line : (flows : Flows) (ids : List String) → keys (line flows ids) ≡ ids
keys-line flows [] = refl
keys-line flows (x ∷ ids) = ap (◌∷◌ x) (keys-line flows ids)

-- A request with the id of `h` is of its class.
abbrev pub IsOwn : HeldReq → HeldReq → Type 0
IsOwn h r = (not (r.id == h.id) || same_class r.class h.class) ≡ true

abbrev pub OwnLine : HeldReq → Line → Type 0
OwnLine h [] = Unit
OwnLine h ((x, rs) ∷ l) = All (IsOwn h) rs × OwnLine h l

OwnLine-append : (h : HeldReq) (l m : Line) → OwnLine h l → OwnLine h m → OwnLine h (l ++ m)
OwnLine-append h [] m a b = b
OwnLine-append h ((x, rs) ∷ l) m a b = (a.0, OwnLine-append h l m a.1 b)

serve-OwnLine :
    (h r : HeldReq) (l : Line)
    → OwnLine h l
    → (serve_head l).0 ≡ some r
    → IsOwn h r × OwnLine h (serve_head l).1
serve-OwnLine h r [] o e = cc
serve-OwnLine h r ((x, []) ∷ l) o e = cc
serve-OwnLine h r ((x, y ∷ []) ∷ l) o e = (subst (IsOwn h) (some_inj e) (o.0.0), o.1)
serve-OwnLine h r ((x, y ∷ z ∷ rs) ∷ l) o e =
    (subst (IsOwn h) (some_inj e) (o.0.0), OwnLine-append h l ((x, z ∷ rs) ∷ []) o.1 (o.0.1, tt))

waits_before : (h : HeldReq) (l m : Line) → waits h l ≡ true → waits h (l ++ m) ≡ true
waits_before h [] m w = cc
waits_before h ((x, rs) ∷ l) m w = elim (Bool-cases (x === h.flow)) [
  | inl e ↦ rw e (rw e at w)
  | inr e ↦ rw e (waits_before h l m (rw e at w))
]

waits_last :
    (h : HeldReq) (l : Line) (id : String) (rs : List HeldReq)
    → contains (keys l) h.flow ≡ false
    → (id === h.flow) ≡ true
    → has_req h.id rs ≡ true
    → waits h (l ++ (id, rs) ∷ []) ≡ true
waits_last h [] id rs c e w = rw e w
waits_last h ((x, ys) ∷ l) id rs c e w = elim (Bool-cases (x === h.flow)) [
  | inl f ↦ absurd (first (contains (keys l) h.flow) f c)
  | inr f ↦ rw f (waits_last h l id rs (rw f at c) e w)
]
  where
    first : (b : Bool) → (x === h.flow) ≡ true → ((x === h.flow) || b) ≡ false → ⊥
    first b f c = ground arith

-- Serving another request leaves this one in the line.
serve-waits :
    (h r : HeldReq) (l : Line)
    → Distinct (keys l)
    → (serve_head l).0 ≡ some r
    → (r.id == h.id) ≡ false
    → waits h l ≡ true
    → waits h (serve_head l).1 ≡ true
serve-waits h r [] d e other w = cc
serve-waits h r ((x, []) ∷ l) d e other w = cc
serve-waits h r ((x, y ∷ []) ∷ l) d e other w = elim (Bool-cases (x === h.flow)) [
  | inr f ↦ rw f at w
  | inl f ↦ absurd (
      missing (y.id == h.id) (subst (λ z. (z.id == h.id) ≡ false) (sym (some_inj e)) other)
        (rw f at w))
]
  where
    missing : (b : Bool) → b ≡ false → (b || false) ≡ true → ⊥
    missing b f g = ground arith
serve-waits h r ((x, y ∷ z ∷ rs) ∷ l) d e other w = elim (Bool-cases (x === h.flow)) [
  | inr f ↦ waits_before h l ((x, z ∷ rs) ∷ []) (rw f at w)
  | inl f ↦
      waits_last h l x (z ∷ rs)
        (subst (λ k. contains (keys l) k ≡ false) ((eq_iff x h.flow).0 f) d.0) f
        (rest (y.id == h.id) (has_req h.id (z ∷ rs))
          (subst (λ z. (z.id == h.id) ≡ false) (sym (some_inj e)) other) (rw f at w))
]
  where
    rest : (a b : Bool) → a ≡ false → (a || b) ≡ true → b ≡ true
    rest a b f g = ground arith

-- No waiting request shares the id of `h` from another class.
abbrev pub OwnId : HeldReq → Gate → Type 0
OwnId h s = (c : Class) → OwnLine h (line_of (at s.pool.q c))

-- One request gets a slot: its own flag says so, and every other flag stays true.
grant_to-FlagTrue :
    (others : ℕ) (eligible : Class → Bool) (h : HeldReq) (s : Gate) (r : HeldReq) (q : DrrQueue)
    → GateInv others s
    → Served eligible s.pool.q r q
    → FlagTrue h s
    → OwnId h s
    → FlagTrue h (grant_to r (put s.pool.q r.class q) s)
      × OwnId h (grant_to r (put s.pool.q r.class q) s)
unfolding grant_to
grant_to-FlagTrue others eligible h s r q v served flag own = (
  elim (Bool-cases (r.id == h.id)) [
    | inl same ↦ record {
      queued_waits = rw same refl;
      granted_holds = rw same (
          holds (r.id == h.id) (h.id == r.id) (same_class r.class h.class)
            (same_class h.class r.class) same (turned r.id h.id) (class_turned r.class h.class)
            own_r);
    }
    | inr other ↦ record {
      queued_waits = rw other (
          at-put
            (λ c k. (c ≡ h.class) → (not (is_queued (s.status h.id)) || waits h (line_of k)) ≡ true)
            s.pool.q r.class q
            (λ c e.
              subst
                (λ d. (not (is_queued (s.status h.id)) || waits h (line_of (at s.pool.q d))) ≡ true)
                (sym e) flag.queued_waits)
            (λ e.
              still (is_queued (s.status h.id)) (waits h (line_of (at s.pool.q r.class)))
                (subst
                  (λ d.
                    (not (is_queued (s.status h.id)) || waits h (line_of (at s.pool.q d))) ≡ true)
                  (sym e) flag.queued_waits)
                (left other))
            h.class refl);
      granted_holds = rw other (
          more (is_granted (s.status h.id)) _ (has_grant (grant_of h) s.pool.grants)
            flag.granted_holds);
    }
  ],
  at-put (λ c k. OwnLine h (line_of k)) s.pool.q r.class q own
      (subst (OwnLine h) (sym served.line_left) turn.1),
)
  where
    turn : IsOwn h r × OwnLine h (serve_head (line_of (at s.pool.q r.class))).1
    turn = serve-OwnLine h r (line_of (at s.pool.q r.class)) (own r.class) served.first

    own_r : (not (r.id == h.id) || same_class r.class h.class) ≡ true
    own_r = turn.0

    distinct : Distinct (keys (line_of (at s.pool.q r.class)))
    distinct =
        subst Distinct
          (sym (
            keys-line (at s.pool.q r.class).flows
              (order (at s.pool.q r.class).pos (at s.pool.q r.class).ring)))
          (sound_at s.pool.q v.sound r.class).inv.holds.distinct

    left :
        (r.id == h.id) ≡ false
        → waits h (line_of (at s.pool.q r.class)) ≡ true
        → waits h (line_of q) ≡ true
    left other w =
        subst (λ l. waits h l ≡ true) (sym served.line_left)
          (serve-waits h r (line_of (at s.pool.q r.class)) distinct served.first other w)

    still :
        (a b : Bool)
        → (not a || b) ≡ true
        → (b ≡ true → waits h (line_of q) ≡ true)
        → (not a || waits h (line_of q)) ≡ true
    still true true e k = k refl
    still true false e k = cc
    still false b e k = refl

    turned : (a b : ℕ) → (a == b) ≡ (b == a)
    turned a b = ground arith

    class_turned : (a b : Class) → same_class a b ≡ same_class b a
    class_turned a b = ground arith

    holds :
        (a a' b b' : Bool)
        → a ≡ true
        → a ≡ a'
        → b ≡ b'
        → (not a || b) ≡ true
        → ((a' && b') || has_grant (grant_of h) s.pool.grants) ≡ true
    holds a a' b b' e f g k = ground arith

    more : (a b c : Bool) → (not a || c) ≡ true → (not a || (b || c)) ≡ true
    more a b c e = ground arith

-- `dispatch` keeps the flag of a request true, whoever it grants slots to, where no request of another
-- class shares its id.
pub dispatch-FlagTrue :
    (f : Floats) (cfg : ClassConfig f) (node : ℕ → String) (others : ℕ) (h : HeldReq) (s : Gate)
    → GateInv others s
    → OwnId h s
    → FlagTrue h s
    → (t : Gate) × (dispatch f cfg node s ≡ some t) × FlagTrue h t × OwnId h t
dispatch-FlagTrue f cfg node others h s v own flag =
    let (t, ran, inv, kept, blocked) =
      dispatch_settles f cfg node others (λ u. FlagTrue h u × OwnId h u)
        (λ u r q w served p. grant_to-FlagTrue others _ h u r q w served p.0 p.1) s v (flag, own) in
    (t, ran, kept.0, kept.1)

waits-join : (h : HeldReq) (l : Line) → waits h (join_line h l) ≡ true
waits-join h [] = rw ((eq_iff h.flow h.flow).1 refl) (same h.id)
  where
    same : (n : ℕ) → (n == n || false) ≡ true
    same n = ground arith
waits-join h ((x, rs) ∷ l) = elim (Bool-cases (x === h.flow)) [
  | inl e ↦ rw (e, e) (at_end rs)
  | inr e ↦ rw (e, e) (waits-join h l)
]
  where
    at_end : (rs : List HeldReq) → has_req h.id (rs ++ h ∷ []) ≡ true
    at_end [] = same h.id
      where
        same : (n : ℕ) → (n == n || false) ≡ true
        same n = ground arith
    at_end (r ∷ rs) = later (r.id == h.id) (has_req h.id (rs ++ h ∷ [])) (at_end rs)
      where
        later : (a b : Bool) → b ≡ true → (a || b) ≡ true
        later a b e = ground arith

-- The flag of a request that starts to wait is true.
pub wait_in-FlagTrue :
    (others : ℕ) (h : HeldReq) (s : Gate) → GateInv others s → FlagTrue h (wait_in h s)
unfolding wait_in count Queues.push
wait_in-FlagTrue others h s v = record {
  queued_waits = queued_so (waits-pushed);
  granted_holds = rw (own_id h.id) refl;
}
  where
    own_id : (i : ℕ) → mark s.status i queued i ≡ queued
    own_id i = ground arith

    waits-pushed : waits h (line_of (Flows.push (at s.pool.q h.class) h)) ≡ true
    waits-pushed =
        rw ((push-refines (at s.pool.q h.class) h (sound_at s.pool.q v.sound h.class).inv).2)
          (waits-join h (line_of (at s.pool.q h.class)))

    queued_so :
        waits h (line_of (Flows.push (at s.pool.q h.class) h)) ≡ true
        → (not (is_queued (mark s.status h.id queued h.id))
            || waits h
                (line_of (at (put s.pool.q h.class (Flows.push (at s.pool.q h.class) h)) h.class)))
          ≡ true
    queued_so w =
        rw (own_id h.id, at-put_self s.pool.q h.class (Flows.push (at s.pool.q h.class) h)) w
