-- ===== src/Admission/Gate/Enqueue.antt =====
-- `enqueue` keeps every queue within its caps and gives way from below only.
use opod_core.Base.{
  ℕ, suc, ◌-◌, ◌≤◌, ◌<◌, ◌≡◌, refl, sym, subst, ◌⊎◌, inl, inr, true, Option, none, some, arith,
  Bool-cases, ltb,
}
use opod_core.Admission.Classes.{
  Class, critical, standard, sheddable, rank, at, at-put, Floats, ClassConfig,
}
use opod_core.Admission.Flows.{HeldReq, newest_of_largest}
use opod_core.Admission.Flows.Inv.{line_of}
use opod_core.Admission.Flows.Shed.{newest_of_largest_empty}
use opod_core.Admission.Flows.Found.{waits}
use opod_core.Admission.Queues.{victim_among, victim_below}
use opod_core.Admission.Queues.Order.{sound_at, newest_sound}
use opod_core.Admission.Pool.{Gate, count}
use opod_core.Admission.Pool.Inv.{GateInv}
use opod_core.Admission.Gate.{wait_in}
use opod_core.Admission.Gate.Counts.{OneLess}

-- A victim waits, in one of the classes `is`.
pub record Victim (s : Gate) (v : HeldReq) : Type 0 where
  pub waiting_now : waits v (line_of (at s.pool.q v.class)) ≡ true

-- What a step of `victimBelow` finds in one class.
newest_or_none :
    (others : ℕ) (s : Gate) (c : Class)
    → GateInv others s
    → (newest_of_largest (at s.pool.q c) ≡ none)
      ⊎ ((v : HeldReq) × (newest_of_largest (at s.pool.q c) ≡ some v) × Victim s v × (v.class ≡ c))
newest_or_none others s c v = elim (Bool-cases (ltb 0 (at s.pool.q c).n)) [
  | inl e ↦
      let (r, ran, found, own) =
        newest_sound c (at s.pool.q c) (sound_at s.pool.q v.sound c) (ground arith) in
      inr (
        r,
        ran,
        record {
          waiting_now = subst (λ k. waits r (line_of (at s.pool.q k)) ≡ true) (sym own) found;
        },
        own,
      )
  | inr e ↦
      inl (newest_of_largest_empty (at s.pool.q c) (sound_at s.pool.q v.sound c).inv (ground arith))
]

-- What `victimBelow` gives is a waiting request of a lower class.
abbrev pub Below : Gate → Class → Option HeldReq → Type 0
Below s c o = (o ≡ none) ⊎ ((v : HeldReq) × (o ≡ some v) × Victim s v × (rank c < rank v.class))

pub victim_below_lem :
    (others : ℕ) (s : Gate) (c : Class) → GateInv others s → Below s c (victim_below s.pool.q c)
unfolding victim_below victim_among
victim_below_lem others s critical v = elim (newest_or_none others s sheddable v) [
  | inr (w, ran, ok, own) ↦ inr (w, rw ran refl, ok, ground (arith, own))
  | inl e ↦ elim (newest_or_none others s standard v) [
    | inr (w, ran, ok, own) ↦ inr (w, rw (e, ran) refl, ok, ground (arith, own))
    | inl e' ↦ inl (rw (e, e') refl)
  ]
]
victim_below_lem others s standard v = elim (newest_or_none others s sheddable v) [
  | inr (w, ran, ok, own) ↦ inr (w, rw ran refl, ok, ground (arith, own))
  | inl e ↦ inl (rw e refl)
]
victim_below_lem others s sheddable v = inl refl

module _ (f : Floats) (cfg : ClassConfig f) where
  -- Every class within its own cap, all of them within the hold's.
  pub record Capped (s : Gate) : Type 0 where
    pub in_total : s.pool.all ≤ cfg.total
    pub in_class : (c : Class) → (at cfg.max_held c ≡ 0) ⊎ (at s.pool.held c ≤ at cfg.max_held c)

  abbrev pub WithinCap : Class → ℕ → Type 0
  WithinCap c n = (at cfg.max_held c ≡ 0) ⊎ (n ≤ at cfg.max_held c)

  -- One more request of its class, where there is room.
  pub wait_in-Capped :
      (h : HeldReq) (t : Gate)
      → Capped t
      → t.pool.all < cfg.total
      → WithinCap h.class (suc (at t.pool.held h.class))
      → Capped (wait_in h t)
  unfolding wait_in count
  wait_in-Capped h t k room own = record {
    in_total = room;
    in_class = at-put WithinCap t.pool.held h.class _ k.in_class own;
  }

  pub OneLess-Capped : (s t : Gate) (c : Class) → Capped s → OneLess s t c → Capped t
  OneLess-Capped s t c k l = record {
    in_total = omega (arith, k.in_total, l.all_less);
    in_class = rw l.held_less (at-put WithinCap s.pool.held c _ k.in_class (less (k.in_class c)));
  }
    where
      less : WithinCap c (at s.pool.held c) → WithinCap c (at s.pool.held c - 1)
      less (inl e) = inl e
      less (inr e) = inr (omega arith)

-- No class at or above `c` holds fewer requests in `t` than in `s`.
abbrev pub KeepsDownTo : Class → Gate → Gate → Type 0
KeepsDownTo critical s t = s.pool.held.of_critical ≤ t.pool.held.of_critical
KeepsDownTo standard s t =
    (s.pool.held.of_critical ≤ t.pool.held.of_critical)
    × (s.pool.held.of_standard ≤ t.pool.held.of_standard)
KeepsDownTo sheddable s t =
    (s.pool.held.of_critical ≤ t.pool.held.of_critical)
    × (s.pool.held.of_standard ≤ t.pool.held.of_standard)
    × (s.pool.held.of_sheddable ≤ t.pool.held.of_sheddable)

pub keeps_self : (c : Class) (s : Gate) → KeepsDownTo c s s
keeps_self critical s = omega arith
keeps_self standard s = omega arith
keeps_self sheddable s = omega arith

pub keeps_wait : (h : HeldReq) (s : Gate) → KeepsDownTo h.class s (wait_in h s)
unfolding wait_in count
keeps_wait h s = ground arith
