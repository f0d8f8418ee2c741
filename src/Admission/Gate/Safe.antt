-- ===== src/Admission/Gate/Safe.antt =====
-- Arrivals, completions and withdrawals in any order keep the gate safe.
use opod_core.Base.{
  ℕ, ◌-◌, ◌<◌, ◌≡◌, refl, sym, subst, inl, inr, Bool, true, false, not, ◌&&◌, Option, none, some,
  String, arith, if◌then◌else◌, ◌==◌, Bool-cases, ltb, leb,
}
use opod_core.Admission.Classes.{at, put, at-put, Floats, ClassConfig}
use opod_core.Admission.Flows.{HeldReq, DrrQueue}
use opod_core.Admission.Pool.{
  CapView, servable, Grant, Gate, give, has_grant, grant_to, take, can_grant, dispatch,
}
use opod_core.Admission.Pool.Inv.{GateInv}
use opod_core.Admission.Pool.Dispatch.{dispatch_settles}
use opod_core.Admission.Pool.Capacity.{Within, grant_to-Within}
use opod_core.Admission.Pool.Give.{with_pool, given, given-Inv, given-Within}
use opod_core.Admission.Gate.{
  Answer, admitted, unavailable, deadline_passed, over_cap, waits_for, admit, release, enqueue,
  enqueue_answer, queued_answer, is_granted, grant_of, budget_of,
}
use opod_core.Admission.Gate.Counts.{SameUse}
use opod_core.Admission.Gate.Enqueue.{Capped, WithinCap}
use opod_core.Admission.Gate.Caps.{enqueue-Capped}

module _ (f : Floats) (cfg : ClassConfig f) (node : ℕ → String) (others slots : ℕ) where
  -- The counters are right, the hold is within its caps, and the requests in flight on the pool's
  -- workers are within the slots and the shares.
  pub record Safe (s : Gate) : Type 0 where
    pub inv : GateInv others s
    pub capped : Capped f cfg s
    pub within : Within f cfg node slots s

  -- What a grant or a hold keeps beside the counters.
  abbrev Rest : Gate → Type 0
  Rest s = Capped f cfg s × Within f cfg node slots s

  grant_to-Capped :
      (s : Gate) (h : HeldReq) (q : DrrQueue)
      → Capped f cfg s
      → Capped f cfg (grant_to h (put s.pool.q h.class q) s)
  unfolding grant_to take
  grant_to-Capped s h q k = record {
    in_total = omega (arith, k.in_total);
    in_class =
        at-put (WithinCap f cfg) s.pool.held h.class _ k.in_class (less (k.in_class h.class));
  }
    where
      less :
          WithinCap f cfg h.class (at s.pool.held h.class)
          → WithinCap f cfg h.class (at s.pool.held h.class - 1)
      less (inl e) = inl e
      less (inr e) = inr (omega arith)

  pub dispatch-Safe : (s : Gate) → Safe s → (t : Gate) × (dispatch f cfg node s ≡ some t) × Safe t
  dispatch-Safe s v =
      let (t, ran, inv, rest, b) =
        dispatch_settles f cfg node others Rest
          (λ u h q w served r.
            (grant_to-Capped u h q r.0, grant_to-Within f cfg node slots u h q served.allowed r.1))
          s v.inv (v.capped, v.within) in
      (t, ran, record { inv = inv; capped = rest.0; within = rest.1 })

  given-Capped : (g : Grant) (s : Gate) → Capped f cfg s → Capped f cfg (given g s)
  unfolding give
  given-Capped g s k = elim (Bool-cases (has_grant g s.pool.grants)) [
    | inl mine ↦ rw mine (record { in_total = k.in_total; in_class = k.in_class })
    | inr gone ↦ rw gone (record { in_total = k.in_total; in_class = k.in_class })
  ]

  -- A completion ends without a panic and keeps the gate safe; so does a second call of it.
  pub release-Safe :
      (g : Grant) (released : Bool) (s : Gate)
      → Safe s
      → (t : Gate) × (release f cfg node g released s ≡ some t) × Safe t
  unfolding release
  release-Safe g true s v = (s, refl, v)
  release-Safe g false s v = dispatch-Safe (given g s) (record {
    inv = given-Inv others s g v.inv;
    capped = given-Capped g s v.capped;
    within = given-Within others s g f cfg node slots v.inv v.within;
  })

  -- The grants and the capacity alone decide.
  pub Within-same :
      (s t : Gate) → SameUse s t → Within f cfg node slots s → Within f cfg node slots t
  Within-same s t e w =
      subst (λ p. Within f cfg node slots (with_pool p t)) (sym e)
        (record {
          is_bounded = w.is_bounded;
          same_slots = w.same_slots;
          fits = w.fits;
          critical_fits = w.critical_fits;
          standard_fits = w.standard_fits;
          sheddable_fits = w.sheddable_fits;
        })

  abbrev taken : HeldReq → Gate → Gate
  taken h s = with_pool (take h s.pool) s

  taken-Safe :
      (h : HeldReq) (s : Gate)
      → Safe s
      → can_grant f cfg node s.pool h.class ≡ true
      → Safe (taken h s)
  unfolding take grant_to
  taken-Safe h s v ok =
      let w = grant_to-Within f cfg node slots s h (at s.pool.q h.class) ok v.within in
      record {
        inv = record {
          sound = v.inv.sound;
          held_critical = v.inv.held_critical;
          held_standard = v.inv.held_standard;
          held_sheddable = v.inv.held_sheddable;
          all_held = v.inv.all_held;
          total_held = v.inv.total_held;
          in_use_granted = omega (arith, v.inv.in_use_granted);
          critical_granted = ground (arith, v.inv.critical_granted);
          standard_granted = ground (arith, v.inv.standard_granted);
          sheddable_granted = ground (arith, v.inv.sheddable_granted);
        };
        capped = record { in_total = v.capped.in_total; in_class = v.capped.in_class };
        within = record {
          is_bounded = w.is_bounded;
          same_slots = w.same_slots;
          fits = w.fits;
          critical_fits = w.critical_fits;
          standard_fits = w.standard_fits;
          sheddable_fits = w.sheddable_fits;
        };
      }

  answered :
      (h : HeldReq) (budget elapsed : ℕ) (r : Option Gate)
      → ((t : Gate) × (r ≡ some t) × Safe t)
      → (a : Answer) × (t : Gate) × (queued_answer h budget elapsed r ≡ some (a, t)) × Safe t
  answered h budget elapsed r (t, e, v) = elim (Bool-cases (is_granted (t.status h.id))) [
    | inl got ↦ (admitted (grant_of h), t, rw (e, queued_answer) (rw got refl), v)
    | inr later ↦ (
      waits_for (if ltb 0 budget then some (budget - elapsed) else none),
      t,
      rw (e, queued_answer) (rw later refl),
      v,
    )
  ]

  -- Every arrival gets an answer, without a panic, and the gate is as safe after it.
  pub admit-Safe :
      (h : HeldReq) (cv : CapView) (elapsed : ℕ) (s : Gate)
      → 0 < cfg.total
      → Safe s
      → (a : Answer) × (t : Gate) × (admit f cfg node h cv elapsed s ≡ some (a, t)) × Safe t
  unfolding admit
  admit-Safe h cv elapsed s pos v =
      let budget = budget_of (at cfg.hold_ms h.class) in
      elim (Bool-cases (s.pool.all == 0 && can_grant f cfg node s.pool h.class)) [
        | inl fast ↦ (
          admitted (grant_of h),
          taken h s,
          rw fast refl,
          taken-Safe h s v (and_right (s.pool.all == 0) _ fast),
        )
        | inr slow ↦ elim (Bool-cases (not (servable cv) && budget == 0)) [
          | inl none_serves ↦ (unavailable cv.reason, s, rw slow (rw none_serves refl), v)
          | inr serves ↦ elim (Bool-cases (ltb 0 budget && leb budget elapsed)) [
            | inl late ↦ (deadline_passed, s, rw slow (rw serves (rw late refl)), v)
            | inr timely ↦ rw slow (rw serves (rw timely held))
          ]
        ]
      ]
    where
      and_right : (a b : Bool) → (a && b) ≡ true → b ≡ true
      and_right a b e = ground arith

      by_answer :
          (accepted : Bool) (t : Gate)
          → enqueue f cfg h s ≡ some (accepted, t)
          → Safe t
          → (a : Answer) × (u : Gate) × (enqueue_answer f cfg node h
                (budget_of (at cfg.hold_ms h.class))
                elapsed
                (enqueue f cfg h s)
              ≡ some (a, u))
            × Safe u
      by_answer false t ran w = (over_cap, t, rw (ran, enqueue_answer) refl, w)
      by_answer true t ran w = rw (ran, enqueue_answer) (answered h _ elapsed _ (dispatch-Safe t w))

      held :
          (a : Answer) × (t : Gate) × (enqueue_answer f cfg node h
              (budget_of (at cfg.hold_ms h.class))
              elapsed
              (enqueue f cfg h s)
            ≡ some (a, t))
          × Safe t
      held =
          let (accepted, t, ran, e) = enqueue-Capped f cfg others h s v.inv v.capped pos in
          let safe : Safe t = record {
            inv = e.inv;
            capped = e.capped;
            within = Within-same s t e.same_slots_use v.within;
          } in
          by_answer accepted t ran safe
