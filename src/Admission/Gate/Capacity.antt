-- ===== src/Admission/Gate/Capacity.antt =====
-- What installing a fresh capacity does to a pool (`setCap`).
use opod_core.Base.{
  ℕ, ◌<◌, ◌≡◌, ◌⊎◌, inl, inr, refl, ◌∙◌, true, false, not, List, [], ◌∷◌, some, String, arith, ltb,
  ltb→lt, Bool-cases,
}
use opod_core.Admission.Classes.{Class, at, put, Floats, ClassConfig}
use opod_core.Admission.Flows.{HeldReq, DrrQueue}
use opod_core.Admission.Queues.{by_rank}
use opod_core.Admission.Queues.Rank.{BlockedAll}
use opod_core.Admission.Pool.{Gate, CapView, servable, grant_to, can_grant, dispatch, take, uncount}
use opod_core.Admission.Pool.Inv.{GateInv, held_at}
use opod_core.Admission.Pool.Dispatch.{dispatch_settles, Settled}
use opod_core.Admission.Gate.{shed_unheld, then_class, set_cap}
use opod_core.Admission.Gate.Shedding.{
  Shrunk, Shrunk-trans, Shrunk-at, one_less-Shrunk, shed_class_lem,
}

module _ (f : Floats) (cfg : ClassConfig f) (node : ℕ → String) (others : ℕ) where
  -- Each of the classes has a budget, or nothing of it waits.
  abbrev pub EmptyUnheld : List Class → Gate → Type 0
  EmptyUnheld [] t = Unit {0}
  EmptyUnheld (c ∷ cs) t = ((0 < at cfg.hold_ms c) ⊎ (at t.pool.held c ≡ 0)) × EmptyUnheld cs t

  EmptyUnheld-Shrunk :
      (cs : List Class) (s t : Gate) → Shrunk s t → EmptyUnheld cs s → EmptyUnheld cs t
  EmptyUnheld-Shrunk [] s t w e = tt
  EmptyUnheld-Shrunk (c ∷ cs) s t w (inl budget, e) = (inl budget, EmptyUnheld-Shrunk cs s t w e)
  EmptyUnheld-Shrunk (c ∷ cs) s t w (inr empty, e) =
      (inr (omega (arith, Shrunk-at s t w c)), EmptyUnheld-Shrunk cs s t w e)

  shed_unheld_lem :
      (cs : List Class) (reason : String) (s : Gate)
      → GateInv others s
      → (t : Gate) × (shed_unheld f cfg node cs reason s ≡ some t)
        × GateInv others t
        × EmptyUnheld cs t
        × Shrunk s t
        × (t.pool.cap ≡ s.pool.cap)
  unfolding shed_unheld
  shed_unheld_lem [] reason s v = (s, refl, v, tt, (omega arith, omega arith, omega arith), refl)
  shed_unheld_lem (c ∷ cs) reason s v = elim (Bool-cases (ltb 0 (at cfg.hold_ms c))) [
    | inl budget ↦
        let (t, ran, inv, empty, w, same) = shed_unheld_lem cs reason s v in
        (t, rw budget ran, inv, (inl (ltb→lt _ _ budget), empty), w, same)
    | inr no_budget ↦
        let (t, ran, done) =
          shed_class_lem others (at s.pool.q c).n c reason s v (omega (arith, held_at v c)) in
        let (u, rest, inv, empty, w, same) = shed_unheld_lem cs reason t done.inv in
        (
          u,
          rw (no_budget, then_class, ran) rest,
          inv,
          (inr (omega (arith, Shrunk-at t u w c, done.empty)), empty),
          Shrunk-trans s t u done.shrunk w,
          same ∙ done.same_cap,
        )
  ]

  -- A capacity is installed, and the classes with no budget wait for no worker that is not there.
  abbrev pub Installed : CapView → Gate → Type 0
  Installed c t = (t.pool.cap ≡ c) × ((servable c ≡ true) ⊎ EmptyUnheld by_rank t)

  grant_to-Installed :
      (c : CapView) (s : Gate) (h : HeldReq) (q : DrrQueue)
      → Installed c s
      → Installed c (grant_to h (put s.pool.q h.class q) s)
  unfolding grant_to take uncount
  grant_to-Installed c s h q (cap, inl serves) = (cap, inl serves)
  grant_to-Installed c s h q (cap, inr empty) = (
    cap,
    inr (
        EmptyUnheld-Shrunk by_rank s (grant_to h (put s.pool.q h.class q) s)
          (one_less-Shrunk s (grant_to h (put s.pool.q h.class q) s) h.class refl) empty),
  )

  -- On a gate whose counters are right, a capacity that is not older than the pool's is installed
  -- without a panic: the counters stay right, every class that still waits may take no slot under it,
  -- and when nothing can serve no request of a class with no budget waits any more.
  pub set_cap_settles :
      (c : CapView) (s : Gate)
      → GateInv others s
      → ltb c.gen s.pool.cap.gen ≡ false
      → (t : Gate) × (set_cap f cfg node c s ≡ some t)
        × GateInv others t
        × Installed c t
        × BlockedAll (can_grant f cfg node t.pool) t.pool.q
  unfolding set_cap
  set_cap_settles c s v fresh = elim (Bool-cases (not (servable c))) [
    | inl down ↦
        let (t, ran, inv, empty, w, same) =
          shed_unheld_lem by_rank c.reason with_cap with_cap-Inv in
        rw (fresh, down, ran) (settle t inv (same, inr empty))
    | inr up ↦ rw (fresh, up) (settle with_cap with_cap-Inv (refl, inl (serves up)))
  ]
    where
      serves : not (servable c) ≡ false → servable c ≡ true
      serves e = ground arith

      with_cap : Gate
      with_cap = record s { pool = record (s.pool) { cap = c } }

      with_cap-Inv : GateInv others with_cap
      with_cap-Inv = record {
        sound = v.sound;
        held_critical = v.held_critical;
        held_standard = v.held_standard;
        held_sheddable = v.held_sheddable;
        all_held = v.all_held;
        total_held = v.total_held;
        in_use_granted = v.in_use_granted;
        critical_granted = v.critical_granted;
        standard_granted = v.standard_granted;
        sheddable_granted = v.sheddable_granted;
      }

      settle :
          (t : Gate)
          → GateInv others t
          → Installed c t
          → Settled f cfg node others (Installed c) (dispatch f cfg node t)
      settle t inv e =
          dispatch_settles f cfg node others (Installed c)
            (λ u h q w served g. grant_to-Installed c u h q g) t inv e
