-- ===== src/Admission/Gate/Caps.antt =====
-- The theorem about `enqueue`.
use opod_core.Base.{
  ℕ, suc, ◌+◌, ◌-◌, ◌<◌, ◌≡◌, refl, ap, sym, subst, ◌∙◌, inl, inr, Bool, true, false, ◌&&◌, Option,
  none, some, arith, if◌then◌else◌, Bool-cases, some_inj, ltb, leb,
}
use opod_core.Admission.Classes.{
  Class, rank, at, put, at-put_above, at-put_self, Floats, ClassConfig,
}
use opod_core.Admission.Flows.{HeldReq}
use opod_core.Admission.Queues.{victim_below}
use opod_core.Admission.Queues
use opod_core.Admission.Pool.{Pool, Gate, count}
use opod_core.Admission.Pool.Inv.{GateInv}
use opod_core.Admission.Gate.{wait_in, enqueue, make_room}
use opod_core.Admission.Gate.Counts.{OneLess, SameUse, shed_lem, wait_in-Inv}
use opod_core.Admission.Gate.Enqueue.{
  Below, victim_below_lem, Capped, WithinCap, wait_in-Capped, OneLess-Capped, KeepsDownTo,
  keeps_self, keeps_wait,
}

keeps_evict :
    (h v : HeldReq) (s t : Gate)
    → rank h.class < rank v.class
    → OneLess s t v.class
    → KeepsDownTo h.class s (wait_in h t)
unfolding wait_in count
keeps_evict h v s t lower l = rw l.held_less (upper h.class v.class lower)
  where
    upper :
        (c d : Class)
        → rank c < rank d
        → KeepsDownTo c s (
            wait_in
              (record h { class = c })
              (record t {
                pool = record (t.pool) { held = put s.pool.held d (at s.pool.held d - 1) };
              }))
    upper c d low = ground arith

use_after : (h : HeldReq) (s t : Gate) → SameUse s t → SameUse s (wait_in h t)
unfolding wait_in count
use_after h s t e =
    ap {A = Pool}
      (λ p. record p {
        q = Queues.push t.pool.q h;
        held = put t.pool.held h.class (suc (at t.pool.held h.class));
        all = suc t.pool.all;
      })
      e

module _ (f : Floats) (cfg : ClassConfig f) (others : ℕ) where
  -- How an `enqueue` may end.
  pub record Enqueued (h : HeldReq) (s : Gate) (accepted : Bool) (s' : Gate) : Type 0 where
    pub inv : GateInv others s'
    pub capped : Capped f cfg s'
    pub same_slots_use : SameUse s s'
    pub keeps : KeepsDownTo h.class s s'
    pub added : at s'.pool.held h.class ≡ at s.pool.held h.class + (if accepted then 1 else 0)

  abbrev Ends : HeldReq → Gate → Option (Bool × Gate) → Type 0
  Ends h s r =
      (accepted : Bool) × (s' : Gate) × (r ≡ some (accepted, s')) × Enqueued h s accepted s'

  refused : (h : HeldReq) (s : Gate) → GateInv others s → Capped f cfg s → Enqueued h s false s
  refused h s v k = record {
    inv = v;
    capped = k;
    same_slots_use = refl;
    keeps = keeps_self h.class s;
    added = omega arith;
  }

  accepted_in :
      (h : HeldReq) (t : Gate) → at (wait_in h t).pool.held h.class ≡ suc (at t.pool.held h.class)
  unfolding wait_in count
  accepted_in h t = at-put_self t.pool.held h.class _

  room_made :
      (h : HeldReq) (s : Gate)
      → GateInv others s
      → Capped f cfg s
      → 0 < cfg.total
      → WithinCap f cfg h.class (suc (at s.pool.held h.class))
      → (o : Option HeldReq) → Below s h.class o
      → Ends h s (make_room h s o)
  room_made h s v k pos own none b = (false, s, refl, refused h s v k)
  room_made h s v k pos own (some x) (inl e) = cc
  room_made h s v k pos own (some x) (inr (w, e, ok, lower)) =
      let (t, ran, v', l) = shed_lem others s w "evicted" "" v ok.waiting_now in
      let same : at t.pool.held h.class ≡ at s.pool.held h.class =
        ap (λ p. at p h.class) l.held_less ∙ at-put_above s.pool.held w.class _ h.class lower in
      (
        true,
        wait_in h t,
        subst (λ y. make_room h s (some y) ≡ some (true, wait_in h t)) (some_inj (sym e))
            (rw ran refl),
        record {
          inv = wait_in-Inv others t h v';
          capped =
              wait_in-Capped f cfg h t (OneLess-Capped f cfg s t w.class k l)
                (omega (arith, l.all_less, k.in_total)) (rw same own);
          same_slots_use = use_after h s t l.same_slots_use;
          keeps = keeps_evict h w s t lower l;
          added = omega (arith, accepted_in h t, same);
        },
      )

  waited :
      (h : HeldReq) (s : Gate)
      → GateInv others s
      → Capped f cfg s
      → s.pool.all < cfg.total
      → WithinCap f cfg h.class (suc (at s.pool.held h.class))
      → Enqueued h s true (wait_in h s)
  waited h s v k room own = record {
    inv = wait_in-Inv others s h v;
    capped = wait_in-Capped f cfg h s k room own;
    same_slots_use = use_after h s s refl;
    keeps = keeps_wait h s;
    added = omega (arith, accepted_in h s);
  }

  own_room :
      (c : Class) (n : ℕ)
      → (ltb 0 (at cfg.max_held c) && leb (at cfg.max_held c) n) ≡ false
      → WithinCap f cfg c (suc n)
  own_room c n e = elim (Bool-cases (ltb 0 (at cfg.max_held c))) [
    | inl pos ↦ inr (ground arith)
    | inr zero_cap ↦ inl (ground arith)
  ]

  -- Within its caps before, the hold is within them after: `enqueue` ends without a panic, adds the
  -- request to its class exactly when it accepts it, and takes no request from a class at or above.
  pub enqueue-Capped :
      (h : HeldReq) (s : Gate)
      → GateInv others s
      → Capped f cfg s
      → 0 < cfg.total
      → (accepted : Bool) × (s' : Gate) × (enqueue f cfg h s ≡ some (accepted, s'))
        × Enqueued h s accepted s'
  unfolding enqueue
  enqueue-Capped h s v k pos =
      elim (Bool-cases (
        ltb 0 (at cfg.max_held h.class)
        && leb (at cfg.max_held h.class) (at s.pool.held h.class))) [
          | inl full ↦ (false, s, rw full refl, refused h s v k)
          | inr free ↦ elim (Bool-cases (leb cfg.total s.pool.all)) [
            | inl over ↦ rw free (
                rw over (
                  room_made h s v k pos (own_room h.class (at s.pool.held h.class) free)
                    (victim_below s.pool.q h.class) (victim_below_lem others s h.class v)))
            | inr under ↦ (
              true,
              wait_in h s,
              rw free (rw under refl),
              waited h s v k (ground arith) (own_room h.class (at s.pool.held h.class) free),
            )
          ]
        ]
