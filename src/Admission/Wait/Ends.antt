-- ===== src/Admission/Wait/Ends.antt =====
-- How a wait ends, and what it leaves behind.
use opod_core.Base.{
  ℕ, ◌+◌, ◌≡◌, ◌⊎◌, refl, sym, ◌∙◌, Bool, true, false, not, ◌||◌, arith, some, String, ◌===◌,
  eq_iff, Bool-cases, inl, inr, length,
}
use opod_core.Admission.Classes.{at, Floats, ClassConfig}
use opod_core.Admission.Flows.{HeldReq}
use opod_core.Admission.Flows.Inv.{line_of}
use opod_core.Admission.Flows.Found.{waits}
use opod_core.Admission.Pool.{Gate, Status, idle, queued, granted, shed_for, has_grant, dispatch}
use opod_core.Admission.Pool.Give.{given, given_mine_less}
use opod_core.Admission.Gate.{release, withdraw, is_granted, is_queued, grant_of}
use opod_core.Admission.Gate.Counts.{Left, withdraw_lem}
use opod_core.Admission.Gate.Enqueue.{OneLess-Capped}
use opod_core.Admission.Gate.Safe.{Safe, Within-same, release-Safe}
use opod_core.Admission.Wait.{
  Wake, by_gate, by_deadline, by_cancel, Ending, served, shed_unavailable, shed_evicted,
  shed_deadline, cancelled, ending_of, resume, past_deadline, past_cancel, given_up,
}

-- What the flag of a request says is so: one that is queued waits in the queue of its class, and one
-- that is granted holds a slot.
pub record FlagTrue (h : HeldReq) (s : Gate) : Type 0 where
  pub queued_waits :
      (not (is_queued (s.status h.id)) || waits h (line_of (at s.pool.q h.class))) ≡ true
  pub granted_holds :
      (not (is_granted (s.status h.id)) || has_grant (grant_of h) s.pool.grants) ≡ true

so : (a b : Bool) → (not a || b) ≡ true → a ≡ true → b ≡ true
so a b h e = ground arith

-- The gate's answer to a request, by its flag: the slot it was granted, or why it was shed.
abbrev pub Answers : HeldReq → Gate → Ending → Type 0
Answers h s e =
    ((s.status h.id ≡ granted) × (e ≡ served (grant_of h)))
    ⊎ (((why : String) × (reason : String) × (s.status h.id ≡ shed_for why reason)
          × (((why ≡ "unavailable") × (e ≡ shed_unavailable reason))
              ⊎ ((¬ (why ≡ "unavailable")) × (e ≡ shed_evicted))))
        ⊎ (((s.status h.id ≡ idle) ⊎ (s.status h.id ≡ queued)) × (e ≡ shed_evicted)))

-- The slot of the request is free again, and its class has it no more; who waits is as before.
pub record GivenBack (s u : Gate) (h : HeldReq) : Type 0 where
  pub in_use_less : u.pool.in_use + 1 ≡ s.pool.in_use
  pub by_class_less : at u.pool.by_class h.class + 1 ≡ at s.pool.by_class h.class
  pub grants_less : length u.pool.grants + 1 ≡ length s.pool.grants
  pub same_queues : u.pool.q ≡ s.pool.q

ending-Answers :
    (h : HeldReq) (s : Gate) (st : Status) → s.status h.id ≡ st → Answers h s (ending_of h st)
ending-Answers h s granted e = inl (e, refl)
ending-Answers h s idle e = inr (inr (inl e, refl))
ending-Answers h s queued e = inr (inr (inr e, refl))
ending-Answers h s (shed_for why reason) e = inr (inl (why, reason, e, by_why))
  where
    unlike : true ≡ false → ⊥
    unlike c = cc

    by_why :
        ((why ≡ "unavailable") × (ending_of h (shed_for why reason) ≡ shed_unavailable reason))
        ⊎ ((¬ (why ≡ "unavailable")) × (ending_of h (shed_for why reason) ≡ shed_evicted))
    by_why = elim (Bool-cases (why === "unavailable")) [
      | inl same ↦ inl ((eq_iff why "unavailable").0 same, rw same refl)
      | inr other ↦ inr (λ c. unlike (sym ((eq_iff why "unavailable").1 c) ∙ other), rw other refl)
    ]

module _ (f : Floats) (cfg : ClassConfig f) (node : ℕ → String) (others slots : ℕ) where
  -- How each wake ends. The gate's changes nothing. A deadline or a caller that is gone takes a request
  -- out that still waits; the deadline leaves one that the gate was first for to the gate's answer,
  -- and a caller that is gone gives a slot back that was granted at the same moment.
  abbrev pub Ends : Wake → HeldReq → Gate → Ending → Gate → Type 0
  Ends by_gate h s e t = (t ≡ s) × Answers h s e
  Ends by_deadline h s e t =
      ((is_queued (s.status h.id) ≡ true) × (e ≡ shed_deadline) × Left s t h)
      ⊎ ((is_queued (s.status h.id) ≡ false) × (t ≡ s) × Answers h s e)
  Ends by_cancel h s e t =
      (e ≡ cancelled)
      × (((is_queued (s.status h.id) ≡ true) × Left s t h)
          ⊎ (((is_granted (s.status h.id) ≡ true)
                × (u : Gate) × GivenBack s u h
                × (dispatch f cfg node u ≡ some t))
              ⊎ ((is_queued (s.status h.id) ≡ false)
                  × (is_granted (s.status h.id) ≡ false)
                  × (t ≡ s))))

  abbrev pub Resumes : HeldReq → Wake → Gate → Type 0
  Resumes h w s =
      (e : Ending) × (t : Gate) × (resume f cfg node h w s ≡ some (e, t))
      × Ends w h s e t
      × Safe f cfg node others slots t

  withdrawn-Resumes :
      (h : HeldReq) (w : Wake) (s : Gate)
      → Safe f cfg node others slots s
      → FlagTrue h s
      → is_queued (s.status h.id) ≡ true
      → Resumes h w s
  unfolding resume
  withdrawn-Resumes h by_gate s v flag queued_now =
      (ending_of h (s.status h.id), s, refl, (refl, ending-Answers h s (s.status h.id) refl), v)
  withdrawn-Resumes h by_deadline s v flag queued_now =
      let (t, ran, inv, less, left) =
        withdraw_lem others s h v.inv (so _ _ flag.queued_waits queued_now) queued_now in
      (
        shed_deadline,
        t,
        rw (past_deadline, ran) refl,
        inl (queued_now, refl, left),
        record {
          inv = inv;
          capped = OneLess-Capped f cfg s t h.class v.capped less;
          within = Within-same f cfg node others slots s t less.same_slots_use v.within;
        },
      )
  withdrawn-Resumes h by_cancel s v flag queued_now =
      let (t, ran, inv, less, left) =
        withdraw_lem others s h v.inv (so _ _ flag.queued_waits queued_now) queued_now in
      (
        cancelled,
        t,
        rw (past_cancel, ran) refl,
        (refl, inl (queued_now, left)),
        record {
          inv = inv;
          capped = OneLess-Capped f cfg s t h.class v.capped less;
          within = Within-same f cfg node others slots s t less.same_slots_use v.within;
        },
      )

  withdraw-gone :
      (h : HeldReq) (s : Gate) → is_queued (s.status h.id) ≡ false → withdraw h s ≡ some (false, s)
  unfolding withdraw
  withdraw-gone h s gone = rw gone refl

  left-Resumes :
      (h : HeldReq) (w : Wake) (s : Gate)
      → Safe f cfg node others slots s
      → FlagTrue h s
      → is_queued (s.status h.id) ≡ false
      → Resumes h w s
  unfolding resume
  left-Resumes h by_gate s v flag gone =
      (ending_of h (s.status h.id), s, refl, (refl, ending-Answers h s (s.status h.id) refl), v)
  left-Resumes h by_deadline s v flag gone = (
    ending_of h (s.status h.id),
    s,
    rw (past_deadline, withdraw-gone h s gone) refl,
    inr (gone, refl, ending-Answers h s (s.status h.id) refl),
    v,
  )
  left-Resumes h by_cancel s v flag gone = elim (Bool-cases (is_granted (s.status h.id))) [
    | inl mine ↦
        let (t, ran, v') = release-Safe f cfg node others slots (grant_of h) false s v in
        let (used, classed, held, same) =
          given_mine_less others s (grant_of h) v.inv (so _ _ flag.granted_holds mine) in
        (
          cancelled,
          t,
          rw (past_cancel, withdraw-gone h s gone) (rw (mine, given_up, ran) refl),
          (
            refl,
            inr (
                inl (
                  mine,
                  given (grant_of h) s,
                  record {
                    in_use_less = used;
                    by_class_less = classed;
                    grants_less = held;
                    same_queues = same;
                  },
                  released t ran,
                )),
          ),
          v',
        )
    | inr other ↦ (
      cancelled,
      s,
      rw (past_cancel, withdraw-gone h s gone) (rw other refl),
      (refl, inr (inr (gone, other, refl))),
      v,
    )
  ]
    where
      released :
          (t : Gate)
          → release f cfg node (grant_of h) false s ≡ some t
          → dispatch f cfg node (given (grant_of h) s) ≡ some t
      released t ran = unfold release in ran

  -- Where the gate is safe, and the request waits if its flag says queued and holds a slot if it says
  -- granted, its wait ends without a panic, as its wake and its flag say, and the gate stays safe: the gate's answer is the slot or why it was shed; one that
  -- still waits when its deadline or its caller ends the wait leaves the line; and a slot that was
  -- granted as the caller went away is given back and handed on.
  pub resume-Resumes :
      (h : HeldReq) (w : Wake) (s : Gate)
      → Safe f cfg node others slots s
      → FlagTrue h s
      → Resumes h w s
  resume-Resumes h w s v flag = elim (Bool-cases (is_queued (s.status h.id))) [
    | inl queued_now ↦ withdrawn-Resumes h w s v flag queued_now
    | inr gone ↦ left-Resumes h w s v flag gone
  ]
