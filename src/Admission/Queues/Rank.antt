-- ===== src/Admission/Queues/Rank.antt =====
-- `popEligible` serves the highest class that has a request waiting and may take a slot.
use opod_core.Base.{
  ℕ, ◌+◌, ◌≡◌, ◌⊎◌, inl, inr, refl, ap, sym, subst, ◌∙◌, Bool, true, false, not, ◌||◌, List, [],
  ◌∷◌, none, some, ◌==◌, arith, Bool-cases,
}
use opod_core.Admission.Classes.{Class, critical, standard, sheddable, at, put}
use opod_core.Admission.Flows.{HeldReq, DrrQueue}
use opod_core.Admission.Flows.Inv.{line_of}
use opod_core.Admission.Flows.Visit.{serve_head}
use opod_core.Admission.Queues.{ClassQueues, pop_among, pop_eligible, asked}
use opod_core.Admission.Queues.Order.{Sound, AllSound, sound_at, pop_sound}

-- Nothing of the class can be granted now.
abbrev pub Blocked : (Class → Bool) → ClassQueues → Class → Type 0
Blocked eligible c i = ((at c i).n ≡ 0) ⊎ (eligible i ≡ false)

abbrev pub BlockedAll : (Class → Bool) → ClassQueues → Type 0
BlockedAll eligible c =
    Blocked eligible c critical × Blocked eligible c standard × Blocked eligible c sheddable

abbrev pub BlockedAbove : (Class → Bool) → ClassQueues → Class → Type 0
BlockedAbove eligible c critical = Unit {0}
BlockedAbove eligible c standard = Blocked eligible c critical
BlockedAbove eligible c sheddable = Blocked eligible c critical × Blocked eligible c standard

-- The request `h` leaves the queue `q'` of its class behind.
pub record Served (eligible : Class → Bool) (c : ClassQueues) (h : HeldReq) (q' : DrrQueue)
    : Type 0 where
  pub sound : Sound h.class q'
  pub one_less : q'.n + 1 ≡ (at c h.class).n
  pub first : (serve_head (line_of (at c h.class))).0 ≡ some h
  pub line_left : line_of q' ≡ (serve_head (line_of (at c h.class))).1
  pub allowed : eligible h.class ≡ true
  pub highest : BlockedAbove eligible c h.class

skipped_because : (n : ℕ) (b : Bool) → (n == 0 || not b) ≡ true → (n ≡ 0) ⊎ (b ≡ false)
skipped_because n true h = inl (ground arith)
skipped_because n false h = inr refl

module _ (eligible : Class → Bool) (c : ClassQueues) (s : AllSound c) where
  -- The request is the one that serving the class's line gives.
  abbrev Heads : Class → HeldReq → DrrQueue → Type 0
  Heads i h q' =
      ((serve_head (line_of (at c i))).0 ≡ some h)
      × (line_of q' ≡ (serve_head (line_of (at c i))).1)

  -- One class: passed over, or served.
  ask :
      (i : Class) (is : List Class)
      → (Blocked eligible c i × (pop_among eligible (i ∷ is) c ≡ pop_among eligible is c))
        ⊎ ((h : HeldReq) × (q' : DrrQueue) × (pop_among eligible (i ∷ is) c
              ≡ some (some h, put c i q'))
            × (h.class ≡ i)
            × Sound i q'
            × (q'.n + 1 ≡ (at c i).n)
            × Heads i h q'
            × (eligible i ≡ true))
  unfolding pop_among
  ask i is = elim (Bool-cases ((at c i).n == 0 || not (eligible i))) [
    | inl skip ↦ inl (skipped_because (at c i).n (eligible i) skip, rw skip)
    | inr open_ ↦
        let (h, q', ran, sound, own, n, first, left) =
          pop_sound i (at c i) (sound_at c s i) (ground arith) in
        inr (h, q', rw open_ (rw (ran, asked)), own, sound, n, (first, left), ground arith)
  ]

  abbrev Outcome : Type 0
  Outcome =
      (BlockedAll eligible c × (pop_eligible eligible c ≡ some (none, c)))
      ⊎ ((h : HeldReq) × (q' : DrrQueue) × (pop_eligible eligible c
            ≡ some (some h, put c h.class q'))
          × Served eligible c h q')

  served_at :
      (i : Class) (h : HeldReq) (q' : DrrQueue)
      → pop_eligible eligible c ≡ some (some h, put c i q')
      → h.class ≡ i
      → Sound i q'
      → q'.n + 1 ≡ (at c i).n
      → Heads i h q'
      → eligible i ≡ true
      → BlockedAbove eligible c i
      → Outcome
  served_at i h q' ran own sound n heads e above = inr (
    h,
    q',
    ran ∙ ap (λ k. some (some h, put c k q')) (sym own),
    record {
      sound = subst (λ k. Sound k q') (sym own) sound;
      one_less = n ∙ ap (λ k. (at c k).n) (sym own);
      first = (subst (λ k. Heads k h q') (sym own) heads).0;
      line_left = (subst (λ k. Heads k h q') (sym own) heads).1;
      allowed = ap eligible own ∙ e;
      highest = subst (BlockedAbove eligible c) (sym own) above;
    },
  )

  -- `popEligible` panics nowhere: it finds every class blocked and changes nothing, or takes the
  -- request of the highest class that is not.
  pub pop_eligible_lem :
      (BlockedAll eligible c × (pop_eligible eligible c ≡ some (none, c)))
      ⊎ ((h : HeldReq) × (q' : DrrQueue) × (pop_eligible eligible c
            ≡ some (some h, put c h.class q'))
          × Served eligible c h q')
  unfolding pop_eligible
  pop_eligible_lem = elim (ask critical (standard ∷ sheddable ∷ [])) [
    | inr (h, q', ran, own, sound, n, hd, e) ↦ served_at critical h q' ran own sound n hd e tt
    | inl (b, skip) ↦ elim (ask standard (sheddable ∷ [])) [
      | inr (h, q', ran, own, sound, n, hd, e) ↦
          served_at standard h q' (skip ∙ ran) own sound n hd e b
      | inl (b', skip') ↦ elim (ask sheddable []) [
        | inr (h, q', ran, own, sound, n, hd, e) ↦
            served_at sheddable h q' (skip ∙ skip' ∙ ran) own sound n hd e (b, b')
        | inl (b'', skip'') ↦ inl ((b, b', b''), skip ∙ skip' ∙ skip'' ∙ unfold pop_among in refl)
      ]
    ]
  ]
