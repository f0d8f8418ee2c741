-- ===== src/Router/Pick/Filter.antt =====
-- `takingRequests` is a filter: sweeping the penalty box on the way changes no answer.
use opod_core.Base.{
  ℕ, ◌≡◌, ◌⊎◌, refl, ap, sym, ◌∙◌, Bool, true, false, not, List, [], ◌∷◌, Option, none, some,
  String, if◌then◌else◌, ◌===◌, ltb, keep, Bool-cases, eq_iff, inl, inr,
}
use opod_core.Store.Live.{Node, takes_new_work}
use opod_core.Router.Cooldown.{Box, in_cooldown, is_past, swept}
use opod_core.Router.Cooldown.Breaker.{in_cooldown-answer}
use opod_core.Router.Candidates.{Placement}
use opod_core.Router.Pick.{
  Scores, View, Refusal, no_row, draining, stale_heartbeat, engine_stopped, in_box, Memory,
  after_box, row_takes, takes_requests, stale_episode, is_stale, Taking, sorted_out, or_cooling,
  take_each, taking_requests,
}

-- Two memories whose boxes hold the same workers now.
abbrev pub Agree : ℕ → Memory → Memory → Type 0
Agree now m m' =
    (node : String) → is_past (m'.box.cooldowns node) now ≡ is_past (m.box.cooldowns node) now

swept_agrees :
    (node : String) (b : Box) (now later : ℕ)
    → is_past (b.cooldowns node) now ≡ true
    → (other : String)
    → is_past ((swept node b (b.cooldowns node) later).cooldowns other) now
      ≡ is_past (b.cooldowns other) now
swept_agrees node b now later past other = by_entry (b.cooldowns node) refl past
  where
    by_entry :
        (o : Option ℕ)
        → b.cooldowns node ≡ o
        → is_past o now ≡ true
        → is_past ((swept node b o later).cooldowns other) now ≡ is_past (b.cooldowns other) now
    by_entry none e p = refl
    by_entry (some until) e p = elim (Bool-cases (ltb until later)) [
      | inr f ↦ rw f refl
      | inl f ↦ elim (Bool-cases (node === other)) [
        | inr g ↦ rw (f, g) refl
        | inl g ↦
            rw (f, g)
              (sym (ap (λ k. is_past (b.cooldowns k) now) (sym ((eq_iff node other).0 g)) ∙ rw e p))
      ]
    ]

abbrev pub is_accepted : Option Refusal → Bool
is_accepted none = true
is_accepted (some why) = false

abbrev pub is_in_box : Option Refusal → Bool
is_in_box (some in_box) = true
is_in_box _ = false

module _ (f : Scores) (v : View f) where
  abbrev pub refusal : Memory → String → Option Refusal
  refusal m id = (takes_requests f v m id).0

  after_box-refusal :
      (m : Memory) (r : Bool × Box) → (after_box m r).0 ≡ (if r.0 then some in_box else none)
  after_box-refusal m (true, b) = refl
  after_box-refusal m (false, b) = refl

  after_box-box : (m : Memory) (r : Bool × Box) → (after_box m r).1.box ≡ r.1
  after_box-box m (true, b) = refl
  after_box-box m (false, b) = refl

  in_cooldown_agrees :
      (node : String) (b : Box) (other : String)
      → is_past ((in_cooldown node v.now v.later b).1.cooldowns other) v.now
        ≡ is_past (b.cooldowns other) v.now
  unfolding in_cooldown
  in_cooldown_agrees node b other = elim (Bool-cases (is_past (b.cooldowns node) v.now)) [
    | inl e ↦ rw e (swept_agrees node b v.now v.later e other)
    | inr e ↦ rw e refl
  ]

  -- A row is judged by the box in the end, or refused before whatever the box holds.
  judged :
      (n : Node)
      → ((m : Memory)
          → row_takes f v m (some n) ≡ after_box m (in_cooldown n.id v.now v.later m.box))
        ⊎ ((why : Refusal) × ((m : Memory) → row_takes f v m (some n) ≡ (some why, m)))
  judged n = elim (Bool-cases (n.address === "")) [
    | inl a ↦ inr (no_row, λ m. rw a refl)
    | inr a ↦ elim (Bool-cases (n.state === "draining")) [
      | inl b ↦ inr (draining, λ m. rw (a, b) refl)
      | inr b ↦ elim (Bool-cases (takes_new_work n v.heartbeat_max_age v.now)) [
        | inr c ↦ inr (stale_heartbeat, λ m. rw (a, b, c) refl)
        | inl c ↦ elim (Bool-cases (v.engine_down n.id)) [
          | inl d ↦ inr (engine_stopped, λ m. rw (a, b, c, d) refl)
          | inr d ↦ inl (λ m. rw (a, b, c, d) refl)
        ]
      ]
    ]
  ]

  row_refusal_agrees :
      (m m' : Memory) (o : Option Node)
      → Agree v.now m m'
      → (row_takes f v m' o).0 ≡ (row_takes f v m o).0
  row_refusal_agrees m m' none a = refl
  row_refusal_agrees m m' (some n) a = elim (judged n) [
    | inl j ↦
        ap (λ r. r.0) (j m')
        ∙ after_box-refusal m' (in_cooldown n.id v.now v.later m'.box)
        ∙ ap {A = Bool} (λ b. if b then some in_box else none) (same n.id)
        ∙ sym (after_box-refusal m (in_cooldown n.id v.now v.later m.box))
        ∙ sym (ap (λ r. r.0) (j m))
    | inr (why, j) ↦ ap (λ r. r.0) (j m') ∙ sym (ap (λ r. r.0) (j m))
  ]
    where
      same :
          (id : String)
          → (in_cooldown id v.now v.later m'.box).0 ≡ (in_cooldown id v.now v.later m.box).0
      same id =
          in_cooldown-answer id v.now v.later m'.box
          ∙ ap not (a id)
          ∙ sym (in_cooldown-answer id v.now v.later m.box)

  row_box_agrees : (m : Memory) (o : Option Node) → Agree v.now m (row_takes f v m o).1
  row_box_agrees m none other = refl
  row_box_agrees m (some n) other = elim (judged n) [
    | inl j ↦
        ap (λ r. is_past (r.1.box.cooldowns other) v.now) (j m)
        ∙ ap (λ b. is_past (b.cooldowns other) v.now)
            (after_box-box m (in_cooldown n.id v.now v.later m.box))
        ∙ in_cooldown_agrees n.id m.box other
    | inr (why, j) ↦ ap (λ r. is_past (r.1.box.cooldowns other) v.now) (j m)
  ]

  stale_episode-box :
      (node : String) (b : Bool) (m : Memory) → (stale_episode node b m).1.box ≡ m.box
  unfolding stale_episode
  stale_episode-box node false m = refl
  stale_episode-box node true m = elim (Bool-cases (m.stale_warned node)) [
    | inl e ↦ rw e refl
    | inr e ↦ rw e refl
  ]

  abbrev pub accepts : Memory → Placement → Bool
  accepts m p = is_accepted (refusal m p.node_id)

  abbrev pub cools : Memory → Placement → Bool
  cools m p = is_in_box (refusal m p.node_id)

  sorted_out_lem :
      (m : Memory) (p : Placement) (ps : List Placement) (o : Option Refusal) (t : Taking)
      → refusal m p.node_id ≡ o
      → t.out ≡ keep (accepts m) ps
      → t.cooling ≡ keep (cools m) ps
      → ((sorted_out p o t).out ≡ keep (accepts m) (p ∷ ps))
        × ((sorted_out p o t).cooling ≡ keep (cools m) (p ∷ ps))
  sorted_out_lem m p ps none t e a c = rw e (ap (◌∷◌ p) a, c)
  sorted_out_lem m p ps (some in_box) t e a c = rw e (a, ap (◌∷◌ p) c)
  sorted_out_lem m p ps (some no_row) t e a c = rw e (a, c)
  sorted_out_lem m p ps (some draining) t e a c = rw e (a, c)
  sorted_out_lem m p ps (some stale_heartbeat) t e a c = rw e (a, c)
  sorted_out_lem m p ps (some engine_stopped) t e a c = rw e (a, c)

  take_each_lem :
      (ps : List Placement) (m m' : Memory)
      → Agree v.now m m'
      → ((take_each f v ps m').out ≡ keep (accepts m) ps)
        × ((take_each f v ps m').cooling ≡ keep (cools m) ps)
  unfolding take_each takes_requests
  take_each_lem [] m m' a = (refl, refl)
  take_each_lem (p ∷ ps) m m' a =
      let r = takes_requests f v m' p.node_id in
      let next = (stale_episode p.node_id (is_stale r.0) r.1).1 in
      let agrees : Agree v.now m next = λ other.
        ap (λ b. is_past (b.cooldowns other) v.now) (stale_episode-box p.node_id (is_stale r.0) r.1)
        ∙ row_box_agrees m' (v.node_of p.node_id) other
        ∙ a other in
      let (out, cooling) = take_each_lem ps m next agrees in
      sorted_out_lem m p ps r.0 (take_each f v ps next)
        (sym (row_refusal_agrees m m' (v.node_of p.node_id) a)) out cooling

  abbrev pub or_these : List Placement → List Placement → List Placement
  or_these [] cooling = cooling
  or_these (p ∷ out) cooling = p ∷ out

  -- The placements on workers that take requests, judged by the box as it was; when there is none,
  -- those on workers that only the box keeps out.
  pub taking_requests-refines :
      (ps : List Placement) (m : Memory)
      → (taking_requests f v ps m).0 ≡ or_these (keep (accepts m) ps) (keep (cools m) ps)
  unfolding taking_requests
  taking_requests-refines ps m =
      let (out, cooling) = take_each_lem ps m m (λ node. refl) in
      chosen (take_each f v ps m) (take_each f v ps m).out refl out cooling
    where
      chosen :
          (t : Taking) (out : List Placement)
          → t.out ≡ out
          → t.out ≡ keep (accepts m) ps
          → t.cooling ≡ keep (cools m) ps
          → or_cooling t out ≡ or_these (keep (accepts m) ps) (keep (cools m) ps)
      chosen t [] e a c = rw (← a, e, c) refl
      chosen t (p ∷ out) e a c = rw (← a, e) refl
