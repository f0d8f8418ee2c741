-- ===== src/Router/Gangs/Turns.antt =====
-- The gang that serves is one of the least loaded, and those that tie take turns.
use opod_core.Base.{
  ℕ, suc, ◌%◌, ◌<◌, ◌≡◌, inl, inr, refl, ap, sym, subst, ◌∙◌, Bool, true, false, not, ◌&&◌, ◌==◌,
  ◌===◌, if◌then◌else◌, List, [], ◌∷◌, ◌++◌, Option, some, String, arith, ltb, length, get_elem?,
  get_elem?_below, keep, keep-append, length-append, append_assoc, append-nil, All, Bool-cases,
}
use native.Mathlib.Nat.{mod-lt}
use opod_core.Router.Candidates.{PickState}
use opod_core.Router.Pick.{Scores, View, rank_less}
use opod_core.Router.Pick.Free.{rank_less-WeakOrder}
use opod_core.Router.Gangs.{
  Part, Gang, Candidate, part_routable, shard_group_routable, ready_coordinator, with_candidate,
  note_skipped_gang, gang_key, ready_gangs, gang_rank, least_loaded, in_turn, least_of, key_of,
  shard_coordinator,
}

module _ (f : Scores) (v : View f) where
  abbrev less : Bool × f.Score → Bool × f.Score → Bool
  less a b = rank_less f a b

  abbrev rank : Candidate → Bool × f.Score
  rank c = gang_rank f v c

  -- Who is not behind a rank.
  abbrev pub ties : Bool × f.Score → List Candidate → List Candidate
  ties best cs = keep (λ c. not (rank_less f best (gang_rank f v c))) cs

  -- Nobody is before a rank.
  abbrev pub Least : Bool × f.Score → List Candidate → Type 0
  Least best cs = All (λ c. rank_less f (gang_rank f v c) best ≡ false) cs

  irreflexive : (a : Bool × f.Score) → less a a ≡ false
  irreflexive a = elim (Bool-cases (less a a)) [
    | inr e ↦ e
    | inl e ↦ (rank_less-WeakOrder f).asym a a e
  ]

  before : (b c d : Bool × f.Score) → less c b ≡ true → less d b ≡ false → less c d ≡ true
  before b c d e h = elim (Bool-cases (less c d)) [
    | inl l ↦ l
    | inr l ↦ absurd (clash (sym e ∙ (rank_less-WeakOrder f).trans b d c h l))
  ]
    where
      clash : true ≡ false → ⊥
      clash e = cc

  -- A better one leaves those before it behind.
  better_ties :
      (c : Candidate) (best : Bool × f.Score) (cs : List Candidate)
      → less (rank c) best ≡ true
      → Least best cs
      → ties (rank c) cs ≡ []
  better_ties c best [] e l = refl
  better_ties c best (d ∷ cs) e l =
      rw (before best (rank c) (rank d) e l.0) (better_ties c best cs e l.1)

  better-Least :
      (c : Candidate) (best : Bool × f.Score) (cs : List Candidate)
      → less (rank c) best ≡ true
      → Least best cs
      → Least (rank c) cs
  better-Least c best [] e l = tt
  better-Least c best (d ∷ cs) e l = (
    (rank_less-WeakOrder f).asym (rank c) (rank d) (before best (rank c) (rank d) e l.0),
    better-Least c best cs e l.1,
  )

  Least-append :
      (best : Bool × f.Score) (cs : List Candidate) (c : Candidate)
      → Least best cs
      → less (rank c) best ≡ false
      → Least best (cs ++ c ∷ [])
  Least-append best [] c l e = (e, tt)
  Least-append best (d ∷ cs) c l e = (l.0, Least-append best cs c l.1 e)

  -- The loop ends with those who tie for the least load of all.
  abbrev Tied : List Candidate → List Candidate → Type 0
  Tied all out = (best : Bool × f.Score) × Least best all × (out ≡ ties best all) × (0 < length out)

  least_loaded-Tied :
      (cs pre : List Candidate) (best : Bool × f.Score) (tied : List Candidate)
      → Least best pre
      → tied ≡ ties best pre
      → 0 < length tied
      → Tied (pre ++ cs) (least_loaded f v cs best tied)
  unfolding least_loaded
  least_loaded-Tied [] pre best tied l e n = (
    best,
    subst (Least best) (sym (append-nil pre)) l,
    e ∙ ap (ties best) (sym (append-nil pre)),
    n,
  )
  least_loaded-Tied (c ∷ cs) pre best tied l e n = elim (Bool-cases (less (rank c) best)) [
    | inl first ↦ rw first (
        subst (λ all. Tied all (least_loaded f v cs (rank c) (c ∷ [])))
          (append_assoc pre (c ∷ []) cs)
          (least_loaded-Tied cs (pre ++ c ∷ []) (rank c) (c ∷ [])
            (Least-append (rank c) pre c (better-Least c best pre first l) (irreflexive (rank c)))
            (sym (
              keep-append (λ d. not (less (rank c) (rank d))) pre (c ∷ [])
              ∙ rw (better_ties c best pre first l, irreflexive (rank c)) refl))
            (omega arith)))
    | inr not_first ↦
        let least = Least-append best pre c l not_first in
        elim (Bool-cases (less best (rank c))) [
          | inl behind ↦
              rw (not_first, behind)
                (subst (λ all. Tied all (least_loaded f v cs best tied))
                  (append_assoc pre (c ∷ []) cs)
                  (least_loaded-Tied cs (pre ++ c ∷ []) best tied least
                    (e
                      ∙ sym (
                          keep-append (λ d. not (less best (rank d))) pre (c ∷ [])
                          ∙ rw behind (append-nil (ties best pre))))
                    n))
          | inr same ↦
              rw (not_first, same)
                (subst (λ all. Tied all (least_loaded f v cs best (tied ++ c ∷ [])))
                  (append_assoc pre (c ∷ []) cs)
                  (least_loaded-Tied cs (pre ++ c ∷ []) best (tied ++ c ∷ []) least
                    (ap {A = List Candidate} (λ t. t ++ c ∷ []) e
                      ∙ sym
                          (keep-append (λ d. not (less best (rank d))) pre (c ∷ []) ∙ rw same refl))
                    (omega (arith, length-append tied (c ∷ [])))))
        ]
  ]

  -- It is a gang's turn among those that tie, and the turn is the next one's where more than one does.
  abbrev pub TakesTurn : List Candidate → ℕ → Option Candidate × ℕ → Type 0
  TakesTurn all turn r =
      (best : Bool × f.Score) × (c : Candidate) × Least best all
      × (get_elem? (ties best all) (turn % length (ties best all)) ≡ some c)
      × (r.0 ≡ some c)
      × (r.1 ≡ (if ltb 1 (length (ties best all)) then suc turn else turn))

  in_turn-TakesTurn :
      (all tied : List Candidate) (turn : ℕ)
      → Tied all tied
      → TakesTurn all turn (in_turn f tied turn)
  in_turn-TakesTurn all tied turn (best, l, e, n) =
      let (c, at) = get_elem?_below tied (turn % length tied) (below turn (length tied) n) in
      (
        best,
        c,
        l,
        subst (λ t. get_elem? t (turn % length t) ≡ some c) e at,
        elim (Bool-cases (ltb 1 (length tied))) [
          | inl many ↦ rw many at
          | inr one ↦
              rw one (subst (λ i. get_elem? tied i ≡ some c) (only turn (length tied) n one) at)
        ],
        subst (λ t. (in_turn f tied turn).1 ≡ (if ltb 1 (length t) then suc turn else turn)) e
            counted,
      )
    where
      below : (t n : ℕ) → 0 < n → t % n < n
      below t n h = mod-lt t h

      only : (t n : ℕ) → 0 < n → ltb 1 n ≡ false → t % n ≡ 0
      only t n h e = ground (arith, mod-lt t h)

      counted : (in_turn f tied turn).1 ≡ (if ltb 1 (length tied) then suc turn else turn)
      counted = elim (Bool-cases (ltb 1 (length tied))) [
        | inl many ↦ rw many refl
        | inr one ↦ rw one refl
      ]

  abbrev heads : String → List Part → List Candidate
  heads gang [] = []
  heads gang (p ∷ ps) = record { gang = gang; coord = p } ∷ []

  abbrev is_head : Part → Bool
  is_head p = p.role === "coordinator" && p.status === "ready"

  -- No part is where no work may go.
  abbrev pub none_out : List Part → Bool
  none_out parts = length (keep (λ p. not (part_routable f v p)) parts) == 0

  routable-none_out : (parts : List Part) → shard_group_routable f v parts ≡ none_out parts
  unfolding shard_group_routable
  routable-none_out [] = refl
  routable-none_out (p ∷ ps) = elim (Bool-cases (part_routable f v p)) [
    | inl e ↦ rw e (routable-none_out ps)
    | inr e ↦ rw e (one_out (length (keep (λ q. not (part_routable f v q)) ps)))
  ]
    where
      one_out : (n : ℕ) → false ≡ (suc n == 0)
      one_out n = ground arith

  -- The gangs that may serve, in the order they come in, each with the first of its parts that is a
  -- ready coordinator: every part is where work may go, and no attempt of the request failed on it.
  abbrev pub serving : (String → Bool) → List Gang → List Candidate
  serving skipped [] = []
  serving skipped ((gang, parts) ∷ gangs) =
      (if none_out parts && not (skipped (gang_key v.model gang))
        then heads gang (keep is_head parts)
        else [])
      ++ serving skipped gangs

  with_candidate-heads :
      (gang : String) (parts : List Part) (r : List Candidate × PickState)
      → (with_candidate f gang (ready_coordinator f parts) r).0
        ≡ heads gang (keep is_head parts) ++ r.0
  with_candidate-heads gang [] r = refl
  with_candidate-heads gang (p ∷ ps) r = elim (Bool-cases (is_head p)) [
    | inl e ↦ rw e refl
    | inr e ↦ rw e (with_candidate-heads gang ps r)
  ]

  ready_gangs-serving :
      (gangs : List Gang) (st : PickState) → (ready_gangs f v gangs st).0 ≡ serving st.skipped gangs
  unfolding ready_gangs
  ready_gangs-serving [] st = refl
  ready_gangs-serving ((gang, parts) ∷ gangs) st =
      let rest = ready_gangs-serving gangs st in
      let passed = ready_gangs-serving gangs (note_skipped_gang f v.model st) in
      rw (routable-none_out parts) (elim (Bool-cases (none_out parts)) [
        | inr out ↦ rw out rest
        | inl routable ↦ elim (Bool-cases (st.skipped (gang_key v.model gang))) [
          | inl skip ↦ rw (routable, skip) passed
          | inr free ↦
              rw (routable, free)
                (with_candidate-heads gang parts (ready_gangs f v gangs st)
                  ∙ ap (λ cs. heads gang (keep is_head parts) ++ cs) rest)
        ]
      ])

  -- The request goes to the gang whose turn it is among those of `all` that tie for the least load, and
  -- the turn is the next one's where more than one does.
  abbrev pub HasTurn : List Candidate → ℕ → (Option String × PickState) × ℕ → Type 0
  HasTurn all turn r =
      (best : Bool × f.Score) × (c : Candidate) × Least best all
      × (get_elem? (ties best all) (turn % length (ties best all)) ≡ some c)
      × (r.0.0 ≡ some (gang_key v.model c.gang))
      × (r.1 ≡ (if ltb 1 (length (ties best all)) then suc turn else turn))

  -- When some gang may serve, the request goes to one of the least loaded that may. Those that tie for
  -- that are served one after the other in the order they come in: by the turn modulo their number,
  -- and the turn goes one up exactly when more than one ties.
  pub shard_coordinator-HasTurn :
      (gangs : List Gang) (st : PickState) (turn : ℕ)
      → 0 < length (serving st.skipped gangs)
      → HasTurn (serving st.skipped gangs) turn (shard_coordinator f v gangs st turn)
  unfolding shard_coordinator
  shard_coordinator-HasTurn gangs st turn n =
      rw (ready_gangs-serving gangs st) (named (by_ready (serving st.skipped gangs) n))
    where
      named :
          TakesTurn (serving st.skipped gangs) turn (least_of f v (serving st.skipped gangs) turn)
          → HasTurn (serving st.skipped gangs) turn (
            (
              key_of f v.model (least_of f v (serving st.skipped gangs) turn).0,
              (ready_gangs f v gangs st).1,
            ),
            (least_of f v (serving st.skipped gangs) turn).1,
          )
      named (best, c, least, at, ran, counted) =
          (best, c, least, at, ap (key_of f v.model) ran, counted)

      by_ready :
          (ready : List Candidate)
          → 0 < length ready
          → TakesTurn ready turn (least_of f v ready turn)
      by_ready [] n = absurd (omega arith)
      by_ready (c ∷ []) n =
          in_turn-TakesTurn (c ∷ []) (c ∷ []) turn
            (rank c, (irreflexive (rank c), tt), sym (rw (irreflexive (rank c)) refl), omega arith)
      by_ready (c ∷ d ∷ cs) n =
          in_turn-TakesTurn (c ∷ d ∷ cs) (least_loaded f v (d ∷ cs) (rank c) (c ∷ [])) turn (
            least_loaded-Tied (d ∷ cs) (c ∷ []) (rank c) (c ∷ []) (irreflexive (rank c), tt)
              (rw (irreflexive (rank c)) refl) (omega arith))
