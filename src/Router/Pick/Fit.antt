-- ===== src/Router/Pick/Fit.antt =====
-- Every pick ends, and a worker that is picked may be given the request.
use opod_core.Base.{
  ℕ, ◌<◌, ◌≡◌, ◌⊎◌, refl, subst, Bool, true, false, not, ◌||◌, List, [], ◌∷◌, Option, none, some,
  String, if◌then◌else◌, ◌===◌, keep, inl, inr, arith, All, All-map, All-keep_and, All-stable_sort,
  length-stable_sort, stable_sort, eq_refl, of_not, if_cases, ◌&&◌,
}
use opod_core.Router.Candidates.{
  Placement, PickState, without_skipped, decode_only, pick_revision_group, prefer_node,
}
use opod_core.Router.Candidates.Steps.{
  Some, prefer_node-Some, decode_only-Some, pick_revision_group-Some,
}
use opod_core.Router.Pick.{
  Scores, View, Memory, Refusal, no_row, draining, stale_heartbeat, engine_stopped, in_box, Picked,
  local_engine, no_worker_left, gang_of, worker, taking_requests, is_candidate, slots_full,
  placement_less, first_usable, with_prefix_pin, with_sticky_pin, in_order, first_of, from_left,
  from_taking, from_workers, from_placements, from_gang, pick,
}
use opod_core.Router.Pick.Filter.{
  is_accepted, is_in_box, refusal, accepts, cools, or_these, taking_requests-refines,
}

module _ (f : Scores) (v : View f) (m : Memory) (st : PickState) where
  abbrev pub remote : List Placement → List Placement
  remote ps = keep (λ p. not (p.node_id === v.local_node)) ps

  -- The placements say that the worker serves the model; it is not the leader, no attempt of the
  -- request failed on it, and it takes requests, or the penalty box alone keeps it out while no
  -- worker is accepted.
  abbrev pub FitsWorker : List Placement → String → Type 0
  FitsWorker ps node =
      (is_candidate f node ps ≡ true)
      × ((node === v.local_node) ≡ false)
      × (st.skipped node ≡ false)
      × ((refusal f v m node ≡ none)
          ⊎ ((refusal f v m node ≡ some in_box) × (keep (accepts f v m) (remote ps) ≡ [])))

  abbrev pub FitsIn : Picked → Option (List Placement) → Type 0
  FitsIn (worker node) (some ps) = FitsWorker ps node
  FitsIn (worker node) none = ⊥
  FitsIn (gang_of key) ps = v.gang ≡ some key
  FitsIn local_engine ps = Unit
  FitsIn no_worker_left ps = Unit

  abbrev pub Ends : Option (List Placement) → Option (Picked × Memory × PickState) → Type 0
  Ends ps r = (out : Picked × Memory × PickState) × (r ≡ some out) × FitsIn out.0 ps

  remote_each :
      (ps : List Placement)
      → All
          (λ p. ((p.node_id === v.local_node) ≡ false) × (is_candidate f p.node_id ps ≡ true))
          (remote ps)
  remote_each ps =
      All-map
        (λ p. (not (p.node_id === v.local_node) ≡ true) × (is_candidate f p.node_id ps ≡ true))
        (λ p. ((p.node_id === v.local_node) ≡ false) × (is_candidate f p.node_id ps ≡ true))
        (λ p (a, b). (of_not (p.node_id === v.local_node) a, b)) (remote ps)
        (All-keep_and (λ p. is_candidate f p.node_id ps ≡ true)
          (λ p. not (p.node_id === v.local_node)) ps (candidates ps))
    where
      candidates : (ps : List Placement) → All (λ p. is_candidate f p.node_id ps ≡ true) ps
      candidates [] = tt
      candidates (p ∷ ps) = (
        rw (eq_refl p.node_id) refl,
        All-map (λ q. is_candidate f q.node_id ps ≡ true)
            (λ q. is_candidate f q.node_id (p ∷ ps) ≡ true)
            (λ q e. or_true (p.node_id === q.node_id) (is_candidate f q.node_id ps) e) ps
            (candidates ps),
      )
        where
          or_true : (a b : Bool) → b ≡ true → (a || b) ≡ true
          or_true true b e = refl
          or_true false b e = e

  in_order-Some {ℓ} :
      (P : Placement → Type ℓ) (ws : List Placement) → Some P ws → Some P (in_order f v ws)
  unfolding in_order
  in_order-Some P ws (a, n) =
      with_sticky (with_prefix_pin f v (stable_sort (placement_less f v) ws)) (
        if_cases (Some P) (v.warm || pin === "") sorted (prefer_node sorted pin) (λ e. kept)
          (λ e. prefer_node-Some P pin sorted kept))
    where
      sorted : List Placement
      sorted = stable_sort (placement_less f v) ws

      pin : String
      pin = first_usable f v sorted v.prefix_pins

      kept : Some P sorted
      kept = (
        All-stable_sort (placement_less f v) P ws a,
        rw (length-stable_sort (placement_less f v) ws) n,
      )

      with_sticky : (out : List Placement) → Some P out → Some P (with_sticky_pin f v out)
      with_sticky out h =
          if_cases (Some P) (not (v.sticky === "") && not (slots_full f v v.sticky))
            (prefer_node out v.sticky) out (λ e. prefer_node-Some P v.sticky out h) (λ e. h)

  -- What is known of a placement when the box has been asked.
  abbrev pub Takes : List Placement → Placement → Type 0
  Takes ps p =
      ((p.node_id === v.local_node) ≡ false)
      × (is_candidate f p.node_id ps ≡ true)
      × ((refusal f v m p.node_id ≡ none)
          ⊎ ((refusal f v m p.node_id ≡ some in_box) × (keep (accepts f v m) (remote ps) ≡ [])))

  taking_each : (ps : List Placement) → All (Takes ps) (taking_requests f v (remote ps) m).0
  taking_each ps =
      rw (taking_requests-refines f v (remote ps) m)
        (by_accepted (keep (accepts f v m) (remote ps)) refl accepted)
    where
      Here : Placement → Type 0
      Here p = ((p.node_id === v.local_node) ≡ false) × (is_candidate f p.node_id ps ≡ true)

      was_none : (o : Option Refusal) → is_accepted o ≡ true → o ≡ none
      was_none none e = refl
      was_none (some why) e = absurd (cc)

      was_box : (o : Option Refusal) → is_in_box o ≡ true → o ≡ some in_box
      was_box (some in_box) e = refl
      was_box none e = absurd (cc)
      was_box (some no_row) e = absurd (cc)
      was_box (some draining) e = absurd (cc)
      was_box (some stale_heartbeat) e = absurd (cc)
      was_box (some engine_stopped) e = absurd (cc)

      accepted : All (Takes ps) (keep (accepts f v m) (remote ps))
      accepted =
          All-map (λ p. (accepts f v m p ≡ true) × Here p) (Takes ps)
            (λ p (a, (l, c)). (l, c, inl (was_none (refusal f v m p.node_id) a)))
            (keep (accepts f v m) (remote ps))
            (All-keep_and Here (accepts f v m) (remote ps) (remote_each ps))

      cooled :
          keep (accepts f v m) (remote ps) ≡ [] → All (Takes ps) (keep (cools f v m) (remote ps))
      cooled e =
          All-map (λ p. (cools f v m p ≡ true) × Here p) (Takes ps)
            (λ p (a, (l, c)). (l, c, inr (was_box (refusal f v m p.node_id) a, e)))
            (keep (cools f v m) (remote ps))
            (All-keep_and Here (cools f v m) (remote ps) (remote_each ps))

      by_accepted :
          (out : List Placement)
          → keep (accepts f v m) (remote ps) ≡ out
          → All (Takes ps) out
          → All (Takes ps) (or_these f v out (keep (cools f v m) (remote ps)))
      by_accepted [] e a = cooled e
      by_accepted (p ∷ out) e a = a

  -- From the group of candidates on, the memory is a result only.
  taken_Ends :
      ((n : ℕ) → 0 < n → v.roll n < n)
      → (ps : List Placement) (r : List Placement × Memory) → All (Takes ps) r.0
      → Ends (some ps) (from_taking f v st r)
  unfolding without_skipped
  taken_Ends fair ps ([], m') a = ((local_engine, m', st), refl, tt)
  taken_Ends fair ps (p ∷ rest, m') a = left (without_skipped st (p ∷ rest)) each
    where
      Fits : Placement → Type 0
      Fits q = FitsWorker ps q.node_id

      each : All Fits (without_skipped st (p ∷ rest))
      each =
          All-map (λ q. (not (st.skipped q.node_id) ≡ true) × Takes ps q) Fits
            (λ q (s, (l, c, t)). (c, l, of_not (st.skipped q.node_id) s, t))
            (without_skipped st (p ∷ rest))
            (All-keep_and (Takes ps) (λ q. not (st.skipped q.node_id)) (p ∷ rest) a)

      first :
          (st' : PickState) (ws : List Placement)
          → Some Fits ws
          → Ends (some ps) (first_of m' st' ws)
      first st' [] (b, n) = absurd (omega arith)
      first st' (q ∷ ws) (b, n) = ((worker q.node_id, m', st'), refl, b.0)

      left : (ws : List Placement) → All Fits ws → Ends (some ps) (from_left f v m' st ws)
      left [] b = ((no_worker_left, m', st), refl, tt)
      left (q ∷ ws) b =
          let g =
            pick_revision_group v.weights v.roll v.revision v.model (decode_only v.role (q ∷ ws))
              st in
          first g.1 (in_order f v g.0) (
            in_order-Some Fits g.0 (
              pick_revision_group-Some Fits v.weights v.roll v.revision v.model
                (decode_only v.role (q ∷ ws)) st fair
                (decode_only-Some Fits v.role (q ∷ ws) (b, omega arith))))

  -- A pick ends with an answer whatever the workers and the pins are, and a worker that it gives fits
  -- the request. The roll is fair: it gives a number below its bound.
  pub pick-Ends : ((n : ℕ) → 0 < n → v.roll n < n) → Ends v.placements (pick f v m st)
  unfolding pick
  pick-Ends fair =
      if_cases (Ends v.placements) (v.model === "") (some (local_engine, m, st))
        (from_gang f v m st v.gang) (λ e. here local_engine tt) (λ e. by_gang v.gang refl)
    where
      here : (p : Picked) → FitsIn p v.placements → Ends v.placements (some (p, m, st))
      here p h = ((p, m, st), refl, h)

      by_workers :
          (ps ws : List Placement) → remote ps ≡ ws → Ends (some ps) (from_workers f v m st ws)
      by_workers ps [] e = ((local_engine, m, st), refl, tt)
      by_workers ps (p ∷ ws) e =
          taken_Ends fair ps (taking_requests f v (p ∷ ws) m)
            (subst (λ l. All (Takes ps) (taking_requests f v l m).0) e (taking_each ps))

      by_placements : (o : Option (List Placement)) → Ends o (from_placements f v m st o)
      by_placements none = ((local_engine, m, st), refl, tt)
      by_placements (some ps) = by_workers ps (remote ps) refl

      by_gang : (o : Option String) → v.gang ≡ o → Ends v.placements (from_gang f v m st o)
      by_gang (some key) e = here (gang_of key) e
      by_gang none e =
          if_cases (Ends v.placements) v.every_gang_skipped (some (no_worker_left, m, st))
            (if v.local_has
              then some (local_engine, m, st)
              else from_placements f v m st v.placements)
            (λ e. here no_worker_left tt)
            (λ e.
              if_cases (Ends v.placements) v.local_has (some (local_engine, m, st))
                (from_placements f v m st v.placements) (λ e. here local_engine tt)
                (λ e. by_placements v.placements))
