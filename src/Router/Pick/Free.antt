-- ===== src/Router/Pick/Free.antt =====
-- Free slots first: when the first of the order is full, so is every candidate.
use opod_core.Base.{
  ◌≡◌, refl, ap, sym, ◌∙◌, Bool, true, false, not, ◌&&◌, List, [], ◌∷◌, String, ◌===◌, Bool-cases,
  eq_iff, inl, inr, arith, All, if_cases, ◌||◌, All-map, none_kept, none_passes, stable_sort,
  Sorted, stable_sort-Sorted, keep-stable_sort, WeakOrder,
}
use opod_core.Router.Candidates.{Placement, prefer_node}
use opod_core.Router.Candidates.Steps.{prefer_node_first}
use opod_core.Router.Pick.{
  Scores, View, slots_full, load_rank, rank_of, rank_less, placement_less, usable_pin, is_candidate,
  first_usable, with_prefix_pin, with_sticky_pin, in_order,
}

module _ (f : Scores) where
  pub rank_less-WeakOrder : WeakOrder (rank_less f)
  rank_less-WeakOrder = record { asym = asym; trans = trans }
    where
      asym : (a b : Bool × f.Score) → rank_less f a b ≡ true → rank_less f b a ≡ false
      asym (true, a) (true, b) e = f.order.asym a b e
      asym (false, a) (false, b) e = f.order.asym a b e
      asym (false, a) (true, b) e = refl
      asym (true, a) (false, b) e = sym e

      true_false : true ≡ false → ⊥
      true_false e = cc

      trans :
          (a b c : Bool × f.Score)
          → rank_less f b a ≡ false
          → rank_less f c b ≡ false
          → rank_less f c a ≡ false
      trans (true, a) (true, b) (true, c) e h = f.order.trans a b c e h
      trans (false, a) (false, b) (false, c) e h = f.order.trans a b c e h
      trans (false, a) (true, b) (true, c) e h = refl
      trans (false, a) (false, b) (true, c) e h = refl
      trans (true, a) (true, b) (false, c) e h = absurd (true_false h)
      trans (false, a) (true, b) (false, c) e h = absurd (true_false h)
      trans (true, a) (false, b) c e h = absurd (true_false e)

module _ (f : Scores) (v : View f) where
  rank_order : WeakOrder (placement_less f v)
  rank_order = record {
    asym = λ p q. (rank_less-WeakOrder f).asym (rank_of f v p.node_id) (rank_of f v q.node_id);
    trans = λ p q r.
        (rank_less-WeakOrder f).trans (rank_of f v p.node_id) (rank_of f v q.node_id)
          (rank_of f v r.node_id);
  }

  -- A worker that would queue the request: its slots are taken, or its KV cache is.
  abbrev pub is_full : Placement → Bool
  is_full p = (load_rank f v p.node_id).0

  -- A first candidate with full slots means that all of them are full.
  abbrev pub FullOnlyIfAll : List Placement → List Placement → Type 0
  FullOnlyIfAll ws [] = Unit
  FullOnlyIfAll ws (p ∷ rest) = slots_full f v p.node_id ≡ true → All (λ q. is_full q ≡ true) ws

  slots_full-is_full : (p : Placement) → slots_full f v p.node_id ≡ true → is_full p ≡ true
  unfolding load_rank
  slots_full-is_full p e = rw (is_full, load_rank, e) refl

  after_full :
      (p q : Placement) → placement_less f v q p ≡ false → is_full p ≡ true → is_full q ≡ true
  after_full p q e h = by_ranks (rank_of f v q.node_id) (rank_of f v p.node_id) e h
    where
      by_ranks : (r s : Bool × f.Score) → rank_less f r s ≡ false → s.0 ≡ true → r.0 ≡ true
      by_ranks (true, a) s e h = refl
      by_ranks (false, a) (true, b) e h = sym e
      by_ranks (false, a) (false, b) e h = h

  full_before_sort :
      (ws : List Placement)
      → All (λ q. is_full q ≡ true) (stable_sort (placement_less f v) ws)
      → All (λ q. is_full q ≡ true) ws
  full_before_sort ws a =
      All-map (λ q. not (is_full q) ≡ false) (λ q. is_full q ≡ true) (λ q. from_not (is_full q)) ws
        (none_kept (λ q. not (is_full q)) ws
          (sym (keep-stable_sort (placement_less f v) (λ q. not (is_full q)) ws)
            ∙ none_passes (λ q. not (is_full q)) (stable_sort (placement_less f v) ws)
                (All-map (λ q. is_full q ≡ true) (λ q. not (is_full q) ≡ false) (λ q e. ap not e)
                  (stable_sort (placement_less f v) ws) a)))
    where
      from_not : (b : Bool) → not b ≡ false → b ≡ true
      from_not true e = refl
      from_not false e = sym e

  sorted_first : (ws : List Placement) → FullOnlyIfAll ws (stable_sort (placement_less f v) ws)
  sorted_first ws =
      by_head (stable_sort (placement_less f v) ws)
        (stable_sort-Sorted (placement_less f v) rank_order ws) (full_before_sort ws)
    where
      by_head :
          (out : List Placement)
          → Sorted (placement_less f v) out
          → (All (λ q. is_full q ≡ true) out → All (λ q. is_full q ≡ true) ws)
          → FullOnlyIfAll ws out
      by_head [] s back = tt
      by_head (p ∷ rest) s back = λ e.
          let full = slots_full-is_full p e in
          back (
            full,
            All-map (λ q. placement_less f v q p ≡ false) (λ q. is_full q ≡ true)
                (λ q h. after_full p q h full) rest s.0,
          )

  not_full_first :
      (ws : List Placement) (node : String)
      → slots_full f v node ≡ false
      → (w : Placement) (rest : List Placement) → (w.node_id === node) ≡ true
      → FullOnlyIfAll ws (w ∷ rest)
  not_full_first ws node free w rest here =
      λ e. absurd (clash (ap (slots_full f v) (sym ((eq_iff w.node_id node).0 here)) ∙ e))
    where
      clash : slots_full f v node ≡ true → ⊥
      clash e = cc

  first_usable-free :
      (ws : List Placement) (pins : List String)
      → (first_usable f v ws pins === "") ≡ false
      → slots_full f v (first_usable f v ws pins) ≡ false
  unfolding first_usable
  first_usable-free ws [] e = absurd (cc)
  first_usable-free ws (pin ∷ pins) e = elim (Bool-cases (usable_pin f v ws pin)) [
    | inl u ↦ rw u (free (is_candidate f pin ws) (rank_of f v pin).0 (slots_full f v pin) u)
    | inr u ↦ rw u (first_usable-free ws pins (rw u at e))
  ]
    where
      free : (a b c : Bool) → (a && not b && not c) ≡ true → c ≡ false
      free a b true e = ground arith
      free a b false e = refl

  -- The first of the order has full slots only if every candidate would queue the request, whichever
  -- pin brought it to the front: its slots or its KV cache are full, too.
  pub in_order-FullOnlyIfAll : (ws : List Placement) → FullOnlyIfAll ws (in_order f v ws)
  unfolding in_order
  in_order-FullOnlyIfAll ws =
      with_sticky (with_prefix_pin f v (stable_sort (placement_less f v) ws)) with_prefix
    where
      sorted : List Placement
      sorted = stable_sort (placement_less f v) ws

      with_prefix : FullOnlyIfAll ws (with_prefix_pin f v sorted)
      with_prefix =
          let pin = first_usable f v sorted v.prefix_pins in
          if_cases (FullOnlyIfAll ws) (v.warm || pin === "") sorted (prefer_node sorted pin)
            (λ e. sorted_first ws)
            (λ e.
              prefer_node_first (λ p. Unit) (FullOnlyIfAll ws) pin sorted (sorted_first ws)
                (not_full_first ws pin
                  (first_usable-free sorted v.prefix_pins (second v.warm (pin === "") e))))
        where
          second : (a b : Bool) → (a || b) ≡ false → b ≡ false
          second true b e = ground arith
          second false b e = e

      with_sticky :
          (out : List Placement) → FullOnlyIfAll ws out → FullOnlyIfAll ws (with_sticky_pin f v out)
      with_sticky out h =
          if_cases (FullOnlyIfAll ws) (not (v.sticky === "") && not (slots_full f v v.sticky))
            (prefer_node out v.sticky) out
            (λ e.
              prefer_node_first (λ p. Unit) (FullOnlyIfAll ws) v.sticky out h
                (not_full_first ws v.sticky
                  (free (not (v.sticky === "")) (slots_full f v v.sticky) e)))
            (λ e. h)
        where
          free : (a b : Bool) → (a && not b) ≡ true → b ≡ false
          free a true e = ground arith
          free a false e = refl
