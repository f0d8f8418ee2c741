-- ===== src/Router/Candidates/Revisions.antt =====
-- Which group of revisions a request joins, and that no step leaves it without a worker.
use opod_core.Base.{
  ℕ, ◌+◌, ◌-◌, ◌≤◌, ◌<◌, ◌≡◌, ◌⊎◌, inl, inr, refl, ap, subst, true, false, not, ◌||◌, List, [], ◌∷◌,
  ◌++◌, Option, none, some, String, arith, ◌==◌, ltb, length, All, All-keep, All-middle, Bool-cases,
  ltb→lt, update,
}
use opod_core.Router.Candidates.{
  Placement, PickState, RevisionWeight, live_weights, total_weight, last_revision, walk, among_live,
  choose_revision, live_count, in_group, or_all, roll_group, stay_or_roll, pick_revision_group,
}

-- The roll falls into the share of the revision `r`: as wide as its weight, after those listed before.
abbrev pub FallsTo : ℕ → ℕ → List RevisionWeight → Type 0
FallsTo n r ws =
    (pre : List RevisionWeight) × (w : RevisionWeight) × (post : List RevisionWeight) × (ws
      ≡ pre ++ w ∷ post)
    × (r ≡ w.revision)
    × (total_weight pre ≤ n)
    × (n < total_weight pre + w.weight)

walk-FallsTo :
    (last n : ℕ) (ws : List RevisionWeight) → n < total_weight ws → FallsTo n (walk last n ws) ws
unfolding walk
walk-FallsTo last n [] h = absurd (omega arith)
walk-FallsTo last n (w ∷ ws) h = elim (Bool-cases (ltb n w.weight)) [
  | inl e ↦ ([], w, ws, refl, rw e refl, omega arith, omega (arith, ltb→lt n w.weight e))
  | inr e ↦
      let (pre, v, post, cut, own, low, high) =
        walk-FallsTo last (n - w.weight) ws (less n w.weight (total_weight ws) e h) in
      (
        w ∷ pre,
        v,
        post,
        ap (◌∷◌ w) cut,
        rw e own,
        after n w.weight (total_weight pre) e low,
        before n w.weight (total_weight pre) v.weight e high,
      )
]
  where
    less : (n a b : ℕ) → ltb n a ≡ false → n < a + b → n - a < b
    less n a b e h = ground arith

    after : (n a b : ℕ) → ltb n a ≡ false → b ≤ n - a → a + b ≤ n
    after n a b e h = ground arith

    before : (n a b c : ℕ) → ltb n a ≡ false → n - a < b + c → n < a + b + c
    before n a b c e h = ground arith

-- A choice is made when two groups that have a worker have a weight; then each of them gets exactly
-- as many of the equally likely rolls as its weight, in the order they are listed.
pub choose_revision-shares :
    (ws : List RevisionWeight) (live roll : ℕ → ℕ)
    → ((n : ℕ) → 0 < n → roll n < n)
    → ((choose_revision ws live roll ≡ 0)
        × ((length (live_weights live ws) < 2) ⊎ (total_weight (live_weights live ws) ≡ 0)))
      ⊎ FallsTo
          (roll (total_weight (live_weights live ws)))
          (choose_revision ws live roll)
          (live_weights live ws)
unfolding choose_revision
choose_revision-shares ws live roll fair = among (live_weights live ws)
  where
    among :
        (cs : List RevisionWeight)
        → ((among_live roll cs ≡ 0) × ((length cs < 2) ⊎ (total_weight cs ≡ 0)))
          ⊎ FallsTo (roll (total_weight cs)) (among_live roll cs) cs
    among [] = inl (refl, inl (omega arith))
    among (w ∷ cs) = elim (Bool-cases (ltb (length (w ∷ cs)) 2 || total_weight (w ∷ cs) == 0)) [
      | inl e ↦ inl (rw e refl, few (length (w ∷ cs)) (total_weight (w ∷ cs)) e)
      | inr e ↦ inr (
          rw e (
            walk-FallsTo (last_revision w cs) (roll (total_weight (w ∷ cs))) (w ∷ cs) (
              fair (total_weight (w ∷ cs)) (positive (length (w ∷ cs)) (total_weight (w ∷ cs)) e))))
    ]
      where
        few : (m n : ℕ) → (ltb m 2 || n == 0) ≡ true → (m < 2) ⊎ (n ≡ 0)
        few m n e = ground arith

        positive : (m n : ℕ) → (ltb m 2 || n == 0) ≡ false → 0 < n
        positive m n e = ground arith

-- A revision that is chosen has a worker.
chosen_live :
    (ws : List RevisionWeight) (live roll : ℕ → ℕ)
    → ((n : ℕ) → 0 < n → roll n < n)
    → (choose_revision ws live roll == 0) ≡ false
    → 0 < live (choose_revision ws live roll)
chosen_live ws live roll fair e = elim (choose_revision-shares ws live roll fair) [
  | inl (z, why) ↦ absurd (not_zero (choose_revision ws live roll) z e)
  | inr (pre, w, post, cut, own, low, high) ↦
      let at_w : not (live w.revision == 0) ≡ true =
        All-middle (λ v. not (live v.revision == 0) ≡ true) pre w post
          (subst (All (λ v. not (live v.revision == 0) ≡ true)) cut
            (All-keep (λ v. not (live v.revision == 0)) ws)) in
      rw own (positive (live w.revision) at_w)
]
  where
    not_zero : (n : ℕ) → n ≡ 0 → (n == 0) ≡ false → ⊥
    not_zero n z e = ground arith

    positive : (n : ℕ) → not (n == 0) ≡ true → 0 < n
    positive n e = ground arith

or_all-some : (ws out : List Placement) → 0 < length out → or_all ws out ≡ out
or_all-some ws [] h = absurd (omega arith)
or_all-some ws (w ∷ out) h = refl

-- The request has no group yet, or no candidate is left in it.
abbrev pub Loose : (String → ℕ) → String → List Placement → PickState → Type 0
Loose revision model ws st =
    (st.revision model ≡ none)
    ⊎ ((g : ℕ) × (st.revision model ≡ some g) × (live_count revision ws g ≡ 0))

-- What becomes of a request: it keeps every candidate, since the model has no weights or, in no group,
-- there is nothing to choose; it stays in its group; or, in none, it joins the group that is chosen.
abbrev pub Joins :
    List RevisionWeight
    → (ℕ → ℕ)
    → (String → ℕ)
    → String
    → List Placement
    → PickState
    → List Placement × PickState
    → Type 0
Joins weights roll revision model ws st r =
    let chosen = choose_revision weights (live_count revision ws) roll in
    ((r ≡ (ws, st))
      × ((weights ≡ []) ⊎ (Loose revision model ws st × ((length ws < 2) ⊎ (chosen ≡ 0)))))
    ⊎ (((g : ℕ) × (0 < length weights)
          × (st.revision model ≡ some g)
          × (0 < live_count revision ws g)
          × (r ≡ (in_group revision g ws, st)))
        ⊎ ((0 < length weights)
            × Loose revision model ws st
            × (2 ≤ length ws)
            × (0 < live_count revision ws chosen)
            × (r ≡ (
              in_group revision chosen ws,
              record st { revision = update st.revision model (some chosen) },
            ))))

-- A request that has a group with a candidate left stays in it. One that has none joins the group that
-- the weights and the roll choose, which has a candidate, and remembers it. Without weights, or in no
-- group with fewer than two candidates or nothing to choose, it keeps every candidate.
pub pick_revision_group-Joins :
    (weights : List RevisionWeight) (roll : ℕ → ℕ) (revision : String → ℕ) (model : String)
    (ws : List Placement) (st : PickState)
    → ((n : ℕ) → 0 < n → roll n < n)
    → Joins weights roll revision model ws st
        (pick_revision_group weights roll revision model ws st)
unfolding pick_revision_group
pick_revision_group-Joins [] roll revision model ws st fair = inl (refl, inl refl)
pick_revision_group-Joins (x ∷ xs) roll revision model ws st fair = stays (st.revision model) refl
  where
    weights : List RevisionWeight
    weights = x ∷ xs

    positive : (n : ℕ) → (n == 0) ≡ false → 0 < n
    positive n e = ground arith

    is_zero : (n : ℕ) → (n == 0) ≡ true → n ≡ 0
    is_zero n e = ground arith

    enough : (n : ℕ) → ltb n 2 ≡ false → 2 ≤ n
    enough n e = ground arith

    rolls :
        Loose revision model ws st
        → Joins weights roll revision model ws st (roll_group weights roll revision model ws st)
    rolls loose = elim (Bool-cases (ltb (length ws) 2)) [
      | inl e ↦ inl (rw e refl, inr (loose, inl (ltb→lt (length ws) 2 e)))
      | inr e ↦ elim (Bool-cases (choose_revision weights (live_count revision ws) roll == 0)) [
        | inl z ↦ inl (rw (e, z) refl, inr (loose, inr (is_zero _ z)))
        | inr chosen ↦
            let g = choose_revision weights (live_count revision ws) roll in
            let some_live = chosen_live weights (live_count revision ws) roll fair chosen in
            inr (
              inr (
                omega arith,
                loose,
                enough (length ws) e,
                some_live,
                rw (e, chosen) (rw (or_all-some ws (in_group revision g ws) some_live) refl),
              ))
      ]
    ]

    stays :
        (o : Option ℕ)
        → st.revision model ≡ o
        → Joins weights roll revision model ws st (stay_or_roll weights roll revision model ws st o)
    stays none e = rolls (inl e)
    stays (some g) e = elim (Bool-cases (live_count revision ws g == 0)) [
      | inl gone ↦ rw gone (rolls (inr (g, e, is_zero _ gone)))
      | inr here ↦ inr (
          inl (
            g,
            omega arith,
            e,
            positive (live_count revision ws g) here,
            rw here (
                rw
                  (or_all-some ws (in_group revision g ws)
                    (positive (live_count revision ws g) here))
                  refl),
          ))
    ]
