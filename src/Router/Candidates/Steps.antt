-- ===== src/Router/Candidates/Steps.antt =====
-- No step of the narrowing loses the last candidate, and none adds one.
use opod_core.Base.{
  ℕ, ◌<◌, ◌≡◌, inl, inr, refl, ap, sym, ◌∙◌, Bool, true, false, not, ◌||◌, List, [], ◌∷◌, Option,
  none, some, String, arith, eq_iff, ◌==◌, ◌===◌, length, keep, All, All-keep_of, Bool-cases,
}
use opod_core.Router.Candidates.{
  Placement, PickState, RevisionWeight, any_decode, decode_only, pick_revision_group, found_first,
  live_count, choose_revision, put_first, or_same, prefer_node,
}
use opod_core.Router.Candidates.Revisions.{pick_revision_group-Joins}

-- What holds of every candidate, of which there is one at least.
abbrev pub Some {ℓ} : (Placement → Type ℓ) → List Placement → Type ℓ
Some P ws = All P ws × (0 < length ws)

-- What the search for the node's entry gives.
abbrev pub Found {ℓ} : (Placement → Type ℓ) → String → Option (Placement × List Placement) → Type ℓ
Found P node none = Unit
Found P node (some (w, rest)) = P w × All P rest

-- The entry that a search puts first is one of the node.
abbrev pub FirstIs : String → Option (Placement × List Placement) → Type 0
FirstIs node none = Unit
FirstIs node (some (w, rest)) = (w.node_id === node) ≡ true

put_first-FirstIs : (node : String) (ws : List Placement) → FirstIs node (put_first node ws)
put_first-FirstIs node [] = tt
put_first-FirstIs node (w ∷ ws) =
    by_head (w.node_id === node) (put_first node ws) refl (put_first-FirstIs node ws)
  where
    by_head :
        (b : Bool) (o : Option (Placement × List Placement))
        → (w.node_id === node) ≡ b
        → FirstIs node o
        → FirstIs node (found_first b w ws o)
    by_head true o e h = e
    by_head false none e h = tt
    by_head false (some (v, rest)) e h = h

module _ {ℓ} (P : Placement → Type ℓ) where
  put_first-Found :
      (node : String) (ws : List Placement) → All P ws → Found P node (put_first node ws)
  put_first-Found node [] a = tt
  put_first-Found node (w ∷ ws) a =
      by_head (w.node_id === node) (put_first node ws) (put_first-Found node ws a.1)
    where
      by_head :
          (b : Bool) (o : Option (Placement × List Placement))
          → Found P node o
          → Found P node (found_first b w ws o)
      by_head true o h = a
      by_head false none h = h
      by_head false (some (v, rest)) h = (h.0, (a.0, h.1))

  pub prefer_node-Some :
      (node : String) (ws : List Placement) → Some P ws → Some P (prefer_node ws node)
  unfolding prefer_node
  prefer_node-Some node ws s = by_found (put_first node ws) (put_first-Found node ws s.0)
    where
      by_found : (o : Option (Placement × List Placement)) → Found P node o → Some P (or_same ws o)
      by_found none h = s
      by_found (some (w, rest)) h = (h, omega arith)

  -- A preferred candidate is the first, or nothing changes.
  pub prefer_node_first :
      (Q : List Placement → Type ℓ) (node : String) (ws : List Placement)
      → Q ws
      → ((w : Placement) (rest : List Placement) → (w.node_id === node) ≡ true → Q (w ∷ rest))
      → Q (prefer_node ws node)
  unfolding prefer_node
  prefer_node_first Q node ws same first = by_found (put_first node ws) (put_first-FirstIs node ws)
    where
      by_found : (o : Option (Placement × List Placement)) → FirstIs node o → Q (or_same ws o)
      by_found none h = same
      by_found (some (w, rest)) h = first w rest h

  pub decode_only-Some :
      (role : String → String) (ws : List Placement) → Some P ws → Some P (decode_only role ws)
  unfolding decode_only
  decode_only-Some role ws s = elim (Bool-cases (any_decode role ws)) [
    | inr e ↦ rw e s
    | inl e ↦ rw e (All-keep_of P (λ w. not (role w.node_id === "prefill")) ws s.0, one_left ws e)
  ]
    where
      one_left :
          (ws : List Placement)
          → any_decode role ws ≡ true
          → 0 < length (keep (λ w. not (role w.node_id === "prefill")) ws)
      one_left [] e = absurd (cc)
      one_left (w ∷ ws) e = elim (Bool-cases (role w.node_id === "prefill")) [
        | inr f ↦ rw f (omega arith)
        | inl f ↦ rw f (one_left ws (later (role w.node_id) f e))
      ]
        where
          later :
              (r : String)
              → (r === "prefill") ≡ true
              → (r === "decode" || any_decode role ws) ≡ true
              → any_decode role ws ≡ true
          later r f e =
              sym (
                ap {A = String} (λ s. s === "decode" || any_decode role ws)
                  ((eq_iff r "prefill").0 f))
              ∙ e

  pub pick_revision_group-Some :
      (weights : List RevisionWeight) (roll : ℕ → ℕ) (revision : String → ℕ) (model : String)
      (ws : List Placement) (st : PickState)
      → ((n : ℕ) → 0 < n → roll n < n)
      → Some P ws
      → Some P (pick_revision_group weights roll revision model ws st).0
  pick_revision_group-Some weights roll revision model ws st fair s =
      elim (pick_revision_group-Joins weights roll revision model ws st fair) [
        | inl (e, why) ↦ rw e s
        | inr (inl (g, weighted, own, live, e)) ↦
            rw e (All-keep_of P (λ w. revision w.node_id == g) ws s.0, live)
        | inr (inr (weighted, loose, two, live, e)) ↦ rw e (
          All-keep_of P
              (λ w. revision w.node_id == choose_revision weights (live_count revision ws) roll) ws
              s.0,
          live,
        )
      ]
