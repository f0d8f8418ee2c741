-- ===== src/Router/Latency/Reorder.antt =====
-- What a chain looks like after the reordering.
use opod_core.Base.{
  ℕ, zero, suc, ◌+◌, ◌≤◌, ◌<◌, ◌≡◌, ◌⊎◌, inl, inr, refl, ap, sym, subst, ◌∙◌, Bool, true, false,
  ◌&&◌, ◌||◌, List, [], ◌∷◌, ◌++◌, Option, none, some, String, arith, if◌then◌else◌, ◌==◌, ltb, leb,
  length, All, Bool-cases, ltb→lt, clip, take-append_self, drop-append_suc, get_elem?-append,
}
use opod_core.Router.Latency.{Stats, p95, best_from, reordered, slow_primary, reorder_by_latency}

-- No model of the list that has samples is faster than the bound.
abbrev pub NoFaster : (String → ℕ) → List String → ℕ → Type 0
NoFaster p ms bound = All (λ n. (p n ≡ 0) ⊎ (bound ≤ p n)) ms

-- A model of the list that has samples, is faster than the bound and than which none is faster.
pub record Fastest (p : String → ℕ) (ms : List String) (bound : ℕ) (pre : List String) (m : String)
    (post : List String) : Type 0 where
  pub cut : ms ≡ pre ++ m ∷ post
  pub sampled : 0 < p m
  pub improves : p m < bound
  pub least : NoFaster p (pre ++ post) (p m)

abbrev Found : (String → ℕ) → ℕ → List String → Option ℕ → ℕ → Type 0
Found p i ms best bound =
    ((best_from p i ms best bound ≡ best) × NoFaster p ms bound)
    ⊎ ((pre : List String) × (m : String) × (post : List String) × (best_from p i ms best bound
          ≡ some (i + length pre))
        × Fastest p ms bound pre m post)

some_eq : (i j : ℕ) → i ≡ j → some i ≡ some j
some_eq i j e = ap some e

best_from_lem :
    (p : String → ℕ) (i : ℕ) (ms : List String) (best : Option ℕ) (bound : ℕ)
    → Found p i ms best bound
unfolding best_from
best_from_lem p i [] best bound = inl (refl, tt)
best_from_lem p i (n ∷ ms) best bound = elim (Bool-cases (ltb 0 (p n) && ltb (p n) bound)) [
  | inl e ↦ elim (best_from_lem p (suc i) ms (some i) (p n)) [
    | inl (ran, none_faster) ↦ inr (
      [],
      n,
      ms,
      rw e (ran ∙ some_eq i (i + zero) (omega arith)),
      record { cut = refl; sampled = ground arith; improves = ground arith; least = none_faster },
    )
    | inr (pre, m, post, ran, best_of) ↦ inr (
      n ∷ pre,
      m,
      post,
      rw e (ran ∙ some_eq (suc i + length pre) (i + suc (length pre)) (omega arith)),
      record {
        cut = ap (◌∷◌ n) best_of.cut;
        sampled = best_of.sampled;
        improves = ground (arith, best_of.improves);
        least = (inr (omega (arith, best_of.improves)), best_of.least);
      },
    )
  ]
  | inr e ↦ elim (best_from_lem p (suc i) ms best bound) [
    | inl (ran, none_faster) ↦ inl (rw e ran, (slower (p n) bound e, none_faster))
    | inr (pre, m, post, ran, best_of) ↦ inr (
      n ∷ pre,
      m,
      post,
      rw e (ran ∙ some_eq (suc i + length pre) (i + suc (length pre)) (omega arith)),
      record {
        cut = ap (◌∷◌ n) best_of.cut;
        sampled = best_of.sampled;
        improves = best_of.improves;
        least = (slower_than (p n) bound (p m) e best_of.improves, best_of.least);
      },
    )
  ]
]
  where
    slower : (a b : ℕ) → (ltb 0 a && ltb a b) ≡ false → (a ≡ 0) ⊎ (b ≤ a)
    slower a b h = ground arith

    slower_than : (a b c : ℕ) → (ltb 0 a && ltb a b) ≡ false → c < b → (a ≡ 0) ⊎ (c ≤ a)
    slower_than a b c h l = ground arith

-- Why a chain is left as it is.
pub data Kept (s : Stats) : List String → Type 0 where
  off : {chain : List String} → clip s.p95_threshold ≡ 0 → Kept s chain
  short : {chain : List String} → length chain < 2 → Kept s chain
  unsampled : {primary : String} {rest : List String} → p95 s primary ≡ 0 → Kept s (primary ∷ rest)
  fast :
      {primary : String} {rest : List String}
      → p95 s primary ≤ clip s.p95_threshold
      → Kept s (primary ∷ rest)
  no_faster :
      {primary : String} {rest : List String}
      → NoFaster (p95 s) rest (p95 s primary)
      → Kept s (primary ∷ rest)

-- A chain is left as it is, for one of the reasons above; or its primary is slower than the
-- threshold, and the fastest fallback that has samples, faster than the primary, comes to the front
-- while every other model keeps its place among the rest.
pub reorder_by_latency_lem :
    (s : Stats) (chain : List String)
    → (Kept s chain × (reorder_by_latency s chain ≡ (chain, false)))
      ⊎ ((primary : String) × (pre : List String) × (m : String) × (post : List String) × (chain
            ≡ primary ∷ pre ++ m ∷ post)
          × (clip s.p95_threshold < p95 s primary)
          × Fastest (p95 s) (pre ++ m ∷ post) (p95 s primary) pre m post
          × (reorder_by_latency s chain ≡ (m ∷ primary ∷ pre ++ post, true)))
unfolding reorder_by_latency
reorder_by_latency_lem s [] = inl (short (omega arith), same (clip s.p95_threshold == 0))
  where
    same : (b : Bool) → (if b || true then ([], false) else slow_primary s []) ≡ ([], false)
    same true = refl
    same false = refl
reorder_by_latency_lem s (primary ∷ rest) = elim (Bool-cases (clip s.p95_threshold == 0)) [
  | inl e ↦ inl (off (is_zero _ e), rw e refl)
  | inr on ↦ elim (Bool-cases (ltb (suc (length rest)) 2)) [
    | inl e ↦ inl (short (ltb→lt _ _ e), rw (on, e) refl)
    | inr long ↦
        elim (Bool-cases (p95 s primary == 0 || leb (p95 s primary) (clip s.p95_threshold))) [
          | inl e ↦
              inl (within (p95 s primary) (clip s.p95_threshold) refl refl e, rw (on, long, e) refl)
          | inr slow ↦ elim (best_from_lem (p95 s) 1 rest none (p95 s primary)) [
            | inl (ran, none_faster) ↦ inl (no_faster none_faster, rw (on, long, slow, ran) refl)
            | inr (pre, m, post, ran, best_of) ↦ inr (
              primary,
              pre,
              m,
              post,
              ap (◌∷◌ primary) best_of.cut,
              above (p95 s primary) (clip s.p95_threshold) slow,
              subst (λ ms. Fastest (p95 s) ms (p95 s primary) pre m post) best_of.cut best_of,
              rw (on, long, slow, ran, one_plus (length pre)) (to_front pre m post best_of.cut),
            )
          ]
        ]
  ]
]
  where
    is_zero : (n : ℕ) → (n == 0) ≡ true → n ≡ 0
    is_zero n e = ground arith

    one_plus : (n : ℕ) → 1 + n ≡ suc n
    one_plus n = omega arith

    within :
        (p t : ℕ)
        → p95 s primary ≡ p
        → clip s.p95_threshold ≡ t
        → (p == 0 || leb p t) ≡ true
        → Kept s (primary ∷ rest)
    within zero t e f h = unsampled e
    within (suc p) t e f h = fast (ground arith)

    above : (p t : ℕ) → (p == 0 || leb p t) ≡ false → t < p
    above p t h = ground arith

    to_front :
        (pre : List String) (m : String) (post : List String)
        → rest ≡ pre ++ m ∷ post
        → reordered (primary ∷ rest) (some (suc (length pre))) ≡ (m ∷ primary ∷ pre ++ post, true)
    to_front pre m post e =
        subst
          (λ ms.
            reordered (primary ∷ ms) (some (suc (length pre))) ≡ (m ∷ primary ∷ pre ++ post, true))
          (sym e)
          (rw
            (
              get_elem?-append pre post m,
              take-append_self pre (m ∷ post),
              drop-append_suc pre post m,
            )
            refl)
