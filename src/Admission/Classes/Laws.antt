-- ===== src/Admission/Classes/Laws.antt =====
-- What a policy and a header can make of a request's class and of a class's share.
use opod_core.Base.{
  ℕ, ◌≤◌, ◌<◌, ◌/◌, ◌≡◌, ◌⊎◌, inl, inr, refl, ap, ◌∙◌, true, false, List, [], ◌∷◌, ◌++◌, Option,
  none, some, arith, if◌then◌else◌, ◌==◌, max, length, All, Bool-cases, clip,
}
use opod_core.Admission.Classes.{
  Class, critical, standard, sheddable, rank, same_class, at, every, exact_end, default_max_held,
  parse_class, or_standard, lowered, is_nonempty, effective_class, Floats, ClassConfig, PolicyClass,
  Policy, set_class, set_if_class, apply_classes, new_class_config, class_default_share, share_cap,
}

-- The rank that a header asks for; one that names no class asks for nothing.
abbrev pub asked_rank : Option Class → ℕ
asked_rank none = 0
asked_rank (some c) = rank c

-- A request is ranked by the lower of its key's class, standard when it has none, and the class that
-- the header names: a header never raises a request.
effective_class-lower :
    (key_class header : List ℕ)
    → rank (effective_class key_class header)
      ≡ max (rank (or_standard (parse_class key_class))) (asked_rank (parse_class header))
unfolding effective_class
effective_class-lower key_class header =
    lower_of (or_standard (parse_class key_class)) (parse_class header)
  where
    lower_of : (c : Class) (h : Option Class) → rank (lowered c h) ≡ max (rank c) (asked_rank h)
    lower_of c none = omega arith
    lower_of c (some h) = ground arith

module _ (f : Floats) where
  open f use {in_unit, floor_mul}

  -- The share of a class that lists no share of its own, or none between 0 and 1.
  abbrev pub default_cap : Class → ℕ → ℕ
  default_cap c slots = max 1 (if same_class c sheddable then slots / 4 else slots)

  -- The entry that decides for a class is the last one whose name is the class's.
  abbrev pub LastFor : Class → List (PolicyClass f) → PolicyClass f → Type 0
  LastFor c cs l =
      (pre : List (PolicyClass f)) × (post : List (PolicyClass f)) × (cs ≡ pre ++ l ∷ post)
      × (parse_class l.name ≡ some c)
      × All (λ m. ¬ (parse_class m.name ≡ some c)) post

  abbrev own_share : Class → PolicyClass f → f.Share
  own_share c l = if in_unit l.max_share then l.max_share else at (class_default_share f) c

  set_if_class_lem :
      (o : Option Class) (l : PolicyClass f) (cfg : ClassConfig f) (c : Class)
      → ((o ≡ some c) × (at (set_if_class f o l cfg).max_share c ≡ own_share c l))
        ⊎ ((¬ (o ≡ some c)) × (at (set_if_class f o l cfg).max_share c ≡ at cfg.max_share c))
  unfolding set_class
  set_if_class_lem none l cfg c = inr (λ e. cc, refl)
  set_if_class_lem (some critical) l cfg critical = inl (refl, refl)
  set_if_class_lem (some critical) l cfg standard = inr (λ e. cc, refl)
  set_if_class_lem (some critical) l cfg sheddable = inr (λ e. cc, refl)
  set_if_class_lem (some standard) l cfg critical = inr (λ e. cc, refl)
  set_if_class_lem (some standard) l cfg standard = inl (refl, refl)
  set_if_class_lem (some standard) l cfg sheddable = inr (λ e. cc, refl)
  set_if_class_lem (some sheddable) l cfg critical = inr (λ e. cc, refl)
  set_if_class_lem (some sheddable) l cfg standard = inr (λ e. cc, refl)
  set_if_class_lem (some sheddable) l cfg sheddable = inl (refl, refl)

  -- Either no entry is the class's and its share stays, or the last one that is decides.
  apply_classes_lem :
      (cs : List (PolicyClass f)) (cfg : ClassConfig f) (c : Class)
      → (All (λ m. ¬ (parse_class m.name ≡ some c)) cs
          × (at (apply_classes f cs cfg).max_share c ≡ at cfg.max_share c))
        ⊎ ((l : PolicyClass f) × LastFor c cs l
            × (at (apply_classes f cs cfg).max_share c ≡ own_share c l))
  unfolding apply_classes
  apply_classes_lem [] cfg c = inl (tt, refl)
  apply_classes_lem (m ∷ cs) cfg c =
      elim (apply_classes_lem cs (set_if_class f (parse_class m.name) m cfg) c) [
        | inr (l, (pre, post, cut, own, others), share) ↦
            inr (l, (m ∷ pre, post, ap (◌∷◌ m) cut, own, others), share)
        | inl (others, kept) ↦ elim (set_if_class_lem (parse_class m.name) m cfg c) [
          | inl (own, share) ↦ inr (m, ([], cs, refl, own, others), kept ∙ share)
          | inr (other, same) ↦ inl ((other, others), kept ∙ same)
        ]
      ]

  default_lem :
      (c : Class) (slots : ℕ)
      → slots ≤ exact_end
      → max 1 (floor_mul (at (class_default_share f) c) slots) ≡ default_cap c slots
  unfolding class_default_share
  default_lem critical slots small = ap (max 1) (f.floor_mul-one slots small)
  default_lem standard slots small = ap (max 1) (f.floor_mul-one slots small)
  default_lem sheddable slots small = ap (max 1) (f.floor_mul-quarter slots small)

  -- What a policy makes of the slots that a class may hold.
  abbrev pub SharesOut : List (PolicyClass f) → Class → ℕ → ℕ → Type 0
  SharesOut cs c slots cap =
      ((cs ≡ []) × (cap ≡ max 1 slots))
      ⊎ (((0 < length cs)
            × All (λ m. ¬ (parse_class m.name ≡ some c)) cs
            × (cap ≡ default_cap c slots))
          ⊎ ((l : PolicyClass f) × LastFor c cs l
              × (((in_unit l.max_share ≡ false) × (cap ≡ default_cap c slots))
                  ⊎ ((in_unit l.max_share ≡ true)
                      × (cap ≡ max 1 (floor_mul l.max_share slots))
                      × (cap ≤ max 1 slots)))))

  -- The slots that a class may hold are at least one. Without a list of classes they are all. Else the
  -- last entry that names the class decides, if its share is between 0 and 1, and they are that part of
  -- all, rounded down; without such an entry or such a share they are a quarter for the lowest class
  -- and all for the others. The slots are at most 2 ^ 53.
  pub share_cap-SharesOut :
      (p : Policy f) (c : Class) (slots : ℕ)
      → slots ≤ exact_end
      → SharesOut p.classes c slots (share_cap f (new_class_config f p) c slots)
  unfolding share_cap new_class_config
  share_cap-SharesOut p c slots small = listed p.classes
    where
      start : List (PolicyClass f) → ClassConfig f
      start cs = record {
        classed = is_nonempty f cs;
        hold_ms = every (clip p.hold_ms);
        max_held = every 0;
        max_share = if is_nonempty f cs then class_default_share f else every f.one;
        total = if clip p.max_held == 0 then default_max_held f else clip p.max_held;
      }

      cap_of : f.Share → ℕ
      cap_of s = max 1 (floor_mul s slots)

      every_one : (c : Class) → at (every f.one) c ≡ f.one
      every_one critical = refl
      every_one standard = refl
      every_one sheddable = refl

      bounded : (x : ℕ) → x ≤ slots → max 1 x ≤ max 1 slots
      bounded x h = omega arith

      listed :
          (cs : List (PolicyClass f))
          → SharesOut cs c slots (cap_of (at (apply_classes f cs (start cs)).max_share c))
      listed [] = inl (refl, ap cap_of (sharing c) ∙ ap (max 1) (f.floor_mul-one slots small))
        where
          sharing : (c : Class) → at (apply_classes f [] (start [])).max_share c ≡ f.one
          sharing c = every_one c
      listed (m ∷ cs) = elim (apply_classes_lem (m ∷ cs) (start (m ∷ cs)) c) [
        | inl (others, kept) ↦
            inr (inl (omega arith, others, ap cap_of kept ∙ default_lem c slots small))
        | inr (l, last, share) ↦ inr (
            inr (
              l,
              last,
              elim (Bool-cases (in_unit l.max_share)) [
                | inl ok ↦
                    let e : at (apply_classes f (m ∷ cs) (start (m ∷ cs))).max_share c
                        ≡ l.max_share =
                      share ∙ rw ok refl in
                    inr (
                      ok,
                      ap cap_of e,
                      rw e (bounded _ (f.floor_mul-le l.max_share slots small ok)),
                    )
                | inr bad ↦ inl (bad, ap cap_of (share ∙ rw bad refl) ∙ default_lem c slots small)
              ],
            ))
      ]
