-- ===== src/Scheduler/Forms.antt =====
-- One create of a model's gangs at a time (internal/scheduler/sharding.go: createGuard). The texts that a
-- claim records are never empty, so the conflict that Go keeps in a text is an option here. A map is
-- its entries, in the order they were made: Go reports any one of them.
pub mod Begin
use opod_core.Base.{
  ◌≡◌, refl, ap, sym, subst, ◌∙◌, Bool, true, false, not, ◌||◌, List, [], ◌∷◌, Option, none, some,
  String, arith, eq_iff, if◌then◌else◌, ◌===◌, update, update_self, Bool-cases, inl, inr, ◌⊎◌, ℕ, ℤ,
}

pub data Holder : Type 0 where
  whole_model : Holder
  gang_of : String → Holder

abbrev pub Held : Type 0
Held = List (String × Holder)

-- `busy`: model id → gang id ("" = the whole model) → what holds it.
abbrev pub Guard : Type 0
Guard = String → Held

abbrev pub no_creates : Guard
no_creates model = []

abbrev pub holder_of : String → Held → Option Holder
holder_of gang [] = none
holder_of gang ((k, w) ∷ held) =
    let rest = holder_of gang held in if k === gang then some w else rest

abbrev pub any_holder : Held → Option Holder
any_holder [] = none
any_holder ((k, w) ∷ held) = some w

abbrev pub or_else : Option Holder → Option Holder → Option Holder
or_else none rest = rest
or_else (some w) rest = some w

abbrev pub is_none : Option Holder → Bool
is_none none = true
is_none (some w) = false

abbrev pub conflict : String → Held → Option Holder
conflict gang held =
    if gang === "" then any_holder held else or_else (holder_of "" held) (holder_of gang held)

pub data Claimed : Type 0 where
  in_flight : Holder → Claimed
  claimed : Guard → Claimed

abbrev pub claim_unless : Option Holder → String → String → Guard → Claimed
claim_unless (some w) model gang g = in_flight w
claim_unless none model gang g =
    claimed (update g model ((gang, if gang === "" then whole_model else gang_of gang) ∷ g model))

unfoldable pub claim : String → String → Guard → Claimed
claim model gang g = claim_unless (conflict gang (g model)) model gang g

abbrev pub delete_gang : String → Held → Held
delete_gang gang [] = []
delete_gang gang ((k, w) ∷ held) =
    let rest = delete_gang gang held in if k === gang then rest else (k, w) ∷ rest

unfoldable pub release : String → String → Guard → Guard
release model gang g = update g model (delete_gang gang (g model))

-- Two gangs of one model that may not form at once.
abbrev pub clash : String → String → Bool
clash gang other = gang === "" || other === "" || gang === other

abbrev pub clashes : String → Held → Bool
clashes gang [] = false
clashes gang ((k, w) ∷ held) = clash gang k || clashes gang held

-- No two creates that hold the model clash.
abbrev pub Apart : Held → Type 0
Apart [] = Unit {0}
Apart ((k, w) ∷ held) = (clashes k held ≡ false) × Apart held

-- The guards that claims and releases lead to.
pub data Reachable : Guard → Type 0 where
  at_start : Reachable no_creates
  by_claim :
      (model gang : String) (g g' : Guard)
      → Reachable g
      → claim model gang g ≡ claimed g'
      → Reachable g'
  by_release : (model gang : String) (g : Guard) → Reachable g → Reachable (release model gang g)

clashes-delete :
    (k gang : String) (held : Held)
    → clashes k held ≡ false
    → clashes k (delete_gang gang held) ≡ false
clashes-delete k gang [] h = refl
clashes-delete k gang ((j, w) ∷ held) h = ground (arith, clashes-delete k gang held)

Apart-delete : (gang : String) (held : Held) → Apart held → Apart (delete_gang gang held)
Apart-delete gang [] a = tt
Apart-delete gang ((j, w) ∷ held) a = elim (Bool-cases (j === gang)) [
  | inl e ↦ rw e (Apart-delete gang held a.1)
  | inr e ↦ rw e (clashes-delete j gang held a.0, Apart-delete gang held a.1)
]

any-clash :
    (gang : String) (held : Held)
    → (gang === "") ≡ true
    → is_none (any_holder held) ≡ not (clashes gang held)
any-clash gang [] e = refl
any-clash gang ((k, w) ∷ held) e = rw e refl

named-clash :
    (gang : String) (held : Held)
    → (gang === "") ≡ false
    → is_none (or_else (holder_of "" held) (holder_of gang held)) ≡ not (clashes gang held)
named-clash gang [] e = refl
named-clash gang ((k, w) ∷ held) e =
    ground (arith, eq_iff k gang, eq_iff gang k, named-clash gang held e)

conflict-clash :
    (gang : String) (held : Held) → is_none (conflict gang held) ≡ not (clashes gang held)
conflict-clash gang held = elim (Bool-cases (gang === "")) [
  | inl e ↦ rw e (any-clash gang held e)
  | inr e ↦ rw e (named-clash gang held e)
]

abbrev pub held_by : String → Holder
held_by gang = if gang === "" then whole_model else gang_of gang

-- A create is refused exactly when one that holds the model clashes with it; else it holds its gang
-- beside them, and no other model is touched.
pub claim_lem :
    (model gang : String) (g : Guard)
    → ((clashes gang (g model) ≡ true) × (w : Holder) × (claim model gang g ≡ in_flight w))
      ⊎ ((clashes gang (g model) ≡ false)
          × (claim model gang g ≡ claimed (update g model ((gang, held_by gang) ∷ g model))))
unfolding claim
claim_lem model gang g = answer (conflict gang (g model)) (conflict-clash gang (g model))
  where
    answer :
        (o : Option Holder)
        → is_none o ≡ not (clashes gang (g model))
        → ((clashes gang (g model) ≡ true)
            × (w : Holder) × (claim_unless o model gang g ≡ in_flight w))
          ⊎ ((clashes gang (g model) ≡ false)
              × (claim_unless o model gang g
                  ≡ claimed (update g model ((gang, held_by gang) ∷ g model))))
    answer (some w) e = inl (ground arith, w, refl)
    answer none e = inr (ground arith, refl)

abbrev AllApart : Guard → Type 0
AllApart g = (model : String) → Apart (g model)

Apart-update :
    (g : Guard) (model : String) (held : Held)
    → AllApart g
    → Apart held
    → AllApart (update g model held)
Apart-update g model held a h m = elim (Bool-cases (model === m)) [
  | inl e ↦ rw e h
  | inr e ↦ rw e (a m)
]

claimed_inj : {g g' : Guard} → claimed g ≡ claimed g' → g ≡ g'
claimed_inj e = cc

claimed-Apart :
    (model gang : String) (g g' : Guard)
    → AllApart g
    → claim model gang g ≡ claimed g'
    → AllApart g'
claimed-Apart model gang g g' a e = elim (claim_lem model gang g) [
  | inl (c, w, r) ↦ absurd (cc)
  | inr (c, r) ↦
      subst AllApart (claimed_inj (sym r ∙ e))
        (Apart-update g model ((gang, held_by gang) ∷ g model) a (c, a model))
]

-- Whatever creates begin and end, in any order: no two creates that hold one model clash, so a
-- whole-model claim is alone on its model and each gang is claimed once.
pub Reachable-Apart : (g : Guard) → Reachable g → (model : String) → Apart (g model)
unfolding release
Reachable-Apart g at_start model = tt
Reachable-Apart g' (by_claim m gang g _ r e) model =
    claimed-Apart m gang g g' (Reachable-Apart g r) e model
Reachable-Apart _ (by_release m gang g r) model =
    Apart-update g m (delete_gang gang (g m)) (Reachable-Apart g r)
      (Apart-delete gang (g m) (Reachable-Apart g r m)) model
