-- ===== src/Scheduler/Forms/Begin.antt =====
-- How a create begins: `CreateSharded` of internal/scheduler/sharding.go up to its claim. The expert and
-- the pipeline check, which read the catalog and the model's files, are parameters.
use opod_core.Base.{
  ◌≡◌, refl, ap, sym, subst, ◌∙◌, Bool, true, false, not, ◌||◌, [], ◌∷◌, Option, none, some, String,
  arith, eq_iff, if◌then◌else◌, ◌===◌, update, update_self, Bool-cases, inl, inr, ◌⊎◌, ℕ, ℤ,
}
use opod_core.Scheduler.GangId.{
  valid_gang_id, default_gang_id, resolve_gang, named, resolve_gang-valid,
}
use opod_core.Scheduler.Shape.{shard_count_for}
use opod_core.Scheduler.Forms.{
  Holder, Held, Guard, Claimed, in_flight, claimed, claim, clashes, held_by, claim_lem,
}

-- What the checks of a create before its claim read: whether the catalog shards the model and into how
-- many parts, the count and the nodes that the caller gives, and the answers of `checkExpertCreate` and
-- `checkSGLangPipeline` for a number of parts.
pub record Create : Type 0 where
  pub required : Bool
  pub default_shards : ℤ
  pub shard_count : ℤ
  pub named_nodes : ℕ
  pub expert_ok : ℕ → Bool
  pub pipeline_ok : ℕ → Bool

-- Why a create goes no further than its claim, or what it holds then.
pub data Begun : Type 0 where
  not_sharded invalid_gang no_count bad_expert bad_pipeline : Begun
  another_forms : Holder → Begun
  forms : Guard → Begun

abbrev pub begun_as : Claimed → Begun
begun_as (in_flight w) = another_forms w
begun_as (claimed g) = forms g

abbrev pub check_count : Create → String → String → Guard → Option ℕ → Begun
check_count c model gang g none = no_count
check_count c model gang g (some n) =
    if not (c.expert_ok n)
    then bad_expert
    else if not (c.pipeline_ok n)
    then bad_pipeline
    else begun_as (claim model gang g)

abbrev pub check_gang : Create → String → Guard → Option (String × Bool) → Begun
check_gang c model g none = invalid_gang
check_gang c model g (some (gang, replace)) =
    check_count c model gang g (shard_count_for c.default_shards c.shard_count c.named_nodes)

-- `CreateSharded` up to its claim, which is made with the gang that `resolveGang` gives.
unfoldable pub begin_create : Create → String → String → Guard → Begun
unfolding resolve_gang shard_count_for claim
begin_create c model gang g =
    if not c.required then not_sharded else check_gang c model g (resolve_gang gang)

-- The checks before the claim let the create pass, for a number of parts that it resolves to.
abbrev pub Passes : Create → Type 0
Passes c =
    (n : ℕ) × (c.required ≡ true)
    × (shard_count_for c.default_shards c.shard_count c.named_nodes ≡ some n)
    × (c.expert_ok n ≡ true)
    × (c.pipeline_ok n ≡ true)

begin_create-claim :
    (c : Create) (model gang id : String) (replace : Bool) (g : Guard)
    → Passes c
    → resolve_gang gang ≡ some (id, replace)
    → begin_create c model gang g ≡ begun_as (claim model id g)
unfolding begin_create
begin_create-claim c model gang id replace g (n, required, count, expert, pipeline) e =
    rw (required, e, count, expert, pipeline) refl

-- Whatever passes its own checks: while a create that names no gang forms, and nothing else of the
-- model does, a create of any valid gang but g0 is let in beside it, though the first one replaces
-- every gang of the model; a create of g0 is refused.
pub bare_create_lets_in :
    (c d : Create) (model gang : String) (g : Guard)
    → Passes c
    → Passes d
    → g model ≡ []
    → valid_gang_id gang ≡ true
    → (g' : Guard) × (begin_create c model "" g ≡ forms g')
      × (((gang ≡ default_gang_id)
            × (w : Holder) × (begin_create d model gang g' ≡ another_forms w))
          ⊎ ((¬ (gang ≡ default_gang_id))
              × (g'' : Guard) × (begin_create d model gang g' ≡ forms g'')))
unfolding valid_gang_id resolve_gang
bare_create_lets_in c d model gang g pass pass' free ok = elim (claim_lem model default_gang_id g) [
  | inl (bad, w, r) ↦ absurd (clashed (g model) free bad)
  | inr (fine, r) ↦ (
    with_bare,
    begin_create-claim c model "" default_gang_id true g pass refl ∙ ap begun_as r,
    second,
  )
]
  where
    with_bare : Guard
    with_bare = update g model ((default_gang_id, held_by default_gang_id) ∷ g model)

    clashed : (held : Held) → held ≡ [] → clashes default_gang_id held ≡ true → ⊥
    clashed [] e c = cc
    clashed (h ∷ held) e c = cc

    at_model :
        (b : Bool)
        → clashes gang (with_bare model) ≡ b
        → clashes gang ((default_gang_id, held_by default_gang_id) ∷ g model) ≡ b
    at_model b h =
        subst (λ held. clashes gang held ≡ b)
          (update_self g model ((default_gang_id, held_by default_gang_id) ∷ g model)) h

    apart :
        (held : Held)
        → held ≡ []
        → (gang === default_gang_id) ≡ false
        → clashes gang ((default_gang_id, held_by default_gang_id) ∷ held) ≡ true
        → ⊥
    apart [] e other h = split (gang === "") (gang === default_gang_id) (named gang ok) other h
      where
        split :
            (a b : Bool)
            → a ≡ false
            → b ≡ false
            → ((a || (default_gang_id === "") || b) || false) ≡ true
            → ⊥
        split false false e f h = cc
        split true b e f h = cc
        split false true e f h = cc
    apart (h ∷ held) e other k = cc

    met :
        (gang === default_gang_id) ≡ true
        → clashes gang ((default_gang_id, held_by default_gang_id) ∷ g model) ≡ false
        → ⊥
    met same h = split (gang === "") (gang === default_gang_id) (clashes gang (g model)) same h
      where
        split : (a b r : Bool) → b ≡ true → ((a || (default_gang_id === "") || b) || r) ≡ false → ⊥
        split a b r e h = ground arith

    begun :
        (out : Claimed)
        → claim model gang with_bare ≡ out
        → begin_create d model gang with_bare ≡ begun_as out
    begun out e =
        begin_create-claim d model gang gang false with_bare pass' (resolve_gang-valid gang ok)
        ∙ ap begun_as e

    second :
        ((gang ≡ default_gang_id)
          × (w : Holder) × (begin_create d model gang with_bare ≡ another_forms w))
        ⊎ ((¬ (gang ≡ default_gang_id))
            × (g'' : Guard) × (begin_create d model gang with_bare ≡ forms g''))
    second = elim (claim_lem model gang with_bare) [
      | inl (clashing, w, r) ↦ elim (Bool-cases (gang === default_gang_id)) [
        | inl e ↦ inl ((eq_iff gang default_gang_id).0 e, w, begun (in_flight w) r)
        | inr e ↦ absurd (apart (g model) free e (at_model true clashing))
      ]
      | inr (free', r) ↦ elim (Bool-cases (gang === default_gang_id)) [
        | inl e ↦ absurd (met e (at_model false free'))
        | inr e ↦
            inr (λ same. unlike (sym ((eq_iff gang default_gang_id).1 same) ∙ e), _, begun _ r)
      ]
    ]
      where
        unlike : true ≡ false → ⊥
        unlike e = cc
