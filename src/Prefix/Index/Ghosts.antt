-- ===== src/Prefix/Index/Ghosts.antt =====
-- Every block that returns is counted, in the bucket of its depth.
use opod_core.Base.{
  ℕ, suc, ◌+◌, ◌-◌, ◌≤◌, ◌<◌, ◌≡◌, ◌⊎◌, inl, inr, refl, ap, ◌∙◌, false, List, [], ◌∷◌, Option, none,
  some, String, arith, ◌===◌, leb, length, update, update_self, Bool-cases,
}
use opod_core.Prefix.Index.{
  Ghost, no_ghosts, ghost_cap, ghost_buckets, onto, count_return, computed,
}

-- The list numbers its evictions one by one, up to the last.
abbrev pub Numbered : ℕ → List (String × ℕ) → Type 0
Numbered last [] = Unit
Numbered last ((h, at) ∷ rest) = (at + length rest ≡ last) × Numbered last rest

abbrev pub Listed : String → ℕ → List (String × ℕ) → Type 0
Listed h at [] = ⊥
Listed h at ((k, a) ∷ rest) = ((k ≡ h) × (a ≡ at)) ⊎ Listed h at rest

abbrev pub Remembers : (String → Option ℕ) → List (String × ℕ) → Type 0
Remembers ghost order = (h : String) (at : ℕ) → ghost h ≡ some at → Listed h at order

pub record GhostInv (g : Ghost) : Type 0 where
  pub numbered : Numbered g.evictions g.ghost_order
  pub remembered : Remembers g.ghost g.ghost_order
  pub within : length g.ghost_order ≤ ghost_cap
  pub buckets : length g.returns ≡ 5

pub fresh-GhostInv :
    (stored : ℕ) (returns : List ℕ)
    → length returns ≡ 5
    → GhostInv (record no_ghosts { stored = stored; returns = returns })
fresh-GhostInv stored returns e = record {
  numbered = tt;
  remembered = λ h at e. absurd (nothing at e);
  within = omega arith;
  buckets = e;
}
  where
    nothing : (at : ℕ) → none ≡ some at → ⊥
    nothing at e = cc

-- A listed eviction is one of the last, as many as the list is long.
Listed-recent :
    (last : ℕ) (order : List (String × ℕ)) (h : String) (at : ℕ)
    → Numbered last order
    → Listed h at order
    → (at ≤ last) × (last - at < length order)
Listed-recent last [] h at n l = absurd l
Listed-recent last ((k, a) ∷ rest) h at n (inl (same, e)) =
    (omega (arith, n.0, e), omega (arith, n.0, e))
Listed-recent last ((k, a) ∷ rest) h at n (inr l) =
    let (below, near) = Listed-recent last rest h at n.1 l in (below, omega (arith, near))

-- The return of a block that was evicted `d` evictions ago is counted in the first bucket of that depth.
abbrev pub Counted : ℕ → List ℕ → List ℕ → List ℕ → Type 0
Counted d [] rs rs' = ⊥
Counted d (b ∷ bs) [] rs' = ⊥
Counted d (b ∷ bs) (r ∷ rs) [] = ⊥
Counted d (b ∷ bs) (r ∷ rs) (r' ∷ rs') =
    ((d ≤ b) × (r' ≡ suc r) × (rs' ≡ rs)) ⊎ ((b < d) × (r' ≡ r) × Counted d bs rs rs')

abbrev DeepEnough : ℕ → List ℕ → Type 0
DeepEnough d [] = ⊥
DeepEnough d (b ∷ bs) = (d ≤ b) ⊎ DeepEnough d bs

count_return-Counted :
    (d : ℕ) (bs rs : List ℕ)
    → length rs ≡ length bs
    → DeepEnough d bs
    → (rs' : List ℕ) × (count_return d bs rs ≡ some rs')
      × Counted d bs rs rs'
      × (length rs' ≡ length rs)
unfolding count_return
count_return-Counted d [] rs e deep = absurd deep
count_return-Counted d (b ∷ bs) [] e deep = absurd (omega arith)
count_return-Counted d (b ∷ bs) (r ∷ rs) e deep = elim (Bool-cases (leb d b)) [
  | inl fits ↦ (suc r ∷ rs, rw fits refl, inl (ground arith, refl, refl), refl)
  | inr over ↦
      let (rs', ran, counted, len) = count_return-Counted d bs rs (omega arith) (later deep over) in
      (r ∷ rs', rw over (ap (onto r) ran), inr (ground arith, refl, counted), ap suc len)
]
  where
    later : DeepEnough d (b ∷ bs) → leb d b ≡ false → DeepEnough d bs
    later (inl fits) over = absurd (ground arith)
    later (inr deep) over = deep

Remembers-less :
    (ghost : String → Option ℕ) (order : List (String × ℕ)) (h : String)
    → Remembers ghost order
    → Remembers (update ghost h none) order
Remembers-less ghost order h r k at e = elim (Bool-cases (h === k)) [
  | inl same ↦ absurd (nothing (rw same at e))
  | inr other ↦ r k at (rw other at e)
]
  where
    nothing : none ≡ some at → ⊥
    nothing e = cc

-- A block that the ghost list holds is counted when it is computed again, in the first bucket that is
-- as deep as the evictions since its own, and it is remembered no longer. Any other block is only
-- counted as stored.
pub computed_lem :
    (h : String) (g : Ghost)
    → GhostInv g
    → (g' : Ghost) × (computed h g ≡ some g')
      × GhostInv g'
      × (g'.stored ≡ suc g.stored)
      × (((g.ghost h ≡ none) × (g'.returns ≡ g.returns))
          ⊎ ((at : ℕ) × (g.ghost h ≡ some at)
              × (g'.ghost h ≡ none)
              × Counted (g.evictions - at) ghost_buckets g.returns g'.returns))
unfolding computed
computed_lem h g v = by_ghost (g.ghost h) refl
  where
    by_ghost :
        (o : Option ℕ)
        → g.ghost h ≡ o
        → (g' : Ghost) × (computed h g ≡ some g')
          × GhostInv g'
          × (g'.stored ≡ suc g.stored)
          × (((g.ghost h ≡ none) × (g'.returns ≡ g.returns))
              ⊎ ((at : ℕ) × (g.ghost h ≡ some at)
                  × (g'.ghost h ≡ none)
                  × Counted (g.evictions - at) ghost_buckets g.returns g'.returns))
    by_ghost none e = (
      record g { stored = suc g.stored },
      rw e refl,
      record {
        numbered = v.numbered;
        remembered = v.remembered;
        within = v.within;
        buckets = v.buckets;
      },
      refl,
      inl (e, refl),
    )
    by_ghost (some at) e =
        let (below, near) =
          Listed-recent g.evictions g.ghost_order h at v.numbered (v.remembered h at e) in
        let (rs, ran, counted, len) =
          count_return-Counted (g.evictions - at) ghost_buckets g.returns v.buckets
            (inr (inr (inr (inr (inl (omega (arith, near, v.within))))))) in
        (
          record g { stored = suc g.stored; ghost = update g.ghost h none; returns = rs },
          rw (e, ran) refl,
          record {
            numbered = v.numbered;
            remembered = Remembers-less g.ghost g.ghost_order h v.remembered;
            within = v.within;
            buckets = len ∙ v.buckets;
          },
          refl,
          inr (at, e, update_self g.ghost h none, counted),
        )
