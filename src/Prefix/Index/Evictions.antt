-- ===== src/Prefix/Index/Evictions.antt =====
-- An eviction keeps the ghost list in order (internal/leader/prefixindex.go: evicted).
use opod_core.Base.{
  ℕ, suc, ◌≤◌, ◌≡◌, inl, inr, refl, ap, sym, subst, ◌∙◌, true, false, List, [], ◌∷◌, ◌++◌, Option,
  none, some, String, arith, ◌==◌, ◌===◌, ltb, length, update, Bool-cases, if_cases, length-append,
  some_inj, eq_iff, eq_refl,
}
use opod_core.Prefix.Index.{Ghost, ghost_cap, is_at, forget_ghost, shorten, evicted}
use opod_core.Prefix.Index.Ghosts.{Numbered, Listed, Remembers, GhostInv}

Numbered-append :
    (last : ℕ) (order : List (String × ℕ)) (h : String)
    → Numbered last order
    → Numbered (suc last) (order ++ (h, suc last) ∷ [])
Numbered-append last [] h n = (omega arith, tt)
Numbered-append last ((k, a) ∷ rest) h n =
    (omega (arith, n.0, length-append rest ((h, suc last) ∷ [])), Numbered-append last rest h n.1)

Listed-before :
    (k : String) (at : ℕ) (xs ys : List (String × ℕ)) → Listed k at xs → Listed k at (xs ++ ys)
Listed-before k at [] ys l = absurd l
Listed-before k at (x ∷ xs) ys (inl l) = inl l
Listed-before k at (x ∷ xs) ys (inr l) = inr (Listed-before k at xs ys l)

Listed-last : (k : String) (at : ℕ) (xs : List (String × ℕ)) → Listed k at (xs ++ (k, at) ∷ [])
Listed-last k at [] = inl (refl, refl)
Listed-last k at (x ∷ xs) = inr (Listed-last k at xs)

Remembers-forget_ghost :
    (ghost : String → Option ℕ) (old : String × ℕ) (rest : List (String × ℕ))
    → Remembers ghost (old ∷ rest)
    → Remembers (forget_ghost ghost old) rest
Remembers-forget_ghost ghost (h, a) rest r k at e = elim (Bool-cases (is_at (ghost h) a)) [
  | inl gone ↦ elim (Bool-cases (h === k)) [
    | inl same ↦ absurd (nothing (rw (gone, same) at e))
    | inr other ↦ elim (r k at (rw (gone, other) at e)) [
      | inl (same, b) ↦ absurd (clash (sym other ∙ subst (λ i. (h === i) ≡ true) same (eq_refl h)))
      | inr l ↦ l
    ]
  ]
  | inr stays ↦ elim (r k at (rw stays at e)) [
    | inl (same, b) ↦ absurd (
        clash (
          sym stays
          ∙ ap (λ o. is_at o a) (subst (λ i. ghost i ≡ some at) (sym same) (rw stays at e))
          ∙ found b))
    | inr l ↦ l
  ]
]
  where
    nothing : none ≡ some at → ⊥
    nothing e = cc

    clash : false ≡ true → ⊥
    clash e = cc

    found : a ≡ at → (at == a) ≡ true
    found b = ground arith

shorten-GhostInv :
    (order : List (String × ℕ)) (g : Ghost)
    → Numbered g.evictions order
    → Remembers g.ghost order
    → length g.returns ≡ 5
    → GhostInv (shorten order g)
unfolding shorten
shorten-GhostInv [] g n r e = record {
  numbered = tt;
  remembered = r;
  within = omega arith;
  buckets = e;
}
shorten-GhostInv (old ∷ rest) g n r e =
    if_cases GhostInv (ltb ghost_cap (length (old ∷ rest)))
      (shorten rest (record g { ghost = forget_ghost g.ghost old }))
      (record g { ghost_order = old ∷ rest })
      (λ over.
        shorten-GhostInv rest (record g { ghost = forget_ghost g.ghost old }) n.1
          (Remembers-forget_ghost g.ghost old rest r) e)
      (λ fits. record {
        numbered = n;
        remembered = r;
        within = small (length (old ∷ rest)) fits;
        buckets = e;
      })
  where
    small : (n : ℕ) → ltb ghost_cap n ≡ false → n ≤ ghost_cap
    small n e = ground arith

pub evicted-GhostInv : (h : String) (g : Ghost) → GhostInv g → GhostInv (evicted h g)
unfolding evicted
evicted-GhostInv h g v =
    shorten-GhostInv (g.ghost_order ++ (h, suc g.evictions) ∷ [])
      (record g { evictions = suc g.evictions; ghost = update g.ghost h (some (suc g.evictions)) })
      (Numbered-append g.evictions g.ghost_order h v.numbered) remembered v.buckets
  where
    remembered :
        Remembers
          (update g.ghost h (some (suc g.evictions)))
          (g.ghost_order ++ (h, suc g.evictions) ∷ [])
    remembered k at e = elim (Bool-cases (h === k)) [
      | inl same ↦
          subst (λ i. Listed i at (g.ghost_order ++ (h, suc g.evictions) ∷ []))
            ((eq_iff h k).0 same)
            (subst (λ i. Listed h i (g.ghost_order ++ (h, suc g.evictions) ∷ []))
              (some_inj (rw same at e)) (Listed-last h (suc g.evictions) g.ghost_order))
      | inr other ↦
          Listed-before k at g.ghost_order ((h, suc g.evictions) ∷ [])
            (v.remembered k at (rw other at e))
    ]
