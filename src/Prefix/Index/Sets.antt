-- ===== src/Prefix/Index/Sets.antt =====
-- The set of blocks and its order stay in step, within the bound.
use opod_core.Base.{
  ℕ, suc, ◌+◌, ◌≤◌, ◌≡◌, inl, inr, refl, ap, sym, subst, ◌∙◌, Bool, true, false, List, [], ◌∷◌,
  ◌++◌, some, String, arith, if◌then◌else◌, ◌===◌, ltb, length, keep, contains, Bool-cases,
  if_cases, length-append, keep-append, times, without_key, times-without_key, length-without_key,
  contains-times, eq_iff,
}
use opod_core.Prefix.Index.{
  Blocks, no_blocks, per_worker, remove_block, bounded, store_block, cpu_remove_all, cpu_store_all,
  then_blocks,
}

pub record SetInv (b : Blocks) : Type 0 where
  pub agree : (h : String) → times h b.held ≡ times h b.order
  pub once : (h : String) → times h b.order ≤ 1
  pub within : length b.order ≤ per_worker

pub no_blocks-SetInv : SetInv no_blocks
no_blocks-SetInv = record { agree = λ h. refl; once = λ h. omega arith; within = omega arith }

pub remove_block-SetInv : (h : String) (b : Blocks) → SetInv b → SetInv (remove_block h b)
unfolding remove_block
remove_block-SetInv h b v =
    if_cases SetInv (contains b.held h)
      (record { held = without_key h b.held; order = without_key h b.order }) b
      (λ e. record {
        agree = λ j.
            times-without_key j h b.held
            ∙ ap {A = ℕ} (λ n. if h === j then 0 else n) (v.agree j)
            ∙ sym (times-without_key j h b.order);
        once = λ j. rw (times-without_key j h b.order) (
            if_cases {A = ℕ} (λ n. n ≤ 1) (h === j) 0 (times j b.order) (λ e. omega arith)
              (λ e. v.once j));
        within = omega (arith, length-without_key h b.order, v.within);
      })
      (λ e. v)

times-append : (j : String) (xs ys : List String) → times j (xs ++ ys) ≡ times j xs + times j ys
times-append j xs ys =
    ap length (keep-append (λ i. i === j) xs ys)
    ∙ length-append (keep (λ i. i === j) xs) (keep (λ i. i === j) ys)

times-cons : (j x : String) (xs : List String) → times j (x ∷ xs) ≡ times j (x ∷ []) + times j xs
times-cons j x xs = by_head (x === j) (keep (λ i. i === j) xs)
  where
    by_head :
        (b : Bool) (ys : List String)
        → length (if b then x ∷ ys else ys) ≡ length (if b then x ∷ [] else []) + length ys
    by_head true ys = omega arith
    by_head false ys = omega arith

-- The oldest goes when there is one too many.
bounded-SetInv :
    (b : Blocks)
    → ((h : String) → times h b.held ≡ times h b.order)
    → ((h : String) → times h b.order ≤ 1)
    → length b.order ≤ suc per_worker
    → (b' : Blocks) × (bounded b ≡ some b') × SetInv b'
bounded-SetInv b agree once long = elim (Bool-cases (ltb per_worker (length b.order))) [
  | inr fits ↦
      (b, rw fits refl, record { agree = agree; once = once; within = small (length b.order) fits })
  | inl over ↦ by_first b.order refl over
]
  where
    small : (n : ℕ) → ltb per_worker n ≡ false → n ≤ per_worker
    small n e = ground arith

    by_first :
        (order : List String)
        → b.order ≡ order
        → ltb per_worker (length b.order) ≡ true
        → (b' : Blocks) × (bounded b ≡ some b') × SetInv b'
    by_first [] e over = absurd (none_over (length b.order) (ap length e) over)
      where
        none_over : (n : ℕ) → n ≡ 0 → ltb per_worker n ≡ true → ⊥
        none_over n e o = ground arith
    by_first (old ∷ rest) e over = (
      record { held = without_key old b.held; order = rest },
      rw (over, e) refl,
      record {
        agree = λ j. times-without_key j old b.held ∙ left j;
        once = λ j. omega (arith, counts j, once j);
        within = omega (arith, ap length e, long);
      },
    )
      where
        counts : (j : String) → times j b.order ≡ times j (old ∷ []) + times j rest
        counts j = ap (times j) e ∙ times-cons j old rest

        left : (j : String) → (if old === j then 0 else times j b.held) ≡ times j rest
        left j = elim (Bool-cases (old === j)) [
          | inl h ↦ rw h (none_left (times j rest) (times j b.order) (rw h at (counts j)) (once j))
          | inr h ↦ rw h (agree j ∙ (rw h at (counts j)) ∙ zero_plus (times j rest))
        ]
          where
            zero_plus : (n : ℕ) → 0 + n ≡ n
            zero_plus n = omega arith

            none_left : (n k : ℕ) → k ≡ 1 + n → k ≤ 1 → 0 ≡ n
            none_left n k e l = omega arith

pub store_block-SetInv :
    (h : String) (b : Blocks) → SetInv b → (b' : Blocks) × (store_block h b ≡ some b') × SetInv b'
unfolding store_block
store_block-SetInv h b v = elim (Bool-cases (contains b.held h)) [
  | inl here ↦
      let l =
        listed (times h b.held) (times h b.order) (sym (contains-times h b.held) ∙ here) (v.agree h)
          (v.once h) in
      (
        record b { order = without_key h b.order ++ h ∷ [] },
        rw here refl,
        record {
          agree = λ j. v.agree j ∙ sym (moved j l);
          once = λ j. omega (arith, moved j l, v.once j);
          within = omega (
            arith,
            length-append (without_key h b.order) (h ∷ []),
            length-without_key h b.order,
            l,
            v.within,
          );
        },
      )
  | inr new ↦
      let z = zero_of (times h b.held) (sym (contains-times h b.held) ∙ new) in
      let (b', ran, kept) =
        bounded-SetInv (record { held = h ∷ b.held; order = b.order ++ h ∷ [] })
          (λ j. times-cons j h b.held ∙ omega (arith, times-append j b.order (h ∷ []), v.agree j))
          (λ j. only j z) (omega (arith, length-append b.order (h ∷ []), v.within)) in
      (b', rw new ran, kept)
]
  where
    zero_of : (n : ℕ) → ltb 0 n ≡ false → n ≡ 0
    zero_of n e = ground arith

    listed : (n m : ℕ) → ltb 0 n ≡ true → n ≡ m → m ≤ 1 → m ≡ 1
    listed n m e a o = ground arith

    last : (j : String) (b : Bool) → (h === j) ≡ b → times j (h ∷ []) ≡ (if b then 1 else 0)
    last j true e = rw e refl
    last j false e = rw e refl

    moved :
        (j : String)
        → times h b.order ≡ 1
        → times j (without_key h b.order ++ h ∷ []) ≡ times j b.order
    moved j l = elim (Bool-cases (h === j)) [
      | inl e ↦ omega (
        arith,
        times-append j (without_key h b.order) (h ∷ []),
        last j true e,
        rw e at (times-without_key j h b.order),
        subst (λ i. times i b.order ≡ 1) ((eq_iff h j).0 e) l,
      )
      | inr e ↦ omega (
        arith,
        times-append j (without_key h b.order) (h ∷ []),
        last j false e,
        rw e at (times-without_key j h b.order),
      )
    ]

    only : (j : String) → times h b.held ≡ 0 → times j (b.order ++ h ∷ []) ≤ 1
    only j z = elim (Bool-cases (h === j)) [
      | inl e ↦ omega (
        arith,
        times-append j b.order (h ∷ []),
        last j true e,
        v.agree j,
        subst (λ i. times i b.held ≡ 0) ((eq_iff h j).0 e) z,
      )
      | inr e ↦ omega (arith, times-append j b.order (h ∷ []), last j false e, v.once j)
    ]

pub cpu_remove_all-SetInv :
    (hs : List String) (b : Blocks) → SetInv b → SetInv (cpu_remove_all hs b)
unfolding cpu_remove_all
cpu_remove_all-SetInv [] b v = v
cpu_remove_all-SetInv (h ∷ hs) b v =
    cpu_remove_all-SetInv hs (remove_block h b) (remove_block-SetInv h b v)

pub cpu_store_all-SetInv :
    (hs : List String) (b : Blocks)
    → SetInv b
    → (b' : Blocks) × (cpu_store_all hs b ≡ some b') × SetInv b'
unfolding cpu_store_all
cpu_store_all-SetInv [] b v = (b, refl, v)
cpu_store_all-SetInv (h ∷ hs) b v =
    let (c, ran, w) = store_block-SetInv h b v in
    let (d, ran', x) = cpu_store_all-SetInv hs c w in
    (d, ap (then_blocks (cpu_store_all hs)) ran ∙ ran', x)
