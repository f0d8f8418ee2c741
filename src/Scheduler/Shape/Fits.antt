-- ===== src/Scheduler/Shape/Fits.antt =====
-- Which splits a plan resolves to.
use opod_core.Base.{
  ℕ, zero, suc, ◌+◌, ◌*◌, ◌/◌, ◌%◌, ◌<◌, ◌≡◌, refl, ap, sym, subst, ◌∙◌, Bool, true, false, not,
  Option, none, some, if◌then◌else◌, ◌==◌, ltb, clip, arith, some_inj, ◌⊎◌, inl, inr, Bool-cases,
}
use opod_core.Scheduler.Shape.{
  Parallelism, Split, word, int_end, chosen, checked, devices_of, resolve,
}
use native.Mathlib.Nat.{
  mul-div_right, mul-div_left, div-add-mod, mod-eq_of_lt, mul-mod_right, mul-mod_left,
}

-- The split uses every GPU, keeps a part in one tensor group, and keeps what the plan gives; the
-- plan that gives nothing is tensor parallel inside a part and pipelined across them.
pub record Fits (p : Parallelism) (ranks : ℕ) (s : Split) : Type 0 where
  pub devices : s.devices ≡ devices_of p
  pub whole : s.tp * s.pp ≡ ranks * devices_of p
  pub inside : s.tp % devices_of p ≡ 0
  pub keeps_tp : (clip p.tp ≡ 0) ⊎ (s.tp ≡ clip p.tp)
  pub keeps_pp : (clip p.pp ≡ 0) ⊎ (s.pp ≡ clip p.pp)
  pub default : (0 < clip p.tp + clip p.pp) ⊎ ((s.tp ≡ devices_of p) × (s.pp ≡ ranks))

-- What `checked` lets pass.
record_of :
    (outside differs : Bool) (r s : Split)
    → (if outside then none else if differs then none else some r) ≡ some s
    → (outside ≡ false) × (differs ≡ false) × (r ≡ s)
record_of true differs r s e = cc
record_of false true r s e = cc
record_of false false r s e = (refl, refl, some_inj e)

is_zero : (n : ℕ) → not (n == 0) ≡ false → n ≡ 0
is_zero n e = ground arith

is_same : (m n : ℕ) → not (m == n) ≡ false → m ≡ n
is_same m n e = ground arith

checked-some :
    (ranks k tp pp : ℕ) (s : Split)
    → tp * pp < word
    → checked ranks k (some (tp, pp)) ≡ some s
    → (record { tp = tp; pp = pp; devices = k } ≡ s) × (tp % k ≡ 0) × (tp * pp ≡ ranks * k)
checked-some ranks k tp pp s small e =
    let (inside, whole, r) =
      record_of (not (tp % k == 0)) (not ((tp * pp) % word == ranks * k)) _ s e in
    (
      r,
      is_zero (tp % k) inside,
      sym (mod-eq_of_lt small) ∙ is_same ((tp * pp) % word) (ranks * k) whole,
    )

same_test : (m n : ℕ) → m ≡ n → (m == n) ≡ true
same_test m n e = ground arith

checked_pass :
    (ranks k tp pp : ℕ)
    → tp * pp < word
    → tp % k ≡ 0
    → tp * pp ≡ ranks * k
    → checked ranks k (some (tp, pp)) ≡ some (record { tp = tp; pp = pp; devices = k })
checked_pass ranks k tp pp small inside whole =
    rw
      (
        same_test (tp % k) 0 inside,
        same_test ((tp * pp) % word) (ranks * k) (mod-eq_of_lt small ∙ whole),
      )
      refl

refused : {s : Split} → none ≡ some s → ⊥
refused e = cc

zero_test : (n : ℕ) → (n == 0) ≡ true → n ≡ 0
zero_test n e = ground arith

suc_test : (n : ℕ) → (suc n == 0) ≡ false
suc_test n = ground arith

pos_test : (n : ℕ) → ltb 0 (suc n) ≡ true
pos_test n = ground arith

chosen-tp :
    (t ranks k a b : ℕ) → a ≡ suc t → a * b ≡ ranks * k → chosen (suc t) 0 ranks k ≡ some (a, b)
chosen-tp t ranks k a b e whole =
    let whole' : suc t * b ≡ ranks * k = subst (λ n. n * b ≡ ranks * k) e whole in
    rw
      (
        suc_test t,
        pos_test t,
        ← whole',
        same_test (suc t * b % suc t) 0 (mul-mod_right (suc t) b),
        mul-div_right b {m = suc t} (omega arith),
        e,
      )
      refl

chosen-pp :
    (q ranks k a b : ℕ) → b ≡ suc q → a * b ≡ ranks * k → chosen 0 (suc q) ranks k ≡ some (a, b)
chosen-pp q ranks k a b e whole =
    let whole' : a * suc q ≡ ranks * k = subst (λ n. a * n ≡ ranks * k) e whole in
    rw
      (
        suc_test q,
        pos_test q,
        ← whole',
        same_test (a * suc q % suc q) 0 (mul-mod_left a (suc q)),
        mul-div_left a {n = suc q} (omega arith),
        e,
      )
      refl

chosen-both : (t q ranks k : ℕ) → chosen (suc t) (suc q) ranks k ≡ some (suc t, suc q)
chosen-both t q ranks k = rw (suc_test t, suc_test q, pos_test t, pos_test q) refl

given : (c n a : ℕ) → c ≡ suc n → (c ≡ 0) ⊎ (a ≡ c) → a ≡ suc n
given c n a e (inl z) = absurd (omega arith)
given c n a e (inr s) = s ∙ e

-- Where the GPUs fit an int, a split that fits the plan is the one that the plan resolves to.
pub resolve_complete :
    (p : Parallelism) (ranks : ℕ) (s : Split)
    → ranks * devices_of p < int_end
    → Fits p ranks s
    → resolve p ranks ≡ some s
unfolding resolve
resolve_complete p ranks s fits_int fit = by_sizes (clip p.tp) (clip p.pp) refl refl
  where
    k : ℕ
    k = devices_of p

    split_of : (record { tp = s.tp; pp = s.pp; devices = k }) ≡ s
    split_of = ap {A = ℕ} (λ d. record { tp = s.tp; pp = s.pp; devices = d }) (sym fit.devices)

    passes : checked ranks k (some (s.tp, s.pp)) ≡ some s
    passes =
        checked_pass ranks k s.tp s.pp (omega (arith, fit.whole)) fit.inside fit.whole
        ∙ ap some split_of

    pair : s.tp ≡ k → s.pp ≡ ranks → ◌≡◌ {A = Option (ℕ × ℕ)} (some (s.tp, s.pp)) (some (k, ranks))
    pair a b = cc

    by_sizes :
        (t q : ℕ) → clip p.tp ≡ t → clip p.pp ≡ q → checked ranks k (chosen t q ranks k) ≡ some s
    by_sizes zero zero e f = elim fit.default [
      | inl some_given ↦ absurd (omega arith)
      | inr (tensor, pipeline) ↦
          subst (λ c. checked ranks k c ≡ some s) (pair tensor pipeline) passes
    ]
    by_sizes (suc t) zero e f =
        rw (chosen-tp t ranks k s.tp s.pp (given (clip p.tp) t s.tp e fit.keeps_tp) fit.whole)
          passes
    by_sizes zero (suc q) e f =
        rw (chosen-pp q ranks k s.tp s.pp (given (clip p.pp) q s.pp f fit.keeps_pp) fit.whole)
          passes
    by_sizes (suc t) (suc q) e f =
        rw
          (
            chosen-both t q ranks k,
            ← given (clip p.tp) t s.tp e fit.keeps_tp,
            ← given (clip p.pp) q s.pp f fit.keeps_pp,
          )
          passes

-- Where the GPUs fit an int and the product of the sizes given does not wrap, what a plan resolves
-- to fits it: it uses every GPU, keeps a part in one tensor group and keeps what the plan gives.
pub resolve-Fits :
    (p : Parallelism) (ranks : ℕ) (s : Split)
    → ranks * devices_of p < int_end
    → clip p.tp * clip p.pp < word
    → resolve p ranks ≡ some s
    → Fits p ranks s
unfolding resolve
resolve-Fits p ranks s fits_int no_wrap r = by_sizes (clip p.tp) (clip p.pp) refl refl r
  where
    k : ℕ
    k = devices_of p

    fits_by :
        (a b : ℕ)
        → checked ranks k (some (a, b)) ≡ some s
        → a * b < word
        → (clip p.tp ≡ 0) ⊎ (a ≡ clip p.tp)
        → (clip p.pp ≡ 0) ⊎ (b ≡ clip p.pp)
        → (0 < clip p.tp + clip p.pp) ⊎ ((a ≡ k) × (b ≡ ranks))
        → Fits p ranks s
    fits_by a b ran small t q d =
        let (same, inside, whole) = checked-some ranks k a b s small ran in
        subst (Fits p ranks) same (record {
          devices = refl;
          whole = whole;
          inside = inside;
          keeps_tp = t;
          keeps_pp = q;
          default = d;
        })

    divided : (n d : ℕ) → n % d ≡ 0 → d * (n / d) ≡ n
    divided n d e = omega (arith, div-add-mod n d)

    by_sizes :
        (t q : ℕ)
        → clip p.tp ≡ t
        → clip p.pp ≡ q
        → checked ranks k (chosen t q ranks k) ≡ some s
        → Fits p ranks s
    by_sizes zero zero e f ran =
        fits_by k ranks ran (omega arith) (inl e) (inl f) (inr (refl, refl))
    by_sizes (suc t) zero e f ran = elim (Bool-cases ((ranks * k) % suc t == 0)) [
      | inl whole ↦
          fits_by (suc t) (ranks * k / suc t) (rw (suc_test t, pos_test t, whole) at ran)
            (omega (arith, divided (ranks * k) (suc t) (zero_test _ whole))) (inr (sym e)) (inl f)
            (inl (omega arith))
      | inr cut ↦ absurd (refused (rw (suc_test t, pos_test t, cut) at ran))
    ]
    by_sizes zero (suc q) e f ran = elim (Bool-cases ((ranks * k) % suc q == 0)) [
      | inl whole ↦
          fits_by (ranks * k / suc q) (suc q) (rw (suc_test q, pos_test q, whole) at ran)
            (omega (arith, divided (ranks * k) (suc q) (zero_test _ whole))) (inl e) (inr (sym f))
            (inl (omega arith))
      | inr cut ↦ absurd (refused (rw (suc_test q, pos_test q, cut) at ran))
    ]
    by_sizes (suc t) (suc q) e f ran =
        fits_by (suc t) (suc q) (rw (chosen-both t q ranks k) at ran) (rw (← e, ← f) no_wrap)
          (inr (sym e)) (inr (sym f)) (inl (omega arith))
