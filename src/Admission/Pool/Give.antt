-- ===== src/Admission/Pool/Give.antt =====
-- A request that completes gives its slot back.
use opod_core.Base.{
  ℕ, ◌+◌, ◌-◌, ◌≤◌, ◌<◌, ◌≡◌, refl, ap, sym, subst, ◌∙◌, Bool, true, false, ◌&&◌, List, [], ◌∷◌,
  String, arith, if◌then◌else◌, length, keep, Bool-cases, inl, inr,
}
use opod_core.Admission.Classes.{
  Class, critical, standard, sheddable, same_class, PerClass, at, put, at-put_self, Floats,
  ClassConfig, share_cap,
}
use opod_core.Admission.Pool.{
  Pool, Gate, Grant, of_class, give, has_grant, delete_grant, same_grant, is_stranded, stranded,
  stranded_of,
}
use opod_core.Admission.Pool.Inv.{GateInv, granted_at}
use opod_core.Admission.Pool.Capacity.{Within, Within-at}

abbrev pub with_pool : Pool → Gate → Gate
with_pool p s = record s { pool = p }

abbrev pub given : Grant → Gate → Gate
given g s = with_pool (give g s.pool) s

same_grant_parts : (g h : Grant) → same_grant g h ≡ true → (g.id ≡ h.id) × (g.class ≡ h.class)
same_grant_parts g h e = (ground arith, same_rank g.class h.class (ground arith))
  where
    same_rank : (c d : Class) → same_class c d ≡ true → c ≡ d
    same_rank c d e = ground arith

length-delete_grant :
    (g : Grant) (gs : List Grant)
    → has_grant g gs ≡ true
    → length (delete_grant g gs) + 1 ≡ length gs
length-delete_grant g [] e = cc
length-delete_grant g (h ∷ gs) e = ground (arith, length-delete_grant g gs)

-- Of the grants that a test on identity and class keeps, one goes when the test keeps `g`.
length-keep-delete :
    (p : Grant → Bool) (g : Grant) (gs : List Grant)
    → has_grant g gs ≡ true
    → length (keep p (delete_grant g gs)) + (if p g then 1 else 0) ≡ length (keep p gs)
length-keep-delete p g [] e = cc
length-keep-delete p g (h ∷ gs) e = elim (Bool-cases (same_grant g h)) [
  | inl same ↦
      let (i, c) = same_grant_parts g h same in
      let one : h ≡ g = ground arith in rw same (rw (← one) (ground arith))
  | inr other ↦ rw other (ground (arith, length-keep-delete p g gs))
]

abbrev both : (Grant → Bool) → (Grant → Bool) → Grant → Bool
both p r g = p g && r g

keep-keep : (p r : Grant → Bool) (gs : List Grant) → keep p (keep r gs) ≡ keep (both p r) gs
keep-keep p r [] = refl
keep-keep p r (g ∷ gs) = ground (arith, keep-keep p r gs)

put_less :
    (b : PerClass ℕ) (d c : Class)
    → 0 < at b d
    → at (put b d (at b d - 1)) c + (if same_class d c then 1 else 0) ≡ at b c
put_less b d c h = ground arith

same_class_refl : (c : Class) → same_class c c ≡ true
same_class_refl c = ground arith

still_fits :
    (own away : Bool) (before after limit was now : ℕ)
    → after + (if own then 1 else 0) ≡ before
    → now + (if own && away then 1 else 0) ≡ was
    → before ≤ limit + was
    → after ≤ limit + now
still_fits own away before after limit was now e k h = ground arith

module _ (others : ℕ) (s : Gate) (g : Grant) (v : GateInv others s)
    (mine : has_grant g s.pool.grants ≡ true) where
  fewer :
      (c : Class)
      → length (of_class c (delete_grant g s.pool.grants)) + (if same_class g.class c then 1 else 0)
        ≡ at s.pool.by_class c
  fewer c =
      length-keep-delete (λ x. same_class x.class c) g s.pool.grants mine ∙ sym (granted_at v c)

  some_granted : 0 < at s.pool.by_class g.class
  some_granted = omega (
    arith,
    subst
        (λ (b : Bool).
          length (of_class g.class (delete_grant g s.pool.grants)) + (if b then 1 else 0)
          ≡ at s.pool.by_class g.class)
        (same_class_refl g.class) (fewer g.class),
  )

  count_after :
      (c : Class)
      → at (put s.pool.by_class g.class (at s.pool.by_class g.class - 1)) c
        ≡ length (of_class c (delete_grant g s.pool.grants))
  count_after c = omega (arith, put_less s.pool.by_class g.class c some_granted, fewer c)

  -- One slot less is in use, and one of the class's.
  pub given_mine_less :
      ((given g s).pool.in_use + 1 ≡ s.pool.in_use)
      × (at (given g s).pool.by_class g.class + 1 ≡ at s.pool.by_class g.class)
      × (length (given g s).pool.grants + 1 ≡ length s.pool.grants)
      × ((given g s).pool.q ≡ s.pool.q)
  unfolding give
  given_mine_less = rw mine (
      (
        omega (arith, v.in_use_granted, length-delete_grant g s.pool.grants mine),
        rw (at-put_self s.pool.by_class g.class (at s.pool.by_class g.class - 1))
            (omega (arith, some_granted)),
        length-delete_grant g s.pool.grants mine,
        refl,
      ))

  given_mine-Inv : GateInv others (given g s)
  unfolding give
  given_mine-Inv = rw mine (record {
    sound = v.sound;
    held_critical = v.held_critical;
    held_standard = v.held_standard;
    held_sheddable = v.held_sheddable;
    all_held = v.all_held;
    total_held = v.total_held;
    in_use_granted = omega (arith, v.in_use_granted, length-delete_grant g s.pool.grants mine);
    critical_granted = count_after critical;
    standard_granted = count_after standard;
    sheddable_granted = count_after sheddable;
  })

  module _ (f : Floats) (cfg : ClassConfig f) (node : ℕ → String) (slots : ℕ)
      (w : Within f cfg node slots s) where
    abbrev gone : Grant → Bool
    gone x = is_stranded s.pool.cap.holders (node x.id)

    class_fits :
        (c : Class)
        → at (put s.pool.by_class g.class (at s.pool.by_class g.class - 1)) c
          ≤ share_cap f cfg c slots + length (of_class c (keep gone (delete_grant g s.pool.grants)))
    class_fits c =
        let split =
          length-keep-delete (both (λ x. same_class x.class c) gone) g s.pool.grants mine in
        let now =
          ap length (keep-keep (λ x. same_class x.class c) gone (delete_grant g s.pool.grants)) in
        let was = ap length (keep-keep (λ x. same_class x.class c) gone s.pool.grants) in
        still_fits (same_class g.class c) (gone g) (at s.pool.by_class c) _
          (share_cap f cfg c slots) (stranded_of node s.pool c) _
          (put_less s.pool.by_class g.class c some_granted)
          (ap (λ n. n + (if same_class g.class c && gone g then 1 else 0)) now ∙ split ∙ sym was)
          (Within-at f cfg node slots s w c)

    given_mine-Within : Within f cfg node slots (given g s)
    unfolding give
    given_mine-Within = rw mine (record {
      is_bounded = w.is_bounded;
      same_slots = w.same_slots;
      fits =
          still_fits true (gone g) s.pool.in_use _ slots (stranded node s.pool) _
            (omega (arith, v.in_use_granted, length-delete_grant g s.pool.grants mine))
            (length-keep-delete gone g s.pool.grants mine) w.fits;
      critical_fits = class_fits critical;
      standard_fits = class_fits standard;
      sheddable_fits = class_fits sheddable;
    })

given_none : (s : Gate) (g : Grant) → has_grant g s.pool.grants ≡ false → given g s ≡ s
unfolding give
given_none s g e = rw e

-- A completion keeps the counters right and the requests in flight within the slots.
pub given-Inv : (others : ℕ) (s : Gate) (g : Grant) → GateInv others s → GateInv others (given g s)
given-Inv others s g v = elim (Bool-cases (has_grant g s.pool.grants)) [
  | inl mine ↦ given_mine-Inv others s g v mine
  | inr gone ↦ subst (GateInv others) (sym (given_none s g gone)) v
]

pub given-Within :
    (others : ℕ) (s : Gate) (g : Grant) (f : Floats) (cfg : ClassConfig f) (node : ℕ → String)
    (slots : ℕ)
    → GateInv others s
    → Within f cfg node slots s
    → Within f cfg node slots (given g s)
given-Within others s g f cfg node slots v w = elim (Bool-cases (has_grant g s.pool.grants)) [
  | inl mine ↦ given_mine-Within others s g v mine f cfg node slots w
  | inr gone ↦ subst (Within f cfg node slots) (sym (given_none s g gone)) w
]
