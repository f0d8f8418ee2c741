-- ===== src/Admission/Gate/Shedding.antt =====
-- What a capacity at which nothing can serve sheds: the classes with no budget, whole.
use opod_core.Base.{
  ℕ, zero, suc, ◌-◌, ◌≤◌, ◌<◌, ◌≡◌, inl, inr, refl, ap, sym, subst, ◌∙◌, true, false, some, String,
  arith, ◌==◌, Bool-cases,
}
use opod_core.Admission.Classes.{Class, critical, standard, sheddable, at, put, at-put_self}
use opod_core.Admission.Flows.Inv.{line_of}
use opod_core.Admission.Flows.Found.{waits}
use opod_core.Admission.Queues.Order.{sound_at, newest_sound}
use opod_core.Admission.Pool.{Gate}
use opod_core.Admission.Pool.Inv.{GateInv, held_at}
use opod_core.Admission.Gate.{shed_class, shed_next}
use opod_core.Admission.Gate.Counts.{shed_lem}

-- No class holds more in `t` than in `s`.
abbrev pub Shrunk : Gate → Gate → Type 0
Shrunk s t =
    (t.pool.held.of_critical ≤ s.pool.held.of_critical)
    × (t.pool.held.of_standard ≤ s.pool.held.of_standard)
    × (t.pool.held.of_sheddable ≤ s.pool.held.of_sheddable)

pub Shrunk-trans : (s t u : Gate) → Shrunk s t → Shrunk t u → Shrunk s u
Shrunk-trans s t u (a, b, c) (d, e, f) = (omega arith, omega arith, omega arith)

pub Shrunk-at : (s t : Gate) → Shrunk s t → (c : Class) → at t.pool.held c ≤ at s.pool.held c
Shrunk-at s t w critical = w.0
Shrunk-at s t w standard = w.1
Shrunk-at s t w sheddable = w.2

pub one_less-Shrunk :
    (s t : Gate) (c : Class) → t.pool.held ≡ put s.pool.held c (at s.pool.held c - 1) → Shrunk s t
one_less-Shrunk s t critical e = rw e (omega arith, omega arith, omega arith)
one_less-Shrunk s t standard e = rw e (omega arith, omega arith, omega arith)
one_less-Shrunk s t sheddable e = rw e (omega arith, omega arith, omega arith)

-- The class is empty, and nothing else grew.
pub record Emptied (others : ℕ) (s : Gate) (c : Class) (t : Gate) : Type 0 where
  pub inv : GateInv others t
  pub empty : at t.pool.held c ≡ 0
  pub shrunk : Shrunk s t
  pub same_cap : t.pool.cap ≡ s.pool.cap

pub shed_class_lem :
    (others fuel : ℕ) (c : Class) (reason : String) (s : Gate)
    → GateInv others s
    → at s.pool.held c ≤ fuel
    → (t : Gate) × (shed_class fuel c reason s ≡ some t) × Emptied others s c t
unfolding shed_class
shed_class_lem others zero c reason s v few = (
  s,
  rw (none_left (at s.pool.q c).n (omega (arith, held_at v c))) refl,
  record {
    inv = v;
    empty = omega arith;
    shrunk = (omega arith, omega arith, omega arith);
    same_cap = refl;
  },
)
  where
    none_left : (n : ℕ) → n ≡ 0 → (n == 0) ≡ true
    none_left n e = ground arith
shed_class_lem others (suc fuel) c reason s v few = elim (Bool-cases ((at s.pool.q c).n == 0)) [
  | inl e ↦ (
    s,
    rw e refl,
    record {
      inv = v;
      empty = held_at v c ∙ zero_of (at s.pool.q c).n e;
      shrunk = (omega arith, omega arith, omega arith);
      same_cap = refl;
    },
  )
  | inr e ↦
      let (h, found, here, own) =
        newest_sound c (at s.pool.q c) (sound_at s.pool.q v.sound c)
          (some_left (at s.pool.q c).n e) in
      let (t, ran, inv, less) =
        shed_lem others s h "unavailable" reason v
          (subst (λ k. waits h (line_of (at s.pool.q k)) ≡ true) (sym own) here) in
      let held : t.pool.held ≡ put s.pool.held c (at s.pool.held c - 1) =
        subst (λ k. t.pool.held ≡ put s.pool.held k (at s.pool.held k - 1)) own less.held_less in
      let left : at t.pool.held c ≡ at s.pool.held c - 1 =
        ap (λ p. at p c) held ∙ at-put_self s.pool.held c (at s.pool.held c - 1) in
      let (u, rest, done) = shed_class_lem others fuel c reason t inv (omega arith) in
      (
        u,
        rw (e, found, shed_next, ran) rest,
        record {
          inv = done.inv;
          empty = done.empty;
          shrunk = Shrunk-trans s t u (one_less-Shrunk s t c held) done.shrunk;
          same_cap = done.same_cap ∙ ap (λ p. p.cap) less.same_slots_use;
        },
      )
]
  where
    zero_of : (n : ℕ) → (n == 0) ≡ true → n ≡ 0
    zero_of n e = ground arith

    some_left : (n : ℕ) → (n == 0) ≡ false → 0 < n
    some_left n e = ground arith
