-- ===== src/Admission/Pool/Capacity.antt =====
-- The gate admits no more than the slots of the workers that remain, nor a class past its share.
use opod_core.Base.{
  ℕ, ◌+◌, ◌≤◌, ◌<◌, ◌≡◌, subst, Bool, true, false, not, ◌&&◌, List, ◌∷◌, some, String, arith,
  if◌then◌else◌, length, keep, ltb,
}
use opod_core.Admission.Classes.{
  Class, critical, standard, sheddable, at, put, at-put, Floats, ClassConfig, share_cap,
}
use opod_core.Admission.Flows.{HeldReq, DrrQueue}
use opod_core.Admission.Pool.{
  Pool, Gate, Grant, servable, bounded, is_stranded, stranded, stranded_of, of_class, grant_to,
  can_grant, dispatch, take,
}
use opod_core.Admission.Pool.Inv.{GateInv}
use opod_core.Admission.Pool.Dispatch.{dispatch_settles}

room :
    (serves within : Bool) (busy slots gone by share gone_by : ℕ)
    → within ≡ true
    → (if not serves
        then false
        else if not within
        then true
        else if ltb busy slots && ltb by share
        then true
        else ltb busy (slots + gone) && ltb by (share + gone_by))
      ≡ true
    → (busy < slots + gone) × (by < share + gone_by)
room true true busy slots gone by share gone_by b h = ground arith
room true false busy slots gone by share gone_by b h = cc
room false within busy slots gone by share gone_by b h = cc

length-keep-cons-le {ℓ} :
    {A : Type ℓ} (p : A → Bool) (x : A) (xs : List A)
    → length (keep p xs) ≤ length (keep p (x ∷ xs))
length-keep-cons-le p x xs = ground arith

length-of_class-cons-le :
    (c : Class) (p : Grant → Bool) (x : Grant) (xs : List Grant)
    → length (of_class c (keep p xs)) ≤ length (of_class c (keep p (x ∷ xs)))
length-of_class-cons-le c p x xs = ground arith

module _ (f : Floats) (cfg : ClassConfig f) (node : ℕ → String) where
  -- What `canGrant` says of a pool whose slots bound it.
  can_grant_room :
      (p : Pool) (c : Class)
      → bounded p.cap ≡ true
      → can_grant f cfg node p c ≡ true
      → (p.in_use < p.cap.slots + stranded node p)
        × (at p.by_class c < share_cap f cfg c p.cap.slots + stranded_of node p c)
  unfolding can_grant
  can_grant_room p c b h =
      room (servable p.cap) (bounded p.cap) p.in_use p.cap.slots (stranded node p) (at p.by_class c)
        (share_cap f cfg c p.cap.slots) (stranded_of node p c) b h

  -- The requests in flight on workers of the pool fit its slots, and each class its share.
  pub record Within (slots : ℕ) (s : Gate) : Type 0 where
    pub is_bounded : bounded s.pool.cap ≡ true
    pub same_slots : s.pool.cap.slots ≡ slots
    pub fits : s.pool.in_use ≤ slots + stranded node s.pool
    pub critical_fits :
        s.pool.by_class.of_critical
        ≤ share_cap f cfg critical slots + stranded_of node s.pool critical
    pub standard_fits :
        s.pool.by_class.of_standard
        ≤ share_cap f cfg standard slots + stranded_of node s.pool standard
    pub sheddable_fits :
        s.pool.by_class.of_sheddable
        ≤ share_cap f cfg sheddable slots + stranded_of node s.pool sheddable

  pub Within-at :
      (slots : ℕ) (s : Gate)
      → Within slots s
      → (c : Class) → at s.pool.by_class c ≤ share_cap f cfg c slots + stranded_of node s.pool c
  Within-at slots s w critical = w.critical_fits
  Within-at slots s w standard = w.standard_fits
  Within-at slots s w sheddable = w.sheddable_fits

  -- One grant keeps it: the new request took a slot that was free.
  pub grant_to-Within :
      (slots : ℕ) (s : Gate) (h : HeldReq) (q : DrrQueue)
      → can_grant f cfg node s.pool h.class ≡ true
      → Within slots s
      → Within slots (grant_to h (put s.pool.q h.class q) s)
  unfolding grant_to take
  grant_to-Within slots s h q allowed w =
      let free = can_grant_room s.pool h.class w.is_bounded allowed in
      let g : Grant = record { id = h.id; class = h.class } in
      let gone = λ (g : Grant). is_stranded s.pool.cap.holders (node g.id) in
      let limit : Class → ℕ =
        λ c. share_cap f cfg c slots + length (of_class c (keep gone (g ∷ s.pool.grants))) in
      let was : (c : Class) → at s.pool.by_class c ≤ limit c =
        λ c. omega (arith, Within-at slots s w c, length-of_class-cons-le c gone g s.pool.grants) in
      let one : at s.pool.by_class h.class < limit h.class = omega (
        arith,
        subst
            (λ n.
              at s.pool.by_class h.class
              < share_cap f cfg h.class n + stranded_of node s.pool h.class)
            w.same_slots free.1,
        length-of_class-cons-le h.class gone g s.pool.grants,
      ) in
      let more = length-keep-cons-le gone g s.pool.grants in
      record {
        is_bounded = w.is_bounded;
        same_slots = w.same_slots;
        fits = omega (arith, w.same_slots, w.fits, free.0, more);
        critical_fits = at-put (λ c n. n ≤ limit c) s.pool.by_class h.class _ was one critical;
        standard_fits = at-put (λ c n. n ≤ limit c) s.pool.by_class h.class _ was one standard;
        sheddable_fits = at-put (λ c n. n ≤ limit c) s.pool.by_class h.class _ was one sheddable;
      }

  -- However many requests `dispatch` grants, those in flight on the pool's workers fit its slots
  -- and each class its share of them, when they did before.
  pub dispatch-Within :
      (others slots : ℕ) (s : Gate)
      → GateInv others s
      → Within slots s
      → (s' : Gate) × (dispatch f cfg node s ≡ some s') × Within slots s'
  dispatch-Within others slots s v w =
      let (s', ran, v', w', b) =
        dispatch_settles f cfg node others (Within slots)
          (λ t h q u served k. grant_to-Within slots t h q served.allowed k) s v w in
      (s', ran, w')
