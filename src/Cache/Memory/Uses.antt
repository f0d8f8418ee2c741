-- ===== src/Cache/Memory/Uses.antt =====
-- What each operation of the cache makes of its list.
use opod_core.Base.{
  ℕ, suc, ◌+◌, ◌-◌, ◌≤◌, ◌<◌, ◌≡◌, ◌⊎◌, inl, inr, refl, ap, sym, subst, ◌∙◌, true, false, List, ◌∷◌,
  Option, none, some, String, arith, if◌then◌else◌, ◌==◌, ltb, length, take, contains, Bool-cases,
  ℤ, clip, length_split,
}
use opod_core.Cache.Memory.{
  Entry, Memory, new_memory, without_entry, remove_locked, missed, get, evict_over, with_new,
  ttl_of, set,
}
use opod_core.Cache.Memory.Sound.{
  Sound, same-Sound, with_new-Sound, entry_listed, without_none, listed_key, present, absent,
  bytes-without, length-without, remove_locked-Sound, moved_front-Sound,
}
use opod_core.Cache.Memory.Evict.{take_all, evict_over_one}

-- The map and the list are in step, and they are not over the capacity.
pub record Inv (m : Memory) : Type 0 where
  pub sound : Sound m
  pub within : length m.order ≤ m.max_entries
  pub some_room : 0 < m.max_entries

pub new_memory-Inv : (n ttl : ℤ) → Inv (new_memory n ttl)
unfolding new_memory
new_memory-Inv n ttl = record {
  sound = record { agree = λ k. refl; once = λ k. omega arith; as_many = refl; counted = refl };
  within = omega arith;
  some_room = positive (clip n);
}
  where
    positive : (n : ℕ) → 0 < (if n == 0 then 1000 else n)
    positive n = ground arith

-- Reading an entry puts it first, unless it has expired.
pub get_lem :
    (now : ℕ) (key : String) (m : Memory)
    → Inv m
    → (out : Option (List ℕ)) × (m' : Memory) × (get now key m ≡ some (out, m'))
      × Inv m'
      × (m'.max_entries ≡ m.max_entries)
      × ((m'.order ≡ without_entry key m.order)
          ⊎ ((e : Entry) × (e.key ≡ key) × (m'.order ≡ e ∷ without_entry key m.order)))
unfolding get remove_locked
get_lem now key m v = elim (Bool-cases (contains m.items key)) [
  | inr gone ↦ (
    none,
    missed m,
    rw gone refl,
    record {
      sound = same-Sound m (missed m) refl refl refl v.sound;
      within = v.within;
      some_room = v.some_room;
    },
    refl,
    inl (sym (without_none key m.order (sym (v.sound.agree key) ∙ absent m v.sound key gone))),
  )
  | inl here ↦
      let (e, at) = present m v.sound key here in
      let same = listed_key m v.sound key e at in
      let fewer = length-without m v.sound key in
      elim (Bool-cases (ltb e.expires_at now)) [
        | inl late ↦ (
          none,
          missed (remove_locked e m),
          rw (here, at.0, late) refl,
          record {
            sound =
                same-Sound (remove_locked e m) (missed (remove_locked e m)) refl refl refl
                  (remove_locked-Sound m v.sound key e at);
            within = rw same (omega (arith, fewer, v.sound.as_many, v.within));
            some_room = v.some_room;
          },
          refl,
          inl (ap (λ k. without_entry k m.order) same),
        )
        | inr fresh ↦
            let read = record m { order = e ∷ without_entry e.key m.order; hits = suc m.hits } in
            (
              some e.value,
              read,
              rw (here, at.0, fresh) refl,
              record {
                sound =
                    moved_front-Sound m v.sound key e e at same read refl
                      (ap (λ k. e ∷ without_entry k m.order) same)
                      (v.sound.counted ∙ sym (bytes-without m v.sound key e at) ∙ swap _ _);
                within =
                    subst (λ k. suc (length (without_entry k m.order)) ≤ m.max_entries) (sym same)
                      (omega (
                        arith,
                        fewer,
                        v.sound.as_many,
                        v.within,
                        v.sound.agree key,
                        entry_listed key m.order e at.0,
                      ));
                some_room = v.some_room;
              },
              refl,
              inr (e, same, ap (λ k. e ∷ without_entry k m.order) same),
            )
      ]
]
  where
    swap : (a b : ℕ) → a + b ≡ b + a
    swap a b = omega arith

-- A new entry goes first, in place of an old one of its key; what is over the capacity goes last.
pub set_lem :
    (now : ℕ) (key : String) (value : List ℕ) (ttl : ℤ) (m : Memory)
    → Inv m
    → (m' : Memory) × (set now key value ttl m ≡ some m')
      × Inv m'
      × (m'.max_entries ≡ m.max_entries)
      × (m'.order
          ≡ take m.max_entries (
              record { key = key; value = value; expires_at = now + ttl_of m ttl }
              ∷ without_entry key m.order))
unfolding set evict_over
set_lem now key value ttl m v = elim (Bool-cases (contains m.items key)) [
  | inl here ↦
      let (e, at) = present m v.sound key here in
      let same = listed_key m v.sound key e at in
      let first = record e { value = value; expires_at = now + ttl_of m ttl } in
      let out = record m {
        order = first ∷ without_entry e.key m.order;
        bytes = m.bytes - length e.value + length value;
      } in
      let cut : out.order ≡ fresh ∷ without_entry key m.order =
        ap {A = String} (λ k. entry k ∷ without_entry k m.order) same in
      let small : suc (length (without_entry key m.order)) ≤ m.max_entries = omega (
        arith,
        length-without m v.sound key,
        v.sound.as_many,
        v.within,
        v.sound.agree key,
        entry_listed key m.order e at.0,
      ) in
      (
        out,
        rw (here, at.0) refl,
        record {
          sound =
              moved_front-Sound m v.sound key e first at same out refl
                (ap (λ k. first ∷ without_entry k m.order) same)
                (omega (arith, v.sound.counted, bytes-without m v.sound key e at));
          within = omega (arith, ap length cut, small);
          some_room = v.some_room;
        },
        refl,
        cut ∙ sym (take_all m.max_entries (fresh ∷ without_entry key m.order) small),
      )
  | inr gone ↦
      let z = absent m v.sound key gone in
      let grown = with_new fresh m in
      let sound = with_new-Sound fresh m z v.sound in
      let same : without_entry key m.order ≡ m.order =
        without_none key m.order (sym (v.sound.agree key) ∙ z) in
      elim (Bool-cases (ltb m.max_entries (suc (length m.items)))) [
        | inr fits ↦
            let small = room (length m.items) fits v.sound.as_many in
            (
              grown,
              rw (gone, fits) refl,
              record { sound = sound; within = small; some_room = v.some_room },
              refl,
              sym (
                  ap (λ es. take m.max_entries (fresh ∷ es)) same
                  ∙ take_all m.max_entries (fresh ∷ m.order) small),
            )
        | inl over ↦
            let (out, ran, kept, cap, order) =
              evict_over_one (length m.items) fresh m.order grown sound refl
                (full (length m.items) over v.sound.as_many) in
            (
              out,
              rw gone ran,
              record {
                sound = kept;
                within = omega (
                  arith,
                  cap,
                  ap length order,
                  length_split (fresh ∷ m.order) m.max_entries
                      (omega (arith, full (length m.items) over v.sound.as_many)),
                );
                some_room = omega (arith, cap, v.some_room);
              },
              cap,
              order ∙ sym (ap (λ es. take m.max_entries (fresh ∷ es)) same),
            )
      ]
]
  where
    entry : String → Entry
    entry k = record { key = k; value = value; expires_at = now + ttl_of m ttl }

    fresh : Entry
    fresh = entry key

    room :
        (n : ℕ)
        → ltb m.max_entries (suc n) ≡ false
        → n ≡ length m.order
        → suc (length m.order) ≤ m.max_entries
    room n e l = ground arith

    full :
        (n : ℕ)
        → ltb m.max_entries (suc n) ≡ true
        → n ≡ length m.order
        → suc (length m.order) ≡ suc m.max_entries
    full n e l = ground (arith, v.within)
