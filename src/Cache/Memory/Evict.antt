-- ===== src/Cache/Memory/Evict.antt =====
-- The eviction of the cache's last entry (internal/cache/memory.go: Set).
use opod_core.Base.{
  ℕ, zero, suc, ◌≤◌, ◌<◌, ◌≡◌, inl, inr, refl, ap, ◌∙◌, Bool, true, false, List, [], ◌∷◌, some,
  String, arith, eq_refl, if◌then◌else◌, ◌===◌, ltb, length, keep, take, Bool-cases, some_inj,
  length_split, times,
}
use opod_core.Cache.Memory.{Entry, Memory, without_entry, remove_locked, last_entry, evict_over}
use opod_core.Cache.Memory.Sound.{
  Sound, IsAt, keys_of, same-Sound, entry_listed, once_listed, remove_locked-Sound,
}

-- The last entry of a list that has each key once is found by its key; without it, the rest is left.
last_entry_lem :
    (n : ℕ) (es : List Entry) (e : Entry)
    → length es ≡ suc n
    → ((k : String) → times k (keys_of es) ≤ 1)
    → last_entry es ≡ some e
    → IsAt e.key es e × (without_entry e.key es ≡ take n es)
last_entry_lem n [] e len once ran = absurd (omega arith)
last_entry_lem zero (f ∷ []) e len once ran = rw (some_inj ran, eq_refl e.key) ((refl, refl), refl)
last_entry_lem (suc n) (f ∷ []) e len once ran = absurd (omega arith)
last_entry_lem zero (f ∷ g ∷ es) e len once ran = absurd (omega arith)
last_entry_lem (suc n) (f ∷ g ∷ es) e len once ran =
    let (at, rest) = last_entry_lem n (g ∷ es) e (omega arith) later ran in
    elim (Bool-cases (f.key === e.key)) [
      | inr h ↦ rw h ((at.0, at.1), ap (◌∷◌ f) rest)
      | inl h ↦ absurd (
          twice (times e.key (keys_of (g ∷ es))) (rw h at (once e.key))
            (entry_listed e.key (g ∷ es) e at.0))
    ]
  where
    twice : (n : ℕ) → suc n ≤ 1 → 0 < n → ⊥
    twice n a b = omega arith

    fewer :
        (b : Bool) (xs : List String) (x : String) (n : ℕ)
        → length (if b then x ∷ xs else xs) ≤ n
        → length xs ≤ n
    fewer true xs x n h = omega arith
    fewer false xs x n h = h

    later : (k : String) → times k (keys_of (g ∷ es)) ≤ 1
    later k = fewer (f.key === k) (keep (λ j. j === k) (keys_of (g ∷ es))) f.key 1 (once k)

last_some : (e : Entry) (es : List Entry) → (f : Entry) × (last_entry (e ∷ es) ≡ some f)
last_some e [] = (e, refl)
last_some e (f ∷ es) = last_some f es

pub take_all : (n : ℕ) (es : List Entry) → length es ≤ n → take n es ≡ es
take_all zero [] h = refl
take_all zero (e ∷ es) h = absurd (omega arith)
take_all (suc n) [] h = refl
take_all (suc n) (e ∷ es) h = ap (◌∷◌ e) (take_all n es (omega arith))

length-take : (n : ℕ) (es : List Entry) → n ≤ length es → length (take n es) ≡ n
length-take n es h = length_split es n h

-- One entry over the capacity: the last one goes.
pub evict_over_one :
    (fuel : ℕ) (e : Entry) (es : List Entry) (m : Memory)
    → Sound m
    → m.order ≡ e ∷ es
    → length m.order ≡ suc m.max_entries
    → (m' : Memory) × (evict_over (suc (suc fuel)) m ≡ some m')
      × Sound m'
      × (m'.max_entries ≡ m.max_entries)
      × (m'.order ≡ take m.max_entries m.order)
unfolding evict_over remove_locked
evict_over_one fuel e es m s cut over =
    let (f, ran) = last_some e es in
    let ran' : last_entry m.order ≡ some f = ap last_entry cut ∙ ran in
    let (at, rest) = last_entry_lem m.max_entries m.order f over (once_listed m s) ran' in
    let gone = record (remove_locked f m) { evicted = suc m.evicted } in
    let sound =
      same-Sound (remove_locked f m) gone refl refl refl (remove_locked-Sound m s f.key f at) in
    (
      gone,
      rw
          (
            exceeds m.max_entries (length m.items) (omega (arith, s.as_many)),
            ran',
            fits m.max_entries (length gone.items) (
                omega (
                  arith,
                  sound.as_many,
                  ap length rest,
                  length_split m.order m.max_entries (omega arith),
                )),
          )
          refl,
      sound,
      refl,
      rest,
    )
  where
    exceeds : (n k : ℕ) → k ≡ suc n → ltb n k ≡ true
    exceeds n k e = ground arith

    fits : (n k : ℕ) → k ≡ n → ltb n k ≡ false
    fits n k e = ground arith
