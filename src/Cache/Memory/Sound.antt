-- ===== src/Cache/Memory/Sound.antt =====
-- The map and the list of the cache stay in step.
use opod_core.Base.{
  ℕ, suc, ◌+◌, ◌≤◌, ◌<◌, ◌≡◌, inl, inr, refl, ap, sym, subst, ◌∙◌, true, false, List, [], ◌∷◌, some,
  String, arith, if◌then◌else◌, ◌===◌, ltb, length, keep, contains, Bool-cases, if_cases, some_inj,
  ltb→lt, times, same_text, times-without_key, length-without_key, contains-times, without_key,
}
use opod_core.Cache.Memory.{Entry, Memory, entry_of, without_entry, remove_locked, with_new}

abbrev pub keys_of : List Entry → List String
keys_of [] = []
keys_of (e ∷ es) = e.key ∷ keys_of es

abbrev pub bytes_of : List Entry → ℕ
bytes_of [] = 0
bytes_of (e ∷ es) = length e.value + bytes_of es

-- The map has each key once, the list has an entry for just these keys, and the bytes are counted.
pub record Sound (m : Memory) : Type 0 where
  pub agree : (k : String) → times k m.items ≡ times k (keys_of m.order)
  pub once : (k : String) → times k m.items ≤ 1
  pub as_many : length m.items ≡ length m.order
  pub counted : m.bytes ≡ bytes_of m.order

keys_of-without_entry :
    (k : String) (es : List Entry) → keys_of (without_entry k es) ≡ without_key k (keys_of es)
keys_of-without_entry k [] = refl
keys_of-without_entry k (e ∷ es) = elim (Bool-cases (e.key === k)) [
  | inl h ↦ rw h (keys_of-without_entry k es)
  | inr h ↦ rw h (ap (◌∷◌ e.key) (keys_of-without_entry k es))
]

length-keys_of : (es : List Entry) → length (keys_of es) ≡ length es
length-keys_of [] = refl
length-keys_of (e ∷ es) = ap suc (length-keys_of es)

pub without_none :
    (k : String) (es : List Entry) → times k (keys_of es) ≡ 0 → without_entry k es ≡ es
without_none k [] z = refl
without_none k (e ∷ es) z = elim (Bool-cases (e.key === k)) [
  | inl h ↦ absurd (some_left (length (keep (λ j. j === k) (keys_of es))) (rw h at z))
  | inr h ↦ rw h (ap (◌∷◌ e) (without_none k es (rw h at z)))
]
  where
    some_left : (n : ℕ) → suc n ≡ 0 → ⊥
    some_left n z = omega arith

-- The entry of a key that the list has.
abbrev pub IsAt : String → List Entry → Entry → Type 0
IsAt k es e = (entry_of k es ≡ some e) × ((e.key === k) ≡ true)

pub entry_of-IsAt :
    (k : String) (es : List Entry) → 0 < times k (keys_of es) → (e : Entry) × IsAt k es e
entry_of-IsAt k [] h = absurd (omega arith)
entry_of-IsAt k (e ∷ es) h = elim (Bool-cases (e.key === k)) [
  | inl here ↦ (e, (rw here refl, here))
  | inr there ↦
      let (f, (ran, same)) = entry_of-IsAt k es (rw there at h) in (f, (rw there ran, same))
]

bytes_of-without_entry :
    (k : String) (es : List Entry) (e : Entry)
    → entry_of k es ≡ some e
    → times k (keys_of es) ≤ 1
    → bytes_of (without_entry k es) + length e.value ≡ bytes_of es
bytes_of-without_entry k [] e ran once = absurd (cc)
bytes_of-without_entry k (f ∷ es) e ran once = elim (Bool-cases (f.key === k)) [
  | inl here ↦
      let same : f ≡ e = some_inj (rw here at ran) in
      rw (here, without_none k es (no_more (times k (keys_of es)) (rw here at once)))
        (ap (λ g. bytes_of es + length g.value) (sym same) ∙ swap (bytes_of es) (length f.value))
  | inr there ↦
      rw there (
        shift (length f.value) (bytes_of-without_entry k es e (rw there at ran) (rw there at once)))
]
  where
    no_more : (n : ℕ) → suc n ≤ 1 → n ≡ 0
    no_more n h = omega arith

    swap : (a b : ℕ) → a + b ≡ b + a
    swap a b = omega arith

    shift :
        (a : ℕ)
        → bytes_of (without_entry k es) + length e.value ≡ bytes_of es
        → (a + bytes_of (without_entry k es)) + length e.value ≡ a + bytes_of es
    shift a h = omega arith

pub entry_listed :
    (k : String) (es : List Entry) (e : Entry) → entry_of k es ≡ some e → 0 < times k (keys_of es)
entry_listed k [] e ran = absurd (cc)
entry_listed k (f ∷ es) e ran = elim (Bool-cases (f.key === k)) [
  | inl here ↦ rw here (omega arith)
  | inr there ↦ rw there (entry_listed k es e (rw there at ran))
]

-- The counters of hits and the like do not matter.
pub same-Sound :
    (m n : Memory) → n.items ≡ m.items → n.order ≡ m.order → n.bytes ≡ m.bytes → Sound m → Sound n
same-Sound m n items order bytes s = record {
  agree = λ k. ap (times k) items ∙ s.agree k ∙ sym (ap (λ o. times k (keys_of o)) order);
  once = λ k. rw items (s.once k);
  as_many = ap length items ∙ s.as_many ∙ sym (ap length order);
  counted = bytes ∙ s.counted ∙ sym (ap bytes_of order);
}

-- An entry for a key that is new.
pub with_new-Sound :
    (e : Entry) (m : Memory) → times e.key m.items ≡ 0 → Sound m → Sound (with_new e m)
with_new-Sound e m z s = record {
  agree = λ k. elim (Bool-cases (e.key === k)) [
    | inl h ↦ rw h (ap suc (s.agree k))
    | inr h ↦ rw h (s.agree k)
  ];
  once = λ k. elim (Bool-cases (e.key === k)) [
    | inl h ↦
        rw h (only (times k m.items) (subst (λ j. times j m.items ≡ 0) (same_text e.key k h) z))
    | inr h ↦ rw h (s.once k)
  ];
  as_many = ap suc s.as_many;
  counted = omega (arith, s.counted);
}
  where
    only : (n : ℕ) → n ≡ 0 → suc n ≤ 1
    only n z = omega arith

module _ (m : Memory) (s : Sound m) where
  -- A key of the map has its entry in the list; the map has no other.
  pub present : (k : String) → contains m.items k ≡ true → (e : Entry) × IsAt k m.order e
  present k h =
      entry_of-IsAt k m.order
        (omega (arith, s.agree k, ltb→lt 0 (times k m.items) (sym (contains-times k m.items) ∙ h)))

  pub absent : (k : String) → contains m.items k ≡ false → times k m.items ≡ 0
  absent k h = zero_of (times k m.items) (sym (contains-times k m.items) ∙ h)
    where
      zero_of : (n : ℕ) → ltb 0 n ≡ false → n ≡ 0
      zero_of n e = ground arith

  pub once_listed : (k : String) → times k (keys_of m.order) ≤ 1
  once_listed k = omega (arith, s.agree k, s.once k)

  pub listed_key : (k : String) (e : Entry) → IsAt k m.order e → e.key ≡ k
  listed_key k e at = same_text e.key k at.1

  -- The list without an entry that it has.
  pub bytes-without :
      (k : String) (e : Entry)
      → IsAt k m.order e
      → bytes_of (without_entry k m.order) + length e.value ≡ bytes_of m.order
  bytes-without k e at = bytes_of-without_entry k m.order e at.0 (once_listed k)

  times-without_entry :
      (j k : String)
      → times j (keys_of (without_entry k m.order))
        ≡ (if k === j then 0 else times j (keys_of m.order))
  times-without_entry j k =
      ap (times j) (keys_of-without_entry k m.order) ∙ times-without_key j k (keys_of m.order)

  pub length-without :
      (k : String) → length (without_entry k m.order) + times k m.items ≡ length m.items
  length-without k = omega (
    arith,
    length-keys_of (without_entry k m.order),
    ap length (keys_of-without_entry k m.order),
    length-without_key k (keys_of m.order),
    length-keys_of m.order,
    s.agree k,
    s.as_many,
  )

  pub remove_locked-Sound : (k : String) (e : Entry) → IsAt k m.order e → Sound (remove_locked e m)
  unfolding remove_locked
  remove_locked-Sound k e at = rw (listed_key k e at) (record {
    agree = λ j.
        times-without_key j k m.items
        ∙ ap {A = ℕ} (λ n. if k === j then 0 else n) (s.agree j)
        ∙ sym (times-without_entry j k);
    once = λ j. rw (times-without_key j k m.items) (
        if_cases {A = ℕ} (λ n. n ≤ 1) (k === j) 0 (times j m.items) (λ e. omega arith)
          (λ e. s.once j));
    as_many = omega (arith, length-without_key k m.items, length-without k);
    counted = omega (arith, s.counted, bytes-without k e at);
  })

  -- An entry that is there is put first, with another value maybe.
  pub moved_front-Sound :
      (k : String) (e f : Entry)
      → IsAt k m.order e
      → f.key ≡ k
      → (n : Memory) → n.items ≡ m.items
      → n.order ≡ f ∷ without_entry k m.order
      → n.bytes ≡ length f.value + bytes_of (without_entry k m.order)
      → Sound n
  moved_front-Sound k e f at key n items order bytes = record {
    agree =
        λ j. ap (times j) items ∙ s.agree j ∙ sym (ap (λ o. times j (keys_of o)) order ∙ front j);
    once = λ j. rw items (s.once j);
    as_many = omega (arith, ap length items, ap length order, length-without k, listed);
    counted = bytes ∙ sym (ap bytes_of order);
  }
    where
      listed : times k m.items ≡ 1
      listed = omega (arith, s.agree k, s.once k, entry_listed k m.order e at.0)

      front :
          (j : String)
          → times j (f.key ∷ keys_of (without_entry k m.order)) ≡ times j (keys_of m.order)
      front j = elim (Bool-cases (k === j)) [
        | inl h ↦
            rw (key, h)
              (ap suc (times-without_entry j k ∙ rw h refl)
                ∙ sym (sym (s.agree j) ∙ subst (λ i. times i m.items ≡ 1) (same_text k j h) listed))
        | inr h ↦ rw (key, h) (times-without_entry j k ∙ rw h refl)
      ]
