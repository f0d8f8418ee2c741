-- ===== src/Cache/Memory/Keeps.antt =====
-- What was set is found again.
use opod_core.Base.{
  ℕ, zero, suc, ◌+◌, ◌≤◌, ◌<◌, ◌≡◌, inl, inr, refl, ap, sym, subst, ◌∙◌, true, false, List, [], ◌∷◌,
  some, String, arith, eq_iff, eq_refl, ◌===◌, ltb, length, take, contains, Bool-cases, All, ℤ,
  times, contains-times,
}
use opod_core.Cache.Memory.{Entry, Memory, entry_of, without_entry, get, ttl_of}
use opod_core.Cache.Memory.Sound.{entry_listed}
use opod_core.Cache.Memory.Uses.{Inv, get_lem, set_lem}
use opod_core.Cache.Memory.Runs.{
  Op, read, write, drop_key, drop_namespace, sweep_at, drop_all, perform, then_run, run, state_of,
}

-- A read or a write of another key.
abbrev pub Spares : String → Op → Type 0
Spares k (read now j) = (j === k) ≡ false
Spares k (write now j value ttl) = (j === k) ≡ false
Spares k (drop_key j) = ⊥
Spares k (drop_namespace ns) = ⊥
Spares k (sweep_at now) = ⊥
Spares k drop_all = ⊥

-- The entry is among the first `n` of the list.
abbrev Among : String → Entry → ℕ → List Entry → Type 0
Among k e n es = entry_of k (take n es) ≡ some e

Among-suc :
    (k : String) (e : Entry) (n : ℕ) (es : List Entry) → Among k e n es → Among k e (suc n) es
Among-suc k e zero es h = absurd (cc)
Among-suc k e (suc n) [] h = h
Among-suc k e (suc n) (f ∷ es) h = elim (Bool-cases (f.key === k)) [
  | inl here ↦ rw here (rw here at h)
  | inr there ↦ rw there (Among-suc k e n es (rw there at h))
]

Among-all :
    (k : String) (e : Entry) (n : ℕ) (es : List Entry) → Among k e n es → entry_of k es ≡ some e
Among-all k e zero es h = absurd (cc)
Among-all k e (suc n) [] h = absurd (cc)
Among-all k e (suc n) (f ∷ es) h = elim (Bool-cases (f.key === k)) [
  | inl here ↦ rw here (rw here at h)
  | inr there ↦ rw there (Among-all k e n es (rw there at h))
]

Among-without_entry :
    (k j : String) (e : Entry) (n : ℕ) (es : List Entry)
    → (j === k) ≡ false
    → Among k e n es
    → Among k e n (without_entry j es)
Among-without_entry k j e zero es o h = h
Among-without_entry k j e (suc n) [] o h = h
Among-without_entry k j e (suc n) (f ∷ es) o h = elim (Bool-cases (f.key === j)) [
  | inl gone ↦
      let other : (f.key === k) ≡ false =
        subst (λ i. (i === k) ≡ false) (sym ((eq_iff f.key j).0 gone)) o in
      rw gone
        (Among-suc k e n (without_entry j es) (Among-without_entry k j e n es o (rw other at h)))
  | inr stays ↦ elim (Bool-cases (f.key === k)) [
    | inl here ↦ rw (stays, here) (rw here at h)
    | inr there ↦ rw (stays, there) (Among-without_entry k j e n es o (rw there at h))
  ]
]

take-take : (n c : ℕ) (es : List Entry) → n ≤ c → take n (take c es) ≡ take n es
take-take zero c es h = refl
take-take (suc n) zero es h = absurd (omega arith)
take-take (suc n) (suc c) [] h = refl
take-take (suc n) (suc c) (e ∷ es) h = ap (◌∷◌ e) (take-take n c es (omega arith))

-- One use of another key pushes the entry back by one place at most.
perform-Among :
    (k : String) (e : Entry) (n : ℕ) (op : Op) (m : Memory)
    → Inv m
    → Spares k op
    → suc n ≤ m.max_entries
    → Among k e n m.order
    → (m' : Memory) × (perform op m ≡ some m')
      × Inv m'
      × (m'.max_entries ≡ m.max_entries)
      × Among k e (suc n) m'.order
unfolding perform
perform-Among k e n (read now j) m v o room h =
    let (out, m', ran, kept, cap, order) = get_lem now j m v in
    (
      m',
      ap state_of ran,
      kept,
      cap,
      elim order [
        | inl same ↦
            subst (λ es. Among k e (suc n) es) (sym same)
              (Among-suc k e n (without_entry j m.order) (Among-without_entry k j e n m.order o h))
        | inr (f, key, same) ↦ subst (λ es. Among k e (suc n) es) (sym same) (behind f (rw key o))
      ],
    )
  where
    behind : (f : Entry) → (f.key === k) ≡ false → Among k e (suc n) (f ∷ without_entry j m.order)
    behind f other = rw other (Among-without_entry k j e n m.order o h)
perform-Among k e n (write now j value ttl) m v o room h =
    let (m', ran, kept, cap, order) = set_lem now j value ttl m v in
    (
      m',
      ran,
      kept,
      cap,
      subst (λ es. Among k e (suc n) es) (sym order) (behind (now + ttl_of m ttl)),
    )
  where
    behind :
        (at : ℕ)
        → Among k e (suc n) (
            take m.max_entries
              (record { key = j; value = value; expires_at = at } ∷ without_entry j m.order))
    behind at =
        ap (entry_of k) (
          take-take (suc n) m.max_entries
            (record { key = j; value = value; expires_at = at } ∷ without_entry j m.order) room)
        ∙ rw o (Among-without_entry k j e n m.order o h)
perform-Among k e n (drop_key j) m v o room h = absurd o
perform-Among k e n (drop_namespace ns) m v o room h = absurd o
perform-Among k e n (sweep_at now) m v o room h = absurd o
perform-Among k e n drop_all m v o room h = absurd o

run-Among :
    (k : String) (e : Entry) (ops : List Op) (n : ℕ) (m : Memory)
    → Inv m
    → All (Spares k) ops
    → n + length ops ≤ m.max_entries
    → Among k e n m.order
    → (m' : Memory) × (run ops m ≡ some m') × Inv m' × (entry_of k m'.order ≡ some e)
unfolding run
run-Among k e [] n m v o room h = (m, refl, v, Among-all k e n m.order h)
run-Among k e (op ∷ ops) n m v o room h =
    let (m', ran, kept, cap, held) = perform-Among k e n op m v o.0 (omega arith) h in
    let (m'', ran', kept', found) =
      run-Among k e ops (suc n) m' kept o.1 (omega (arith, cap)) held in
    (m'', ap (then_run (run ops)) ran ∙ ran', kept', found)

-- What was set is found by a read before it expires, when fewer reads and writes of other keys than
-- the cache has room came between.
pub set_then_get :
    (m : Memory) (now : ℕ) (key : String) (value : List ℕ) (ttl : ℤ) (ops : List Op) (later : ℕ)
    → Inv m
    → All (Spares key) ops
    → length ops < m.max_entries
    → later ≤ now + ttl_of m ttl
    → (m' : Memory) × (m'' : Memory) × (run (write now key value ttl ∷ ops) m ≡ some m')
      × (get later key m' ≡ some (some value, m''))
unfolding run perform get
set_then_get m now key value ttl ops later v others room fresh =
    let (m₁, ran, kept, cap, order) = set_lem now key value ttl m v in
    let first : Among key (entry (now + ttl_of m ttl)) 1 m₁.order =
      subst (λ es. Among key (entry (now + ttl_of m ttl)) 1 es) (sym order)
        (at_front (now + ttl_of m ttl)) in
    let (m', ran', kept', found) =
      run-Among key (entry (now + ttl_of m ttl)) ops 1 m₁ kept others (omega (arith, cap)) first in
    let out = record m' {
      order = entry (now + ttl_of m ttl) ∷ without_entry key m'.order;
      hits = suc m'.hits;
    } in
    (
      m',
      out,
      ap (then_run (run ops)) ran ∙ ran',
      got m' (now + ttl_of m ttl) fresh found (
          contains-times key m'.items
          ∙ listed (times key m'.items) (
              omega (
                arith,
                kept'.sound.agree key,
                entry_listed key m'.order (entry (now + ttl_of m ttl)) found,
              ))),
    )
  where
    entry : ℕ → Entry
    entry at = record { key = key; value = value; expires_at = at }

    at_front :
        (at : ℕ)
        → Among key (entry at) 1 (take m.max_entries (entry at ∷ without_entry key m.order))
    at_front at =
        ap (entry_of key) (
          take-take 1 m.max_entries (entry at ∷ without_entry key m.order)
            (omega (arith, v.some_room)))
        ∙ rw (eq_refl key) refl

    listed : (n : ℕ) → 0 < n → ltb 0 n ≡ true
    listed n h = ground arith

    not_late : (at : ℕ) → later ≤ at → ltb at later ≡ false
    not_late at h = ground arith

    got :
        (m' : Memory) (at : ℕ)
        → later ≤ at
        → entry_of key m'.order ≡ some (entry at)
        → contains m'.items key ≡ true
        → get later key m'
          ≡ some (
            some value,
            record m' { order = entry at ∷ without_entry key m'.order; hits = suc m'.hits },
          )
    got m' at h found here = rw (here, found, not_late at h) refl
