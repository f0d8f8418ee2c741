-- ===== src/Cache/Memory/Runs.antt =====
-- Whole runs of the cache: what stays true, and what is still found.
use opod_core.Base.{
  ℕ, suc, ◌≤◌, ◌≡◌, inl, inr, refl, ap, sym, subst, ◌∙◌, Bool, true, false, List, [], ◌∷◌, Option,
  none, some, String, arith, eq_iff, eq_refl, if◌then◌else◌, ◌===◌, ltb, length, keep, contains,
  Bool-cases, if_cases, ℤ, times, times-without_key, without_key,
}
use opod_core.Cache.Memory.{
  Entry, Memory, without_entry, remove_locked, get, set, delete, sweep_entry, sweep_keys, sweep,
  delete_namespace, delete_all,
}
use opod_core.Cache.Memory.Sound.{
  IsAt, present, length-without, remove_locked-Sound, same-Sound, listed_key, entry_of-IsAt,
}
use text.Mathlib.Text.{starts_with}
use Prim.Native.String.{◌++◌ as text_append}
use opod_core.Cache.Memory.Uses.{Inv, get_lem, set_lem}

-- The cache goes on, with the same capacity.
abbrev pub Goes : Memory → Option Memory → Type 0
Goes m o = (m' : Memory) × (o ≡ some m') × Inv m' × (m'.max_entries ≡ m.max_entries)

remove_locked-Inv :
    (k : String) (e : Entry) (m : Memory) → Inv m → IsAt k m.order e → Inv (remove_locked e m)
unfolding remove_locked
remove_locked-Inv k e m v at = record {
  sound = remove_locked-Sound m v.sound k e at;
  within =
      subst (λ j. length (without_entry j m.order) ≤ m.max_entries)
        (sym (listed_key m v.sound k e at))
        (omega (arith, length-without m v.sound k, v.sound.as_many, v.within));
  some_room = v.some_room;
}

delete-Goes : (key : String) (m : Memory) → Inv m → Goes m (delete key m)
unfolding delete
delete-Goes key m v = elim (Bool-cases (contains m.items key)) [
  | inr gone ↦ (m, rw gone refl, v, refl)
  | inl here ↦
      let (e, at) = present m v.sound key here in
      (remove_locked e m, rw (here, at.0) refl, remove_locked-Inv key e m v at, refl)
]

sweep_keys-Goes :
    (goes : Entry → Bool) (counted : Memory → Memory)
    → ((m : Memory)
        → Inv m
        → Inv (counted m)
          × ((counted m).max_entries ≡ m.max_entries)
          × ((counted m).items ≡ m.items))
    → (ks : List String) (m : Memory) → Inv m
    → ((k : String) → times k ks ≤ times k m.items)
    → Goes m (sweep_keys goes counted ks m)
unfolding sweep_keys remove_locked
sweep_keys-Goes goes counted same [] m v sub = (m, refl, v, refl)
sweep_keys-Goes goes counted same (k ∷ ks) m v sub =
    let once = head_count k ks in
    let (e, at) = entry_of-IsAt k m.order (omega (arith, v.sound.agree k, once, sub k)) in
    let removed = remove_locked e m in
    let (kept, cap, items) = same removed (remove_locked-Inv k e m v at) in
    subst (λ o. Goes m (sweep_entry goes counted (sweep_keys goes counted ks) m o)) (sym at.0)
      (if_cases (Goes m) (goes e) (sweep_keys goes counted ks (counted removed))
        (sweep_keys goes counted ks m)
        (λ h.
          let still : (j : String) → times j ks ≤ times j (counted removed).items = λ j.
            subst (λ n. times j ks ≤ n)
              (sym (
                ap (times j) (items ∙ ap (λ i. without_key i m.items) (listed_key m v.sound k e at))
                ∙ times-without_key j k m.items))
              (others (k === j) j refl) in
          let (out, ran, fine, cap') =
            sweep_keys-Goes goes counted same ks (counted removed) kept still in
          (out, ran, fine, cap' ∙ cap))
        (λ h.
          sweep_keys-Goes goes counted same ks m v (λ j. omega (arith, tail_count j k ks, sub j))))
  where
    head_count : (k : String) (ks : List String) → times k (k ∷ ks) ≡ suc (times k ks)
    head_count k ks = rw (eq_refl k) refl

    longer :
        (b : Bool) (k : String) (xs : List String) → length xs ≤ length (if b then k ∷ xs else xs)
    longer true k xs = omega arith
    longer false k xs = omega arith

    tail_count : (j k : String) (ks : List String) → times j ks ≤ times j (k ∷ ks)
    tail_count j k ks = longer (k === j) k (keep (λ i. i === j) ks)

    others :
        (b : Bool) (j : String) → (k === j) ≡ b → times j ks ≤ (if b then 0 else times j m.items)
    others false j h = omega (arith, tail_count j k ks, sub j)
    others true j h =
        subst (λ i. times i ks ≤ 0) ((eq_iff k j).0 h)
          (omega (arith, head_count k ks, sub k, v.sound.once k))

pub data Op : Type 0 where
  read : ℕ → String → Op
  write : ℕ → String → List ℕ → ℤ → Op
  drop_key drop_namespace : String → Op
  sweep_at : ℕ → Op
  drop_all : Op

-- The state that an operation leaves.
abbrev pub state_of : Option (Option (List ℕ) × Memory) → Option Memory
state_of none = none
state_of (some (out, m)) = some m

unfoldable pub perform : Op → Memory → Option Memory
unfolding get set delete sweep delete_namespace delete_all
perform (read now key) m = state_of (get now key m)
perform (write now key value ttl) m = set now key value ttl m
perform (drop_key key) m = delete key m
perform (drop_namespace ns) m = delete_namespace ns m
perform (sweep_at now) m = sweep now m
perform drop_all m = some (delete_all m)

abbrev pub then_run : (Memory → Option Memory) → Option Memory → Option Memory
then_run rest none = none
then_run rest (some m) = rest m

unfoldable pub run : List Op → Memory → Option Memory
unfolding perform
run [] m = some m
run (op ∷ ops) m = then_run (run ops) (perform op m)

perform-Goes : (op : Op) (m : Memory) → Inv m → Goes m (perform op m)
unfolding perform sweep delete_namespace delete_all
perform-Goes (read now key) m v =
    let (out, m', ran, kept, cap, order) = get_lem now key m v in (m', ap state_of ran, kept, cap)
perform-Goes (write now key value ttl) m v =
    let (m', ran, kept, cap, order) = set_lem now key value ttl m v in (m', ran, kept, cap)
perform-Goes (drop_key key) m v = delete-Goes key m v
perform-Goes (drop_namespace ns) m v =
    sweep_keys-Goes (λ e. starts_with e.key (text_append ns "/")) (λ n. n) (λ n w. (w, refl, refl))
      m.items m v (λ k. omega arith)
perform-Goes (sweep_at now) m v =
    sweep_keys-Goes (λ e. ltb e.expires_at now) (λ n. record n { evicted = suc n.evicted })
      (λ n w. (
        record {
          sound = same-Sound n (record n { evicted = suc n.evicted }) refl refl refl w.sound;
          within = w.within;
          some_room = w.some_room;
        },
        refl,
        refl,
      ))
      m.items m v (λ k. omega arith)
perform-Goes drop_all m v = (
  delete_all m,
  refl,
  record {
    sound = record { agree = λ k. refl; once = λ k. omega arith; as_many = refl; counted = refl };
    within = omega arith;
    some_room = v.some_room;
  },
  refl,
)

-- Whatever is done with a cache, it does not panic; its map and its list stay in step, its bytes
-- counted, and it never holds more than its capacity.
pub run-Goes : (ops : List Op) (m : Memory) → Inv m → Goes m (run ops m)
unfolding run
run-Goes [] m v = (m, refl, v, refl)
run-Goes (op ∷ ops) m v =
    let (m', ran, kept, cap) = perform-Goes op m v in
    let (m'', ran', kept', cap') = run-Goes ops m' kept in
    (m'', ap (then_run (run ops)) ran ∙ ran', kept', cap' ∙ cap)
