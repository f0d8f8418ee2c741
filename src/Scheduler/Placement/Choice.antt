-- ===== src/Scheduler/Placement/Choice.antt =====
-- The pickers take the strongest that qualify, or tell why not.
use opod_core.Base.{
  ℕ, ◌≤◌, ◌<◌, ◌≡◌, ◌⊎◌, inl, inr, refl, ap, sym, subst, ◌∙◌, Bool, true, false, List, [], ◌∷◌,
  ◌++◌, Option, none, some, String, arith, if◌then◌else◌, ◌==◌, ◌===◌, ◌&&◌, ◌||◌, not, ltb, length,
  keep, take, drop, All, All-keep, All-stable_sort, Bool-cases, Option-cases, stable_sort, Sorted,
  Sorted-append, Sorted-before, All-before, stable_sort-Sorted, length-stable_sort,
  keep-stable_sort, WeakOrder, length_split, take-append-drop, ltb→lt,
}
use opod_core.Store.Live.{Node}
use opod_core.Scheduler.Placement.{
  Why, worker_for, qualifies, Hardware, worker_card_bytes, stronger_worker, row_named, ById,
  not_found, not_fit, these, pick_named, pick_workers_by_id, Strongest, unreadable_rows, too_few,
  picked, ids_of, refusals, pick_workers, on_worker, strongest_of, pick_coordinator_host,
}

stronger_worker-WeakOrder : (hw : Hardware) → WeakOrder (stronger_worker hw)
unfolding stronger_worker
stronger_worker-WeakOrder hw = record {
  asym = λ a b. asym (worker_card_bytes hw a) (worker_card_bytes hw b) (hw.ram_gb a) (hw.ram_gb b);
  trans = λ a b c.
      trans (worker_card_bytes hw a) (worker_card_bytes hw b) (worker_card_bytes hw c) (hw.ram_gb a)
        (hw.ram_gb b) (hw.ram_gb c);
}
  where
    asym :
        (a b m n : ℕ)
        → (if a == b then ltb n m else ltb b a) ≡ true
        → (if b == a then ltb m n else ltb a b) ≡ false
    asym a b m n e = ground arith

    trans :
        (a b c m n k : ℕ)
        → (if b == a then ltb m n else ltb a b) ≡ false
        → (if c == b then ltb n k else ltb b c) ≡ false
        → (if c == a then ltb m k else ltb a c) ≡ false
    trans a b c m n k e f = ground arith

-- The workers that are picked: as many as asked for, each qualifies, they are the strongest, and what
-- they are with those left out is what qualifies, in another order.
pub record Picks (hw : Hardware) (all : List Node) (max_age now n : ℕ) (ws rest : List Node)
    : Type 0 where
  pub as_many : length ws ≡ n
  pub fit : All (λ w. qualifies max_age now w ≡ true) ws
  pub strongest : All (λ w. All (λ v. stronger_worker hw v w ≡ false) rest) ws
  pub in_turn : Sorted (stronger_worker hw) ws
  pub rearranged :
      (p : Node → Bool)
      → length (keep p (ws ++ rest)) ≡ length (keep p (keep (qualifies max_age now) all))

-- With fewer qualifying nodes than asked for, the picker says which they are and why each other node
-- is none. Else it picks as many as asked for, the strongest first; nobody left out is stronger.
pub pick_workers_lem :
    (hw : Hardware) (all : List Node) (max_age now n : ℕ)
    → ((length (keep (qualifies max_age now) all) < n)
        × (pick_workers hw (some all) max_age now n
            ≡ too_few (ids_of (keep (qualifies max_age now) all)) (refusals max_age now all)))
      ⊎ ((ws : List Node) × (rest : List Node) × (pick_workers hw (some all) max_age now n
            ≡ picked ws)
          × Picks hw all max_age now n ws rest)
unfolding pick_workers
pick_workers_lem hw all max_age now n = elim (Bool-cases (ltb (length ready) n)) [
  | inl e ↦ inl (ltb→lt (length ready) n e, rw e refl)
  | inr e ↦ inr (
    take n sorted,
    drop n sorted,
    rw e refl,
    record {
      as_many =
          length_split sorted n
            (enough (length ready) e (length-stable_sort (stronger_worker hw) ready));
      fit =
          All-before (λ w. qualifies max_age now w ≡ true) (take n sorted) (drop n sorted)
            (subst (All (λ w. qualifies max_age now w ≡ true)) (sym (take-append-drop n sorted)) (
              All-stable_sort (stronger_worker hw) (λ w. qualifies max_age now w ≡ true) ready
                (All-keep (qualifies max_age now) all)));
      strongest = Sorted-append (stronger_worker hw) (take n sorted) (drop n sorted) whole;
      in_turn = Sorted-before (stronger_worker hw) (take n sorted) (drop n sorted) whole;
      rearranged = λ p.
          ap (λ l. length (keep p l)) (take-append-drop n sorted)
          ∙ keep-stable_sort (stronger_worker hw) p ready;
    },
  )
]
  where
    ready : List Node
    ready = keep (qualifies max_age now) all

    sorted : List Node
    sorted = stable_sort (stronger_worker hw) ready

    whole : Sorted (stronger_worker hw) (take n sorted ++ drop n sorted)
    whole =
        subst (Sorted (stronger_worker hw)) (sym (take-append-drop n sorted))
          (stable_sort-Sorted (stronger_worker hw) (stronger_worker-WeakOrder hw) ready)

    enough : (m : ℕ) → ltb m n ≡ false → length sorted ≡ m → n ≤ length sorted
    enough m e l = ground arith

strongest_of-first :
    (hw : Hardware) (w : Node) (ws : List Node)
    → All (λ v. stronger_worker hw v w ≡ false) ws
    → strongest_of hw w ws ≡ w
strongest_of-first hw w [] a = refl
strongest_of-first hw w (v ∷ ws) a = rw (a.0) (strongest_of-first hw w ws a.1)

-- Without a head that the request or the leader names, the coordinator of a gang whose workers the
-- picker chose is on the first of them.
pub coordinator_on_first :
    (hw : Hardware) (all : List Node) (max_age now n : ℕ) (w : Node) (ws : List Node)
    → pick_workers hw (some all) max_age now n ≡ picked (w ∷ ws)
    → pick_coordinator_host hw "" "" (w ∷ ws) ≡ on_worker w
unfolding pick_coordinator_host
coordinator_on_first hw all max_age now n w ws e = elim (pick_workers_lem hw all max_age now n) [
  | inl (few, refused) ↦ absurd (other (sym refused ∙ e))
  | inr (out, rest, ran, choice) ↦
      let same : out ≡ w ∷ ws = ap chosen (sym ran ∙ e) in
      ap on_worker
        (strongest_of-first hw w ws (subst (Sorted (stronger_worker hw)) same choice.in_turn).0)
]
  where
    other :
        {have : List String} {refused : List (String × Why)}
        → too_few have refused ≡ picked (w ∷ ws)
        → ⊥
    other e = cc

    chosen : Strongest → List Node
    chosen (picked out) = out
    chosen unreadable_rows = []
    chosen (too_few have refused) = []

-- The name is the row's id, or its host name, where it has one.
abbrev pub IsNamed : String → Node → Type 0
IsNamed id n =
    ((n.id === id) ≡ true) ⊎ (((n.hostname === "") ≡ false) × ((n.hostname === id) ≡ true))

-- The last of the rows that the name names.
abbrev pub LastNamed : String → List Node → Node → Type 0
LastNamed id all n =
    (pre : List Node) × (post : List Node) × (all ≡ pre ++ n ∷ post)
    × IsNamed id n
    × All (λ m. ¬ (IsNamed id m)) post

IsNamed-split :
    (id : String) (n : Node)
    → (((n.id === id || (not (n.hostname === "") && n.hostname === id)) ≡ true) × IsNamed id n)
      ⊎ (((n.id === id || (not (n.hostname === "") && n.hostname === id)) ≡ false)
          × (¬ (IsNamed id n)))
IsNamed-split id n = split (n.id === id) (n.hostname === "") (n.hostname === id)
  where
    clash : true ≡ false → ⊥
    clash e = cc

    split :
        (a b c : Bool)
        → (((a || (not b && c)) ≡ true) × ((a ≡ true) ⊎ ((b ≡ false) × (c ≡ true))))
          ⊎ (((a || (not b && c)) ≡ false) × (¬ ((a ≡ true) ⊎ ((b ≡ false) × (c ≡ true)))))
    split true b c = inl (refl, inl refl)
    split false false true = inl (refl, inr (refl, refl))
    split false true c = inr (refl, λ h. elim h [ inl e ↦ clash (sym e) | inr (e, g) ↦ clash e ])
    split false false false =
        inr (refl, λ h. elim h [ inl e ↦ clash (sym e) | inr (e, g) ↦ clash (sym g) ])

row_named_lem :
    (id : String) (all : List Node) (found : Option Node)
    → ((row_named id all found ≡ found) × All (λ m. ¬ (IsNamed id m)) all)
      ⊎ ((n : Node) × (row_named id all found ≡ some n) × LastNamed id all n)
row_named_lem id [] found = inl (refl, tt)
row_named_lem id (m ∷ all) found = elim (IsNamed-split id m) [
  | inl (e, named) ↦ elim (row_named_lem id all (some m)) [
    | inl (ran, others) ↦ inr (m, rw e ran, ([], all, refl, named, others))
    | inr (n, ran, (pre, post, cut, is, others)) ↦
        inr (n, rw e ran, (m ∷ pre, post, ap (◌∷◌ m) cut, is, others))
  ]
  | inr (e, other) ↦ elim (row_named_lem id all found) [
    | inl (ran, others) ↦ inl (rw e ran, (other, others))
    | inr (n, ran, (pre, post, cut, is, others)) ↦
        inr (n, rw e ran, (m ∷ pre, post, ap (◌∷◌ m) cut, is, others))
  ]
]

-- Every name is one of a qualifying row, the last that it names, in the order of the names.
abbrev pub Resolves : List Node → ℕ → ℕ → List String → List Node → Type 0
Resolves all max_age now [] [] = Unit
Resolves all max_age now [] (n ∷ ns) = ⊥
Resolves all max_age now (id ∷ ids) [] = ⊥
Resolves all max_age now (id ∷ ids) (n ∷ ns) =
    LastNamed id all n × (worker_for n max_age now ≡ none) × Resolves all max_age now ids ns

-- What is told of a name that no row has, or whose row does not qualify.
abbrev pub Tells : List Node → ℕ → ℕ → String → ById → Type 0
Tells all max_age now id r =
    (All (λ m. ¬ (IsNamed id m)) all × (r ≡ not_found id))
    ⊎ ((n : Node) × (why : Why) × LastNamed id all n
        × (worker_for n max_age now ≡ some why)
        × (r ≡ not_fit id why))

-- Named workers are resolved in the caller's order, each by the last row whose id or host name is the
-- name; else the answer is about the first name that no row has or whose row does not qualify.
pub pick_workers_by_id_lem :
    (all : List Node) (max_age now : ℕ) (ids : List String)
    → ((ns : List Node) × (pick_workers_by_id (some all) max_age now ids ≡ these ns)
        × Resolves all max_age now ids ns)
      ⊎ ((pre : List String) × (id : String) × (post : List String) × (ns : List Node) × (ids
            ≡ pre ++ id ∷ post)
          × Resolves all max_age now pre ns
          × Tells all max_age now id (pick_workers_by_id (some all) max_age now ids))
unfolding pick_workers_by_id pick_named
pick_workers_by_id_lem all max_age now [] = inl ([], refl, tt)
pick_workers_by_id_lem all max_age now (id ∷ ids) = elim (row_named_lem id all none) [
  | inl (e, nobody) ↦ inr ([], id, ids, [], refl, tt, inl (nobody, rw e refl))
  | inr (n, e, is) ↦ elim (Option-cases (worker_for n max_age now)) [
    | inr (why, f) ↦ inr ([], id, ids, [], refl, tt, inr (n, why, is, f, rw (e, f) refl))
    | inl f ↦ elim (pick_workers_by_id_lem all max_age now ids) [
      | inl (ns, ran, found) ↦ inl (n ∷ ns, rw (e, f, ran) refl, (is, f, found))
      | inr (pre, bad, post, ns, cut, found, told) ↦ inr (
        id ∷ pre,
        bad,
        post,
        n ∷ ns,
        ap (◌∷◌ id) cut,
        (is, f, found),
        elim told [
          | inl (gone, ran) ↦ inl (gone, rw (e, f, ran) refl)
          | inr (m, why, here, unfit, ran) ↦ inr (m, why, here, unfit, rw (e, f, ran) refl)
        ],
      )
    ]
  ]
]
