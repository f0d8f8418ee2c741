-- ===== src/Scheduler/Ports/FirstFit.antt =====
-- Every request for ports is served, with the first that are free.
use opod_core.Base.{
  ℕ, zero, suc, ◌+◌, ◌≤◌, ◌<◌, ◌≡◌, ◌⊎◌, inl, inr, refl, ap, subst, ◌∙◌, Bool, true, false, List,
  [], ◌∷◌, Option, none, some, String, arith, if◌then◌else◌, ◌==◌, ◌===◌, leb, length, keep,
  update_self, Bool-cases, length-keep-le,
}
use opod_core.Scheduler.Ports.{
  Ports, has, mark_port, handed_out, first_taken, past_taken, free_block, mark_block, take_range,
  first_free, take_port,
}

-- How many taken ports are left from a port on.
abbrev left : ℕ → List ℕ → ℕ
left p used = length (keep (leb p) used)

left_later : (p q : ℕ) (used : List ℕ) → p ≤ q → left q used ≤ left p used
left_later p q [] h = omega arith
left_later p q (x ∷ used) h = by_head (leb q x) (leb p x) refl refl (left_later p q used h)
  where
    by_head :
        (b c : Bool)
        → leb q x ≡ b
        → leb p x ≡ c
        → left q used ≤ left p used
        → length (if b then x ∷ keep (leb q) used else keep (leb q) used)
          ≤ length (if c then x ∷ keep (leb p) used else keep (leb p) used)
    by_head true true e f l = omega arith
    by_head true false e f l = absurd (ground arith)
    by_head false true e f l = omega arith
    by_head false false e f l = l

-- Past a taken port there is one less.
left_past : (b p : ℕ) (used : List ℕ) → b ≤ p → has p used ≡ true → left (suc p) used < left b used
left_past b p [] h e = absurd (cc)
left_past b p (x ∷ used) h e = elim (Bool-cases (x == p)) [
  | inl here ↦ at_port (leb (suc p) x) (leb b x) refl refl here
  | inr there ↦ later (leb (suc p) x) (leb b x) refl refl (left_past b p used h (rw there at e))
]
  where
    at_port :
        (d c : Bool)
        → leb (suc p) x ≡ d
        → leb b x ≡ c
        → (x == p) ≡ true
        → length (if d then x ∷ keep (leb (suc p)) used else keep (leb (suc p)) used)
          < length (if c then x ∷ keep (leb b) used else keep (leb b) used)
    at_port true c e f i = absurd (ground arith)
    at_port false true e f i = omega (arith, left_later b (suc p) used (omega arith))
    at_port false false e f i = absurd (ground arith)

    later :
        (d c : Bool)
        → leb (suc p) x ≡ d
        → leb b x ≡ c
        → left (suc p) used < left b used
        → length (if d then x ∷ keep (leb (suc p)) used else keep (leb (suc p)) used)
          < length (if c then x ∷ keep (leb b) used else keep (leb b) used)
    later true true e f l = omega arith
    later true false e f l = absurd (ground arith)
    later false true e f l = omega arith
    later false false e f l = l

abbrev pub FreeFrom : List ℕ → ℕ → ℕ → Type 0
FreeFrom used p n = (q : ℕ) → p ≤ q → q < p + n → has q used ≡ false

-- What a search for a taken port finds.
abbrev Searched : List ℕ → ℕ → ℕ → Option ℕ → Type 0
Searched used p n none = FreeFrom used p n
Searched used p n (some q) = (p ≤ q) × (q < p + n) × (has q used ≡ true)

first_taken-Searched : (used : List ℕ) (p n : ℕ) → Searched used p n (first_taken used p n)
unfolding first_taken
first_taken-Searched used p zero = λ q low high. absurd (omega arith)
first_taken-Searched used p (suc n) = elim (Bool-cases (has p used)) [
  | inl e ↦ rw e (omega arith, omega arith, e)
  | inr e ↦ rw e (widened e (first_taken used (suc p) n) (first_taken-Searched used (suc p) n))
]
  where
    only_one : (q : ℕ) → p ≤ q → leb (suc p) q ≡ false → p ≡ q
    only_one q low below = ground arith

    widened :
        has p used ≡ false → (o : Option ℕ) → Searched used (suc p) n o → Searched used p (suc n) o
    widened e none h = λ q low high. elim (Bool-cases (leb (suc p) q)) [
      | inl above ↦ h q (ground arith) (omega arith)
      | inr below ↦ subst (λ r. has r used ≡ false) (only_one q low below) e
    ]
    widened e (some q) (low, high, t) = (omega arith, omega arith, t)

-- The block is free, and every earlier one from the wish on has a taken port.
pub record FirstFree (used : List ℕ) (span want base : ℕ) : Type 0 where
  pub from_want : want ≤ base
  pub is_free : FreeFrom used base (suc span)
  pub is_first :
      (b : ℕ) → want ≤ b → b < base → (q : ℕ) × (b ≤ q) × (q < b + suc span) × (has q used ≡ true)

free_block-FirstFree :
    (fuel : ℕ) (used : List ℕ) (span base : ℕ)
    → left base used < fuel
    → (out : ℕ) × (free_block fuel used span base ≡ some out) × FirstFree used span base out
unfolding free_block
free_block-FirstFree zero used span base h = absurd (omega arith)
free_block-FirstFree (suc fuel) used span base h =
    by_search (free_block-FirstFree fuel used span) (first_taken used base (suc span))
      (first_taken-Searched used base (suc span))
  where
    by_search :
        ((b : ℕ)
          → left b used < fuel
          → (out : ℕ) × (free_block fuel used span b ≡ some out) × FirstFree used span b out)
        → (o : Option ℕ) → Searched used base (suc span) o
        → (out : ℕ) × (past_taken (free_block fuel used span) base o ≡ some out)
          × FirstFree used span base out
    by_search again none free = (
      base,
      refl,
      record {
        from_want = omega arith;
        is_free = free;
        is_first = λ b low high. absurd (omega arith);
      },
    )
    by_search again (some q) (low, high, taken) =
        let (out, ran, fit) = again (suc q) (omega (arith, left_past base q used low taken)) in
        (
          out,
          ran,
          record {
            from_want = omega (arith, fit.from_want);
            is_free = fit.is_free;
            is_first = λ b from below. elim (Bool-cases (leb b q)) [
              | inl inside ↦ (q, ground arith, omega arith, taken)
              | inr past ↦ fit.is_first b (ground arith) below
            ];
          },
        )

-- A mark is on the block, and nothing else changes.
abbrev pub Marked : String → ℕ → ℕ → Ports → Ports → Type 0
Marked node base n a a' =
    ((q : ℕ) → base ≤ q → q < base + n → has q (a' node) ≡ true)
    × ((q : ℕ) → (q < base) ⊎ (base + n ≤ q) → has q (a' node) ≡ has q (a node))
    × ((other : String) → (node === other) ≡ false → a' other ≡ a other)

mark_block-Marked :
    (node : String) (n base : ℕ) (a : Ports) → Marked node base n a (mark_block node n base a)
unfolding mark_block mark_port
mark_block-Marked node zero base a =
    (λ q low high. absurd (omega arith), λ q out. refl, λ other e. refl)
mark_block-Marked node (suc n) base a =
    let marked = mark_port node base a in
    let (inside, outside, others) = mark_block-Marked node n (suc base) marked in
    let here = update_self a node (base ∷ a node) in
    (
      λ q low high. elim (Bool-cases (base == q)) [
        | inr e ↦ inside q (ground arith) (omega arith)
        | inl e ↦ outside q (inl (ground arith)) ∙ ap (has q) here ∙ rw e refl
      ],
      λ q out.
          outside q (elim out [ inl l ↦ inl (omega arith) | inr g ↦ inr (omega arith) ])
          ∙ ap (has q) here
          ∙ rw (apart base q n out) refl,
      λ other e. others other e ∙ rw e refl,
    )
  where
    apart : (base q n : ℕ) → (q < base) ⊎ (base + suc n ≤ q) → (base == q) ≡ false
    apart base q n (inl l) = ground arith
    apart base q n (inr g) = ground arith

-- A range is always found: the first block from the wish on with no taken port. Its ports are taken
-- from then on, and no other port is.
pub take_range_lem :
    (node : String) (want span : ℕ) (a : Ports)
    → (base : ℕ) × (a' : Ports) × (take_range node want span a ≡ some (base, a'))
      × FirstFree (a node) span want base
      × Marked node base (suc span) a a'
unfolding take_range
take_range_lem node want span a =
    let (base, ran, fit) =
      free_block-FirstFree (suc (length (a node))) (a node) span want
        (omega (arith, length-keep-le (leb want) (a node))) in
    (
      base,
      mark_block node (suc span) base a,
      ap (handed_out (mark_block node (suc span)) a) ran,
      fit,
      mark_block-Marked node (suc span) base a,
    )

-- One port is a range of one.
first_free-free_block :
    (fuel : ℕ) (used : List ℕ) (port : ℕ) → first_free fuel used port ≡ free_block fuel used 0 port
unfolding first_free free_block first_taken
first_free-free_block zero used port = refl
first_free-free_block (suc fuel) used port = elim (Bool-cases (has port used)) [
  | inl e ↦ rw e (first_free-free_block fuel used (suc port))
  | inr e ↦ rw e refl
]

pub take_port-take_range :
    (node : String) (want : ℕ) (a : Ports) → take_port node want a ≡ take_range node want 0 a
unfolding take_port take_range mark_block
take_port-take_range node want a =
    ap (handed_out (mark_port node) a) (first_free-free_block (suc (length (a node))) (a node) want)
