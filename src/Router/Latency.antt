-- ===== src/Router/Latency.antt =====
-- Rolling latency windows and the order of a fallback chain (internal/router/latency.go: ringBuf,
-- latencyStats; sort.go: sortChain). `none` as a result of a ring is a Go panic. A duration is its
-- nanoseconds; `milli_tps` stands for the float64 conversion of a completion's tokens per second.
pub mod Window
pub mod Percentile
pub mod Reorder
use opod_core.Base.{
  ℕ, zero, suc, ◌+◌, ◌-◌, ◌*◌, ◌/◌, ◌≡◌, Bool, true, false, not, ◌&&◌, ◌||◌, List, [], ◌∷◌, ◌++◌,
  Option, none, some, String, if◌then◌else◌, ◌==◌, ◌===◌, ltb, leb, length, get_elem?, take, drop,
  update, ℤ, clip, stable_sort,
}

pub record RingBuf : Type 0 where
  pub data_ : List ℕ
  pub head : ℕ  -- the next place to write
  pub full : Bool

abbrev pub zeros : ℕ → List ℕ
zeros zero = []
zeros (suc n) = 0 ∷ zeros n

abbrev pub default_window : ℕ
default_window = 50

abbrev pub window_of : ℤ → ℕ
window_of n = if clip n == 0 then default_window else clip n

unfoldable pub new_ring : ℤ → RingBuf
new_ring n = record { data_ = zeros (window_of n); head = 0; full = false }

-- `data[i] = d`.
abbrev pub write_at : ℕ → ℕ → List ℕ → Option (List ℕ)
write_at i d xs = if ltb i (length xs) then some (take i xs ++ d ∷ drop (suc i) xs) else none

abbrev pub advanced : RingBuf → Option (List ℕ) → Option RingBuf
advanced r none = none
advanced r (some xs) = some (
    if leb (length xs) (suc r.head)
    then record { data_ = xs; head = 0; full = true }
    else record r { data_ = xs; head = suc r.head })

unfoldable pub push : ℕ → RingBuf → Option RingBuf
push d r = advanced r (write_at r.head d r.data_)

-- The window, oldest first.
unfoldable pub snapshot : RingBuf → List ℕ
snapshot r = if not r.full then take r.head r.data_ else drop r.head r.data_ ++ take r.head r.data_

pub record Stats : Type 0 where
  pub window : ℤ
  pub p95_threshold : ℤ
  pub samples : String → Option RingBuf
  pub tps : String → Option RingBuf

abbrev pub ring_or_new : ℤ → Option RingBuf → RingBuf
ring_or_new w none = new_ring w
ring_or_new w (some r) = r

abbrev pub with_tps : (ℕ → ℕ → ℕ) → String → ℕ → ℕ → Stats → Option RingBuf → Option Stats
with_tps milli_tps model d tokens s none = none
with_tps milli_tps model d tokens s (some r) = some (record s { tps = update s.tps model (some r) })

abbrev pub with_sample : (ℕ → ℕ → ℕ) → String → ℕ → ℕ → Stats → Option RingBuf → Option Stats
with_sample milli_tps model d tokens s none = none
with_sample milli_tps model d tokens s (some r) =
    let t = record s { samples = update s.samples model (some r) } in
    let timed =
      with_tps milli_tps model d tokens t
        (push (milli_tps tokens d) (ring_or_new t.window (t.tps model))) in
    if ltb 0 tokens then timed else some t

-- `record`, which is a word of the language here.
unfoldable pub record_sample : (ℕ → ℕ → ℕ) → String → ℕ → ℕ → Stats → Option Stats
unfolding push
record_sample milli_tps model d tokens s =
    let sampled =
      with_sample milli_tps model d tokens s (push d (ring_or_new s.window (s.samples model))) in
    if model === "" || d == 0 then some s else sampled

abbrev pub window : Option RingBuf → List ℕ
window none = []
window (some r) = snapshot r

abbrev pub or_zero : Option ℕ → ℕ
or_zero none = 0
or_zero (some d) = d

abbrev pub sorted_samples : List ℕ → List ℕ
sorted_samples xs = stable_sort ltb xs

-- ceil(0.95 n) - 1; both bounds of the index in the code are kept.
abbrev pub p95_index : ℕ → ℕ
p95_index n = let i = (95 * n + 99) / 100 - 1 in if leb n i then n - 1 else i

unfoldable pub p95 : Stats → String → ℕ
p95 s model =
    let xs = window (s.samples model) in
    if ltb (length xs) 5 then 0 else or_zero (get_elem? (sorted_samples xs) (p95_index (length xs)))

-- In thousandths of a token per second.
unfoldable pub throughput : Stats → String → ℕ
throughput s model =
    let xs = window (s.tps model) in
    if ltb (length xs) 5 then 0 else or_zero (get_elem? (sorted_samples xs) (length xs / 2))

-- The loop over the fallbacks: the best place so far and its p95. `i` is the next place.
unfoldable pub best_from : (String → ℕ) → ℕ → List String → Option ℕ → ℕ → Option ℕ
best_from p i [] best best_p95 = best
best_from p i (m ∷ ms) best best_p95 =
    let better = best_from p (suc i) ms (some i) (p m) in
    let kept = best_from p (suc i) ms best best_p95 in
    if ltb 0 (p m) && ltb (p m) best_p95 then better else kept

abbrev pub moved_front : List String → Option String → ℕ → List String
moved_front chain none i = chain
moved_front chain (some m) i = m ∷ take i chain ++ drop (suc i) chain

abbrev pub reordered : List String → Option ℕ → List String × Bool
reordered chain none = (chain, false)
reordered chain (some i) = (moved_front chain (get_elem? chain i) i, true)

abbrev pub slow_primary : Stats → List String → List String × Bool
slow_primary s [] = ([], false)
slow_primary s (primary ∷ rest) =
    if p95 s primary == 0 || leb (p95 s primary) (clip s.p95_threshold)
    then (primary ∷ rest, false)
    else reordered (primary ∷ rest) (best_from (p95 s) 1 rest none (p95 s primary))

unfoldable pub reorder_by_latency : Stats → List String → List String × Bool
unfolding best_from p95
reorder_by_latency s chain =
    if clip s.p95_threshold == 0 || ltb (length chain) 2
    then (chain, false)
    else slow_primary s chain

abbrev pub max_duration : ℕ
max_duration = 9223372036854775807

abbrev pub latency_key : Stats → String → ℕ
latency_key s m = if ltb 0 (p95 s m) then p95 s m else max_duration

unfoldable pub sort_chain : Stats → String → List String → List String
unfolding p95 throughput
sort_chain s mode chain =
    if ltb (length chain) 2
    then chain
    else if mode === "latency"
    then stable_sort (λ a b. ltb (latency_key s a) (latency_key s b)) chain
    else if mode === "throughput"
    then stable_sort (λ a b. ltb (throughput s b) (throughput s a)) chain
    else chain
