-- ===== src/Router/Tests/Latency.antt =====
-- Concrete rings and samples, on which the theorems about latency are applied (internal/router).
use opod_core.Base.{
  ℕ, ◌<◌, ◌≡◌, ◌⊎◌, true, false, [], ◌∷◌, ◌++◌, List, none, some, String, ◌===◌, if◌then◌else◌, ℤ,
  arith, clip,
}
use opod_core.Router.Latency.{RingBuf, Stats, p95, reorder_by_latency, window}
use opod_core.Router.Latency.Window.{Pushed, push-refines_window}
use opod_core.Router.Latency.Percentile.{IsP95, p95-IsP95}
use opod_core.Router.Latency.Reorder.{Kept, Fastest, reorder_by_latency_lem}

abbrev turned : RingBuf
turned = record { data_ = 7 ∷ 8 ∷ 9 ∷ []; head = 1; full = true }

push-refines_window_example : Pushed 5 turned
push-refines_window_example = push-refines_window 5 turned (record { head_ok = omega arith })

abbrev five : List ℕ → RingBuf
five xs = record { data_ = xs; head = 0; full = true }

-- One model answers in about 20, the other in about 6.
abbrev sampled : Stats
sampled = record {
  window = ℤ.pos 5;
  p95_threshold = ℤ.pos 10;
  samples = λ model. some (
      if model === "slow"
      then five (20 ∷ 19 ∷ 21 ∷ 20 ∷ 18 ∷ [])
      else five (5 ∷ 6 ∷ 4 ∷ 5 ∷ 6 ∷ []));
  tps = λ model. none;
}

p95-IsP95_example : IsP95 (p95 sampled "fast") (window (sampled.samples "fast"))
unfolding opod_core.Router.Latency.snapshot
p95-IsP95_example = p95-IsP95 sampled "fast" (omega arith)

reorder_by_latency_lem_example :
    (Kept sampled ("slow" ∷ "fast" ∷ [])
      × (reorder_by_latency sampled ("slow" ∷ "fast" ∷ []) ≡ ("slow" ∷ "fast" ∷ [], false)))
    ⊎ ((primary : String) × (pre : List String) × (m : String) × (post : List String) × ("slow"
            ∷ "fast" ∷ []
          ≡ primary ∷ pre ++ m ∷ post)
        × (clip sampled.p95_threshold < p95 sampled primary)
        × Fastest (p95 sampled) (pre ++ m ∷ post) (p95 sampled primary) pre m post
        × (reorder_by_latency sampled ("slow" ∷ "fast" ∷ []) ≡ (m ∷ primary ∷ pre ++ post, true)))
reorder_by_latency_lem_example = reorder_by_latency_lem sampled ("slow" ∷ "fast" ∷ [])
