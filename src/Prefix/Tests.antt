-- ===== src/Prefix/Tests.antt =====
-- Concrete reports, on which the theorems about the index are applied (internal/leader).
use opod_core.Base.{
  ℕ, ◌≡◌, ◌⊎◌, ◌≤◌, ◌-◌, refl, false, [], ◌∷◌, none, some, String, ◌===◌, ℤ, update,
}
use opod_core.Prefix.Index.{
  WorkerBlocks, KvBlocks, Ghost, fresh_worker, no_ghosts, no_blocks, ghost_buckets, computed, Index,
  apply, leading, leading_any, on_card, on_any,
}
use opod_core.Prefix.Index.Ghosts.{GhostInv, Counted, fresh-GhostInv, computed_lem}
use opod_core.Prefix.Index.Evictions.{evicted-GhostInv}
use opod_core.Prefix.Index.Holds.{IndexInv, apply-IndexInv, Leads, leading_lem}

abbrev first_report : KvBlocks
first_report = record {
  cleared = false;
  seq = 1;
  block_size = ℤ.pos 16;
  removed = "b0" ∷ [];
  stored = "b1" ∷ "b2" ∷ "b0" ∷ [];
  cpu_removed = [];
  cpu_stored = "b3" ∷ [];
}

abbrev nobody : Index
nobody node = none

nobody-IndexInv : IndexInv nobody
nobody-IndexInv node w e = absurd (cc)

apply-IndexInv_example :
    (ix' : Index) × (apply "w1" 10 (some first_report) nobody ≡ some ix')
    × IndexInv ix'
    × ((other : String) → ("w1" === other) ≡ false → ix' other ≡ nobody other)
apply-IndexInv_example = apply-IndexInv "w1" 10 (some first_report) nobody nobody-IndexInv

-- One block was evicted, and then another.
abbrev two_evicted : Ghost
two_evicted = record no_ghosts {
  evictions = 2;
  ghost = update (update (λ h. none) "b0" (some 1)) "b1" (some 2);
  ghost_order = ("b0", 1) ∷ ("b1", 2) ∷ [];
}

two_evicted-GhostInv : GhostInv two_evicted
unfolding opod_core.Prefix.Index.evicted
two_evicted-GhostInv =
    evicted-GhostInv "b1" _
      (evicted-GhostInv "b0" no_ghosts (fresh-GhostInv 0 (0 ∷ 0 ∷ 0 ∷ 0 ∷ 0 ∷ []) refl))

computed_lem_example :
    (g' : Ghost) × (computed "b0" two_evicted ≡ some g')
    × GhostInv g'
    × (g'.stored ≡ 1)
    × (((two_evicted.ghost "b0" ≡ none) × (g'.returns ≡ two_evicted.returns))
        ⊎ ((at : ℕ) × (two_evicted.ghost "b0" ≡ some at)
            × (g'.ghost "b0" ≡ none)
            × Counted (2 - at) ghost_buckets two_evicted.returns g'.returns))
computed_lem_example = computed_lem "b0" two_evicted two_evicted-GhostInv

abbrev holds_two : WorkerBlocks
holds_two = record (fresh_worker no_ghosts) {
  card = record { held = "b1" ∷ "b2" ∷ []; order = "b1" ∷ "b2" ∷ [] };
  cpu = record { held = "b3" ∷ []; order = "b3" ∷ [] };
}

leading_lem_example :
    Leads
      (on_card holds_two)
      ("b1" ∷ "b3" ∷ "b2" ∷ [])
      (leading "w1" ("b1" ∷ "b3" ∷ "b2" ∷ []) (λ node. some holds_two))
    × Leads
        (on_any holds_two)
        ("b1" ∷ "b3" ∷ "b2" ∷ [])
        (leading_any "w1" ("b1" ∷ "b3" ∷ "b2" ∷ []) (λ node. some holds_two))
    × (leading "w1" ("b1" ∷ "b3" ∷ "b2" ∷ []) (λ node. some holds_two)
        ≤ leading_any "w1" ("b1" ∷ "b3" ∷ "b2" ∷ []) (λ node. some holds_two))
leading_lem_example =
    leading_lem "w1" ("b1" ∷ "b3" ∷ "b2" ∷ []) (λ node. some holds_two) holds_two refl
