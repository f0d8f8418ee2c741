-- ===== src/Prefix/Index/Holds.antt =====
-- The whole index: what a heartbeat keeps true, and what a lookup means.
use opod_core.Base.{
  ℕ, suc, ◌≤◌, ◌≡◌, inl, inr, refl, ap, subst, ◌∙◌, Bool, true, false, not, ◌&&◌, ◌||◌, List, [],
  ◌∷◌, Option, none, some, String, arith, if◌then◌else◌, ◌==◌, ◌===◌, length, take, contains,
  update, All, Bool-cases, if_cases, get_elem?, some_inj,
}
use opod_core.Prefix.Index.{
  Ghost, WorkerBlocks, KvBlocks, start_over, kept_or_fresh, noted_in, remove_block, evicted,
  remove_all, counted_in, store_all, cpu_remove_all, with_cpu, on_cpu, changed, Index, put_worker,
  apply, leading_of, leading, leading_any, on_card, on_any,
}
use opod_core.Prefix.Index.Sets.{
  SetInv, no_blocks-SetInv, remove_block-SetInv, store_block-SetInv, cpu_remove_all-SetInv,
  cpu_store_all-SetInv,
}
use opod_core.Prefix.Index.Ghosts.{GhostInv, fresh-GhostInv, computed_lem}
use opod_core.Prefix.Index.Evictions.{evicted-GhostInv}

pub record WorkerInv (w : WorkerBlocks) : Type 0 where
  pub card_ok : SetInv w.card
  pub cpu_ok : SetInv w.cpu
  pub ghosts_ok : GhostInv w.ghosts

-- A worker that goes on is well formed.
abbrev Goes : Option WorkerBlocks → Type 0
Goes o = (w : WorkerBlocks) × (o ≡ some w) × WorkerInv w

remove_all-WorkerInv :
    (hs : List String) (w : WorkerBlocks) → WorkerInv w → WorkerInv (remove_all hs w)
unfolding remove_all
remove_all-WorkerInv [] w v = v
remove_all-WorkerInv (h ∷ hs) w v =
    remove_all-WorkerInv hs (record w { card = remove_block h w.card; ghosts = evicted h w.ghosts })
      (record {
        card_ok = remove_block-SetInv h w.card v.card_ok;
        cpu_ok = v.cpu_ok;
        ghosts_ok = evicted-GhostInv h w.ghosts v.ghosts_ok;
      })

store_all-Goes : (hs : List String) (w : WorkerBlocks) → WorkerInv w → Goes (store_all hs w)
unfolding store_all
store_all-Goes [] w v = (w, refl, v)
store_all-Goes (h ∷ hs) w v =
    let (b, ran, set_ok) = store_block-SetInv h w.card v.card_ok in
    let (g, counted, ghosts_ok) = by_held (contains w.card.held h) in
    let (w', ran', v') =
      store_all-Goes hs (record w { card = b; ghosts = g })
        (record { card_ok = set_ok; cpu_ok = v.cpu_ok; ghosts_ok = ghosts_ok }) in
    (w', rw (ran, counted) ran', v')
  where
    by_held : (held : Bool) → (g : Ghost) × (counted_in held h w ≡ some g) × GhostInv g
    by_held true = (w.ghosts, refl, v.ghosts_ok)
    by_held false =
        let (g, ran, ok, stored, rest) = computed_lem h w.ghosts v.ghosts_ok in (g, ran, ok)

start_over-WorkerInv : (w : WorkerBlocks) → WorkerInv w → WorkerInv (start_over (some w))
start_over-WorkerInv w v = record {
  card_ok = no_blocks-SetInv;
  cpu_ok = no_blocks-SetInv;
  ghosts_ok = fresh-GhostInv w.ghosts.stored w.ghosts.returns v.ghosts_ok.buckets;
}

abbrev KnownOk : Option WorkerBlocks → Type 0
KnownOk none = Unit
KnownOk (some w) = WorkerInv w

changed-Goes :
    (kb : KvBlocks) (now : ℕ) (o : Option WorkerBlocks) → KnownOk o → Goes (changed kb now o)
unfolding changed
changed-Goes kb now o k =
    let (w, ran, v) =
      store_all-Goes kb.stored (remove_all kb.removed start)
        (remove_all-WorkerInv kb.removed start (noted (kept_or_fresh kb o) (by_known o k))) in
    let (b, ran', ok) =
      cpu_store_all-SetInv kb.cpu_stored (cpu_remove_all kb.cpu_removed w.cpu)
        (cpu_remove_all-SetInv kb.cpu_removed w.cpu v.cpu_ok) in
    (
      record w { cpu = b },
      ap (on_cpu kb) ran ∙ ap (with_cpu w) ran',
      record { card_ok = v.card_ok; cpu_ok = ok; ghosts_ok = v.ghosts_ok },
    )
  where
    start : WorkerBlocks
    start = noted_in kb now (kept_or_fresh kb o)

    noted : (w : WorkerBlocks) → WorkerInv w → WorkerInv (noted_in kb now w)
    noted w v = record { card_ok = v.card_ok; cpu_ok = v.cpu_ok; ghosts_ok = v.ghosts_ok }

    by_known : (o : Option WorkerBlocks) → KnownOk o → WorkerInv (kept_or_fresh kb o)
    by_known none k = record {
      card_ok = no_blocks-SetInv;
      cpu_ok = no_blocks-SetInv;
      ghosts_ok = fresh-GhostInv 0 (0 ∷ 0 ∷ 0 ∷ 0 ∷ 0 ∷ []) refl;
    }
    by_known (some w) k =
        if_cases WorkerInv (kb.cleared || (not (w.seq == 0) && not (kb.seq == suc w.seq)))
          (start_over (some w)) w (λ e. start_over-WorkerInv w k) (λ e. k)

-- Every worker's sets are in step and within their bound, and its ghost list remembers its last
-- evictions.
abbrev pub IndexInv : Index → Type 0
IndexInv ix = (node : String) (w : WorkerBlocks) → ix node ≡ some w → WorkerInv w

-- Whatever a heartbeat reports, taking it in does not panic and keeps the index well formed; no other
-- worker's blocks change.
pub apply-IndexInv :
    (node : String) (now : ℕ) (kb : Option KvBlocks) (ix : Index)
    → IndexInv ix
    → (ix' : Index) × (apply node now kb ix ≡ some ix')
      × IndexInv ix'
      × ((other : String) → (node === other) ≡ false → ix' other ≡ ix other)
unfolding apply
apply-IndexInv node now none ix v = (ix, refl, v, λ other e. refl)
apply-IndexInv node now (some kb) ix v =
    let (w, ran, ok) = changed-Goes kb now (ix node) (known (ix node) refl) in
    (update ix node (some w), ap (put_worker ix node) ran, after w ok, λ other e. rw e refl)
  where
    known : (o : Option WorkerBlocks) → ix node ≡ o → KnownOk o
    known none e = tt
    known (some w) e = v node w e

    after : (w : WorkerBlocks) → WorkerInv w → IndexInv (update ix node (some w))
    after w ok other u e = elim (Bool-cases (node === other)) [
      | inl same ↦ subst WorkerInv (some_inj (rw same at e)) ok
      | inr apart ↦ v other u (rw apart at e)
    ]

-- The lookup stops at the first hash that is not held.
abbrev pub Leads : (String → Bool) → List String → ℕ → Type 0
Leads has hashes n =
    (n ≤ length hashes)
    × All (λ h. has h ≡ true) (take n hashes)
    × ((h : String) → get_elem? hashes n ≡ some h → has h ≡ false)

leading_of-Leads :
    (has : String → Bool) (hashes : List String) → Leads has hashes (leading_of has hashes)
leading_of-Leads has [] = (omega arith, tt, λ h e. absurd (cc))
leading_of-Leads has (x ∷ hashes) = elim (Bool-cases (has x)) [
  | inl e ↦ let (n, all, next) = leading_of-Leads has hashes in rw e (omega arith, (e, all), next)
  | inr e ↦ rw e (omega arith, tt, λ h f. subst (λ y. has y ≡ false) (some_inj f) e)
]

-- A lookup counts the hashes of the chain, from its start, that the worker holds on its card, and stops
-- at the first that it does not; with the host tier it counts no fewer.
pub leading_lem :
    (node : String) (hashes : List String) (ix : Index) (w : WorkerBlocks)
    → ix node ≡ some w
    → Leads (on_card w) hashes (leading node hashes ix)
      × Leads (on_any w) hashes (leading_any node hashes ix)
      × (leading node hashes ix ≤ leading_any node hashes ix)
unfolding leading leading_any
leading_lem node hashes ix w e =
    rw e (leading_of-Leads (on_card w) hashes, leading_of-Leads (on_any w) hashes, no_fewer hashes)
  where
    no_fewer : (hashes : List String) → leading_of (on_card w) hashes ≤ leading_of (on_any w) hashes
    no_fewer [] = omega arith
    no_fewer (h ∷ hashes) =
        by_held (contains w.card.held h) (contains w.cpu.held h) (no_fewer hashes)
      where
        by_held :
            (card cpu : Bool)
            → leading_of (on_card w) hashes ≤ leading_of (on_any w) hashes
            → (if card then suc (leading_of (on_card w) hashes) else 0)
              ≤ (if card || cpu then suc (leading_of (on_any w) hashes) else 0)
        by_held true cpu l = omega arith
        by_held false cpu l = omega arith
