-- ===== src/Cache/Tests.antt =====
-- A concrete cache, on which the theorems about it are applied (internal/cache).
use opod_core.Base.{◌≡◌, refl, arith, [], ◌∷◌, List, some, ℤ}
use opod_core.Cache.Memory.{Memory, new_memory, get}
use opod_core.Cache.Memory.Uses.{new_memory-Inv}
use opod_core.Cache.Memory.Runs.{Op, write, drop_key, sweep_at, Goes, run, run-Goes}
use opod_core.Cache.Memory.Keeps.{set_then_get}

-- Room for two answers, which live for 50 units.
abbrev small : Memory
small = new_memory (ℤ.pos 2) (ℤ.pos 50)

abbrev busy : List Op
busy =
    write 1 "chat/a" (7 ∷ []) (ℤ.pos 0)
    ∷ write 2 "chat/b" (8 ∷ 9 ∷ []) (ℤ.pos 5)
    ∷ write 3 "chat/c" (4 ∷ []) (ℤ.pos 0)
    ∷ drop_key "chat/b"
    ∷ sweep_at 80
    ∷ []

run-Goes_example : Goes small (run busy small)
run-Goes_example = run-Goes busy small (new_memory-Inv (ℤ.pos 2) (ℤ.pos 50))

set_then_get_example :
    (m' : Memory) × (m'' : Memory) × (run
        (write 10 "chat/a" (7 ∷ 7 ∷ []) (ℤ.pos 0) ∷ write 20 "chat/b" (8 ∷ []) (ℤ.pos 0) ∷ [])
        small
      ≡ some m')
    × (get 60 "chat/a" m' ≡ some (some (7 ∷ 7 ∷ []), m''))
unfolding new_memory
set_then_get_example =
    set_then_get small 10 "chat/a" (7 ∷ 7 ∷ []) (ℤ.pos 0)
      (write 20 "chat/b" (8 ∷ []) (ℤ.pos 0) ∷ []) 60 (new_memory-Inv (ℤ.pos 2) (ℤ.pos 50))
      (refl, tt) (omega arith) (omega arith)
