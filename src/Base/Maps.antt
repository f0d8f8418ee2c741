-- ===== src/Base/Maps.antt =====
-- A Go map with text keys is the function that a read gives; a write makes a new function.
use Prim.Native.Nat.{ℕ}
use Prim.Native.String.{String}
use mathlib.Core.Path.{◌≡◌, fun_ext}
use mathlib.Core.Bool.{Bool, false}
use mathlib.Core.List.{List, [], ◌∷◌}
use mathlib.Core.Bool.{◌||◌}
use text.Mathlib.TextPositions.{eq_refl}
use mathlib.Core.Logic.{inl, inr}
use opod_core.Base.Tests.{Bool-cases, ◌==◌, ◌===◌, if◌then◌else◌}

abbrev pub update {ℓ} : {V : Type ℓ} → (String → V) → String → V → String → V
update f k v j = if k === j then v else f j

-- The same for flags kept behind a pointer, which a number names.
abbrev pub mark {ℓ} : {V : Type ℓ} → (ℕ → V) → ℕ → V → ℕ → V
mark f k v j = if k == j then v else f j

abbrev pub contains : List String → String → Bool
contains [] k = false
contains (x ∷ xs) k = x === k || contains xs k

pub update_self {ℓ} : {V : Type ℓ} (f : String → V) (k : String) (v : V) → update f k v k ≡ v
update_self f k v = simp eq_refl

pub update_twice {ℓ} :
    {V : Type ℓ} (f : String → V) (k : String) (v w : V) → update (update f k v) k w ≡ update f k w
update_twice f k v w = fun_ext λ j. elim (Bool-cases (k === j)) [ inl e ↦ rw e | inr e ↦ rw e ]
