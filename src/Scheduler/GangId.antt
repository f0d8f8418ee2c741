-- ===== src/Scheduler/GangId.antt =====
-- The ids of gangs (internal/scheduler/gangs.go: validGangID, resolveGang).
use opod_core.Base.{
  Bool, true, false, not, ◌&&◌, ◌||◌, Option, none, some, if◌then◌else◌, ◌===◌, leb, ◌≡◌, refl,
  Bool-cases, inl, inr,
}
use Prim.Native.String.{String, [], ◌∷◌, len}
use Prim.Native.Char.{Char, code}

abbrev is_gang_char : Char → Bool
is_gang_char c = (leb 97 (code c) && leb (code c) 122) || (leb 48 (code c) && leb (code c) 57)

unfoldable pub all_gang_chars : String → Bool
all_gang_chars [] = true
all_gang_chars (c ∷ s) = is_gang_char c && all_gang_chars s

-- `len` counts bytes, as Go does.
unfoldable pub valid_gang_id : String → Bool
unfolding all_gang_chars
valid_gang_id id = not (id === "") && leb (len id) 32 && all_gang_chars id

abbrev pub default_gang_id : String
default_gang_id = "g0"

-- The gang to build, and whether the create replaces the model's other gangs.
unfoldable pub resolve_gang : String → Option (String × Bool)
unfolding valid_gang_id
resolve_gang gang =
    let id = if gang === "" then default_gang_id else gang in
    if valid_gang_id id then some (id, gang === "") else none

pub named : (gang : String) → valid_gang_id gang ≡ true → (gang === "") ≡ false
unfolding valid_gang_id
named gang ok = elim (Bool-cases (gang === "")) [
  | inl e ↦ absurd (blank (gang === "") (leb (len gang) 32) (all_gang_chars gang) e ok)
  | inr e ↦ e
]
  where
    blank : (b short chars : Bool) → b ≡ true → (not b && short && chars) ≡ true → ⊥
    blank true short chars e h = cc
    blank false short chars e h = cc

-- A valid id is its own gang, and replaces no other.
pub resolve_gang-valid :
    (gang : String) → valid_gang_id gang ≡ true → resolve_gang gang ≡ some (gang, false)
unfolding resolve_gang
resolve_gang-valid gang ok = rw (named gang ok) (rw ok refl)
