-- ===== src/Scheduler/Ports.antt =====
-- Free TCP ports for one create (internal/scheduler/placement.go: portAllocator). The set of a node's
-- ports is a list; how a row's address is read is a parameter. A loop runs on fuel, one more than the
-- ports that are taken on the node; `none` is a loop that found no port.
pub mod FirstFit
use opod_core.Base.{
  ℕ, zero, suc, ◌+◌, Bool, true, false, not, ◌||◌, List, [], ◌∷◌, Option, none, some, String,
  if◌then◌else◌, ◌==◌, length, update,
}

abbrev pub Ports : Type 0
Ports = String → List ℕ

abbrev pub has : ℕ → List ℕ → Bool
has p [] = false
has p (q ∷ qs) = q == p || has p qs

unfoldable pub mark_port : String → ℕ → Ports → Ports
mark_port node port a = update a node (port ∷ a node)

abbrev pub mark_if : String → Option ℕ → Ports → Ports
mark_if node none a = a
mark_if node (some port) a = mark_port node port a

abbrev pub mark_rows : (String → Option ℕ) → List (String × String) → Ports → Ports
mark_rows port_of [] a = a
mark_rows port_of ((node, address) ∷ rows) a =
    mark_rows port_of rows (mark_if node (port_of address) a)

-- The rows of all shards, node and address each; `none` when the store could not be read.
unfoldable pub new_port_allocator : (String → Option ℕ) → Option (List (String × String)) → Ports
unfolding mark_port
new_port_allocator port_of none = λ node. []
new_port_allocator port_of (some rows) = mark_rows port_of rows (λ node. [])

unfoldable pub first_free : ℕ → List ℕ → ℕ → Option ℕ
first_free zero used port = none
first_free (suc fuel) used port =
    let later = first_free fuel used (suc port) in if has port used then later else some port

abbrev pub handed_out : (ℕ → Ports → Ports) → Ports → Option ℕ → Option (ℕ × Ports)
handed_out marked a none = none
handed_out marked a (some port) = some (port, marked port a)

unfoldable pub take_port : String → ℕ → Ports → Option (ℕ × Ports)
unfolding first_free mark_port
take_port node want a =
    handed_out (mark_port node) a (first_free (suc (length (a node))) (a node) want)

-- The first taken one of `n` ports, from `p` on.
unfoldable pub first_taken : List ℕ → ℕ → ℕ → Option ℕ
first_taken used p zero = none
first_taken used p (suc n) =
    let later = first_taken used (suc p) n in if has p used then some p else later

abbrev pub past_taken : (ℕ → Option ℕ) → ℕ → Option ℕ → Option ℕ
past_taken again base none = some base
past_taken again base (some p) = again (suc p)

unfoldable pub free_block : ℕ → List ℕ → ℕ → ℕ → Option ℕ
unfolding first_taken
free_block zero used span base = none
free_block (suc fuel) used span base =
    past_taken (free_block fuel used span) base (first_taken used base (suc span))

-- The ports from `p` on, `n` of them.
unfoldable pub mark_block : String → ℕ → ℕ → Ports → Ports
unfolding mark_port
mark_block node zero p a = a
mark_block node (suc n) p a = mark_block node n (suc p) (mark_port node p a)

unfoldable pub take_range : String → ℕ → ℕ → Ports → Option (ℕ × Ports)
unfolding free_block mark_block
take_range node want span a =
    handed_out (mark_block node (suc span)) a
      (free_block (suc (length (a node))) (a node) span want)
