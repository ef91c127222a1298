-- ===== src/Runtime/Registry.antt =====
-- runtime/JobDispatch: TaskRegistry, the functions of the tasks. A task's function gets the runtime
-- context by reference and may change it; the null pointer is `none`.
use mmo_server.Common.{
  ℕ, zero, suc, ◌+◌, Bool, true, false, Option, none, some, update, leb, if◌then◌else◌,
}
use mmo_server.Runtime.Phase.{RuntimeContext}
use mmo_server.Runtime.Graph.{TaskGraph, max_nodes}

abbrev pub TaskFunction : Type 0
TaskFunction = RuntimeContext → RuntimeContext

pub record TaskRegistry : Type 0 where
  pub functions : ℕ → Option TaskFunction

abbrev pub empty_registry : TaskRegistry
empty_registry = record { functions = λ _. none }

unfoldable pub register : TaskRegistry → ℕ → Option TaskFunction → Bool × TaskRegistry
register r id function =
    if leb max_nodes id
    then (false, r)
    else (true, record r { functions = update r.functions id function })

unfoldable pub resolve : TaskRegistry → ℕ → Option TaskFunction
resolve r id = if leb max_nodes id then none else r.functions id

unfoldable pub is_registered : TaskRegistry → ℕ → Bool
unfolding resolve
is_registered r id = elim (resolve r id) [ none ↦ false | some f ↦ true ]

-- The loop of `Validate`, with `n` rounds left and `i` the counter.
unfoldable pub validate_from : TaskRegistry → TaskGraph → ℕ → ℕ → Bool
unfolding is_registered
validate_from r g zero i = true
validate_from r g (suc n) i =
    let rest = validate_from r g n (i + 1) in if is_registered r (g.nodes i).id then rest else false

unfoldable pub validate : TaskRegistry → TaskGraph → Bool
unfolding validate_from
validate r g = validate_from r g g.node_count 0
