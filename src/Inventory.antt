-- ===== src/Inventory.antt =====
-- ci/windows-connection-notices/run_inventory.py: which packages the frozen dependency graph selects,
-- and which members of a registry archive are let through.
pub mod Reached
pub mod Fuel
pub mod Members
use capybaragram_build.Prelude.{
  ℕ, zero, suc, ◌+◌, Bool, true, false, ◌||◌, List, [], ◌∷◌, ◌++◌, length, any, Option, none, some,
  Result, ok, err, Error, value_error, runtime_error, ◌>>=◌, if◌then◌else◌,
}
use capybaragram_build.Text.{Text, codes, text_eq, listed}

-- `kind['kind']` of `dep_kinds` in Cargo's metadata: `None` is a normal dependency.
pub data Kind : Type 0 where
  normal build dev : Kind

-- `kind['kind'] in (None, 'build')`
abbrev pub selected : Kind → Bool
selected normal = true
selected build = true
selected dev = false

-- A dependency, and a node, of `resolve` in Cargo's metadata.
pub record Dep : Type 0 where
  pub pkg : Text
  pub dep_kinds : List Kind

pub record Node : Type 0 where
  pub id : Text
  pub deps : List Dep

-- The packages that the loop puts on `pending` for one node, in the order of its `deps`.
unfoldable pub selected_deps : List Dep → List Text
unfolding any
selected_deps [] = []
selected_deps (d ∷ ds) =
    if any selected d.dep_kinds then d.pkg ∷ selected_deps ds else selected_deps ds

-- `nodes[identifier]['deps']`, of the dictionary `{n['id']: n for n in resolve['nodes']}`
unfoldable pub deps_of : Text → List Node → Option (List Dep)
unfolding text_eq
deps_of identifier [] = none
deps_of identifier (n ∷ nodes) = elim (text_eq identifier n.id) [
  | true ↦ some n.deps
  | false ↦ deps_of identifier nodes
]

-- `for name in names: pending.append(name)`: the top of the stack comes first here.
unfoldable pub push_all : List Text → List Text → List Text
push_all [] pending = pending
push_all (name ∷ names) pending = push_all names (name ∷ pending)

abbrev pub missing : Error
missing = value_error "Missing selected graph node."

-- The error of a loop that has spent its fuel, which the source does not have.
abbrev pub spent : Error
spent = runtime_error "out of fuel"

-- `while pending:`, by fuel
unfoldable pub reach : List Node → ℕ → List Text → List Text → Result (List Text)
unfolding listed deps_of selected_deps push_all
reach nodes fuel reached [] = ok reached
reach nodes zero reached (identifier ∷ pending) = err spent
reach nodes (suc fuel) reached (identifier ∷ pending) = elim (listed identifier reached) [
  | true ↦ reach nodes fuel reached pending
  | false ↦ elim (deps_of identifier nodes) [
    | none ↦ err missing
    | some deps ↦ reach nodes fuel (identifier ∷ reached) (push_all (selected_deps deps) pending)
  ]
]

-- How often `pending` can be appended to: once for each selected dependency.
unfoldable pub edges : List Node → ℕ
unfolding selected_deps
edges [] = 0
edges (n ∷ nodes) = length (selected_deps n.deps) + edges nodes

-- `reached` behind the loop, from the root
unfoldable pub reached_from : List Node → Text → Result (List Text)
unfolding reach edges
reached_from nodes root = reach nodes (1 + edges nodes) [] (root ∷ [])
