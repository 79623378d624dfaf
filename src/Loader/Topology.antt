-- ===== src/Loader/Topology.antt =====
-- The order in which internal/pluginloader/topology.go starts plugins: Kahn's algorithm over their declared
-- dependencies. A record has no dependencies where its manifest does not parse.
pub mod Counts
pub mod Search
pub mod Order
pub mod Known
pub mod Result
use cipher_lake.Prelude.{
  ℕ, zero, suc, Bool, true, false, not, Option, none, some, List, [], ◌∷◌, ◌++◌, Str, str_eq,
  bytes_before, any, length, nat_beq, get_or, lookup, insert, str_key, ℤ, pos, negsuc,
  if◌then◌else◌, map,
}

pub record PluginRecord : Type 0 where
  pub name : Str
  pub depends_on : Option (List Str)

-- `sortStrings`: the least of the first and the rest comes to the front, each smaller one changing places.
abbrev pub exchange : Str → List Str → Str × List Str
exchange x [] = (x, [])
exchange x (y ∷ ys) =
    let (a, smaller) = exchange y ys in
    let (b, others) = exchange x ys in
    if bytes_before y x then (a, x ∷ smaller) else (b, y ∷ others)

abbrev pub sort_passes : ℕ → List Str → List Str
sort_passes zero xs = xs
sort_passes (suc n) [] = []
sort_passes (suc n) (x ∷ xs) = let (least, rest) = exchange x xs in least ∷ sort_passes n rest

unfoldable pub sort_strings : List Str → List Str
sort_strings xs = sort_passes (length xs) xs

abbrev pub is_known : List PluginRecord → Str → Bool
is_known records name = any (λ r. str_eq r.name name) records

-- Every name once.
unfoldable pub names_of : List PluginRecord → List Str
names_of [] = []
names_of (r ∷ records) =
    let rest = names_of records in if any (str_eq r.name) rest then rest else r.name ∷ rest

abbrev pub known_edges : List PluginRecord → Str → List Str → List (Str × Str)
known_edges records name [] = []
known_edges records name (dep ∷ deps) =
    let rest = known_edges records name deps in
    if is_known records dep then (dep, name) ∷ rest else rest

-- The dependencies with the names that have them, in the order of the two loops.
unfoldable pub edges_of : List PluginRecord → List PluginRecord → List (Str × Str)
edges_of records [] = []
edges_of records (r ∷ rs) =
    known_edges records r.name (get_or r.depends_on []) ++ edges_of records rs

abbrev pub Graph : Type 0
Graph = List (Str × List Str)

abbrev pub Degrees : Type 0
Degrees = List (Str × ℤ)

abbrev pub plus_one : ℤ → ℤ
plus_one (pos n) = pos (suc n)
plus_one (negsuc zero) = pos 0
plus_one (negsuc (suc n)) = negsuc n

abbrev pub minus_one : ℤ → ℤ
minus_one (pos zero) = negsuc 0
minus_one (pos (suc n)) = pos n
minus_one (negsuc n) = negsuc (suc n)

abbrev pub is_zero : ℤ → Bool
is_zero (pos n) = nat_beq n 0
is_zero (negsuc n) = false

abbrev pub degree : Degrees → Str → ℤ
degree degrees name = get_or (lookup name degrees) (pos 0)

abbrev pub children : Graph → Str → List Str
children graph name = get_or (lookup name graph) []

abbrev pub initial_degrees : List Str → Degrees
initial_degrees [] = []
initial_degrees (name ∷ names) = (name, pos 0) ∷ initial_degrees names

unfoldable pub add_edges : List (Str × Str) → Graph × Degrees → Graph × Degrees
add_edges [] built = built
add_edges ((dep, name) ∷ edges) (graph, degrees) = add_edges edges (
  insert dep (children graph dep ++ name ∷ []) graph,
  insert name (plus_one (degree degrees name)) degrees,
)

abbrev pub roots : Degrees → List Str → List Str
roots degrees [] = []
roots degrees (name ∷ names) =
    let rest = roots degrees names in if is_zero (degree degrees name) then name ∷ rest else rest

-- The children of a plugin that has been placed lose a dependency each, and join the queue with their last.
unfoldable pub release : List Str → Degrees → List Str → Degrees × List Str
release [] degrees queue = (degrees, queue)
release (child ∷ rest) degrees queue =
    let d = minus_one (degree degrees child) in
    release rest (insert child d degrees) (if is_zero d then queue ++ child ∷ [] else queue)

pub data Placing : Type 0 where
  placed : List Str → Placing
  still_queued : Placing

-- The loop over the queue; what is placed is kept newest first.
unfoldable pub place : ℕ → Graph → Degrees → List Str → List Str → Placing
place zero graph degrees queue done = still_queued
place (suc fuel) graph degrees [] done = placed done
place (suc fuel) graph degrees (name ∷ queue) done =
    let (after, next) = release (sort_strings (children graph name)) degrees queue in
    place fuel graph after next (name ∷ done)

pub data TopologicalOrder : Type 0 where
  ordered : List Str → TopologicalOrder
  cycle : TopologicalOrder
  out_of_fuel : TopologicalOrder

abbrev pub reversed_onto : List Str → List Str → List Str
reversed_onto [] rest = rest
reversed_onto (name ∷ done) rest = reversed_onto done (name ∷ rest)

-- All names are placed, or there is a cycle.
abbrev pub judged : ℕ → Placing → TopologicalOrder
judged count still_queued = out_of_fuel
judged count (placed done) =
    if nat_beq (length done) count then ordered (reversed_onto done []) else cycle

-- A round for each name, and one that finds the queue empty.
unfoldable pub topological_order : List PluginRecord → TopologicalOrder
topological_order records =
    let names = names_of records in
    let (graph, degrees) = add_edges (edges_of records records) ([], initial_degrees names) in
    judged (length names)
      (place (suc (length names)) graph degrees (sort_strings (roots degrees names)) [])

-- `checkDependenciesInstalled`: the first that is missing.
unfoldable pub missing_dependency : (Str → Bool) → List Str → Option Str
missing_dependency installed [] = none
missing_dependency installed (dep ∷ deps) =
    let rest = missing_dependency installed deps in if installed dep then rest else some dep
