-- ===== src/Loader/TopologyExamples.antt =====
-- The order of three plugins (internal/pluginloader/topology.go), and of two that need each other.
use cipher_lake.Prelude.{
  ℕ, none, some, List, [], ◌∷◌, Str, bytes, str_eq, lookup, insert, remove, ◌≡◌, ◌⊎◌, refl,
}
use cipher_lake.Loader.Topology.{
  PluginRecord, ordered, cycle, names_of, edges_of, add_edges, release, place, sort_strings,
  topological_order,
}
use cipher_lake.Loader.Topology.Result.{IsRanked, IsOrderOf, topological_order_lem}

-- The search needs the index and a plugin that is not installed; the index needs the parser.
abbrev three : List PluginRecord
three =
    record { name = bytes "search"; depends_on = some (bytes "index" ∷ bytes "ocr" ∷ []) }
    ∷ record { name = bytes "parser"; depends_on = none }
    ∷ record { name = bytes "index"; depends_on = some (bytes "parser" ∷ []) }
    ∷ []

abbrev circular : List PluginRecord
circular =
    record { name = bytes "a"; depends_on = some (bytes "b" ∷ []) }
    ∷ record { name = bytes "b"; depends_on = some (bytes "a" ∷ []) }
    ∷ []

three_ordered :
    topological_order three ≡ ordered (bytes "parser" ∷ bytes "index" ∷ bytes "search" ∷ [])
unfolding topological_order names_of edges_of add_edges release place sort_strings lookup str_eq
    insert remove
three_ordered = refl

circular_cycle : topological_order circular ≡ cycle
unfolding topological_order names_of edges_of add_edges release place sort_strings lookup str_eq
    insert remove
circular_cycle = refl

topological_order_lem_example :
    ((names : List Str) × (topological_order three ≡ ordered names) × IsOrderOf three names)
    ⊎ ((topological_order three ≡ cycle)
        × ((rank : Str → ℕ) → ¬ IsRanked rank (edges_of three three)))
topological_order_lem_example = topological_order_lem three
