-- ===== src/SymbolGraph/Named/Tests.antt =====
-- NamedSymbolGraph on graphs that are their two lists.
use mozsearch.Prelude.{◌≡◌, some, List, [], ◌∷◌}
use mozsearch.SymbolGraph.Petgraph.{RawEdge, two_lists}
use mozsearch.SymbolGraph.Named.{new, list_nodes, list_edges}
use mozsearch.SymbolGraph.Named.Refine.{GraphOp, node, edge, all_on_graph, all_on_graph-lists}

abbrev ops : List GraphOp
ops = node 7 ∷ edge 5 7 0 ∷ edge 7 9 1 ∷ edge 5 7 2 ∷ []

abbrev two_edges : List RawEdge
two_edges =
    record { source = 5; target = 7; weight = 2 }
    ∷ record { source = 7; target = 9; weight = 1 }
    ∷ []

all_on_graph-lists_example :
    (list_nodes two_lists (all_on_graph two_lists ops (new two_lists)) ≡ some (7 ∷ 5 ∷ 9 ∷ []))
    × (list_edges two_lists (all_on_graph two_lists ops (new two_lists)) ≡ some two_edges)
all_on_graph-lists_example = all_on_graph-lists two_lists ops
