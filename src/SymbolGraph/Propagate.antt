-- ===== src/SymbolGraph/Propagate.antt =====
-- SymbolGraphNodeSet: propagate_edge and propagate_paths, which copy edges and the paths between
-- two groups of symbols to a new graph with new sets. `none` is a panic. `add_edge`, `find_edge`
-- with the weight of the edge, and `all_simple_paths` of the crate petgraph are parameters.
pub mod Edge
pub mod Paths
pub mod Search
pub mod Simple
pub mod Limit
use mozsearch.Prelude.{
  ℕ, suc, ◌+◌, Bool, true, false, ◌&&◌, Option, none, some, List, [], ◌∷◌, ◌++◌, ◌==◌, leb,
  if◌then◌else◌, length, get_elem?, drop,
}
use mozsearch.Prelude.Text.{◌>>=◌}
use mozsearch.Prelude.Keys.{lookup_key}
use mozsearch.SymbolGraph.Petgraph.{Petgraph}
use mozsearch.SymbolGraph.Named.{NamedGraph, ensure_node, ensure_edge}
use mozsearch.SymbolGraph.Nodes.{NodeSet, propagate_sym}
use mozsearch.SymbolGraph.Edges.{EdgeInfo, EdgeSet}

-- The three arguments that are changed.
pub record Target (Info : Type 0) (p : Petgraph) : Type 0 where
  pub graph : NamedGraph p
  pub symbols : NodeSet Info
  pub edges : EdgeSet

abbrev pub ends_eq : ℕ → ℕ → ℕ × ℕ → Bool
ends_eq a b (x, y) = x == a && y == b

abbrev pub is_suppressed : ℕ → ℕ → List (ℕ × ℕ) → Bool
is_suppressed a b [] = false
is_suppressed a b (e ∷ es) = if ends_eq a b e then true else is_suppressed a b es

-- `tuple_windows`
abbrev pub windows_from : ℕ → List ℕ → List (ℕ × ℕ)
windows_from a [] = []
windows_from a (b ∷ xs) = (a, b) ∷ windows_from b xs

abbrev pub windows : List ℕ → List (ℕ × ℕ)
windows [] = []
windows (x ∷ xs) = windows_from x xs

-- `dropping_back(1)`
abbrev pub drop_last : List ℕ → List ℕ
drop_last [] = []
drop_last (x ∷ []) = []
drop_last (x ∷ y ∷ xs) = x ∷ drop_last (y ∷ xs)

abbrev pub inner_edges : List ℕ → List (ℕ × ℕ)
inner_edges path = windows (drop_last (drop 1 path))

module _ {Info : Type 0} (meta_labels : Info → Option (List (Option (List ℕ)))) (p : Petgraph) where
  open p use {Graph, add_node, weights}

  -- The edge's info at the end of the new set, between the symbols' new numbers.
  abbrev pub push_edge : EdgeInfo → ℕ → ℕ → NodeSet Info → Target Info p → Target Info p
  push_edge old_edge_info source target symbols new =
      let edge_index = length new.edges.edge_infos in
      let info : EdgeInfo = record old_edge_info { from_id = source; to_id = target } in
      record {
        graph = ensure_edge p source target edge_index new.graph;
        symbols = symbols;
        edges = record new.edges { edge_infos = new.edges.edge_infos ++ (info ∷ []) };
      }

  unfoldable pub propagate_edge :
      NodeSet Info → EdgeSet → ℕ → ℕ → ℕ → Target Info p → Option (Target Info p)
  propagate_edge old edge_set source target edge_id new =
      propagate_sym meta_labels old source new.symbols >>= λ s.
      propagate_sym meta_labels old target s.1 >>= λ t.
      get_elem? edge_set.edge_infos edge_id >>= λ old_edge_info.
      some (push_edge old_edge_info s.0 t.0 t.1 new)

  module _ (add_edge : ℕ → ℕ → ℕ → Graph → Graph) (find_weight : Graph → ℕ → ℕ → Option ℕ)
      (all_simple_paths : Graph → ℕ → ℕ → ℕ → List (List ℕ)) where
    -- Edges from one node to nodes that are ensured, or from these to it.
    abbrev pub edges_from : ℕ → ℕ → List ℕ → NamedGraph p → NamedGraph p
    edges_from super weight [] g = g
    edges_from super weight (id ∷ ids) g =
        let (ix, g1) = ensure_node p id g in
        edges_from super weight ids (record g1 { graph = add_edge super ix weight g1.graph })

    abbrev pub edges_to : ℕ → ℕ → List ℕ → NamedGraph p → NamedGraph p
    edges_to super weight [] g = g
    edges_to super weight (id ∷ ids) g =
        let (ix, g1) = ensure_node p id g in
        edges_to super weight ids (record g1 { graph = add_edge ix super weight g1.graph })

    -- The graph with the two supernodes and their edges, and the supernodes' indices.
    unfoldable pub with_supernodes : ℕ → ℕ → List ℕ → List ℕ → NamedGraph p → ℕ × ℕ × NamedGraph p
    with_supernodes next_node_id next_edge_id source_nodes target_nodes g =
        let super_source_ix = length (weights g.graph) in
        let g1 : NamedGraph p = record g { graph = add_node next_node_id g.graph } in
        let super_target_ix = length (weights g1.graph) in
        let g2 : NamedGraph p = record g1 { graph = add_node (suc next_node_id) g1.graph } in
        let g3 = edges_from super_source_ix next_edge_id source_nodes g2 in
        (
          super_source_ix,
          super_target_ix,
          edges_to super_target_ix (suc next_edge_id) target_nodes g3,
        )

    -- One edge of a path: nothing, if it was met before.
    abbrev pub walk_edge :
        NodeSet Info
        → EdgeSet
        → NamedGraph p
        → ℕ × ℕ
        → List (ℕ × ℕ) × Target Info p
        → Option (List (ℕ × ℕ) × Target Info p)
    walk_edge old edge_set g (source_ix, target_ix) (suppression, new) =
        if is_suppressed source_ix target_ix suppression
        then some (suppression, new)
        else lookup_key source_ix g.node_ix_to_id >>= λ source_id.
            lookup_key target_ix g.node_ix_to_id >>= λ target_id.
            find_weight g.graph source_ix target_ix >>= λ edge_id.
            propagate_edge old edge_set source_id target_id edge_id new >>= λ after.
            some ((source_ix, target_ix) ∷ suppression, after)

    abbrev pub walk_path :
        NodeSet Info
        → EdgeSet
        → NamedGraph p
        → List (ℕ × ℕ)
        → List (ℕ × ℕ) × Target Info p
        → Option (List (ℕ × ℕ) × Target Info p)
    walk_path old edge_set g [] st = some st
    walk_path old edge_set g (e ∷ es) st =
        walk_edge old edge_set g e st >>= λ st1. walk_path old edge_set g es st1

    -- The soft limit is tested behind each path.
    abbrev pub walk_paths :
        NodeSet Info
        → EdgeSet
        → NamedGraph p
        → ℕ
        → List (List ℕ)
        → List (ℕ × ℕ) × Target Info p
        → Option (Target Info p)
    walk_paths old edge_set g node_soft_limit [] st = some st.1
    walk_paths old edge_set g node_soft_limit (path ∷ paths) st =
        walk_path old edge_set g (inner_edges path) st >>= λ st1.
        let rest = walk_paths old edge_set g node_soft_limit paths st1 in
        if leb node_soft_limit (length st1.1.symbols.symbol_crossref_infos)
        then some st1.1
        else rest

    -- The graph that is searched is changed too.
    unfoldable pub propagate_paths :
        NodeSet Info
        → NamedGraph p
        → List ℕ
        → List ℕ
        → EdgeSet
        → ℕ
        → ℕ
        → Target Info p
        → Option (NamedGraph p × Target Info p)
    propagate_paths old nsgraph source_nodes target_nodes edge_set node_soft_limit path_length_limit
          new =
        let (super_source_ix, super_target_ix, g) =
          with_supernodes (length old.symbol_crossref_infos) (length edge_set.edge_infos)
            source_nodes target_nodes nsgraph in
        let paths = all_simple_paths g.graph super_source_ix super_target_ix path_length_limit in
        walk_paths old edge_set g node_soft_limit paths ([], new) >>= λ after. some (g, after)
