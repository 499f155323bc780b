-- ===== src/SymbolGraph/Named.antt =====
-- NamedSymbolGraph. A SymbolGraphNodeId and a SymbolGraphEdgeId are their numbers; `none` is the
-- panic of an `unwrap`. Indices are below 2^32, where petgraph itself panics.
pub mod Invariant
pub mod Edges
pub mod Refine
mod Tests
use mozsearch.Prelude.{
  ℕ, zero, suc, ◌+◌, ◌≡◌, refl, Bool, true, false, Option, none, some, List, [], ◌∷◌, ◌++◌, ◌==◌,
  if◌then◌else◌, length,
}
use mozsearch.Prelude.Text.{◌>>=◌}
use mozsearch.Prelude.Keys.{lookup_key, insert_key}
use mozsearch.SymbolGraph.Petgraph.{RawEdge, Petgraph}

module _ (p : Petgraph) where
  open p use {Graph, empty, add_node, update_edge, weights, raw_edges}

  pub record NamedGraph : Type 0 where
    pub graph : Graph
    pub node_id_to_ix : List (ℕ × ℕ)
    pub node_ix_to_id : List (ℕ × ℕ)

  unfoldable pub new : NamedGraph
  new = record { graph = empty; node_id_to_ix = []; node_ix_to_id = [] }

  abbrev pub is_found : Option ℕ → Bool
  is_found none = false
  is_found (some ix) = true

  unfoldable pub contains_node : ℕ → NamedGraph → Bool
  contains_node id g = is_found (lookup_key id g.node_id_to_ix)

  -- The index of a node, and the graph with it.
  abbrev pub node_or_new : ℕ → NamedGraph → Option ℕ → ℕ × NamedGraph
  node_or_new id g (some ix) = (ix, g)
  node_or_new id g none =
      let ix = length (weights g.graph) in
      (
        ix,
        record {
          graph = add_node id g.graph;
          node_id_to_ix = insert_key id ix g.node_id_to_ix;
          node_ix_to_id = insert_key ix id g.node_ix_to_id;
        },
      )

  unfoldable pub ensure_node : ℕ → NamedGraph → ℕ × NamedGraph
  ensure_node id g = node_or_new id g (lookup_key id g.node_id_to_ix)

  -- The ids of the nodes at the indices from `ix` on, as many as there are elements in the list.
  abbrev pub ids_from : ℕ → List ℕ → NamedGraph → Option (List ℕ)
  ids_from ix [] g = some []
  ids_from ix (w ∷ ws) g =
      lookup_key ix g.node_ix_to_id >>= λ id. ids_from (suc ix) ws g >>= λ ids. some (id ∷ ids)

  unfoldable pub list_nodes : NamedGraph → Option (List ℕ)
  list_nodes g = ids_from 0 (weights g.graph) g

  unfoldable pub ensure_edge : ℕ → ℕ → ℕ → NamedGraph → NamedGraph
  unfolding ensure_node
  ensure_edge source target edge g =
      let (source_ix, g1) = ensure_node source g in
      let (target_ix, g2) = ensure_node target g1 in
      record g2 { graph = update_edge source_ix target_ix edge g2.graph }

  -- The edges with the ids of their ends.
  abbrev pub id_edges : NamedGraph → List RawEdge → Option (List RawEdge)
  id_edges g [] = some []
  id_edges g (e ∷ es) = lookup_key e.source g.node_ix_to_id >>= λ s.
      lookup_key e.target g.node_ix_to_id >>= λ t.
      id_edges g es >>= λ rest. some (record { source = s; target = t; weight = e.weight } ∷ rest)

  unfoldable pub list_edges : NamedGraph → Option (List RawEdge)
  list_edges g = id_edges g (raw_edges g.graph)
