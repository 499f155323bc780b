-- ===== src/SymbolGraph/Propagate/Edge.antt =====
-- propagate_edge: an edge that is copied has the symbols and the info of the one that it is a copy
-- of.
use mozsearch.Prelude.{
  ℕ, ◌+◌, ◌≤◌, ◌≡◌, refl, Option, some, List, [], ◌∷◌, ◌++◌, length, get_elem?, arith,
}
use mozsearch.SymbolGraph.Petgraph.{Petgraph}
use mozsearch.SymbolGraph.Named.{ensure_edge}
use mozsearch.SymbolGraph.Badges.{SymbolInfo}
use mozsearch.SymbolGraph.Nodes.{NodeSet}
use mozsearch.SymbolGraph.Nodes.Invariant.{IsNodeSet, Holds}
use mozsearch.SymbolGraph.Nodes.Ensure.{propagate_sym-Holds}
use mozsearch.SymbolGraph.Edges.{EdgeInfo, EdgeSet}
use mozsearch.SymbolGraph.Propagate.{Target, push_edge, propagate_edge}

module _ {Info : Type 0} (meta_labels : Info → Option (List (Option (List ℕ)))) (p : Petgraph) where
  -- After an edge between the symbols of two infos, with an edge's info, is copied: the symbols
  -- are in the new set at the ends of the new edge, which has the old kind and details and is the
  -- last of the set.
  pub record IsPropagated (s t : SymbolInfo Info) (e : EdgeInfo) (before after : Target Info p)
      : Type 0 where
    pub source : ℕ
    pub target : ℕ
    pub has_source : Holds before.symbols s.symbol source after.symbols
    pub has_target : Holds before.symbols t.symbol target after.symbols
    pub edges_eq :
        after.edges.edge_infos
        ≡ before.edges.edge_infos
          ++ (record { from_id = source; to_id = target; kind = e.kind; data_of = e.data_of } ∷ [])
    pub grows :
        length after.symbols.symbol_crossref_infos ≤ 2 + length before.symbols.symbol_crossref_infos
    pub graph_eq :
        after.graph ≡ ensure_edge p source target (length before.edges.edge_infos) before.graph

  -- An edge between two symbols of the old set, with a number of the old edges, is copied by
  -- `propagate_edge` without a panic: the new set agrees again, has at most two symbols more, and
  -- has both symbols, which keep the numbers that they have if they were there; and the copy has
  -- the edge's kind and details.
  pub propagate_edge-IsPropagated :
      (old : NodeSet Info) (edge_set : EdgeSet) (source target edge_id : ℕ) (new : Target Info p)
      (s t : SymbolInfo Info) (e : EdgeInfo)
      → IsNodeSet new.symbols
      → get_elem? old.symbol_crossref_infos source ≡ some s
      → get_elem? old.symbol_crossref_infos target ≡ some t
      → get_elem? edge_set.edge_infos edge_id ≡ some e
      → (after : Target Info p) × (propagate_edge meta_labels p old edge_set source target edge_id
            new
          ≡ some after)
        × IsPropagated s t e new after
  unfolding propagate_edge
  propagate_edge-IsPropagated old edge_set source target edge_id new s t e n hs ht he =
      let r1 = propagate_sym-Holds meta_labels old source s new.symbols n hs in
      let h1 = r1.2 in
      let r2 = propagate_sym-Holds meta_labels old target t r1.0.1 h1.is_set ht in
      let h2 = r2.2 in
      (
        push_edge meta_labels p e r1.0.0 r2.0.0 r2.0.1 new,
        rw r1.1 (rw r2.1 (rw he refl)),
        record {
          source = r1.0.0;
          target = r2.0.0;
          has_source = record {
            is_set = h2.is_set;
            found = (h1.found.0, h2.keeps r1.0.0 h1.found.0 h1.found.1, h1.found.2);
            keeps = λ i k h. h2.keeps i k (h1.keeps i k h);
          };
          has_target = record {
            is_set = h2.is_set;
            found = h2.found;
            keeps = λ i k h. h2.keeps i k (h1.keeps i k h);
          };
          edges_eq = refl;
          grows = omega (arith, r1.3, r2.3);
          graph_eq = refl;
        },
      )
