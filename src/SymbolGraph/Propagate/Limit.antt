-- ===== src/SymbolGraph/Propagate/Limit.antt =====
-- propagate_paths: the soft limit on the number of symbols.
use mozsearch.Prelude.{
  ℕ, ◌+◌, ◌*◌, ◌-◌, ◌<◌, ◌≡◌, refl, ap, ◌∙◌, Option, some, List, [], ◌∷◌, length, length-append,
  All, arith,
}
use mozsearch.SymbolGraph.Petgraph.{Petgraph}
use mozsearch.SymbolGraph.Named.{NamedGraph}
use mozsearch.SymbolGraph.Nodes.{NodeSet}
use mozsearch.SymbolGraph.Nodes.Invariant.{IsNodeSet}
use mozsearch.SymbolGraph.Edges.{EdgeSet}
use mozsearch.SymbolGraph.Propagate.{Target, with_supernodes, propagate_paths}
use mozsearch.SymbolGraph.Propagate.Paths.{IsShort, Limited, inner_edges-length, walk_paths-Limited}
use mozsearch.SymbolGraph.Propagate.Search.{
  SearchLaws, IsSimplePath, Fits, FitsBeside, with_supernodes-FitsBeside,
}
use mozsearch.SymbolGraph.Propagate.Simple.{simple-steps}

module _ {Info : Type 0} (meta_labels : Info → Option (List (Option (List ℕ)))) (p : Petgraph)
    (add_edge : ℕ → ℕ → ℕ → p.Graph → p.Graph) (find_weight : p.Graph → ℕ → ℕ → Option ℕ)
    (all_simple_paths : p.Graph → ℕ → ℕ → ℕ → List (List ℕ)) where
  IsSimplePath-IsShort :
      (laws : SearchLaws p add_edge find_weight) (old : NodeSet Info) (edge_set : EdgeSet)
      (g : NamedGraph p) (s t most : ℕ)
      → FitsBeside p (length old.symbol_crossref_infos) (length edge_set.edge_infos) s t g
      → (paths : List (List ℕ)) → All (IsSimplePath p g.graph s t most) paths
      → All
          (IsShort meta_labels p find_weight old edge_set g add_edge all_simple_paths
            (2 * (most - 1)))
          paths
  IsSimplePath-IsShort laws old edge_set g s t most f [] h = tt
  IsSimplePath-IsShort laws old edge_set g s t most f (path ∷ paths) (h, hs) =
      let size : length path ≡ length h.between + 2 =
        ap length h.path_eq ∙ omega (arith, length-append h.between (t ∷ [])) in
      (
        record {
          steps =
              simple-steps meta_labels p add_edge find_weight laws old edge_set g s t f most path h;
          few = omega (arith, size, h.few, inner_edges-length path);
        },
        IsSimplePath-IsShort laws old edge_set g s t most f paths hs,
      )

  -- In the graph `nsgraph` let the ends of each edge have names of symbols of the old set, and its
  -- weight be the number of one of the edges of `edge_set`; let the sources and the targets be
  -- symbols of the old set, and let the list and the map of the new set agree. Let `add_edge` and
  -- `find_edge` do what petgraph documents, and let what `all_simple_paths` gives between the two
  -- supernodes be simple paths with at most `path_length_limit` nodes between them. Then
  -- `propagate_paths` does not panic. The symbols that the new set had stay at their numbers, its
  -- list and map agree again, and it has fewer symbols than `node_soft_limit` and two for each
  -- edge of one path, or at most these two for each edge of one path more than before.
  pub propagate_paths-Limited :
      (old : NodeSet Info) (nsgraph : NamedGraph p) (sources targets : List ℕ) (edge_set : EdgeSet)
      (node_soft_limit path_length_limit : ℕ) (new : Target Info p)
      → SearchLaws p add_edge find_weight
      → Fits p (length old.symbol_crossref_infos) (length edge_set.edge_infos) nsgraph
      → All (λ id. id < length old.symbol_crossref_infos) sources
      → All (λ id. id < length old.symbol_crossref_infos) targets
      → (let (source_ix, target_ix, g) =
            with_supernodes meta_labels p add_edge find_weight all_simple_paths
              (length old.symbol_crossref_infos)
              (length edge_set.edge_infos)
              sources
              targets
              nsgraph in
          All
            (IsSimplePath p g.graph source_ix target_ix path_length_limit)
            (all_simple_paths g.graph source_ix target_ix path_length_limit))
      → IsNodeSet new.symbols
      → (g : NamedGraph p) × (after : Target Info p) × (propagate_paths meta_labels p add_edge
            find_weight all_simple_paths old nsgraph sources targets edge_set node_soft_limit
            path_length_limit new
          ≡ some (g, after))
        × Limited meta_labels p find_weight old edge_set g add_edge all_simple_paths node_soft_limit
            (2 * (path_length_limit - 1))
            new
            after
  unfolding propagate_paths
  propagate_paths-Limited old nsgraph sources targets edge_set node_soft_limit path_length_limit new
        laws f hs ht h n =
      let nodes = length old.symbol_crossref_infos in
      let edges = length edge_set.edge_infos in
      let s =
        with_supernodes meta_labels p add_edge find_weight all_simple_paths nodes edges sources
          targets nsgraph in
      let g : NamedGraph p = s.2 in
      let paths = all_simple_paths g.graph s.0 s.1 path_length_limit in
      let fits =
        with_supernodes-FitsBeside p nodes edges add_edge find_weight laws meta_labels
          all_simple_paths nodes edges sources targets nsgraph hs ht f in
      let m =
        walk_paths-Limited meta_labels p find_weight old edge_set g add_edge all_simple_paths
          node_soft_limit (2 * (path_length_limit - 1)) paths [] new
          (IsSimplePath-IsShort laws old edge_set g s.0 s.1 path_length_limit fits paths h) n in
      (g, m.0, rw m.1 refl, m.2)
