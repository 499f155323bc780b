-- ===== src/SymbolGraph/Petgraph.antt =====
-- What symbol_graph.rs takes of the crate petgraph: a directed graph whose nodes and edges carry
-- numbers (`u32`, `SymbolGraphEdgeId`), with the laws that its documentation states.
use mozsearch.Prelude.{ℕ, ◌≡◌, refl, Bool, ◌&&◌, List, [], ◌∷◌, ◌++◌, ◌==◌, if◌then◌else◌}

-- An edge with the indices of its ends, and its weight.
pub record RawEdge : Type 0 where
  pub source : ℕ
  pub target : ℕ
  pub weight : ℕ

abbrev pub joins : ℕ → ℕ → RawEdge → Bool
joins s t e = e.source == s && e.target == t

-- `update_edge`: an edge between two nodes is added, or its weight is updated if there is one.
abbrev pub set_edge : ℕ → ℕ → ℕ → List RawEdge → List RawEdge
set_edge s t w [] = record { source = s; target = t; weight = w } ∷ []
set_edge s t w (e ∷ es) =
    if joins s t e
    then record { source = s; target = t; weight = w } ∷ es
    else e ∷ set_edge s t w es

-- The operations and their laws: a node's index is the number of nodes before it.
pub record Petgraph : Type 1 where
  pub Graph : Type 0
  pub empty : Graph
  pub add_node : ℕ → Graph → Graph
  pub update_edge : ℕ → ℕ → ℕ → Graph → Graph
  pub weights : Graph → List ℕ
  pub raw_edges : Graph → List RawEdge
  pub weights_empty : weights empty ≡ []
  pub edges_empty : raw_edges empty ≡ []
  pub weights_add : (w : ℕ) (g : Graph) → weights (add_node w g) ≡ weights g ++ (w ∷ [])
  pub edges_add : (w : ℕ) (g : Graph) → raw_edges (add_node w g) ≡ raw_edges g
  pub weights_update : (s t w : ℕ) (g : Graph) → weights (update_edge s t w g) ≡ weights g
  pub edges_update :
      (s t w : ℕ) (g : Graph) → raw_edges (update_edge s t w g) ≡ set_edge s t w (raw_edges g)

-- A graph that is its two lists meets the laws.
abbrev pub two_lists : Petgraph
two_lists = record {
  Graph = List ℕ × List RawEdge;
  empty = ([], []);
  add_node = λ w g. (g.0 ++ (w ∷ []), g.1);
  update_edge = λ s t w g. (g.0, set_edge s t w g.1);
  weights = λ g. g.0;
  raw_edges = λ g. g.1;
  weights_empty = refl;
  edges_empty = refl;
  weights_add = λ w g. refl;
  edges_add = λ w g. refl;
  weights_update = λ s t w g. refl;
  edges_update = λ s t w g. refl;
}
