-- ===== src/SymbolGraph/Tests.antt =====
-- The sets and the copies on small graphs.
use mozsearch.Prelude.{
  ℕ, zero, suc, ◌<◌, ◌≡◌, ◌↔◌, refl, sym, subst, true, Bool-cases, inl, inr, Option, none, some,
  List, [], ◌∷◌, ◌++◌, get_elem?, codes, if◌then◌else◌, arith,
}
use mozsearch.Prelude.Text.{◌>>=◌}
use mozsearch.SymbolGraph.Petgraph.{RawEdge, two_lists, joins}
use mozsearch.SymbolGraph.Named.{NamedGraph, new, ensure_node, ensure_edge}
use mozsearch.SymbolGraph.Lambda.{is_lambda_pretty, IsLambda, is_lambda_pretty_lem}
use mozsearch.SymbolGraph.Badges.{SymbolInfo, SymbolBadge, new_info}
use mozsearch.SymbolGraph.Nodes.{
  NodeSet, no_symbols, get_info, ensure_symbol, add_symbol, propagate_sym,
}
use mozsearch.SymbolGraph.Nodes.Invariant.{no_symbols-IsNodeSet}
use mozsearch.SymbolGraph.Nodes.Ensure.{
  IsEnsured, ensure_symbol-IsEnsured, propagate_sym-add_symbol,
}
use mozsearch.SymbolGraph.Edges.{
  default, inheritance, EdgeDetail, jump, hover_class, EdgeInfo, EdgeSet, no_edges,
  ensure_edge_in_graph,
}
use mozsearch.SymbolGraph.Edges.Ends.{HasEnds, IsMerged, no_edges-HasEnds, added-HasEnds}
use mozsearch.SymbolGraph.Edges.Merge.{ensure_edge_in_graph-IsMerged, ensure_edge_in_graph_twice}
use mozsearch.SymbolGraph.Propagate.{with_supernodes, Target, propagate_edge, propagate_paths}
use mozsearch.SymbolGraph.Propagate.Edge.{IsPropagated, propagate_edge-IsPropagated}
use mozsearch.SymbolGraph.Propagate.Paths.{Limited}
use mozsearch.SymbolGraph.Propagate.Search.{IsLinked, SearchLaws, IsSimplePath, Fits}
use mathlib.Core.Option.{some-injective, none-ne-some}
use mozsearch.SymbolGraph.Propagate.Limit.{propagate_paths-Limited}

lambda_name : is_lambda_pretty (codes "f::(lambda12)") ≡ true
unfolding is_lambda_pretty
lambda_name = refl

is_lambda_pretty_lem_example :
    (is_lambda_pretty (codes "f::(lambda12)") ≡ true) ↔ IsLambda (codes "f::(lambda12)")
is_lambda_pretty_lem_example = is_lambda_pretty_lem (codes "f::(lambda12)")

-- The information is the labels.
abbrev Labels : Type 0
Labels = List (Option (List ℕ))

abbrev labels_of : Labels → Option Labels
labels_of l = some l

abbrev server : ℕ → Option Labels
server s = some (some (codes "rc") ∷ [])

ensure_symbol-IsEnsured_example :
    IsEnsured labels_of 5 server 2 no_symbols (ensure_symbol labels_of 5 server 2 no_symbols)
ensure_symbol-IsEnsured_example =
    ensure_symbol-IsEnsured labels_of 5 server 2 no_symbols no_symbols-IsNodeSet

abbrev info_of : ℕ → SymbolInfo Labels
info_of s = new_info s (some (codes "cc") ∷ []) 1

abbrev cc_badge : SymbolBadge
cc_badge = record { pri = 11; label = 0x1f517 ∷ []; source_jump = none }

propagate_sym-add_symbol_example :
    (propagate_sym labels_of
        (add_symbol labels_of (info_of 5) no_symbols).1
        (add_symbol labels_of (info_of 5) no_symbols).0
        no_symbols
      >>= λ r. get_info r.1 r.0 >>= λ copy. some copy.badges)
    ≡ some (cc_badge ∷ cc_badge ∷ [])
propagate_sym-add_symbol_example = propagate_sym-add_symbol labels_of (info_of 5) no_symbols

abbrev details : List EdgeDetail
details = jump (codes "a.cpp#1") ∷ hover_class (codes "b") ∷ []

abbrev one_detail : EdgeSet
one_detail = record {
  edge_infos =
      record { from_id = 1; to_id = 2; kind = inheritance; data_of = jump (codes "a.cpp#1") ∷ [] }
      ∷ [];
  edge_lookup = ((1, 2), 0) ∷ [];
}

one_detail-HasEnds : HasEnds one_detail
unfolding no_edges
one_detail-HasEnds =
    added-HasEnds 1 2
      (record { from_id = 1; to_id = 2; kind = inheritance; data_of = jump (codes "a.cpp#1") ∷ [] })
      no_edges no_edges-HasEnds refl refl

-- The edge is known, with one of the two details.
ensure_edge_in_graph-IsMerged_example :
    (ix : ℕ) × (after : EdgeSet) × (ensure_edge_in_graph two_lists 1 2 default details one_detail
        (new two_lists)
      ≡ some (after, ensure_edge two_lists 1 2 ix (new two_lists)))
    × IsMerged one_detail 1 2 default details ix after
ensure_edge_in_graph-IsMerged_example =
    ensure_edge_in_graph-IsMerged two_lists 1 2 default details one_detail (new two_lists)
      one_detail-HasEnds

ensure_edge_in_graph_twice_example :
    (ix : ℕ) × (after : EdgeSet) × (ensure_edge_in_graph two_lists 1 2 default details no_edges
        (new two_lists)
      ≡ some (after, ensure_edge two_lists 1 2 ix (new two_lists)))
    × (ensure_edge_in_graph two_lists 1 2 inheritance details after
          (ensure_edge two_lists 1 2 ix (new two_lists))
        ≡ some (after, ensure_edge two_lists 1 2 ix (ensure_edge two_lists 1 2 ix (new two_lists))))
ensure_edge_in_graph_twice_example =
    ensure_edge_in_graph_twice two_lists 1 2 default inheritance details no_edges (new two_lists)
      no_edges-HasEnds

-- Three symbols, and edges from each to the next.
abbrev three : NodeSet Labels
three = record {
  symbol_crossref_infos = info_of 5 ∷ info_of 6 ∷ info_of 7 ∷ [];
  symbol_to_index_map = (5, 0) ∷ (6, 1) ∷ (7, 2) ∷ [];
}

abbrev edge_info : ℕ → ℕ → EdgeInfo
edge_info s t = record { from_id = s; to_id = t; kind = default; data_of = details }

abbrev two_edges : EdgeSet
two_edges = record {
  edge_infos = edge_info 0 1 ∷ edge_info 1 2 ∷ [];
  edge_lookup = ((0, 1), 0) ∷ ((1, 2), 1) ∷ [];
}

abbrev empty_target : Target Labels two_lists
empty_target = record { graph = new two_lists; symbols = no_symbols; edges = no_edges }

propagate_edge-IsPropagated_example :
    (after : Target Labels two_lists) × (propagate_edge labels_of two_lists three two_edges 0 1 0
        empty_target
      ≡ some after)
    × IsPropagated labels_of two_lists (info_of 5) (info_of 6) (edge_info 0 1) empty_target after
propagate_edge-IsPropagated_example =
    propagate_edge-IsPropagated labels_of two_lists three two_edges 0 1 0 empty_target (info_of 5)
      (info_of 6) (edge_info 0 1) no_symbols-IsNodeSet refl refl refl

abbrev add_edge : ℕ → ℕ → ℕ → List ℕ × List RawEdge → List ℕ × List RawEdge
add_edge s t w g = (g.0, g.1 ++ (record { source = s; target = t; weight = w } ∷ []))

abbrev first_weight : ℕ → ℕ → List RawEdge → Option ℕ
first_weight s t [] = none
first_weight s t (e ∷ es) = if joins s t e then some e.weight else first_weight s t es

abbrev find_weight : List ℕ × List RawEdge → ℕ → ℕ → Option ℕ
find_weight g s t = first_weight s t g.1

-- The one path of the graph below, from the supernode 3 to the supernode 4.
abbrev one_path : List ℕ × List RawEdge → ℕ → ℕ → ℕ → List (List ℕ)
one_path g s t most = (3 ∷ 0 ∷ 1 ∷ 2 ∷ 4 ∷ []) ∷ []

abbrev chain : NamedGraph two_lists
chain = record {
  graph = (
    0 ∷ 1 ∷ 2 ∷ [],
    record { source = 0; target = 1; weight = 0 }
        ∷ record { source = 1; target = 2; weight = 1 }
        ∷ [],
  );
  node_id_to_ix = (0, 0) ∷ (1, 1) ∷ (2, 2) ∷ [];
  node_ix_to_id = (0, 0) ∷ (1, 1) ∷ (2, 2) ∷ [];
}

abbrev searched : NamedGraph two_lists
searched =
    (with_supernodes labels_of two_lists add_edge find_weight one_path 3 2 (0 ∷ []) (2 ∷ [])
      chain).2

linked :
    (s t w i : ℕ) (g : List ℕ × List RawEdge)
    → get_elem? g.1 i ≡ some (record { source = s; target = t; weight = w })
    → joins s t (record { source = s; target = t; weight = w }) ≡ true
    → IsLinked two_lists g (s, t)
linked s t w i g h j = record {
  edge = record { source = s; target = t; weight = w };
  place = i;
  has_edge = h;
  joined = j;
}

-- The first edge that joins two nodes is found.
first_found :
    (s t : ℕ) (ws : List ℕ) (es : List RawEdge) (i : ℕ) (e : RawEdge)
    → get_elem? es i ≡ some e
    → joins s t e ≡ true
    → (l : IsLinked two_lists (ws, es) (s, t)) × (first_weight s t es ≡ some l.edge.weight)
first_found s t ws [] i e h j = absurd (none-ne-some e h)
first_found s t ws (x ∷ es) zero e h j =
    let here : joins s t x ≡ true =
      subst (λ y. joins s t y ≡ true) (sym (some-injective x e h)) j in
    (record { edge = x; place = 0; has_edge = refl; joined = here }, rw here refl)
first_found s t ws (x ∷ es) (suc k) e h j = elim (Bool-cases (joins s t x)) [
  | inl q ↦ (record { edge = x; place = 0; has_edge = refl; joined = q }, rw q refl)
  | inr q ↦
      let m = first_found s t ws es k e h j in
      (
        record {
          edge = m.0.edge;
          place = suc m.0.place;
          has_edge = m.0.has_edge;
          joined = m.0.joined;
        },
        rw q m.1,
      )
]

search_laws : SearchLaws two_lists add_edge find_weight
search_laws = record {
  edge_added = λ s t w g. refl;
  edge_found = λ s t g l. first_found s t g.0 g.1 l.place l.edge l.has_edge l.joined;
}

chain-Fits : Fits two_lists 3 2 chain
chain-Fits = (
  record {
    source_named = (0, refl, omega arith);
    target_named = (1, refl, omega arith);
    has_info = omega arith;
  },
  (
    record {
      source_named = (1, refl, omega arith);
      target_named = (2, refl, omega arith);
      has_info = omega arith;
    },
    tt,
  ),
)

apart : (x : ℕ) → x < 3 → ¬ (x ≡ 3) × ¬ (x ≡ 4)
apart x h = (λ e. absurd (omega (arith, h, e)), λ e. absurd (omega (arith, h, e)))

one-IsSimplePath : IsSimplePath two_lists searched.graph 3 4 3 (3 ∷ 0 ∷ 1 ∷ 2 ∷ 4 ∷ [])
unfolding with_supernodes ensure_node
one-IsSimplePath = record {
  between = 0 ∷ 1 ∷ 2 ∷ [];
  path_eq = refl;
  apart = (apart 0 (omega arith), (apart 1 (omega arith), (apart 2 (omega arith), tt)));
  few = omega arith;
  linked = (
    linked 3 0 2 2 searched.graph refl refl,
    (
      linked 0 1 0 0 searched.graph refl refl,
      (linked 1 2 1 1 searched.graph refl refl, (linked 2 4 3 3 searched.graph refl refl, tt)),
    ),
  );
}

propagate_paths-Limited_example :
    (g : NamedGraph two_lists) × (after : Target Labels two_lists) × (propagate_paths labels_of
        two_lists add_edge find_weight one_path three chain
        (0 ∷ [])
        (2 ∷ [])
        two_edges
        384
        3
        empty_target
      ≡ some (g, after))
    × Limited labels_of two_lists find_weight three two_edges g add_edge one_path 384 4 empty_target
        after
unfolding with_supernodes
propagate_paths-Limited_example =
    propagate_paths-Limited labels_of two_lists add_edge find_weight one_path three chain (0 ∷ [])
      (2 ∷ []) two_edges 384 3 empty_target search_laws chain-Fits (omega arith, tt)
      (omega arith, tt) (one-IsSimplePath, tt) no_symbols-IsNodeSet
