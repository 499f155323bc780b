-- ===== src/SymbolGraph/Named/Refine.antt =====
-- NamedSymbolGraph: an abstract graph of ids, without indices and maps, and the graph's operations
-- as steps of it.
use mozsearch.Prelude.{
  ℕ, zero, suc, ◌+◌, ◌≡◌, ◌≢◌, refl, sym, ap, subst, ◌∙◌, true, false, Option, none, some, List, [],
  ◌∷◌, ◌++◌, ◌==◌, if◌then◌else◌, length, get_elem?, ==-false, ==-true, Bool-cases, inl, inr, arith,
}
use mathlib.Core.Option.{some-injective, none-ne-some}
use mozsearch.Prelude.Text.{contains}
use mozsearch.Prelude.Keys.{
  lookup_key, insert_key, lookup_key-insert_other, lookup_key-insert_same, get_elem?-lt,
}
use mozsearch.SymbolGraph.Petgraph.{RawEdge, Petgraph, set_edge}
use mozsearch.SymbolGraph.Named.{
  NamedGraph, new, node_or_new, ensure_node, ids_from, list_nodes, ensure_edge, list_edges,
}
use mozsearch.SymbolGraph.Named.Invariant.{
  IsNamed, new-IsNamed, ensure_node-IsNamed, ensure_edge-IsNamed,
}
use mozsearch.SymbolGraph.Named.Edges.{
  NamesEdges, no_edge, Extends, Separates, NamesEdges-Extends, id_edges-NamesEdges,
  NamesEdges-set_edge,
}

-- The ids in the order in which they were first named, and the edges between ids.
pub record IdGraph : Type 0 where
  pub ids : List ℕ
  pub edges : List RawEdge

abbrev pub with_id : ℕ → List ℕ → List ℕ
with_id id ids = if contains id ids then ids else ids ++ (id ∷ [])

contains-get_elem? : (x : ℕ) (ys : List ℕ) (i : ℕ) → get_elem? ys i ≡ some x → contains x ys ≡ true
contains-get_elem? x [] i h = absurd (none-ne-some x h)
contains-get_elem? x (y ∷ ys) zero h = rw (==-true y x (some-injective y x h)) refl
contains-get_elem? x (y ∷ ys) (suc i) h = elim (Bool-cases (y == x)) [
  | inl q ↦ rw q refl
  | inr q ↦ rw q (contains-get_elem? x ys i h)
]

contains-absent :
    (x : ℕ) (ys : List ℕ) → ((i : ℕ) → get_elem? ys i ≢ some x) → contains x ys ≡ false
contains-absent x [] h = refl
contains-absent x (y ∷ ys) h =
    rw (==-false y x (λ q. h 0 (ap some q))) (contains-absent x ys (λ i. h (suc i)))

pub data GraphOp : Type 0 where
  node : ℕ → GraphOp
  edge : ℕ → ℕ → ℕ → GraphOp

abbrev pub on_ids : GraphOp → IdGraph → IdGraph
on_ids (node id) a = record { ids = with_id id a.ids; edges = a.edges }
on_ids (edge s t w) a = record { ids = with_id t (with_id s a.ids); edges = set_edge s t w a.edges }

abbrev pub all_on_ids : List GraphOp → IdGraph → IdGraph
all_on_ids [] a = a
all_on_ids (o ∷ os) a = all_on_ids os (on_ids o a)

module _ (p : Petgraph) where
  open p use {
    weights, raw_edges, weights_add, edges_add, weights_update, edges_update, weights_empty,
    edges_empty,
  }

  unfoldable pub on_graph : GraphOp → NamedGraph p → NamedGraph p
  unfolding ensure_node
  on_graph (node id) g = (ensure_node p id g).1
  on_graph (edge s t w) g = ensure_edge p s t w g

  unfoldable pub all_on_graph : List GraphOp → NamedGraph p → NamedGraph p
  all_on_graph [] g = g
  all_on_graph (o ∷ os) g = all_on_graph os (on_graph o g)

  record Shows (g : NamedGraph p) (a : IdGraph) : Type 0 where
    is_named : IsNamed p g
    ids_eq : weights g.graph ≡ a.ids
    edges_eq : NamesEdges g.node_ix_to_id (raw_edges g.graph) a.edges

  -- The ids at the indices from `ix` on are the weights.
  ids_from-weights :
      (ix : ℕ) (ws : List ℕ) (g : NamedGraph p)
      → ((j : ℕ) → lookup_key (ix + j) g.node_ix_to_id ≡ get_elem? ws j)
      → ids_from p ix ws g ≡ some ws
  ids_from-weights ix [] g h = refl
  ids_from-weights ix (w ∷ ws) g h =
      let first : lookup_key ix g.node_ix_to_id ≡ some w =
        subst (λ i. lookup_key i g.node_ix_to_id ≡ some w) (omega arith) (h 0) in
      let rest = ids_from-weights (suc ix) ws g (λ j.
        subst (λ i. lookup_key i g.node_ix_to_id ≡ get_elem? ws j) (omega arith) (h (suc j))) in
      rw first (rw rest refl)

  list_nodes-weights : (g : NamedGraph p) → IsNamed p g → list_nodes p g ≡ some (weights g.graph)
  unfolding list_nodes
  list_nodes-weights g n = ids_from-weights 0 (weights g.graph) g (λ j.
      subst (λ i. lookup_key i g.node_ix_to_id ≡ get_elem? (weights g.graph) j) (omega arith)
        (n.by_ix j))

  names-Separates : (g : NamedGraph p) → IsNamed p g → Separates g.node_ix_to_id
  unfolding Separates
  names-Separates g n i j k hi hj =
      let ki = n.known k i (sym (n.by_ix i) ∙ hi) in
      let kj = n.known k j (sym (n.by_ix j) ∙ hj) in some-injective i j (sym ki ∙ kj)

  -- What `ensure_node` gives: the node's index, by which its id is found, and the graph.
  record Ensured (id : ℕ) (g : NamedGraph p) (a : IdGraph) (r : ℕ × NamedGraph p) : Type 0 where
    shows : Shows r.1 (record { ids = with_id id a.ids; edges = a.edges })
    ix_named : lookup_key r.0 r.1.node_ix_to_id ≡ some id
    extends : Extends g.node_ix_to_id r.1.node_ix_to_id

  node_new-Extends :
      (id : ℕ) (g : NamedGraph p)
      → IsNamed p g
      → Extends g.node_ix_to_id (node_or_new p id g none).1.node_ix_to_id
  unfolding Extends
  node_new-Extends id g n i k h =
      let ws = weights g.graph in
      let below = get_elem?-lt ws i k (sym (n.by_ix i) ∙ h) in
      lookup_key-insert_other i (length ws) id g.node_ix_to_id
        (==-false (length ws) i (λ q. omega (arith, below, q)))
      ∙ h

  node_or_new-Ensured :
      (id : ℕ) (g : NamedGraph p) (a : IdGraph) (o : Option ℕ)
      → Shows g a
      → lookup_key id g.node_id_to_ix ≡ o
      → IsNamed p (node_or_new p id g o).1
      → Ensured id g a (node_or_new p id g o)
  unfolding Extends
  node_or_new-Ensured id g a (some ix) s e n =
      let at = s.is_named.by_id id ix e in
      let seen =
        contains-get_elem? id a.ids ix (subst (λ l. get_elem? l ix ≡ some id) s.ids_eq at) in
      record {
        shows = record { is_named = n; ids_eq = rw seen s.ids_eq; edges_eq = s.edges_eq };
        ix_named = s.is_named.by_ix ix ∙ at;
        extends = λ i k h. h;
      }
  node_or_new-Ensured id g a none s e n =
      let ws = weights g.graph in
      let seen : contains id a.ids ≡ false = contains-absent id a.ids (λ i h.
        none-ne-some i (
          sym e ∙ s.is_named.known id i (subst (λ l. get_elem? l i ≡ some id) (sym s.ids_eq) h))) in
      let x = node_new-Extends id g s.is_named in
      record {
        shows = record {
          is_named = n;
          ids_eq = rw (seen, weights_add id g.graph) (ap (λ l. l ++ (id ∷ [])) s.ids_eq);
          edges_eq = rw (edges_add id g.graph) (
              NamesEdges-Extends g.node_ix_to_id (insert_key (length ws) id g.node_ix_to_id)
                (raw_edges g.graph) a.edges x s.edges_eq);
        };
        ix_named = lookup_key-insert_same (length ws) id g.node_ix_to_id;
        extends = x;
      }

  ensure_node-Ensured :
      (id : ℕ) (g : NamedGraph p) (a : IdGraph) → Shows g a → Ensured id g a (ensure_node p id g)
  unfolding ensure_node
  ensure_node-Ensured id g a s =
      node_or_new-Ensured id g a (lookup_key id g.node_id_to_ix) s refl
        (ensure_node-IsNamed p id g s.is_named)

  ensure_edge-Shows :
      (s t w : ℕ) (g : NamedGraph p) (a : IdGraph)
      → Shows g a
      → Shows (ensure_edge p s t w g) (on_ids (edge s t w) a)
  unfolding ensure_edge Extends
  ensure_edge-Shows s t w g a h =
      let r1 = ensure_node p s g in
      let r2 = ensure_node p t r1.1 in
      let e1 = ensure_node-Ensured s g a h in
      let e2 =
        ensure_node-Ensured t r1.1 (record { ids = with_id s a.ids; edges = a.edges }) e1.shows in
      let named = e2.shows.is_named in
      record {
        is_named = ensure_edge-IsNamed p s t w g h.is_named;
        ids_eq = weights_update r1.0 r2.0 w r2.1.graph ∙ e2.shows.ids_eq;
        edges_eq = rw (edges_update r1.0 r2.0 w r2.1.graph) (
            NamesEdges-set_edge r2.1.node_ix_to_id r1.0 r2.0 s t w (raw_edges r2.1.graph) a.edges
              (names-Separates r2.1 named) (e2.extends r1.0 s e1.ix_named) e2.ix_named
              e2.shows.edges_eq);
      }

  all_on_graph-Shows :
      (os : List GraphOp) (g : NamedGraph p) (a : IdGraph)
      → Shows g a
      → Shows (all_on_graph os g) (all_on_ids os a)
  unfolding all_on_graph on_graph
  all_on_graph-Shows [] g a s = s
  all_on_graph-Shows (node id ∷ os) g a s =
      all_on_graph-Shows os (ensure_node p id g).1 (on_ids (node id) a)
        (ensure_node-Ensured id g a s).shows
  all_on_graph-Shows (edge x y w ∷ os) g a s =
      all_on_graph-Shows os (ensure_edge p x y w g) (on_ids (edge x y w) a)
        (ensure_edge-Shows x y w g a s)

  new-Shows : Shows (new p) (record { ids = []; edges = [] })
  unfolding new
  new-Shows = record {
    is_named = new-IsNamed p;
    ids_eq = weights_empty;
    edges_eq = rw edges_empty no_edge;
  }

  -- After any nodes and edges that are added to an empty graph in any order, with a graph of the
  -- crate petgraph that keeps to its laws: `list_nodes` gives, without a panic, the ids in the
  -- order in which they were first named, and `list_edges` gives the edges between
  -- ids, where a later edge between the same two ids sets the number of the earlier one.
  pub all_on_graph-lists :
      (os : List GraphOp)
      → (list_nodes p (all_on_graph os (new p))
          ≡ some (all_on_ids os (record { ids = []; edges = [] })).ids)
        × (list_edges p (all_on_graph os (new p))
            ≡ some (all_on_ids os (record { ids = []; edges = [] })).edges)
  unfolding list_edges
  all_on_graph-lists os =
      let g = all_on_graph os (new p) in
      let s = all_on_graph-Shows os (new p) (record { ids = []; edges = [] }) new-Shows in
      (
        list_nodes-weights g s.is_named ∙ ap some s.ids_eq,
        id_edges-NamesEdges p g (raw_edges g.graph)
            (all_on_ids os (record { ids = []; edges = [] })).edges s.edges_eq,
      )
