-- ===== src/SymbolGraph/Propagate/Search.antt =====
-- propagate_paths: what the search for paths in the graph with the two supernodes gives, from what
-- petgraph promises and what is known of the graph that is searched.
use mozsearch.Prelude.{
  ℕ, zero, suc, ◌≤◌, ◌<◌, ◌≡◌, ◌⊎◌, refl, sym, subst, ◌∙◌, true, Option, none, some, List, [], ◌∷◌,
  ◌++◌, ◌==◌, ==_iff, length, get_elem?, All, All-append, arith, Bool-cases, inl, inr,
}
use mathlib.Core.Option.{some-injective, none-ne-some}
use mozsearch.Prelude.Keys.{lookup_key, insert_key, lookup_key-insert_same, lookup_key-insert_other}
use mozsearch.SymbolGraph.Petgraph.{RawEdge, joins, Petgraph}
use mozsearch.SymbolGraph.Named.{NamedGraph, node_or_new, ensure_node}
use mozsearch.SymbolGraph.Propagate.{windows, edges_from, edges_to, with_supernodes}

All-map {ℓ κ μ} :
    {A : Type ℓ} (P : A → Type κ) (Q : A → Type μ) (xs : List A)
    → ((x : A) → P x → Q x)
    → All P xs
    → All Q xs
All-map P Q [] f h = tt
All-map P Q (x ∷ xs) f (h, hs) = (f x h, All-map P Q xs f hs)

pub All-at {ℓ κ} :
    {A : Type ℓ} (P : A → Type κ) (xs : List A) (i : ℕ) (x : A)
    → All P xs
    → get_elem? xs i ≡ some x
    → P x
All-at P [] i x h e = absurd (none-ne-some x e)
All-at P (y ∷ xs) zero x (h, hs) e = subst P (some-injective y x e) h
All-at P (y ∷ xs) (suc i) x (h, hs) e = All-at P xs i x hs e

pub joins_ends : (s t : ℕ) (e : RawEdge) → joins s t e ≡ true → (e.source ≡ s) × (e.target ≡ t)
joins_ends s t e h = elim (Bool-cases (e.source == s)) [
  | inl a ↦ elim (Bool-cases (e.target == t)) [
    | inl b ↦ ((==_iff e.source s).0 a, (==_iff e.target t).0 b)
    | inr b ↦ absurd (ground arith)
  ]
  | inr a ↦ absurd (ground arith)
]

module _ (p : Petgraph) where
  open p use {Graph, raw_edges, edges_add}

  -- Two nodes with an edge from the one to the other.
  pub record IsLinked (g : Graph) (ends : ℕ × ℕ) : Type 0 where
    pub edge : RawEdge
    pub place : ℕ
    pub has_edge : get_elem? (raw_edges g) place ≡ some edge
    pub joined : joins ends.0 ends.1 edge ≡ true

  -- What the documentation of petgraph says of `add_edge`, and of `find_edge`: that it finds an
  -- edge if there is one.
  pub record SearchLaws (add_edge : ℕ → ℕ → ℕ → Graph → Graph)
      (find_weight : Graph → ℕ → ℕ → Option ℕ) : Type 0 where
    pub edge_added :
        (s t w : ℕ) (g : Graph)
        → raw_edges (add_edge s t w g)
          ≡ raw_edges g ++ (record { source = s; target = t; weight = w } ∷ [])
    pub edge_found :
        (s t : ℕ) (g : Graph)
        → IsLinked g (s, t)
        → (l : IsLinked g (s, t)) × (find_weight g s t ≡ some l.edge.weight)

  -- And of a simple path: it goes along edges from its first node to its last, meets these two
  -- nowhere else, and has no more nodes between them than asked for.
  pub record IsSimplePath (g : Graph) (s t most : ℕ) (path : List ℕ) : Type 0 where
    pub between : List ℕ
    pub path_eq : path ≡ s ∷ (between ++ (t ∷ []))
    pub apart : All (λ x. ¬ (x ≡ s) × ¬ (x ≡ t)) between
    pub few : length between ≤ most
    pub linked : All (IsLinked g) (windows path)

  module _ (nodes edges : ℕ) where
    -- A node with the name of one of the symbols.
    abbrev pub HasName : NamedGraph p → ℕ → Type 0
    HasName g ix = (id : ℕ) × (lookup_key ix g.node_ix_to_id ≡ some id) × (id < nodes)

    -- An edge between such nodes with the number of one of the edges' infos.
    pub record IsInner (g : NamedGraph p) (e : RawEdge) : Type 0 where
      pub source_named : HasName g e.source
      pub target_named : HasName g e.target
      pub has_info : e.weight < edges

    abbrev pub Fits : NamedGraph p → Type 0
    Fits g = All (IsInner g) (raw_edges g.graph)

    -- An edge from `s` or to `t`, or one of the graph that is searched.
    abbrev pub IsBeside : ℕ → ℕ → NamedGraph p → RawEdge → Type 0
    IsBeside s t g e = (e.source ≡ s) ⊎ (e.target ≡ t) ⊎ IsInner g e

    abbrev pub FitsBeside : ℕ → ℕ → NamedGraph p → Type 0
    FitsBeside s t g = All (IsBeside s t g) (raw_edges g.graph)

    -- The same edges in a graph that has the names too.
    moved-IsInner :
        (g after : NamedGraph p)
        → ((a : ℕ) → HasName g a → HasName after a)
        → (e : RawEdge) → IsInner g e
        → IsInner after e
    moved-IsInner g after named e i = record {
      source_named = named e.source i.source_named;
      target_named = named e.target i.target_named;
      has_info = i.has_info;
    }

    moved-IsBeside :
        (s t : ℕ) (g after : NamedGraph p)
        → ((a : ℕ) → HasName g a → HasName after a)
        → (es : List RawEdge) → All (IsBeside s t g) es
        → All (IsBeside s t after) es
    moved-IsBeside s t g after named es f =
        All-map (IsBeside s t g) (IsBeside s t after) es
          (λ e q. elim q [
            | inl a ↦ inl a
            | inr r ↦ elim r [
              | inl b ↦ inr (inl b)
              | inr i ↦ inr (inr (moved-IsInner g after named e i))
            ]
          ])
          f

    inserted-HasName :
        (g : NamedGraph p) (ix id a : ℕ)
        → id < nodes
        → HasName g a
        → (k : ℕ) × (lookup_key a (insert_key ix id g.node_ix_to_id) ≡ some k) × (k < nodes)
    inserted-HasName g ix id a h n = elim (Bool-cases (ix == a)) [
      | inl e ↦ (
        id,
        subst (λ k. lookup_key k (insert_key ix id g.node_ix_to_id) ≡ some id) ((==_iff ix a).0 e)
            (lookup_key-insert_same ix id g.node_ix_to_id),
        h,
      )
      | inr e ↦ (n.0, lookup_key-insert_other a ix id g.node_ix_to_id e ∙ n.1, n.2)
    ]

    node_or_new-FitsBeside :
        (s t id : ℕ) (g : NamedGraph p) (o : Option ℕ)
        → id < nodes
        → FitsBeside s t g
        → FitsBeside s t (node_or_new p id g o).1
    node_or_new-FitsBeside s t id g (some ix) h f = f
    node_or_new-FitsBeside s t id g none h f =
        let after : NamedGraph p = (node_or_new p id g none).1 in
        let ix = length (p.weights g.graph) in
        subst (All (IsBeside s t after)) (sym (edges_add id g.graph))
          (moved-IsBeside s t g after (λ a n. inserted-HasName g ix id a h n) (raw_edges g.graph) f)

    ensure_node-FitsBeside :
        (s t id : ℕ) (g : NamedGraph p)
        → id < nodes
        → FitsBeside s t g
        → FitsBeside s t (ensure_node p id g).1
    unfolding ensure_node
    ensure_node-FitsBeside s t id g h f =
        node_or_new-FitsBeside s t id g (lookup_key id g.node_id_to_ix) h f

    module _ (add_edge : ℕ → ℕ → ℕ → Graph → Graph) (find_weight : Graph → ℕ → ℕ → Option ℕ)
        (laws : SearchLaws add_edge find_weight) where
      add_edge-FitsBeside :
          (s t a b w : ℕ) (g : NamedGraph p)
          → (a ≡ s) ⊎ (b ≡ t)
          → FitsBeside s t g
          → FitsBeside s t (record g { graph = add_edge a b w g.graph })
      add_edge-FitsBeside s t a b w g h f =
          let edge : RawEdge = record { source = a; target = b; weight = w } in
          let after : NamedGraph p = record g { graph = add_edge a b w g.graph } in
          let new : IsBeside s t after edge = elim h [ inl x ↦ inl x | inr y ↦ inr (inl y) ] in
          subst (All (IsBeside s t after)) (sym (laws.edge_added a b w g.graph)) (
            All-append (IsBeside s t after) (raw_edges g.graph) (edge ∷ [])
              (moved-IsBeside s t g after (λ c n. n) (raw_edges g.graph) f) (new, tt))

      module _ {Info : Type 0} (meta_labels : Info → Option (List (Option (List ℕ))))
          (all_simple_paths : Graph → ℕ → ℕ → ℕ → List (List ℕ)) where
        edges_from-FitsBeside :
            (s t w : ℕ) (ids : List ℕ) (g : NamedGraph p)
            → All (λ id. id < nodes) ids
            → FitsBeside s t g
            → FitsBeside s t
                (edges_from meta_labels p add_edge find_weight all_simple_paths s w ids g)
        edges_from-FitsBeside s t w [] g h f = f
        edges_from-FitsBeside s t w (id ∷ ids) g (h, hs) f =
            let r = ensure_node p id g in
            edges_from-FitsBeside s t w ids (record r.1 { graph = add_edge s r.0 w r.1.graph }) hs
              (add_edge-FitsBeside s t s r.0 w r.1 (inl refl) (ensure_node-FitsBeside s t id g h f))

        edges_to-FitsBeside :
            (s t w : ℕ) (ids : List ℕ) (g : NamedGraph p)
            → All (λ id. id < nodes) ids
            → FitsBeside s t g
            → FitsBeside s t
                (edges_to meta_labels p add_edge find_weight all_simple_paths t w ids g)
        edges_to-FitsBeside s t w [] g h f = f
        edges_to-FitsBeside s t w (id ∷ ids) g (h, hs) f =
            let r = ensure_node p id g in
            edges_to-FitsBeside s t w ids (record r.1 { graph = add_edge r.0 t w r.1.graph }) hs
              (add_edge-FitsBeside s t r.0 t w r.1 (inr refl) (ensure_node-FitsBeside s t id g h f))

        -- The graph with the supernodes, beside their edges.
        pub with_supernodes-FitsBeside :
            (next_node next_edge : ℕ) (sources targets : List ℕ) (g : NamedGraph p)
            → All (λ id. id < nodes) sources
            → All (λ id. id < nodes) targets
            → Fits g
            → (let (s, t, g1) =
                  with_supernodes meta_labels p add_edge find_weight all_simple_paths next_node
                    next_edge sources targets g in
                FitsBeside s t g1)
        unfolding with_supernodes
        with_supernodes-FitsBeside next_node next_edge sources targets g hs ht f =
            let s = length (p.weights g.graph) in
            let g1 : NamedGraph p = record g { graph = p.add_node next_node g.graph } in
            let t = length (p.weights g1.graph) in
            let g2 : NamedGraph p = record g1 { graph = p.add_node (suc next_node) g1.graph } in
            let beside : FitsBeside s t g2 =
              subst (All (IsBeside s t g2))
                (sym (edges_add (suc next_node) g1.graph ∙ edges_add next_node g.graph))
                (All-map (IsInner g) (IsBeside s t g2) (raw_edges g.graph)
                  (λ e i. inr (inr (moved-IsInner g g2 (λ a n. n) e i))) f) in
            edges_to-FitsBeside s t (suc next_edge) targets
              (edges_from meta_labels p add_edge find_weight all_simple_paths s next_edge sources
                g2)
              ht (edges_from-FitsBeside s t next_edge sources g2 hs beside)
