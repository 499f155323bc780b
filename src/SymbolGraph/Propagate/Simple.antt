-- ===== src/SymbolGraph/Propagate/Simple.antt =====
-- propagate_paths: an edge of a simple path in the graph with the supernodes, but for those at the
-- ends, joins two symbols and has an info.
use mozsearch.Prelude.{
  ℕ, ◌≡◌, refl, sym, ap, subst, ◌∙◌, Option, some, List, [], ◌∷◌, ◌++◌, length, All, inl, inr,
}
use mozsearch.Prelude.Keys.{lookup_key, get_elem?-there}
use mozsearch.SymbolGraph.Petgraph.{Petgraph}
use mozsearch.SymbolGraph.Named.{NamedGraph}
use mozsearch.SymbolGraph.Nodes.{NodeSet}
use mozsearch.SymbolGraph.Edges.{EdgeSet}
use mozsearch.SymbolGraph.Propagate.{windows_from, windows, drop_last, inner_edges}
use mozsearch.SymbolGraph.Propagate.Paths.{IsStep}
use mozsearch.SymbolGraph.Propagate.Search.{
  joins_ends, All-at, IsLinked, SearchLaws, IsSimplePath, IsBeside, FitsBeside,
}

drop_last-append : (m : List ℕ) (t : ℕ) → drop_last (m ++ (t ∷ [])) ≡ m
drop_last-append [] t = refl
drop_last-append (x ∷ []) t = refl
drop_last-append (x ∷ y ∷ m) t = ap (λ l. x ∷ l) (drop_last-append (y ∷ m) t)

windows-front :
    (P : ℕ × ℕ → Type 0) (x : ℕ) (m l : List ℕ)
    → All P (windows_from x (m ++ l))
    → All P (windows_from x m)
windows-front P x [] l h = tt
windows-front P x (y ∷ m) l (h, hs) = (h, windows-front P y m l hs)

windows-between :
    (P : ℕ × ℕ → Type 0) (x : ℕ) (m l : List ℕ)
    → All P (windows_from x (m ++ l))
    → All P (windows m)
windows-between P x [] l h = tt
windows-between P x (y ∷ m) l (h, hs) = windows-front P y m l hs

steps_of :
    (P Q : ℕ × ℕ → Type 0) (R : ℕ → Type 0)
    → ((w : ℕ × ℕ) → P w → R w.0 → R w.1 → Q w)
    → (x : ℕ) (xs : List ℕ) → R x
    → All R xs
    → All P (windows_from x xs)
    → All Q (windows_from x xs)
steps_of P Q R f x [] rx rs h = tt
steps_of P Q R f x (y ∷ xs) rx (ry, rs) (h, hs) = (f (x, y) h rx ry, steps_of P Q R f y xs ry rs hs)

every_step :
    (P Q : ℕ × ℕ → Type 0) (R : ℕ → Type 0)
    → ((w : ℕ × ℕ) → P w → R w.0 → R w.1 → Q w)
    → (xs : List ℕ) → All R xs
    → All P (windows xs)
    → All Q (windows xs)
every_step P Q R f [] r h = tt
every_step P Q R f (x ∷ xs) (r, rs) h = steps_of P Q R f x xs r rs h

module _ {Info : Type 0} (meta_labels : Info → Option (List (Option (List ℕ)))) (p : Petgraph)
    (add_edge : ℕ → ℕ → ℕ → p.Graph → p.Graph) (find_weight : p.Graph → ℕ → ℕ → Option ℕ)
    (laws : SearchLaws p add_edge find_weight) (old : NodeSet Info) (edge_set : EdgeSet)
    (g : NamedGraph p) (s t : ℕ)
    (fits : FitsBeside p
      (length old.symbol_crossref_infos)
      (length edge_set.edge_infos)
      s
      t
      g) where
  abbrev IsApart : ℕ → Type 0
  IsApart x = ¬ (x ≡ s) × ¬ (x ≡ t)

  linked-IsStep :
      (w : ℕ × ℕ)
      → IsLinked p g.graph w
      → IsApart w.0
      → IsApart w.1
      → IsStep meta_labels p find_weight old edge_set g w
  linked-IsStep w l a b =
      let found = laws.edge_found w.0 w.1 g.graph l in
      let k : IsLinked p g.graph w = found.0 in
      let ends = joins_ends w.0 w.1 k.edge k.joined in
      let nodes = length old.symbol_crossref_infos in
      let edges = length edge_set.edge_infos in
      elim (All-at (IsBeside p nodes edges s t g) (p.raw_edges g.graph) k.place k.edge fits
        k.has_edge) [
          | inl x ↦ absurd (a.0 (sym ends.0 ∙ x))
          | inr r ↦ elim r [
            | inl y ↦ absurd (b.1 (sym ends.1 ∙ y))
            | inr i ↦
                let n = i.source_named in
                let m = i.target_named in
                let source = get_elem?-there old.symbol_crossref_infos n.0 n.2 in
                let target = get_elem?-there old.symbol_crossref_infos m.0 m.2 in
                let info = get_elem?-there edge_set.edge_infos k.edge.weight i.has_info in
                record {
                  source_id = n.0;
                  target_id = m.0;
                  edge_id = k.edge.weight;
                  source_info = source.0;
                  target_info = target.0;
                  edge_info = info.0;
                  source_named = subst (λ x. lookup_key x g.node_ix_to_id ≡ some n.0) ends.0 n.1;
                  target_named = subst (λ x. lookup_key x g.node_ix_to_id ≡ some m.0) ends.1 m.1;
                  has_edge = found.1;
                  has_source = source.1;
                  has_target = target.1;
                  has_info = info.1;
                }
          ]
        ]

  pub simple-steps :
      (most : ℕ) (path : List ℕ)
      → IsSimplePath p g.graph s t most path
      → All (IsStep meta_labels p find_weight old edge_set g) (inner_edges path)
  simple-steps most path h =
      let between = h.between in
      let inner : inner_edges path ≡ windows between =
        ap inner_edges h.path_eq ∙ ap windows (drop_last-append between t) in
      let linked : All (IsLinked p g.graph) (windows between) =
        windows-between (IsLinked p g.graph) s between (t ∷ [])
          (subst (λ l. All (IsLinked p g.graph) (windows l)) h.path_eq h.linked) in
      subst (All (IsStep meta_labels p find_weight old edge_set g)) (sym inner) (
        every_step (IsLinked p g.graph) (IsStep meta_labels p find_weight old edge_set g) IsApart
          linked-IsStep between h.apart linked)
