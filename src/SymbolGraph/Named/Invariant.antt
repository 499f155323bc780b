-- ===== src/SymbolGraph/Named/Invariant.antt =====
-- NamedSymbolGraph: the two maps between ids and indices are inverse to each other, and agree with
-- the weights of the nodes.
use mozsearch.Prelude.{
  ℕ, ◌≡◌, refl, ap, sym, subst, ◌∙◌, false, Option, none, some, [], ◌∷◌, ◌++◌, ◌==◌, ==_iff, length,
  get_elem?, Bool-cases, inl, inr,
}
use mathlib.Core.Option.{some-injective, none-ne-some}
use mozsearch.Prelude.Keys.{
  lookup_key, insert_key, lookup_key-insert_same, lookup_key-insert_other, get_elem?-last,
  get_elem?-before, get_elem?-not_last, get_elem?-lt,
}
use mozsearch.SymbolGraph.Petgraph.{Petgraph}
use mozsearch.SymbolGraph.Named.{NamedGraph, new, node_or_new, ensure_node, ensure_edge}

module _ (p : Petgraph) where
  open p use {
    weights, raw_edges, weights_empty, edges_empty, weights_add, edges_add, weights_update,
    edges_update, add_node,
  }

  pub record IsNamed (g : NamedGraph p) : Type 0 where
    pub by_id :
        (id ix : ℕ)
        → lookup_key id g.node_id_to_ix ≡ some ix
        → get_elem? (weights g.graph) ix ≡ some id
    pub by_ix : (ix : ℕ) → lookup_key ix g.node_ix_to_id ≡ get_elem? (weights g.graph) ix
    pub known :
        (id ix : ℕ)
        → get_elem? (weights g.graph) ix ≡ some id
        → lookup_key id g.node_id_to_ix ≡ some ix

  pub new-IsNamed : IsNamed (new p)
  unfolding new
  new-IsNamed = record {
    by_id = λ id ix h. absurd (none-ne-some ix h);
    by_ix = λ ix. rw weights_empty refl;
    known =
        λ id ix h. absurd (none-ne-some id (subst (λ l. get_elem? l ix ≡ some id) weights_empty h));
  }

  new_other :
      (id k : ℕ) (g : NamedGraph p) (ix : ℕ)
      → lookup_key id g.node_id_to_ix ≡ none
      → lookup_key k g.node_id_to_ix ≡ some ix
      → (id == k) ≡ false
  new_other id k g ix e h = elim (Bool-cases (id == k)) [
    | inl q ↦ absurd (
        none-ne-some ix
          (sym e ∙ subst (λ x. lookup_key x g.node_id_to_ix ≡ some ix) (sym ((==_iff id k).0 q)) h))
    | inr q ↦ q
  ]

  -- A node that is new is put at the end.
  node_new-IsNamed :
      (id : ℕ) (g : NamedGraph p)
      → IsNamed g
      → lookup_key id g.node_id_to_ix ≡ none
      → IsNamed (node_or_new p id g none).1
  node_new-IsNamed id g n e =
      let ws = weights g.graph in
      let size = length ws in
      record {
        by_id = λ k ix h. elim (Bool-cases (id == k)) [
          | inl q ↦
              let same : id ≡ k = (==_iff id k).0 q in
              let at : size ≡ ix = some-injective size ix (
                sym (lookup_key-insert_same id size g.node_id_to_ix)
                ∙ subst (λ x. lookup_key x (insert_key id size g.node_id_to_ix) ≡ some ix)
                    (sym same) h) in
              rw weights_add (
                subst (λ i. get_elem? (ws ++ (id ∷ [])) i ≡ some k) at
                  (get_elem?-last ws id ∙ ap some same))
          | inr q ↦
              let old =
                n.by_id k ix (sym (lookup_key-insert_other k id size g.node_id_to_ix q) ∙ h) in
              rw weights_add (get_elem?-before ws (id ∷ []) ix (get_elem?-lt ws ix k old) ∙ old)
        ];
        by_ix = λ ix. elim (Bool-cases (size == ix)) [
          | inl q ↦ rw weights_add (
              subst
                (λ i.
                  lookup_key i (insert_key size id g.node_ix_to_id) ≡ get_elem? (ws ++ (id ∷ [])) i)
                ((==_iff size ix).0 q)
                (lookup_key-insert_same size id g.node_ix_to_id ∙ sym (get_elem?-last ws id)))
          | inr q ↦ rw weights_add (
              lookup_key-insert_other ix size id g.node_ix_to_id q
              ∙ n.by_ix ix
              ∙ sym (get_elem?-not_last ws id ix q))
        ];
        known = λ k ix h.
            let at : get_elem? (ws ++ (id ∷ [])) ix ≡ some k =
              subst (λ l. get_elem? l ix ≡ some k) (weights_add id g.graph) h in
            elim (Bool-cases (size == ix)) [
              | inl q ↦
                  let same : size ≡ ix = (==_iff size ix).0 q in
                  let name : id ≡ k = some-injective id k (
                    sym (get_elem?-last ws id)
                    ∙ subst (λ i. get_elem? (ws ++ (id ∷ [])) i ≡ some k) (sym same) at) in
                  subst (λ x. lookup_key x (insert_key id size g.node_id_to_ix) ≡ some ix) name
                    (lookup_key-insert_same id size g.node_id_to_ix ∙ ap some same)
              | inr q ↦
                  let old = n.known k ix (sym (get_elem?-not_last ws id ix q) ∙ at) in
                  lookup_key-insert_other k id size g.node_id_to_ix (new_other id k g ix e old)
                  ∙ old
            ];
      }

  node_or_new-IsNamed :
      (id : ℕ) (g : NamedGraph p) (o : Option ℕ)
      → IsNamed g
      → lookup_key id g.node_id_to_ix ≡ o
      → IsNamed (node_or_new p id g o).1
  node_or_new-IsNamed id g (some ix) n e = n
  node_or_new-IsNamed id g none n e = node_new-IsNamed id g n e

  pub ensure_node-IsNamed : (id : ℕ) (g : NamedGraph p) → IsNamed g → IsNamed (ensure_node p id g).1
  unfolding ensure_node
  ensure_node-IsNamed id g n = node_or_new-IsNamed id g (lookup_key id g.node_id_to_ix) n refl

  pub ensure_edge-IsNamed :
      (source target edge : ℕ) (g : NamedGraph p)
      → IsNamed g
      → IsNamed (ensure_edge p source target edge g)
  unfolding ensure_edge
  ensure_edge-IsNamed source target edge g n =
      let g1 = (ensure_node p source g).1 in
      let n1 = ensure_node-IsNamed source g n in
      let r2 = ensure_node p target g1 in
      let n2 = ensure_node-IsNamed target g1 n1 in
      record {
        by_id = λ id ix h. rw weights_update (n2.by_id id ix h);
        by_ix = λ ix. rw weights_update (n2.by_ix ix);
        known = λ id ix h. n2.known id ix (
            subst (λ l. get_elem? l ix ≡ some id)
              (weights_update ((ensure_node p source g).0) (r2.0) edge (r2.1.graph)) h);
      }
