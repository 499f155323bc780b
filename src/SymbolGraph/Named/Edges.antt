-- ===== src/SymbolGraph/Named/Edges.antt =====
-- NamedSymbolGraph: the edges with the ids of their ends, as a relation on the two lists.
use mozsearch.Prelude.{
  ℕ, ◌≡◌, refl, sym, subst, ◌∙◌, some, List, [], ◌∷◌, ◌==◌, ==_iff, ==-true, ◌&&◌, Bool-cases, inl,
  inr,
}
use mathlib.Core.Option.{some-injective}
use mozsearch.Prelude.Keys.{lookup_key}
use mozsearch.SymbolGraph.Petgraph.{RawEdge, Petgraph, set_edge}
use mozsearch.SymbolGraph.Named.{NamedGraph, id_edges}

-- The second list has the edges of the first with the names of their ends.
pub data NamesEdges (names : List (ℕ × ℕ)) : List RawEdge → List RawEdge → Type 0 where
  no_edge : NamesEdges names [] []
  one_more :
      {e d : RawEdge} {es named : List RawEdge}
      → lookup_key e.source names ≡ some d.source
      → lookup_key e.target names ≡ some d.target
      → e.weight ≡ d.weight
      → NamesEdges names es named
      → NamesEdges names (e ∷ es) (d ∷ named)

unfoldable pub Extends : List (ℕ × ℕ) → List (ℕ × ℕ) → Type 0
Extends names more = (i k : ℕ) → lookup_key i names ≡ some k → lookup_key i more ≡ some k

unfoldable pub Separates : List (ℕ × ℕ) → Type 0
Separates names = (i j k : ℕ) → lookup_key i names ≡ some k → lookup_key j names ≡ some k → i ≡ j

pub NamesEdges-Extends :
    (names more : List (ℕ × ℕ)) (es named : List RawEdge)
    → Extends names more
    → NamesEdges names es named
    → NamesEdges more es named
unfolding Extends
NamesEdges-Extends names more [] [] x no_edge = no_edge
NamesEdges-Extends names more [] (d ∷ named) x r = elim r [ ]
NamesEdges-Extends names more (e ∷ es) [] x r = elim r [ ]
NamesEdges-Extends names more (e ∷ es) (d ∷ named) x (one_more hs ht hw r) =
    one_more (x e.source d.source hs) (x e.target d.target ht) hw
      (NamesEdges-Extends names more es named x r)

pub id_edges-NamesEdges :
    (p : Petgraph) (g : NamedGraph p) (es named : List RawEdge)
    → NamesEdges g.node_ix_to_id es named
    → id_edges p g es ≡ some named
id_edges-NamesEdges p g [] [] no_edge = refl
id_edges-NamesEdges p g [] (d ∷ named) r = elim r [ ]
id_edges-NamesEdges p g (e ∷ es) [] r = elim r [ ]
id_edges-NamesEdges p g (e ∷ es) (d ∷ named) (one_more hs ht hw r) =
    rw hs (rw ht (rw (id_edges-NamesEdges p g es named r) (rw hw refl)))

same_end :
    (names : List (ℕ × ℕ)) (i j k l : ℕ)
    → Separates names
    → lookup_key i names ≡ some k
    → lookup_key j names ≡ some l
    → (i == j) ≡ (k == l)
unfolding Separates
same_end names i j k l sep hi hj = elim (Bool-cases (k == l)) [
  | inl q ↦ rw q (
      ==-true i j
        (sep i j k hi (subst (λ x. lookup_key j names ≡ some x) (sym ((==_iff k l).0 q)) hj)))
  | inr q ↦ elim (Bool-cases (i == j)) [
    | inl r ↦
        let same : k ≡ l =
          some-injective k l
            (sym hi ∙ subst (λ x. lookup_key x names ≡ some l) (sym ((==_iff i j).0 r)) hj) in
        rw r (sym (==-true k l same))
    | inr r ↦ rw (r, q) refl
  ]
]

-- An edge is set between two nodes as it is between their names.
pub NamesEdges-set_edge :
    (names : List (ℕ × ℕ)) (i j s t w : ℕ) (es named : List RawEdge)
    → Separates names
    → lookup_key i names ≡ some s
    → lookup_key j names ≡ some t
    → NamesEdges names es named
    → NamesEdges names (set_edge i j w es) (set_edge s t w named)
NamesEdges-set_edge names i j s t w [] [] sep hs ht no_edge = one_more hs ht refl no_edge
NamesEdges-set_edge names i j s t w [] (d ∷ named) sep hs ht r = elim r [ ]
NamesEdges-set_edge names i j s t w (e ∷ es) [] sep hs ht r = elim r [ ]
NamesEdges-set_edge names i j s t w (e ∷ es) (d ∷ named) sep hs ht (one_more ha hb hw r) =
    let q1 : (e.source == i) ≡ (d.source == s) = same_end names e.source i d.source s sep ha hs in
    let q2 : (e.target == j) ≡ (d.target == t) = same_end names e.target j d.target t sep hb ht in
    let rest = NamesEdges-set_edge names i j s t w es named sep hs ht r in
    elim (Bool-cases (d.source == s && d.target == t)) [
      | inl q ↦ rw (q1, q2, q) (one_more hs ht refl r)
      | inr q ↦ rw (q1, q2, q) (one_more ha hb hw rest)
    ]
