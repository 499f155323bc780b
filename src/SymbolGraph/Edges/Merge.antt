-- ===== src/SymbolGraph/Edges/Merge.antt =====
-- SymbolGraphEdgeSet: ensure_edge_in_graph merges what is known of an edge.
use mozsearch.Prelude.{
  ℕ, ◌≡◌, refl, sym, ap, subst, ◌∙◌, true, Option, none, some, List, [], ◌∷◌, ◌++◌, length,
  get_elem?, arith,
}
use mathlib.Core.Option.{some-injective, none-ne-some}
use mozsearch.Prelude.Keys.{get_elem?-last, get_elem?-before, get_elem?-lt}
use mozsearch.SymbolGraph.Petgraph.{Petgraph}
use mozsearch.SymbolGraph.Named.{NamedGraph, ensure_edge}
use mozsearch.SymbolGraph.Edges.{
  EdgeKind, EdgeDetail, EdgeInfo, EdgeSet, has_detail, lookup_pair, insert_pair, with_details,
  merge_or_add, ensure_edge_in_graph,
}
use mozsearch.SymbolGraph.Edges.Details.{
  AllIn-self, merge_details-AllIn, merge_details_known, has_detail-merge_details,
  lookup_pair-insert_same, lookup_pair-insert_other,
}
use mozsearch.SymbolGraph.Edges.Ends.{
  HasEnds, IsMerged, update_info-IsUpdated, update_info_same, updated-HasEnds, added-HasEnds,
}

known-IsMerged :
    (s t : ℕ) (kind : EdgeKind) (ds : List EdgeDetail) (es : EdgeSet) (idx : ℕ)
    → HasEnds es
    → lookup_pair s t es.edge_lookup ≡ some idx
    → (r : ℕ × EdgeSet) × (merge_or_add s t kind ds es (some idx) ≡ some r)
      × IsMerged es s t kind ds r.0 r.1
known-IsMerged s t kind ds es idx h e =
    let old = h.by_ends s t idx e in
    let m = update_info-IsUpdated idx (with_details ds) es.edge_infos old.0 old.1 in
    (
      (idx, record es { edge_infos = m.0 }),
      rw m.1 refl,
      record {
        known = λ n k. (some-injective idx n (sym e ∙ k), m.2.same_size);
        new = λ k. absurd (none-ne-some idx (sym k ∙ e));
        other_pairs = λ a b q. refl;
        has_ends = updated-HasEnds es idx ds m.0 h m.2;
        at = e;
        info = with_details ds old.0;
        found = m.2.here old.0 old.1;
        given = merge_details-AllIn old.0.data_of ds;
        keeps = λ i k hk q. m.2.others i q ∙ hk;
        keeps_kind = λ k hk. ap (λ x. x.kind) (some-injective old.0 k (sym old.1 ∙ hk));
        keeps_details = λ k d hk hd.
            let same : k ≡ old.0 = some-injective k old.0 (sym hk ∙ old.1) in
            has_detail-merge_details d old.0.data_of ds
              (subst (λ x. has_detail d x.data_of ≡ true) same hd);
      },
    )

beyond_last : (es : List EdgeInfo) (k : EdgeInfo) → get_elem? es (length es) ≡ some k → ⊥
beyond_last es k h = omega (arith, get_elem?-lt es (length es) k h)

added-IsMerged :
    (s t : ℕ) (kind : EdgeKind) (ds : List EdgeDetail) (es : EdgeSet)
    → HasEnds es
    → lookup_pair s t es.edge_lookup ≡ none
    → (r : ℕ × EdgeSet) × (merge_or_add s t kind ds es none ≡ some r)
      × IsMerged es s t kind ds r.0 r.1
added-IsMerged s t kind ds es h e =
    let i : EdgeInfo = record { from_id = s; to_id = t; kind = kind; data_of = ds } in
    let size = length es.edge_infos in
    (
      (
        size,
        record {
          edge_infos = es.edge_infos ++ (i ∷ []);
          edge_lookup = insert_pair s t size es.edge_lookup;
        },
      ),
      refl,
      record {
        known = λ n k. absurd (none-ne-some n (sym e ∙ k));
        new = λ k. (refl, refl);
        other_pairs = λ a b q. lookup_pair-insert_other s t a b size es.edge_lookup q;
        has_ends = added-HasEnds s t i es h refl refl;
        at = lookup_pair-insert_same s t size es.edge_lookup;
        info = i;
        found = get_elem?-last es.edge_infos i;
        given = AllIn-self ds;
        keeps = λ j k hk q.
            get_elem?-before es.edge_infos (i ∷ []) j (get_elem?-lt es.edge_infos j k hk) ∙ hk;
        keeps_kind = λ k hk. absurd (beyond_last es.edge_infos k hk);
        keeps_details = λ k d hk hd. absurd (beyond_last es.edge_infos k hk);
      },
    )

merge_or_add-IsMerged :
    (s t : ℕ) (kind : EdgeKind) (ds : List EdgeDetail) (es : EdgeSet) (o : Option ℕ)
    → HasEnds es
    → lookup_pair s t es.edge_lookup ≡ o
    → (r : ℕ × EdgeSet) × (merge_or_add s t kind ds es o ≡ some r) × IsMerged es s t kind ds r.0 r.1
merge_or_add-IsMerged s t kind ds es none h e = added-IsMerged s t kind ds es h e
merge_or_add-IsMerged s t kind ds es (some idx) h e = known-IsMerged s t kind ds es idx h e

-- On a set whose map leads to the infos of the ends, `ensure_edge_in_graph` does not panic, and
-- the map of the set it leaves does so too, with the same numbers for all other pairs. If the map
-- had a number for the two symbols, the set has no info more, and the info at this number has the
-- old kind, all the old details and all those given; if not, the one info more is at the end and
-- joins the two symbols with the kind and the details given. All other infos stay, and the graph
-- is the old one with an edge of the number of the info ensured.
pub ensure_edge_in_graph-IsMerged :
    (p : Petgraph) (s t : ℕ) (kind : EdgeKind) (ds : List EdgeDetail) (es : EdgeSet)
    (graph : NamedGraph p)
    → HasEnds es
    → (ix : ℕ) × (after : EdgeSet) × (ensure_edge_in_graph p s t kind ds es graph
        ≡ some (after, ensure_edge p s t ix graph))
      × IsMerged es s t kind ds ix after
unfolding ensure_edge_in_graph
ensure_edge_in_graph-IsMerged p s t kind ds es graph h =
    let m = merge_or_add-IsMerged s t kind ds es (lookup_pair s t es.edge_lookup) h refl in
    (m.0.0, m.0.1, rw m.1 refl, m.2)

again_same :
    (p : Petgraph) (s t : ℕ) (first kind : EdgeKind) (ds : List EdgeDetail) (es : EdgeSet)
    (graph : NamedGraph p) (ix : ℕ) (before : EdgeSet)
    → IsMerged before s t first ds ix es
    → ensure_edge_in_graph p s t kind ds es graph ≡ some (es, ensure_edge p s t ix graph)
unfolding ensure_edge_in_graph
again_same p s t first kind ds es graph ix before m =
    let same : with_details ds m.info ≡ m.info =
      ap (λ l. record m.info { data_of = l }) (merge_details_known m.info.data_of ds m.given) in
    rw m.at (rw (update_info_same ix (with_details ds) es.edge_infos m.info m.found same) refl)

-- On a set whose map leads to the infos of the ends, a second call of `ensure_edge_in_graph` for
-- the same symbols and details, whatever its kind, leaves the set as the first call left it, and
-- ensures the same number in the graph.
pub ensure_edge_in_graph_twice :
    (p : Petgraph) (s t : ℕ) (kind again : EdgeKind) (ds : List EdgeDetail) (es : EdgeSet)
    (graph : NamedGraph p)
    → HasEnds es
    → (ix : ℕ) × (after : EdgeSet) × (ensure_edge_in_graph p s t kind ds es graph
        ≡ some (after, ensure_edge p s t ix graph))
      × (ensure_edge_in_graph p s t again ds after (ensure_edge p s t ix graph)
          ≡ some (after, ensure_edge p s t ix (ensure_edge p s t ix graph)))
ensure_edge_in_graph_twice p s t kind again ds es graph h =
    let m = ensure_edge_in_graph-IsMerged p s t kind ds es graph h in
    (m.0, m.1, m.2, again_same p s t kind again ds m.1 (ensure_edge p s t m.0 graph) m.0 es m.3)
