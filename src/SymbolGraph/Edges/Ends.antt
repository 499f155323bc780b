-- ===== src/SymbolGraph/Edges/Ends.antt =====
-- SymbolGraphEdgeSet: the map from the ends leads to the infos, and what a merge promises.
use mozsearch.Prelude.{
  ℕ, zero, suc, ◌≡◌, refl, sym, ap, subst, ◌∙◌, true, false, ◌&&◌, none, some, List, [], ◌∷◌, ◌++◌,
  ◌==◌, length, get_elem?, arith, Bool-cases, inl, inr, ==_iff,
}
use mathlib.Core.Option.{some-injective, none-ne-some}
use mozsearch.Prelude.Keys.{get_elem?-last, get_elem?-before, get_elem?-lt}
use mozsearch.SymbolGraph.Edges.{
  EdgeKind, EdgeDetail, EdgeInfo, EdgeSet, no_edges, has_detail, lookup_pair, insert_pair,
  update_info, with_details,
}
use mozsearch.SymbolGraph.Edges.Details.{
  AllIn, lookup_pair-insert_same, lookup_pair-insert_other, IsUpdated, pair_eq,
}

pub update_info-IsUpdated :
    (n : ℕ) (f : EdgeInfo → EdgeInfo) (infos : List EdgeInfo) (i : EdgeInfo)
    → get_elem? infos n ≡ some i
    → (after : List EdgeInfo) × (update_info n f infos ≡ some after) × IsUpdated n f infos after
update_info-IsUpdated n f [] i h = absurd (none-ne-some i h)
update_info-IsUpdated zero f (x ∷ infos) i h = (
  f x ∷ infos,
  refl,
  record { here = λ j e. ap some (ap f (some-injective x j e)); others = others; same_size = refl },
)
  where
    others : (m : ℕ) → (m == 0) ≡ false → get_elem? (f x ∷ infos) m ≡ get_elem? (x ∷ infos) m
    others zero e = ground arith
    others (suc m) e = refl
update_info-IsUpdated (suc n) f (x ∷ infos) i h =
    let m = update_info-IsUpdated n f infos i h in
    (
      x ∷ m.0,
      rw m.1 refl,
      record { here = m.2.here; others = others m.0 m.2; same_size = ap suc m.2.same_size },
    )
  where
    others :
        (after : List EdgeInfo)
        → IsUpdated n f infos after
        → (k : ℕ) → (k == suc n) ≡ false
        → get_elem? (x ∷ after) k ≡ get_elem? (x ∷ infos) k
    others after u zero e = refl
    others after u (suc k) e = u.others k (ground arith)

pub update_info_same :
    (n : ℕ) (f : EdgeInfo → EdgeInfo) (infos : List EdgeInfo) (i : EdgeInfo)
    → get_elem? infos n ≡ some i
    → f i ≡ i
    → update_info n f infos ≡ some infos
update_info_same n f [] i h e = absurd (none-ne-some i h)
update_info_same zero f (x ∷ infos) i h e =
    let same : x ≡ i = some-injective x i h in rw same (rw e refl)
update_info_same (suc n) f (x ∷ infos) i h e = rw (update_info_same n f infos i h e) refl

-- The number that the map has for a pair is that of an info with these ends.
pub record HasEnds (es : EdgeSet) : Type 0 where
  pub by_ends :
      (s t ix : ℕ)
      → lookup_pair s t es.edge_lookup ≡ some ix
      → (info : EdgeInfo) × (get_elem? es.edge_infos ix ≡ some info)
        × (info.from_id ≡ s)
        × (info.to_id ≡ t)

pub no_edges-HasEnds : HasEnds no_edges
unfolding no_edges
no_edges-HasEnds = record { by_ends = λ s t ix h. absurd (none-ne-some ix h) }

-- The set `after` has an info between the two symbols with the details given, at the number that
-- `before` has for them, with no more infos then, or else at the end, with the kind given; what
-- `before` has at other numbers and for other pairs is kept, and what it has of this edge stays,
-- with all its details.
pub record IsMerged (before : EdgeSet) (s t : ℕ) (kind : EdgeKind) (ds : List EdgeDetail) (ix : ℕ)
    (after : EdgeSet) : Type 0 where
  pub known :
      (n : ℕ)
      → lookup_pair s t before.edge_lookup ≡ some n
      → (ix ≡ n) × (length after.edge_infos ≡ length before.edge_infos)
  pub new :
      lookup_pair s t before.edge_lookup ≡ none
      → (ix ≡ length before.edge_infos)
        × (after.edge_infos
            ≡ before.edge_infos
              ++ (record { from_id = s; to_id = t; kind = kind; data_of = ds } ∷ []))
  pub other_pairs :
      (a b : ℕ)
      → (s == a && t == b) ≡ false
      → lookup_pair a b after.edge_lookup ≡ lookup_pair a b before.edge_lookup
  pub has_ends : HasEnds after
  pub at : lookup_pair s t after.edge_lookup ≡ some ix
  pub info : EdgeInfo
  pub found : get_elem? after.edge_infos ix ≡ some info
  pub given : AllIn ds info.data_of
  pub keeps :
      (i : ℕ) (old : EdgeInfo)
      → get_elem? before.edge_infos i ≡ some old
      → (i == ix) ≡ false
      → get_elem? after.edge_infos i ≡ some old
  pub keeps_kind :
      (old : EdgeInfo) → get_elem? before.edge_infos ix ≡ some old → info.kind ≡ old.kind
  pub keeps_details :
      (old : EdgeInfo) (d : EdgeDetail)
      → get_elem? before.edge_infos ix ≡ some old
      → has_detail d old.data_of ≡ true
      → has_detail d info.data_of ≡ true

-- A change that keeps the ends keeps what the map says.
pub updated-HasEnds :
    (es : EdgeSet) (idx : ℕ) (ds : List EdgeDetail) (after : List EdgeInfo)
    → HasEnds es
    → IsUpdated idx (with_details ds) es.edge_infos after
    → HasEnds (record es { edge_infos = after })
updated-HasEnds es idx ds after h u = record {
  by_ends = λ s t ix e.
      let old = h.by_ends s t ix e in
      elim (Bool-cases (ix == idx)) [
        | inl q ↦
            let same : ix ≡ idx = (==_iff ix idx).0 q in
            let here : get_elem? after idx ≡ some (with_details ds old.0) =
              u.here old.0 (subst (λ i. get_elem? es.edge_infos i ≡ some old.0) same old.1) in
            (
              with_details ds old.0,
              subst (λ i. get_elem? after i ≡ some (with_details ds old.0)) (sym same) here,
              old.2,
              old.3,
            )
        | inr q ↦ (old.0, u.others ix q ∙ old.1, old.2, old.3)
      ];
}

pub added-HasEnds :
    (s t : ℕ) (i : EdgeInfo) (es : EdgeSet)
    → HasEnds es
    → i.from_id ≡ s
    → i.to_id ≡ t
    → HasEnds (record {
      edge_infos = es.edge_infos ++ (i ∷ []);
      edge_lookup = insert_pair s t (length es.edge_infos) es.edge_lookup;
    })
added-HasEnds s t i es h es_s es_t = record {
  by_ends = λ a b ix e.
      let size = length es.edge_infos in
      elim (Bool-cases (s == a && t == b)) [
        | inl q ↦
            let same = pair_eq s t a b q in
            let at : size ≡ ix = some-injective size ix (
              sym (lookup_pair-insert_same s t size es.edge_lookup)
              ∙ subst (λ x. lookup_pair x t (insert_pair s t size es.edge_lookup) ≡ some ix)
                  (sym same.0)
                  (subst (λ x. lookup_pair a x (insert_pair s t size es.edge_lookup) ≡ some ix)
                    (sym same.1) e)) in
            (
              i,
              subst (λ n. get_elem? (es.edge_infos ++ (i ∷ [])) n ≡ some i) at
                  (get_elem?-last es.edge_infos i),
              es_s ∙ same.0,
              es_t ∙ same.1,
            )
        | inr q ↦
            let old =
              h.by_ends a b ix (sym (lookup_pair-insert_other s t a b size es.edge_lookup q) ∙ e) in
            (
              old.0,
              get_elem?-before es.edge_infos (i ∷ []) ix (get_elem?-lt es.edge_infos ix old.0 old.1)
                  ∙ old.1,
              old.2,
              old.3,
            )
      ];
}
