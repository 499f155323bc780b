-- ===== src/SymbolGraph/Propagate/Paths.antt =====
-- propagate_paths: the walk along the paths that were found, and how far the set of symbols grows.
use mozsearch.Prelude.{
  ℕ, suc, ◌+◌, ◌*◌, ◌-◌, ◌≤◌, ◌<◌, ◌≡◌, ◌⊎◌, refl, ap, subst, false, Option, some, List, [], ◌∷◌,
  leb, if-elim, length, get_elem?, drop, All, arith, Bool-cases, inl, inr,
}
use mozsearch.Prelude.Keys.{lookup_key}
use mozsearch.SymbolGraph.Petgraph.{Petgraph}
use mozsearch.SymbolGraph.Named.{NamedGraph}
use mozsearch.SymbolGraph.Badges.{SymbolInfo}
use mozsearch.SymbolGraph.Nodes.{NodeSet}
use mozsearch.SymbolGraph.Nodes.Invariant.{IsNodeSet}
use mozsearch.SymbolGraph.Edges.{EdgeInfo, EdgeSet}
use mozsearch.SymbolGraph.Propagate.{
  Target, is_suppressed, windows_from, windows, drop_last, inner_edges, walk_edge, walk_path,
  walk_paths,
}
use mozsearch.SymbolGraph.Propagate.Edge.{propagate_edge-IsPropagated}

above : (a b : ℕ) → leb a b ≡ false → b < a
above a b h = ground arith

windows_from-length : (x : ℕ) (xs : List ℕ) → length (windows_from x xs) ≡ length xs
windows_from-length x [] = refl
windows_from-length x (y ∷ xs) = ap suc (windows_from-length y xs)

windows-length : (xs : List ℕ) → length (windows xs) ≤ length xs - 1
windows-length [] = omega arith
windows-length (x ∷ xs) = omega (arith, windows_from-length x xs)

drop_last-length : (xs : List ℕ) → length (drop_last xs) ≡ length xs - 1
drop_last-length [] = refl
drop_last-length (x ∷ []) = refl
drop_last-length (x ∷ y ∷ xs) = omega (arith, drop_last-length (y ∷ xs))

drop-length_one : (xs : List ℕ) → length (drop 1 xs) ≡ length xs - 1
drop-length_one [] = refl
drop-length_one (x ∷ xs) = omega arith

-- The supernodes and the edges at them are not walked along.
pub inner_edges-length : (path : List ℕ) → length (inner_edges path) ≤ length path - 3
inner_edges-length path = omega (
  arith,
  windows-length (drop_last (drop 1 path)),
  drop_last-length (drop 1 path),
  drop-length_one path,
)

module _ {Info : Type 0} (meta_labels : Info → Option (List (Option (List ℕ)))) (p : Petgraph)
    (find_weight : p.Graph → ℕ → ℕ → Option ℕ) (old : NodeSet Info) (edge_set : EdgeSet)
    (g : NamedGraph p) where
  -- An edge of a path in the graph `g`: its ends have names, which are those of symbols, and its
  -- number is that of an edge's info.
  pub record IsStep (step : ℕ × ℕ) : Type 0 where
    pub source_id : ℕ
    pub target_id : ℕ
    pub edge_id : ℕ
    pub source_info : SymbolInfo Info
    pub target_info : SymbolInfo Info
    pub edge_info : EdgeInfo
    pub source_named : lookup_key step.0 g.node_ix_to_id ≡ some source_id
    pub target_named : lookup_key step.1 g.node_ix_to_id ≡ some target_id
    pub has_edge : find_weight g.graph step.0 step.1 ≡ some edge_id
    pub has_source : get_elem? old.symbol_crossref_infos source_id ≡ some source_info
    pub has_target : get_elem? old.symbol_crossref_infos target_id ≡ some target_info
    pub has_info : get_elem? edge_set.edge_infos edge_id ≡ some edge_info

  abbrev pub size : Target Info p → ℕ
  size new = length new.symbols.symbol_crossref_infos

  -- The new set agrees, keeps the symbols it has, and has at most `k` more.
  pub record Grown (k : ℕ) (before after : Target Info p) : Type 0 where
    pub is_set : IsNodeSet after.symbols
    pub at_most : size after ≤ k + size before
    pub keeps :
        (i : ℕ) (info : SymbolInfo Info)
        → get_elem? before.symbols.symbol_crossref_infos i ≡ some info
        → get_elem? after.symbols.symbol_crossref_infos i ≡ some info

  Grown-then : (k l : ℕ) (a b c : Target Info p) → Grown k a b → Grown l b c → Grown (k + l) a c
  Grown-then k l a b c x y = record {
    is_set = y.is_set;
    at_most = omega (arith, x.at_most, y.at_most);
    keeps = λ i info h. y.keeps i info (x.keeps i info h);
  }

  Grown-same : (k : ℕ) (a : Target Info p) → IsNodeSet a.symbols → Grown k a a
  Grown-same k a n = record { is_set = n; at_most = omega arith; keeps = λ i info h. h }

  abbrev Walked : ℕ → Target Info p → Option (List (ℕ × ℕ) × Target Info p) → Type 0
  Walked k before o = (st : List (ℕ × ℕ) × Target Info p) × (o ≡ some st) × Grown k before st.1

  module _ (add_edge : ℕ → ℕ → ℕ → p.Graph → p.Graph)
      (all_simple_paths : p.Graph → ℕ → ℕ → ℕ → List (List ℕ)) where
    abbrev edge_walk : ℕ × ℕ → List (ℕ × ℕ) × Target Info p → Option (List (ℕ × ℕ) × Target Info p)
    edge_walk e st =
        walk_edge meta_labels p add_edge find_weight all_simple_paths old edge_set g e st

    walk_edge-Walked :
        (e : ℕ × ℕ) (suppression : List (ℕ × ℕ)) (new : Target Info p)
        → IsStep e
        → IsNodeSet new.symbols
        → Walked 2 new (edge_walk e (suppression, new))
    walk_edge-Walked e suppression new s n =
        let m =
          propagate_edge-IsPropagated meta_labels p old edge_set s.source_id s.target_id s.edge_id
            new s.source_info s.target_info s.edge_info n s.has_source s.has_target s.has_info in
        let i = m.2 in
        if-elim (Walked 2 new) (is_suppressed e.0 e.1 suppression)
          (λ q. ((suppression, new), refl, Grown-same 2 new n))
          (λ q. (
            (e ∷ suppression, m.0),
            rw s.source_named (rw s.target_named (rw s.has_edge (rw m.1 refl))),
            record { is_set = i.has_source.is_set; at_most = i.grows; keeps = i.has_source.keeps },
          ))

    walk_path-Walked :
        (es : List (ℕ × ℕ)) (suppression : List (ℕ × ℕ)) (new : Target Info p)
        → All IsStep es
        → IsNodeSet new.symbols
        → Walked (2 * length es) new (
            walk_path meta_labels p add_edge find_weight all_simple_paths old edge_set g es
              (suppression, new))
    walk_path-Walked [] suppression new s n = ((suppression, new), refl, Grown-same 0 new n)
    walk_path-Walked (e ∷ es) suppression new (s, ss) n =
        let m = walk_edge-Walked e suppression new s n in
        let l = walk_path-Walked es m.0.0 m.0.1 ss m.2.is_set in
        (
          l.0,
          rw m.1 l.1,
          subst (λ k. Grown k new l.0.1) (omega arith)
              (Grown-then 2 (2 * length es) new m.0.1 l.0.1 m.2 l.2),
        )

    -- The set keeps its symbols and agrees, and is below the limit and what one path adds, or has
    -- no more than one path adds to what was there.
    pub record Limited (limit k : ℕ) (before after : Target Info p) : Type 0 where
      pub is_set : IsNodeSet after.symbols
      pub bounded : (size after < limit + k) ⊎ (size after ≤ size before + k)
      pub keeps :
          (i : ℕ) (info : SymbolInfo Info)
          → get_elem? before.symbols.symbol_crossref_infos i ≡ some info
          → get_elem? after.symbols.symbol_crossref_infos i ≡ some info

    pub record IsShort (k : ℕ) (path : List ℕ) : Type 0 where
      pub steps : All IsStep (inner_edges path)
      pub few : 2 * length (inner_edges path) ≤ k

    pub walk_paths-Limited :
        (limit k : ℕ) (paths : List (List ℕ)) (suppression : List (ℕ × ℕ)) (new : Target Info p)
        → All (IsShort k) paths
        → IsNodeSet new.symbols
        → (after : Target Info p) × (walk_paths meta_labels p add_edge find_weight all_simple_paths
              old edge_set g limit paths
              (suppression, new)
            ≡ some after)
          × Limited limit k new after
    walk_paths-Limited limit k [] suppression new s n =
        (new, refl, record { is_set = n; bounded = inr (omega arith); keeps = λ i info h. h })
    walk_paths-Limited limit k (path ∷ paths) suppression new (s, ss) n =
        let m = walk_path-Walked (inner_edges path) suppression new s.steps n in
        let l = walk_paths-Limited limit k paths m.0.0 m.0.1 ss m.2.is_set in
        elim (Bool-cases (leb limit (size m.0.1))) [
          | inl q ↦ (
            m.0.1,
            rw m.1 (rw q refl),
            record {
              is_set = m.2.is_set;
              bounded = inr (omega (arith, m.2.at_most, s.few));
              keeps = m.2.keeps;
            },
          )
          | inr q ↦ (
            l.0,
            rw m.1 (rw q l.1),
            record {
              is_set = l.2.is_set;
              bounded = elim l.2.bounded [
                | inl b ↦ inl b
                | inr b ↦ inl (omega (arith, b, m.2.at_most, s.few, above limit (size m.0.1) q))
              ];
              keeps = λ i info h. l.2.keeps i info (m.2.keeps i info h);
            },
          )
        ]
