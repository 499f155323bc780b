-- ===== src/SymbolGraph/Edges.antt =====
-- SymbolGraphEdgeSet: what is known of the edges that graphs share, by number, and the numbers by
-- the ends; EdgeKind of tools/src/symbol_graph_edge_kind.rs. `none` is a panic.
pub mod Details
pub mod Ends
pub mod Merge
use mozsearch.Prelude.{
  ℕ, zero, suc, Bool, true, false, ◌&&◌, Option, none, some, List, [], ◌∷◌, ◌++◌, ◌==◌, list_eq,
  if◌then◌else◌, length, get_elem?,
}
use mozsearch.Prelude.Text.{◌>>=◌}
use mozsearch.SymbolGraph.Petgraph.{Petgraph}
use mozsearch.SymbolGraph.Named.{NamedGraph, ensure_edge}

pub data EdgeKind : Type 0 where
  default : EdgeKind
  inheritance : EdgeKind
  implementation : EdgeKind
  composition : EdgeKind
  aggregation : EdgeKind
  ipc : EdgeKind
  cross_language : EdgeKind

pub data EdgeDetail : Type 0 where
  jump : List ℕ → EdgeDetail
  hover_class : List ℕ → EdgeDetail

pub record EdgeInfo : Type 0 where
  pub from_id : ℕ
  pub to_id : ℕ
  pub kind : EdgeKind
  pub data_of : List EdgeDetail

pub record EdgeSet : Type 0 where
  pub edge_infos : List EdgeInfo
  pub edge_lookup : List ((ℕ × ℕ) × ℕ)

unfoldable pub no_edges : EdgeSet
no_edges = record { edge_infos = []; edge_lookup = [] }

abbrev pub detail_eq : EdgeDetail → EdgeDetail → Bool
detail_eq (jump a) (jump b) = list_eq a b
detail_eq (hover_class a) (hover_class b) = list_eq a b
detail_eq (jump a) (hover_class b) = false
detail_eq (hover_class a) (jump b) = false

abbrev pub has_detail : EdgeDetail → List EdgeDetail → Bool
has_detail d [] = false
has_detail d (x ∷ xs) = if detail_eq x d then true else has_detail d xs

-- The loop over the details that are given.
abbrev pub merge_details : List EdgeDetail → List EdgeDetail → List EdgeDetail
merge_details old [] = old
merge_details old (d ∷ ds) = merge_details (if has_detail d old then old else old ++ (d ∷ [])) ds

abbrev pub lookup_pair : ℕ → ℕ → List ((ℕ × ℕ) × ℕ) → Option ℕ
lookup_pair a b [] = none
lookup_pair a b (((x, y), v) ∷ m) = if x == a && y == b then some v else lookup_pair a b m

abbrev pub insert_pair : ℕ → ℕ → ℕ → List ((ℕ × ℕ) × ℕ) → List ((ℕ × ℕ) × ℕ)
insert_pair a b v [] = ((a, b), v) ∷ []
insert_pair a b v (((x, y), w) ∷ m) =
    if x == a && y == b then ((a, b), v) ∷ m else ((x, y), w) ∷ insert_pair a b v m

-- The info at a number is changed; `none` if there is none.
abbrev pub update_info : ℕ → (EdgeInfo → EdgeInfo) → List EdgeInfo → Option (List EdgeInfo)
update_info n f [] = none
update_info zero f (i ∷ is) = some (f i ∷ is)
update_info (suc n) f (i ∷ is) = update_info n f is >>= λ rest. some (i ∷ rest)

abbrev pub with_details : List EdgeDetail → EdgeInfo → EdgeInfo
with_details details info = record info { data_of = merge_details info.data_of details }

-- The number of an edge between two symbols, and the set with what is given of it.
abbrev pub merge_or_add :
    ℕ → ℕ → EdgeKind → List EdgeDetail → EdgeSet → Option ℕ → Option (ℕ × EdgeSet)
merge_or_add source target kind details es (some idx) =
    update_info idx (with_details details) es.edge_infos >>= λ infos.
    some (idx, record es { edge_infos = infos })
merge_or_add source target kind details es none =
    let index = length es.edge_infos in
    some (
      index,
      record {
        edge_infos =
            es.edge_infos
            ++ (record { from_id = source; to_id = target; kind = kind; data_of = details } ∷ []);
        edge_lookup = insert_pair source target index es.edge_lookup;
      },
    )

unfoldable pub ensure_edge_in_graph :
    (p : Petgraph)
    → ℕ
    → ℕ
    → EdgeKind
    → List EdgeDetail
    → EdgeSet
    → NamedGraph p
    → Option (EdgeSet × NamedGraph p)
ensure_edge_in_graph p source target kind details es graph =
    merge_or_add source target kind details es (lookup_pair source target es.edge_lookup) >>= λ r.
    some (r.1, ensure_edge p source target r.0 graph)
