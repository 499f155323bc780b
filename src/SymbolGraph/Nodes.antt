-- ===== src/SymbolGraph/Nodes.antt =====
-- SymbolGraphNodeSet: the symbols that graphs share, by number, and the numbers by symbol. A
-- SymbolGraphNodeId is its number; `none` is the panic of an `unwrap`. Indices are below 2^32.
pub mod Invariant
pub mod Ensure
use mozsearch.Prelude.{
  ℕ, Bool, true, false, Option, none, some, List, [], ◌∷◌, ◌++◌, ltb, if◌then◌else◌, length,
  get_elem?,
}
use mozsearch.Prelude.Text.{◌>>=◌}
use mozsearch.Prelude.Keys.{lookup_key, insert_key}
use mozsearch.SymbolGraph.Badges.{SymbolInfo, new_info, label_badges}

pub record NodeSet (Info : Type 0) : Type 0 where
  pub symbol_crossref_infos : List (SymbolInfo Info)
  pub symbol_to_index_map : List (ℕ × ℕ)

-- `Ok` with the number and the set, or one of the two errors.
pub data EnsureResult (Info : Type 0) : Type 0 where
  ensured : ℕ → NodeSet Info → EnsureResult Info
  desynchronized : EnsureResult Info
  server_error : EnsureResult Info

module _ {Info : Type 0} where
  unfoldable pub no_symbols : NodeSet Info
  no_symbols = record { symbol_crossref_infos = []; symbol_to_index_map = [] }

  unfoldable pub get_info : NodeSet Info → ℕ → Option (SymbolInfo Info)
  get_info ns node_id = get_elem? ns.symbol_crossref_infos node_id

  abbrev pub min_depth_from : ℕ → NodeSet Info → List ℕ → Option ℕ
  min_depth_from min_depth ns [] = some min_depth
  min_depth_from min_depth ns (sym_id ∷ nodes) = get_info ns sym_id >>= λ info.
      min_depth_from (if ltb info.depth min_depth then info.depth else min_depth) ns nodes

  unfoldable pub get_min_depth_for_symbols : NodeSet Info → List ℕ → Option ℕ
  get_min_depth_for_symbols ns nodes = min_depth_from 13 ns nodes

  abbrev pub at_index : NodeSet Info → Option ℕ → Option (ℕ × SymbolInfo Info)
  at_index ns none = none
  at_index ns (some index) = get_elem? ns.symbol_crossref_infos index >>= λ info. some (index, info)

  unfoldable pub lookup_symbol : NodeSet Info → ℕ → Option (ℕ × SymbolInfo Info)
  lookup_symbol ns symbol = at_index ns (lookup_key symbol ns.symbol_to_index_map)

  module _ (meta_labels : Info → Option (List (Option (List ℕ)))) where
    abbrev pub with_badges : SymbolInfo Info → SymbolInfo Info
    with_badges info = record info {
      badges = info.badges ++ label_badges (meta_labels info.crossref_info);
    }

    unfoldable pub add_symbol : SymbolInfo Info → NodeSet Info → ℕ × NodeSet Info
    add_symbol info ns =
        let index = length ns.symbol_crossref_infos in
        (
          index,
          record {
            symbol_crossref_infos = ns.symbol_crossref_infos ++ (with_badges info ∷ []);
            symbol_to_index_map = insert_key info.symbol index ns.symbol_to_index_map;
          },
        )

    abbrev pub checked : ℕ → Option (SymbolInfo Info) → NodeSet Info → EnsureResult Info
    checked index none ns = desynchronized
    checked index (some info) ns = ensured index ns

    abbrev pub added : ℕ → ℕ → Option Info → NodeSet Info → EnsureResult Info
    added sym depth none ns = server_error
    added sym depth (some info) ns =
        let (index, ns1) = add_symbol (new_info sym info depth) ns in ensured index ns1

    -- `server` is `crossref_lookup`, which has `none` for an error.
    abbrev pub known_or_added :
        ℕ → (ℕ → Option Info) → ℕ → NodeSet Info → Option ℕ → EnsureResult Info
    known_or_added sym server depth ns (some index) =
        checked index (get_elem? ns.symbol_crossref_infos index) ns
    known_or_added sym server depth ns none = added sym depth (server sym) ns

    unfoldable pub ensure_symbol : ℕ → (ℕ → Option Info) → ℕ → NodeSet Info → EnsureResult Info
    ensure_symbol sym server depth ns =
        known_or_added sym server depth ns (lookup_key sym ns.symbol_to_index_map)

    abbrev pub index_or_added : SymbolInfo Info → NodeSet Info → Option ℕ → ℕ × NodeSet Info
    index_or_added info new_set (some index) = (index, new_set)
    index_or_added info new_set none = add_symbol info new_set

    unfoldable pub propagate_sym : NodeSet Info → ℕ → NodeSet Info → Option (ℕ × NodeSet Info)
    propagate_sym old node_id new_set = get_info old node_id >>= λ info.
        some (index_or_added info new_set (lookup_key info.symbol new_set.symbol_to_index_map))
