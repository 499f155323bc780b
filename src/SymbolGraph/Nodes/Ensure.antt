-- ===== src/SymbolGraph/Nodes/Ensure.antt =====
-- SymbolGraphNodeSet: ensure_symbol and propagate_sym, with a server that may fail.
use mozsearch.Prelude.{
  ℕ, ◌≡◌, refl, Option, none, some, List, [], ◌∷◌, ◌++◌, ◌≤◌, suc, length, length-append, get_elem?,
  arith,
}
use mozsearch.Prelude.Text.{◌>>=◌}
use mozsearch.Prelude.Keys.{lookup_key, lookup_key-insert_same, get_elem?-last}
use mozsearch.SymbolGraph.Badges.{SymbolBadge, SymbolInfo, new_info, label_badges}
use mozsearch.SymbolGraph.Badges.Labels.{AreBadgesOf, label_badges-AreBadgesOf}
use mozsearch.SymbolGraph.Nodes.{
  NodeSet, EnsureResult, ensured, server_error, checked, added, get_info, no_symbols, with_badges,
  add_symbol, known_or_added, ensure_symbol, index_or_added, propagate_sym,
}
use mozsearch.SymbolGraph.Nodes.Invariant.{IsNodeSet, Holds, known-Holds, add_symbol-Holds}

-- What comes of `ensure_symbol`: the set as it was, with the symbol in it; the set with the symbol
-- at its end and nothing else added; or the server's error, if the symbol is not known.
pub data IsEnsured {Info : Type 0} (meta_labels : Info → Option (List (Option (List ℕ)))) (s : ℕ)
    (server : ℕ → Option Info) (depth : ℕ) (ns : NodeSet Info) : EnsureResult Info → Type 0 where
  was_known :
      {ix : ℕ}
      → lookup_key s ns.symbol_to_index_map ≡ some ix
      → Holds ns s ix ns
      → IsEnsured meta_labels s server depth ns (ensured ix ns)
  was_added :
      {ix : ℕ} {after : NodeSet Info} (info : Info) (badges : List SymbolBadge)
      → lookup_key s ns.symbol_to_index_map ≡ none
      → server s ≡ some info
      → Holds ns s ix after
      → ix ≡ length ns.symbol_crossref_infos
      → AreBadgesOf (meta_labels info) badges
      → after.symbol_crossref_infos
        ≡ ns.symbol_crossref_infos
          ++ (record {
            symbol = s;
            crossref_info = info;
            badges = badges;
            effective_subsystem = none;
            depth = depth;
          }
              ∷ [])
      → lookup_key s after.symbol_to_index_map ≡ some ix
      → IsEnsured meta_labels s server depth ns (ensured ix after)
  failed :
      lookup_key s ns.symbol_to_index_map ≡ none
      → server s ≡ none
      → IsEnsured meta_labels s server depth ns server_error

module _ {Info : Type 0} (meta_labels : Info → Option (List (Option (List ℕ)))) where
  checked-IsEnsured :
      (s : ℕ) (server : ℕ → Option Info) (depth : ℕ) (ns : NodeSet Info) (ix : ℕ)
      → lookup_key s ns.symbol_to_index_map ≡ some ix
      → Holds ns s ix ns
      → IsEnsured meta_labels s server depth ns
          (checked meta_labels ix (get_elem? ns.symbol_crossref_infos ix) ns)
  checked-IsEnsured s server depth ns ix e h = rw h.found.1 (was_known e h)

  added-IsEnsured :
      (s : ℕ) (server : ℕ → Option Info) (depth : ℕ) (ns : NodeSet Info) (o : Option Info)
      → IsNodeSet ns
      → lookup_key s ns.symbol_to_index_map ≡ none
      → server s ≡ o
      → IsEnsured meta_labels s server depth ns (added meta_labels s depth o ns)
  unfolding add_symbol
  added-IsEnsured s server depth ns none n e h = failed e h
  added-IsEnsured s server depth ns (some info) n e h =
      let here = new_info s info depth in
      was_added info (label_badges (meta_labels info)) e h
        (add_symbol-Holds meta_labels here ns n e) refl
        (label_badges-AreBadgesOf (meta_labels info)) refl
        (lookup_key-insert_same s (length ns.symbol_crossref_infos) ns.symbol_to_index_map)

  known_or_added-IsEnsured :
      (s : ℕ) (server : ℕ → Option Info) (depth : ℕ) (ns : NodeSet Info) (o : Option ℕ)
      → IsNodeSet ns
      → lookup_key s ns.symbol_to_index_map ≡ o
      → IsEnsured meta_labels s server depth ns (known_or_added meta_labels s server depth ns o)
  known_or_added-IsEnsured s server depth ns none n e =
      added-IsEnsured s server depth ns (server s) n e refl
  known_or_added-IsEnsured s server depth ns (some ix) n e =
      checked-IsEnsured s server depth ns ix e (known-Holds s ix ns n e)

  -- On a set whose list and map agree, `ensure_symbol` never reports that they do not, and the set
  -- that it leaves agrees again. A known symbol leaves the set as it is, and its number is given.
  -- For one that is not known the server's error is given; or the set has one info more, at its
  -- end, with the symbol, the server's answer, the depth given, no subsystem, and a badge for each
  -- of its labels that is a string and asks for no diagram, all other infos stay, and the map has
  -- the number of the new info, which is given.
  pub ensure_symbol-IsEnsured :
      (s : ℕ) (server : ℕ → Option Info) (depth : ℕ) (ns : NodeSet Info)
      → IsNodeSet ns
      → IsEnsured meta_labels s server depth ns (ensure_symbol meta_labels s server depth ns)
  unfolding ensure_symbol
  ensure_symbol-IsEnsured s server depth ns n =
      known_or_added-IsEnsured s server depth ns (lookup_key s ns.symbol_to_index_map) n refl

  index_or_added-Holds :
      (info : SymbolInfo Info) (ns : NodeSet Info) (o : Option ℕ)
      → IsNodeSet ns
      → lookup_key info.symbol ns.symbol_to_index_map ≡ o
      → Holds ns info.symbol
          (index_or_added meta_labels info ns o).0
          (index_or_added meta_labels info ns o).1
  index_or_added-Holds info ns none n e = add_symbol-Holds meta_labels info ns n e
  index_or_added-Holds info ns (some ix) n e = known-Holds info.symbol ix ns n e

  index_or_added-length :
      (info : SymbolInfo Info) (ns : NodeSet Info) (o : Option ℕ)
      → length (index_or_added meta_labels info ns o).1.symbol_crossref_infos
        ≤ suc (length ns.symbol_crossref_infos)
  unfolding add_symbol
  index_or_added-length info ns none =
      omega (arith, length-append ns.symbol_crossref_infos (with_badges meta_labels info ∷ []))
  index_or_added-length info ns (some ix) = omega arith

  pub propagate_sym-Holds :
      (old : NodeSet Info) (node_id : ℕ) (info : SymbolInfo Info) (ns : NodeSet Info)
      → IsNodeSet ns
      → get_elem? old.symbol_crossref_infos node_id ≡ some info
      → (r : ℕ × NodeSet Info) × (propagate_sym meta_labels old node_id ns ≡ some r)
        × Holds ns info.symbol r.0 r.1
        × (length r.1.symbol_crossref_infos ≤ suc (length ns.symbol_crossref_infos))
  unfolding propagate_sym get_info
  propagate_sym-Holds old node_id info ns n e =
      let o = lookup_key info.symbol ns.symbol_to_index_map in
      (
        index_or_added meta_labels info ns o,
        rw e refl,
        index_or_added-Holds info ns o n refl,
        index_or_added-length info ns o,
      )

  -- A symbol that is added to a set and then copied to an empty one by `propagate_sym` has the
  -- badges of its labels twice, behind those that it came with.
  pub propagate_sym-add_symbol :
      (info : SymbolInfo Info) (ns : NodeSet Info)
      → (propagate_sym meta_labels
            (add_symbol meta_labels info ns).1
            (add_symbol meta_labels info ns).0
            no_symbols
          >>= λ r. get_info r.1 r.0 >>= λ copy. some copy.badges)
        ≡ some (
            (info.badges ++ label_badges (meta_labels info.crossref_info))
            ++ label_badges (meta_labels info.crossref_info))
  unfolding propagate_sym get_info add_symbol no_symbols
  propagate_sym-add_symbol info ns =
      rw (get_elem?-last ns.symbol_crossref_infos (with_badges meta_labels info)) refl
