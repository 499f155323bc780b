-- ===== src/SymbolGraph/Nodes/Invariant.antt =====
-- SymbolGraphNodeSet: its list and its map agree, and what a set promises of a symbol that is added
-- or propagated.
use mozsearch.Prelude.{
  ℕ, ◌≡◌, refl, sym, ap, subst, ◌∙◌, false, Option, none, some, List, [], ◌∷◌, ◌++◌, ◌==◌, ==_iff,
  length, get_elem?, Bool-cases, inl, inr,
}
use mathlib.Core.Option.{some-injective, none-ne-some}
use mozsearch.Prelude.Keys.{
  lookup_key, insert_key, lookup_key-insert_same, lookup_key-insert_other, get_elem?-last,
  get_elem?-not_last, get_elem?-before, get_elem?-lt,
}
use mozsearch.SymbolGraph.Badges.{SymbolInfo}
use mozsearch.SymbolGraph.Nodes.{NodeSet, no_symbols, with_badges, add_symbol}

-- Each number that the map has for a symbol is that of an info of the symbol, and the other way
-- around: so a symbol has one info.
pub record IsNodeSet {Info : Type 0} (ns : NodeSet Info) : Type 0 where
  pub by_symbol :
      (s ix : ℕ)
      → lookup_key s ns.symbol_to_index_map ≡ some ix
      → (info : SymbolInfo Info) × (get_elem? ns.symbol_crossref_infos ix ≡ some info)
        × (info.symbol ≡ s)
  pub by_index :
      (ix : ℕ) (info : SymbolInfo Info)
      → get_elem? ns.symbol_crossref_infos ix ≡ some info
      → lookup_key info.symbol ns.symbol_to_index_map ≡ some ix

-- The set `after` has the symbol `s` at the number `ix`, and all that the set `before` has.
pub record Holds {Info : Type 0} (before : NodeSet Info) (s ix : ℕ) (after : NodeSet Info)
    : Type 0 where
  pub is_set : IsNodeSet after
  pub found :
      (info : SymbolInfo Info) × (get_elem? after.symbol_crossref_infos ix ≡ some info)
      × (info.symbol ≡ s)
  pub keeps :
      (i : ℕ) (info : SymbolInfo Info)
      → get_elem? before.symbol_crossref_infos i ≡ some info
      → get_elem? after.symbol_crossref_infos i ≡ some info

module _ {Info : Type 0} where
  pub no_symbols-IsNodeSet : IsNodeSet (no_symbols {Info = Info})
  unfolding no_symbols
  no_symbols-IsNodeSet = record {
    by_symbol = λ s ix h. absurd (none-ne-some ix h);
    by_index = λ ix info h. absurd (none-ne-some info h);
  }

  -- A symbol that the map has is there.
  pub known-Holds :
      (s ix : ℕ) (ns : NodeSet Info)
      → IsNodeSet ns
      → lookup_key s ns.symbol_to_index_map ≡ some ix
      → Holds ns s ix ns
  known-Holds s ix ns n h = record { is_set = n; found = n.by_symbol s ix h; keeps = λ i info e. e }

  module _ (meta_labels : Info → Option (List (Option (List ℕ)))) where
    other_symbol :
        (s : ℕ) (ns : NodeSet Info) (ix : ℕ) (info : SymbolInfo Info)
        → IsNodeSet ns
        → lookup_key s ns.symbol_to_index_map ≡ none
        → get_elem? ns.symbol_crossref_infos ix ≡ some info
        → (s == info.symbol) ≡ false
    other_symbol s ns ix info n e h = elim (Bool-cases (s == info.symbol)) [
      | inl q ↦ absurd (
          none-ne-some ix (
            sym e
            ∙ subst (λ x. lookup_key x ns.symbol_to_index_map ≡ some ix)
                (sym ((==_iff s info.symbol).0 q)) (n.by_index ix info h)))
      | inr q ↦ q
    ]

    added-IsNodeSet :
        (info : SymbolInfo Info) (ns : NodeSet Info)
        → IsNodeSet ns
        → lookup_key info.symbol ns.symbol_to_index_map ≡ none
        → IsNodeSet (add_symbol meta_labels info ns).1
    unfolding add_symbol
    added-IsNodeSet info ns n e =
        let infos = ns.symbol_crossref_infos in
        let size = length infos in
        let here = with_badges meta_labels info in
        record {
          by_symbol = λ s ix h. elim (Bool-cases (info.symbol == s)) [
            | inl q ↦
                let same : info.symbol ≡ s = (==_iff info.symbol s).0 q in
                let at : size ≡ ix = some-injective size ix (
                  sym (lookup_key-insert_same info.symbol size ns.symbol_to_index_map)
                  ∙ subst
                      (λ x.
                        lookup_key x (insert_key info.symbol size ns.symbol_to_index_map) ≡ some ix)
                      (sym same) h) in
                (
                  here,
                  subst (λ i. get_elem? (infos ++ (here ∷ [])) i ≡ some here) at
                      (get_elem?-last infos here),
                  same,
                )
            | inr q ↦
                let old =
                  n.by_symbol s ix (
                    sym (lookup_key-insert_other s info.symbol size ns.symbol_to_index_map q)
                    ∙ h) in
                (
                  old.0,
                  get_elem?-before infos (here ∷ []) ix (get_elem?-lt infos ix old.0 old.1) ∙ old.1,
                  old.2,
                )
          ];
          by_index = λ ix k h. elim (Bool-cases (size == ix)) [
            | inl q ↦
                let same : size ≡ ix = (==_iff size ix).0 q in
                let this : here ≡ k = some-injective here k (
                  sym (get_elem?-last infos here)
                  ∙ subst (λ i. get_elem? (infos ++ (here ∷ [])) i ≡ some k) (sym same) h) in
                subst
                  (λ x.
                    lookup_key x.symbol (insert_key info.symbol size ns.symbol_to_index_map)
                    ≡ some ix)
                  this
                  (lookup_key-insert_same info.symbol size ns.symbol_to_index_map ∙ ap some same)
            | inr q ↦
                let old : get_elem? infos ix ≡ some k =
                  sym (get_elem?-not_last infos here ix q) ∙ h in
                lookup_key-insert_other k.symbol info.symbol size ns.symbol_to_index_map
                  (other_symbol info.symbol ns ix k n e old)
                ∙ n.by_index ix k old
          ];
        }

    -- A symbol that the map does not have is put at the end.
    pub add_symbol-Holds :
        (info : SymbolInfo Info) (ns : NodeSet Info)
        → IsNodeSet ns
        → lookup_key info.symbol ns.symbol_to_index_map ≡ none
        → Holds ns info.symbol (add_symbol meta_labels info ns).0 (add_symbol meta_labels info ns).1
    unfolding add_symbol
    add_symbol-Holds info ns n e =
        let infos = ns.symbol_crossref_infos in
        let here = with_badges meta_labels info in
        record {
          is_set = added-IsNodeSet info ns n e;
          found = (here, get_elem?-last infos here, refl);
          keeps = λ i k h. get_elem?-before infos (here ∷ []) i (get_elem?-lt infos i k h) ∙ h;
        }
