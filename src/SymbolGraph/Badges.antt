-- ===== src/SymbolGraph/Badges.antt =====
-- The symbols of a graph and their badges: DerivedSymbolInfo, SymbolBadge, and label_to_badge_info
-- of tools/src/file_format/ontology_mapping.rs. A symbol is the number of its interned text, the
-- cross-reference information a parameter; a badge's `i32` priority is never negative here.
pub mod Labels
use mozsearch.Prelude.{
  ℕ, Bool, true, false, Option, none, some, List, [], ◌∷◌, list_eq, if◌then◌else◌, codes, ◌==◌,
}

pub record SymbolBadge : Type 0 where
  pub pri : ℕ
  pub label : List ℕ
  pub source_jump : Option (List ℕ)

pub record SymbolInfo (Info : Type 0) : Type 0 where
  pub symbol : ℕ
  pub crossref_info : Info
  pub badges : List SymbolBadge
  pub effective_subsystem : Option ℕ
  pub depth : ℕ

abbrev pub new_info : {Info : Type 0} → ℕ → Info → ℕ → SymbolInfo Info
new_info symbol crossref_info depth = record {
  symbol = symbol;
  crossref_info = crossref_info;
  badges = [];
  effective_subsystem = none;
  depth = depth;
}

abbrev pub has_prefix : List ℕ → List ℕ → Bool
has_prefix [] text = true
has_prefix (p ∷ ps) [] = false
has_prefix (p ∷ ps) (c ∷ cs) = if c == p then has_prefix ps cs else false

abbrev atom : List ℕ
atom = 0x269b ∷ 0xfe0f ∷ []

abbrev link : List ℕ
link = 0x1f517 ∷ []

abbrev chains : List ℕ
chains = 0x26d3 ∷ 0xfe0f ∷ []

-- `match label`
abbrev pub badge_of_label : List ℕ → ℕ × List ℕ
badge_of_label label =
    if list_eq label (codes "arc")
    then (10, atom)
    else if list_eq label (codes "atomic")
    then (10, atom)
    else if list_eq label (codes "cc")
    then (11, link)
    else if list_eq label (codes "ccrc")
    then (5, chains)
    else if list_eq label (codes "cc-trace")
    then (20, 0x1f517 ∷ 0x270f ∷ 0xfe0f ∷ [])
    else if list_eq label (codes "cc-traverse")
    then (21, 0x1f517 ∷ 0x1f50d ∷ [])
    else if list_eq label (codes "cc-unlink")
    then (22, 0x26d3 ∷ 0xfe0f ∷ 0x200d ∷ 0x1f4a5 ∷ [])
    else if list_eq label (codes "rc")
    then (11, 0x1f9ee ∷ [])
    else (100, label)

abbrev pub label_to_badge_info : List ℕ → Option (ℕ × List ℕ)
label_to_badge_info label =
    if has_prefix (codes "calls-diagram:") label
    then none
    else if has_prefix (codes "class-diagram:") label
    then none
    else if has_prefix (codes "uses-diagram:") label
    then none
    else some (badge_of_label label)

abbrev pub push_badge : Option (ℕ × List ℕ) → List SymbolBadge → List SymbolBadge
push_badge none badges = badges
push_badge (some (pri, label)) badges =
    record { pri = pri; label = label; source_jump = none } ∷ badges

-- The badges of the elements of the array `/meta/labels`, of which `none` is no string.
abbrev pub badges_of : List (Option (List ℕ)) → List SymbolBadge
badges_of [] = []
badges_of (none ∷ labels) = badges_of labels
badges_of (some label ∷ labels) = push_badge (label_to_badge_info label) (badges_of labels)

-- `none` is no array.
abbrev pub label_badges : Option (List (Option (List ℕ))) → List SymbolBadge
label_badges none = []
label_badges (some labels) = badges_of labels
