-- ===== src/Analysis/Source.antt =====
-- tools/src/file_format/analysis.rs: AnalysisSource and its merge. A text is the list of its code
-- points; a map is an association list with one entry for each key. `unique` of the crate
-- itertools is the parameter `unique`. `none` is a panic.
use mozsearch.Prelude.{
  ℕ, Bool, true, false, Option, none, some, List, [], ◌∷◌, ◌++◌, ltb, list_eq, if◌then◌else◌,
  length, replicate,
}
use mozsearch.Prelude.Text.{◌>>=◌}
use mozsearch.Analysis.Locations.{SourceRange}

abbrev pub Text : Type 0
Text = List ℕ

pub data ConfidenceLevel : Type 0 where
  cpp_template_heuristic concrete : ConfidenceLevel

-- `max` of the derived order.
abbrev pub max : ConfidenceLevel → ConfidenceLevel → ConfidenceLevel
max cpp_template_heuristic d = d
max concrete d = concrete

-- Maps with `get`, `insert` and `entry(k).and_modify(f).or_insert(v)`.
abbrev pub Map {ℓ} : Type ℓ → Type ℓ
Map A = List (Text × A)

module _ {ℓ} {A : Type ℓ} where
  unfoldable pub get : Text → Map A → Option A
  get k [] = none
  get k ((key, v) ∷ m) = if list_eq key k then some v else get k m

  unfoldable pub modify_or_insert : Text → (A → A) → A → Map A → Map A
  modify_or_insert k f v [] = (k, v) ∷ []
  modify_or_insert k f v ((key, w) ∷ m) =
      let rest = modify_or_insert k f v m in
      if list_eq key k then (key, f w) ∷ m else (key, w) ∷ rest

  unfoldable pub insert : Text → A → Map A → Map A
  unfolding modify_or_insert
  insert k v m = modify_or_insert k (λ w. v) v m

  -- `append`: the other map's values replace those of the same key.
  unfoldable pub append_map : Map A → Map A → Map A
  unfolding insert
  append_map m [] = m
  append_map m ((k, v) ∷ n) = append_map (insert k v m) n

  -- The loop that takes every entry of the other map and merges it by `f`.
  unfoldable pub merge_map : (A → A → A) → Map A → Map A → Map A
  unfolding modify_or_insert
  merge_map f a [] = a
  merge_map f a ((k, v) ∷ b) = merge_map f (modify_or_insert k (λ w. f w v) v a) b

pub data ExpansionInfo : Type 0 where
  expands_to : Map (Map Text) → ExpansionInfo
  in_expansion_at : Map (Map (List ℕ)) → ExpansionInfo

pub record AnalysisSource : Type 0 where
  pub syntax : List Text
  pub pretty : Text
  pub syms : List Text
  pub no_crossref : Bool
  pub nesting_range : SourceRange
  pub type_pretty : Option Text
  pub type_sym : Option Text
  pub arg_ranges : List SourceRange
  pub expansion_info : Option ExpansionInfo
  pub confidence : Option (List ConfidenceLevel)

-- The order of texts, and `sort` and `dedup` by it.
abbrev pub text_leb : Text → Text → Bool
text_leb [] t = true
text_leb (a ∷ s) [] = false
text_leb (a ∷ s) (b ∷ t) = if ltb a b then true else if ltb b a then false else text_leb s t

unfoldable pub insert_sorted : Text → List Text → List Text
insert_sorted x [] = x ∷ []
insert_sorted x (y ∷ ys) =
    let rest = insert_sorted x ys in if text_leb x y then x ∷ y ∷ ys else y ∷ rest

unfoldable pub sort : List Text → List Text
unfolding insert_sorted
sort [] = []
sort (x ∷ xs) = insert_sorted x (sort xs)

-- `dedup` behind an element `x` that is kept.
unfoldable pub dedup_from : Text → List Text → List Text
dedup_from x [] = x ∷ []
dedup_from x (y ∷ ys) = if list_eq x y then dedup_from x ys else x ∷ dedup_from y ys

unfoldable pub dedup : List Text → List Text
unfolding dedup_from
dedup [] = []
dedup (x ∷ xs) = dedup_from x xs

abbrev pub level_list : Option (List ConfidenceLevel) → ℕ → List ConfidenceLevel
level_list (some cs) n = cs
level_list none n = replicate n concrete

unfoldable pub confidences : AnalysisSource → List ConfidenceLevel
confidences s = level_list s.confidence (length s.syms)

-- The symbols pushed and the map of their levels.
abbrev pub Levels : Type 0
Levels = List Text × Map ConfidenceLevel

-- One pair of the loop over the symbols and their levels.
abbrev pub level_entry : Text → ConfidenceLevel → Option ConfidenceLevel → Levels → Levels
level_entry s c none (syms, m) = (syms ++ (s ∷ []), m ++ ((s, c) ∷ []))
level_entry s c (some d) (syms, m) = (syms, modify_or_insert s (λ e. max c e) c m)

unfoldable pub level_step : Text → ConfidenceLevel → Levels → Levels
unfolding modify_or_insert get
level_step s c (syms, m) = level_entry s c (get s m) (syms, m)

unfoldable pub level_loop : List Text → List ConfidenceLevel → Levels → Levels
unfolding level_step
level_loop (s ∷ ss) (c ∷ cs) st = level_loop ss cs (level_step s c st)
level_loop _ _ st = st

-- `confidences[sym]` of every symbol.
unfoldable pub levels_of : List Text → Map ConfidenceLevel → Option (List ConfidenceLevel)
unfolding get
levels_of [] m = some []
levels_of (s ∷ ss) m = get s m >>= λ c. levels_of ss m >>= λ cs. some (c ∷ cs)
