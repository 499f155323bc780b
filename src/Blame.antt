-- ===== src/Blame.antt =====
-- tools/src/blame.rs, LineData: a line of the blame index and its text; and
-- tools/src/bin/build-blame.rs, the quoting of paths and the count of lines. `none` is a panic.
mod RoundTrips
pub mod Unmodified
pub mod Transfer
pub mod Transferred
pub mod Edited
mod Tests
use mozsearch.Prelude.{
  ℕ, zero, suc, ◌+◌, Bool, true, false, ◌||◌, Option, none, some, List, [], ◌∷◌, ◌++◌, ◌==◌,
  list_eq, if◌then◌else◌, codes,
}
use mozsearch.Prelude.Text.{contains}

pub record LineData : Type 0 where
  pub rev : List ℕ
  pub path : List ℕ
  pub lineno : List ℕ

abbrev pub split_more : ℕ → Option (List ℕ × List ℕ) → Option (List ℕ × List ℕ)
split_more c none = none
split_more c (some (a, b)) = some (c ∷ a, b)

-- A text split at the first colon.
unfoldable pub split_once : List ℕ → Option (List ℕ × List ℕ)
split_once [] = none
split_once (c ∷ cs) =
    let rest = split_more c (split_once cs) in if c == b':' then some ([], cs) else rest

-- `splitn(n, ':')`
unfoldable pub splitn : ℕ → List ℕ → List (List ℕ)
unfolding split_once
splitn zero s = []
splitn (suc zero) s = s ∷ []
splitn (suc (suc n)) s = elim (split_once s) [ none ↦ s ∷ [] | some e ↦ e.0 ∷ splitn (suc n) e.1 ]

abbrev pub line_pieces : List (List ℕ) → Option LineData
line_pieces (rev ∷ path ∷ lineno ∷ _) = some (record { rev = rev; path = path; lineno = lineno })
line_pieces _ = none

unfoldable pub deserialize : List ℕ → Option LineData
unfolding splitn
deserialize line = line_pieces (splitn 4 line)

unfoldable pub serialize : LineData → List ℕ
serialize d = d.rev ++ (b':' ∷ d.path ++ (b':' ∷ d.lineno ++ (b':' ∷ [])))

unfoldable pub is_path_unchanged : LineData → Bool
is_path_unchanged d = list_eq d.path (codes "%")

-- `str::replace` of one character.
unfoldable pub replace : ℕ → List ℕ → List ℕ → List ℕ
replace x by [] = []
replace x by (c ∷ cs) = let rest = replace x by cs in if c == x then by ++ rest else c ∷ rest

unfoldable pub escape : List ℕ → List ℕ
unfolding replace
escape s =
    replace b'"' (b'\\' ∷ b'"' ∷ [])
      (replace b'\n' (b'\\' ∷ b'\n' ∷ []) (replace b'\\' (b'\\' ∷ b'\\' ∷ []) s))

abbrev pub starts_with_quote : List ℕ → Bool
starts_with_quote [] = false
starts_with_quote (c ∷ cs) = c == b'"'

unfoldable pub sanitize : List ℕ → List ℕ
unfolding escape
sanitize path =
    if starts_with_quote path || contains b'\n' path
    then (b'"' ∷ escape path) ++ (b'"' ∷ [])
    else path

-- `count_lines`: the line feeds, and one more if the last byte is none.
abbrev pub line_feeds : List ℕ → ℕ
line_feeds [] = 0
line_feeds (c ∷ cs) = if c == b'\n' then suc (line_feeds cs) else line_feeds cs

abbrev pub unterminated : List ℕ → ℕ
unterminated [] = 0
unterminated (c ∷ []) = if c == b'\n' then 0 else 1
unterminated (c ∷ d ∷ cs) = unterminated (d ∷ cs)

unfoldable pub count_lines : List ℕ → ℕ
count_lines blob = line_feeds blob + unterminated blob
