-- ===== src/Identifiers/Lookup.antt =====
-- tools/src/file_format/identifiers.rs, lookup. The mapped file is taken to be UTF-8, so the
-- `unwrap` of a line succeeds; the slice of an id from the middle of a character is a panic.
use mozsearch.Prelude.{
  ℕ, ◌+◌, Bool, true, false, ◌&&◌, ◌||◌, not, Option, none, some, List, [], ◌∷◌, ◌++◌, ltb, leb,
  ◌==◌, if◌then◌else◌, length, get_elem?, drop,
}
use mozsearch.Prelude.Text.{◌>>=◌, contains}
use mozsearch.Identifiers.{slice, bisect}

pub record IdentResult : Type 0 where
  pub id : List ℕ
  pub symbol : List ℕ

-- `BufRead::lines`: the carriage return in front of a line feed is dropped with it.
abbrev pub strip_return : List ℕ → List ℕ
strip_return [] = []
strip_return (c ∷ []) = if c == b'\r' then [] else c ∷ []
strip_return (c ∷ d ∷ cs) = c ∷ strip_return (d ∷ cs)

abbrev pub last_line : List ℕ → List (List ℕ)
last_line [] = []
last_line (c ∷ cs) = (c ∷ cs) ∷ []

-- The lines, `acc` being what is read of the first.
unfoldable pub lines : List ℕ → List ℕ → List (List ℕ)
lines acc [] = last_line acc
lines acc (c ∷ cs) =
    let next = lines [] cs in
    let on = lines (acc ++ (c ∷ [])) cs in if c == b'\n' then strip_return acc ∷ next else on

-- `rsplit_once(' ')`
abbrev pub split_once_more : ℕ → Option (List ℕ × List ℕ) → Option (List ℕ × List ℕ)
split_once_more c none = none
split_once_more c (some (a, b)) = some (c ∷ a, b)

unfoldable pub rsplit_once : ℕ → List ℕ → Option (List ℕ × List ℕ)
rsplit_once sep [] = none
rsplit_once sep (c ∷ cs) =
    let rest = split_once_more c (rsplit_once sep cs) in
    if contains sep cs then rest else if c == sep then some ([], cs) else none

-- `&id[n..]`
abbrev pub continues_char : Option ℕ → Bool
continues_char none = false
continues_char (some c) = leb 0x80 c && ltb c 0xC0

unfoldable pub suffix_from : List ℕ → ℕ → Option (List ℕ)
suffix_from id n = if continues_char (get_elem? id n) then none else some (drop n id)

abbrev pub starts_with : List ℕ → List ℕ → Bool
starts_with id [] = true
starts_with [] (n ∷ needle) = false
starts_with (c ∷ id) (n ∷ needle) = if c == n then starts_with id needle else false

-- Whether none of the `continue`s behind the split of the line is taken.
unfoldable pub accepts : List ℕ → Bool → Bool → List ℕ → Option Bool
unfolding suffix_from
accepts needle exact_match ignore_case id =
    let prefixed = ignore_case || starts_with id needle in
    if ltb (length needle) (length id)
    then (suffix_from id (length needle) >>= λ suffix.
        some (not (exact_match || contains b':' suffix || contains b'.' suffix) && prefixed))
    else some prefixed

-- The loop over the lines, behind `found` results.
unfoldable pub collect : List ℕ → Bool → Bool → ℕ → ℕ → List (List ℕ) → Option (List IdentResult)
unfolding accepts rsplit_once
collect needle exact_match ignore_case max_results found [] = some []
collect needle exact_match ignore_case max_results found (line ∷ ls) =
    let skip = collect needle exact_match ignore_case max_results found ls in
    let more = collect needle exact_match ignore_case max_results (found + 1) ls in
    elim (rsplit_once b' ' line) [
      | none ↦ skip
      | some e ↦ accepts needle exact_match ignore_case e.0 >>= λ ok.
          let result : IdentResult = record { id = e.0; symbol = e.1 } in
          if not ok
          then skip
          else if found + 1 == max_results
          then some (result ∷ [])
          else more >>= λ rest. some (result ∷ rest)
    ]

unfoldable pub lookup : List ℕ → List ℕ → Bool → Bool → ℕ → Option (List IdentResult)
unfolding lines collect
lookup bytes needle exact_match ignore_case max_results = bisect bytes needle false >>= λ start.
    bisect bytes needle true >>= λ end.
    if leb start end
    then collect needle exact_match ignore_case max_results 0 (lines [] (slice bytes start end))
    else none
