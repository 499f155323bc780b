-- ===== src/Crossref/Merge.antt =====
-- tools/src/bin/crossref.rs, main: the chunks that threads write, and the merge of their files, with
-- the places in the second file of all chunks together. `none` is a panic; a sum of `usize` wraps.
use mozsearch.Prelude.{
  ℕ, ◌+◌, ◌*◌, ◌-◌, ◌%◌, Bool, true, false, ◌&&◌, Option, none, some, List, [], ◌∷◌, ◌++◌, ltb,
  ◌==◌, if◌then◌else◌, drop,
}
use mozsearch.Prelude.Text.{◌>>=◌, is_decimal}
use mozsearch.Crossref.Payload.{usize_mod, at_space}
use mozsearch.Crossref.Writer.{Files, no_files, hex, write_all}

-- `read_line` until the end: lines with the newline at their end.
abbrev pub push_to_line : ℕ → List (List ℕ) → List (List ℕ)
push_to_line c [] = (c ∷ []) ∷ []
push_to_line c (l ∷ ls) = (c ∷ l) ∷ ls

unfoldable pub read_lines : List ℕ → List (List ℕ)
read_lines [] = []
read_lines (c ∷ cs) =
    let rest = read_lines cs in if c == b'\n' then (c ∷ []) ∷ rest else push_to_line c rest

-- `parse::<usize>`: an optional sign, at least one digit, and no overflow.
unfoldable pub usize_digits : ℕ → List ℕ → Option ℕ
usize_digits acc [] = some acc
usize_digits acc (c ∷ cs) =
    let next = acc * 10 + (c - b'0') in
    let rest = usize_digits next cs in
    if is_decimal c then (if ltb next usize_mod then rest else none) else none

unfoldable pub parse_usize : List ℕ → Option ℕ
unfolding usize_digits
parse_usize [] = none
parse_usize (c ∷ []) = usize_digits 0 (c ∷ [])
parse_usize (c ∷ d ∷ cs) =
    if c == b'+' then usize_digits 0 (d ∷ cs) else usize_digits 0 (c ∷ d ∷ cs)

abbrev pub is_late : List ℕ → Bool
is_late (a ∷ b ∷ cs) = a == b'@' && b == b'!'
is_late _ = false

-- A line with an offset of the chunk; `later` is `i > 0`.
abbrev pub adjusted : ℕ → Option (List ℕ × List ℕ) → Option (List ℕ)
adjusted ext_offset none = none
adjusted ext_offset (some (front, behind)) = parse_usize (drop 2 front) >>= λ offset.
    some ((b'@' ∷ hex ((offset + ext_offset) % usize_mod)) ++ (b' ' ∷ behind))

unfoldable pub adjust_line : Bool → ℕ → List ℕ → Option (List ℕ)
adjust_line later ext_offset line =
    if later && is_late line then adjusted ext_offset (at_space line) else some line

abbrev pub adjust_lines : Bool → ℕ → List (List ℕ) → Option (List ℕ)
adjust_lines later ext_offset [] = some []
adjust_lines later ext_offset (l ∷ ls) = adjust_line later ext_offset l >>= λ out.
    adjust_lines later ext_offset ls >>= λ rest. some (out ++ rest)

-- The loop over the chunks, with the size of the second files of those before.
abbrev pub merge_from : Bool → ℕ → List Files → Option (List ℕ)
merge_from later total [] = some []
merge_from later total (f ∷ fs) = adjust_lines later total (read_lines f.out) >>= λ out.
    merge_from true ((total + f.ext_offset) % usize_mod) fs >>= λ rest. some (out ++ rest)

unfoldable pub merge_chunks : List Files → Option (List ℕ)
unfolding adjust_line read_lines
merge_chunks fs = merge_from false 0 fs

-- The second files one behind the other.
unfoldable pub merge_extra : List Files → List ℕ
merge_extra [] = []
merge_extra (f ∷ fs) = f.ext_out ++ merge_extra fs

-- The chunks with their numbers; that of the first is 0.
abbrev pub write_from : Bool → List (List (List ℕ × List ℕ)) → List Files
write_from is_first_chunk [] = []
write_from is_first_chunk (c ∷ cs) = write_all is_first_chunk c no_files ∷ write_from false cs

unfoldable pub write_chunks : List (List (List ℕ × List ℕ)) → List Files
write_chunks chunks = write_from true chunks
