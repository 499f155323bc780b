-- ===== src/Crossref.antt =====
-- tools/src/file_format/crossref_lookup.rs: CrossrefLookupMap, the lookup of a symbol in the sorted
-- file of cross references. A symbol has two lines there, its name behind `!` and its payload. The
-- mapped files are lists of bytes; `none` is a panic: an index out of range, or a number that drops
-- below 0.
pub mod Order
pub mod Lines
pub mod Entries
pub mod IdLine
pub mod Search
pub mod Bisect
pub mod Payload
pub mod Hex
pub mod Writer
pub mod Written
pub mod Chunk
pub mod Merge
pub mod Decimal
pub mod Adjusted
pub mod Merged
pub mod RoundTrip
mod Tests
use mozsearch.Prelude.{
  ℕ, zero, suc, ◌+◌, ◌-◌, ◌/◌, Bool, true, false, ◌&&◌, Option, none, some, List, [], ◌∷◌, ◌++◌,
  leb, ◌==◌, list_eq, if◌then◌else◌, length, get_elem?, drop, take,
}
use mozsearch.Prelude.Text.{◌>>=◌}
use mozsearch.Identifiers.{bytes_ltb}

-- `while end < size && bytes[end] != NEWLINE { end += 1 }`, on the bytes from `end` on.
abbrev pub skip_line : List ℕ → ℕ → ℕ
skip_line [] end = end
skip_line (c ∷ cs) end = let rest = skip_line cs (suc end) in if c == b'\n' then end else rest

abbrev pub to_newline : List ℕ → ℕ → ℕ
to_newline bytes end = skip_line (drop end bytes) end

-- `a - b` of `usize`
abbrev pub checked_sub : ℕ → ℕ → Option ℕ
checked_sub a b = if leb b a then some (a - b) else none

-- `&bytes[start..end]`
unfoldable pub range : List ℕ → ℕ → ℕ → Option (List ℕ)
range bytes start end =
    if leb start end && leb end (length bytes)
    then some (take (end - start) (drop start bytes))
    else none

-- `while start > 0`: back to the `!` that begins a line; `end` is set to the newline in front of a
-- payload.
abbrev pub walk_back : List ℕ → ℕ → ℕ → Option (ℕ × ℕ)
walk_back bytes zero end = some (zero, end)
walk_back bytes (suc start) end =
    let same = walk_back bytes start end in
    let reset = walk_back bytes start start in
    get_elem? bytes start >>= λ before. get_elem? bytes (suc start) >>= λ here.
    if before == b'\n' then (if here == b'!' then some (suc start, end) else reset) else same

abbrev pub off_newline : List ℕ → ℕ → Option ℕ
off_newline bytes pos =
    get_elem? bytes pos >>= λ c. if c == b'\n' then checked_sub pos 1 else some pos

-- The identifier, where its line begins, and the newline at its end.
unfoldable pub get_id_line : List ℕ → ℕ → Option (List ℕ × ℕ × ℕ)
get_id_line bytes pos = off_newline bytes pos >>= λ p. walk_back bytes p p >>= λ r.
    range bytes (suc r.0) (to_newline bytes r.1) >>= λ id. some (id, r.0, to_newline bytes r.1)

-- The payload line behind the newline at `line_end`.
abbrev pub payload_at : List ℕ → ℕ → Option (List ℕ)
payload_at bytes line_end = range bytes (suc line_end) (to_newline bytes (suc (suc line_end)))

-- The position behind the payload, for a sample `pos` in one of the two lines.
abbrev pub behind_payload : List ℕ → ℕ → ℕ → ℕ
behind_payload bytes pos line_end =
    suc (to_newline bytes (if leb pos line_end then suc line_end else pos))

-- `while count > 0`, on fuel that is more than `count`.
unfoldable pub bisect_payload : List ℕ → List ℕ → ℕ → ℕ → ℕ → Option (List ℕ)
bisect_payload bytes search_sym zero first count = none
bisect_payload bytes search_sym (suc fuel) first count =
    let step = count / 2 in
    let pos = first + step in
    let go = bisect_payload bytes search_sym fuel in
    if count == 0
    then some []
    else get_id_line bytes pos >>= λ (line_sym, line_start, line_end).
        if list_eq line_sym search_sym
        then payload_at bytes line_end
        else if bytes_ltb line_sym search_sym
        then (let next = behind_payload bytes pos line_end in
            checked_sub next first >>= λ skipped.
            checked_sub count skipped >>= λ left. go next left)
        else checked_sub pos line_start >>= λ back. checked_sub step back >>= λ left. go first left

unfoldable pub bisect_for_payload : List ℕ → List ℕ → Option (List ℕ)
bisect_for_payload bytes search_sym =
    bisect_payload bytes search_sym (suc (length bytes)) 0 (length bytes)
