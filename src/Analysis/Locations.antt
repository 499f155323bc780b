-- ===== src/Analysis/Locations.antt =====
-- tools/src/file_format/analysis.rs: Location, LineRange and SourceRange, their text form, and the
-- union of ranges. `none` is the panic of an `unwrap` or of an index out of range.
use mozsearch.Prelude.{
  ℕ, ◌-◌, Bool, ◌&&◌, ◌||◌, Option, none, some, List, [], ◌∷◌, ◌++◌, ltb, ◌==◌, if◌then◌else◌,
}
use mozsearch.Prelude.Text.{◌>>=◌, split_on, contains, decimal, padded, parse_u32, u32_mod}

pub record Location : Type 0 where
  pub lineno : ℕ
  pub col_start : ℕ
  pub col_end : ℕ

pub record LineRange : Type 0 where
  pub start_lineno : ℕ
  pub end_lineno : ℕ

pub record SourceRange : Type 0 where
  pub start_lineno : ℕ
  pub start_col : ℕ
  pub end_lineno : ℕ
  pub end_col : ℕ

abbrev pub u32_max : ℕ
u32_max = u32_mod - 1

-- The two `is_empty`s.
unfoldable pub is_empty_lines : LineRange → Bool
is_empty_lines r =
    (r.start_lineno == 0 && r.end_lineno == 0)
    || (r.start_lineno == u32_max && r.end_lineno == u32_max)

unfoldable pub is_empty : SourceRange → Bool
is_empty r = r.start_lineno == 0 || r.start_lineno == u32_max

-- The separators of `split`.
abbrev pub is_colon : ℕ → Bool
is_colon c = c == b':'

abbrev pub is_dash : ℕ → Bool
is_dash c = c == b'-'

abbrev pub is_separator : ℕ → Bool
is_separator c = c == b'-' || c == b':'

unfoldable pub print_location : Location → List ℕ
print_location loc =
    padded 5 loc.lineno
    ++ (b':'
        ∷ (if loc.col_start == loc.col_end
            then decimal loc.col_start
            else decimal loc.col_start ++ (b'-' ∷ decimal loc.col_end)))

abbrev pub two_columns : List (List ℕ) → Option (List ℕ × List ℕ)
two_columns (a ∷ b ∷ _) = some (a, b)
two_columns _ = none

-- `col_start` and `col_end`, not parsed yet.
unfoldable pub columns : List ℕ → Option (List ℕ × List ℕ)
columns v = if contains b'-' v then two_columns (split_on is_dash v) else some (v, v)

unfoldable pub parse_columns : ℕ → List ℕ × List ℕ → Option Location
parse_columns l (a, b) = parse_u32 a >>= λ s.
    parse_u32 b >>= λ e. some (record { lineno = l; col_start = s; col_end = e })

unfoldable pub location_pieces : List (List ℕ) → Option Location
unfolding columns parse_columns
location_pieces (v ∷ w ∷ _) = parse_u32 v >>= λ l. columns w >>= parse_columns l
location_pieces _ = none

unfoldable pub parse_location : List ℕ → Option Location
unfolding location_pieces
parse_location loc = location_pieces (split_on is_colon loc)

unfoldable pub print_line_range : LineRange → List ℕ
print_line_range r = decimal r.start_lineno ++ (b'-' ∷ decimal r.end_lineno)

abbrev pub line_range_pieces : List (List ℕ) → Option LineRange
line_range_pieces (v ∷ w ∷ []) =
    parse_u32 v >>= λ s. parse_u32 w >>= λ e. some (record { start_lineno = s; end_lineno = e })
line_range_pieces _ = some (record { start_lineno = 0; end_lineno = 0 })

unfoldable pub parse_line_range : List ℕ → Option LineRange
parse_line_range range = line_range_pieces (split_on is_dash range)

unfoldable pub print_source_range : SourceRange → List ℕ
print_source_range r =
    decimal r.start_lineno
    ++ (b':' ∷ decimal r.start_col ++ (b'-' ∷ decimal r.end_lineno ++ (b':' ∷ decimal r.end_col)))

abbrev pub no_range : SourceRange
no_range = record { start_lineno = 0; start_col = 0; end_lineno = 0; end_col = 0 }

abbrev pub source_range_pieces : List (List ℕ) → Option SourceRange
source_range_pieces (v ∷ w ∷ x ∷ y ∷ []) = parse_u32 v >>= λ s. parse_u32 w >>= λ sc.
    parse_u32 x >>= λ e. parse_u32 y >>= λ ec.
    some (record { start_lineno = s; start_col = sc; end_lineno = e; end_col = ec })
source_range_pieces _ = some no_range

unfoldable pub parse_source_range : List ℕ → Option SourceRange
parse_source_range range = source_range_pieces (split_on is_separator range)

-- The two cascades of `union` that move the start and the end.
abbrev pub union_start : SourceRange → SourceRange → SourceRange
union_start r o =
    if ltb o.start_lineno r.start_lineno
    then record r { start_lineno = o.start_lineno; start_col = o.start_col }
    else if o.start_lineno == r.start_lineno && ltb o.start_col r.start_col
    then record r { start_col = o.start_col }
    else r

abbrev pub union_end : SourceRange → SourceRange → SourceRange
union_end r o =
    if ltb r.end_lineno o.end_lineno
    then record r { end_lineno = o.end_lineno; end_col = o.end_col }
    else if o.end_lineno == r.end_lineno && ltb r.end_col o.end_col
    then record r { end_col = o.end_col }
    else r

unfoldable pub union : SourceRange → SourceRange → SourceRange
union r o =
    if o.start_lineno == 0
    then r
    else if r.start_lineno == 0
    then o
    else union_end (union_start r o) o
