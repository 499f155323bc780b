-- ===== src/Analysis/RoundTrips.antt =====
-- tools/src/file_format/analysis.rs: locations and ranges are read back as they were written.
use mozsearch.Prelude.{
  ℕ, ◌≡◌, refl, ap, ◌∙◌, Bool, true, false, ◌<◌, some, List, [], ◌∷◌, ◌++◌, ◌==◌, arith, Bool-cases,
  inl, inr, ==_iff, All-append,
}
use mozsearch.Prelude.Text.{
  split_on-last, split_on-next, Without, contains, decimal, padded, u32_mod, is_decimal, IsDecimal,
  decimal-IsDecimal, padded-IsDecimal, parse_u32-decimal, parse_u32-padded,
}
use mozsearch.Analysis.Locations.{
  Location, LineRange, SourceRange, print_location, parse_location, columns, parse_columns,
  print_line_range, parse_line_range, print_source_range, parse_source_range, location_pieces,
  is_colon, is_dash, is_separator,
}

-- A text of digits has no character that is none.
IsDecimal-Without :
    (sep : ℕ → Bool) (cs : List ℕ)
    → ((c : ℕ) → is_decimal c ≡ true → sep c ≡ false)
    → IsDecimal cs
    → Without sep cs
IsDecimal-Without sep [] f h = tt
IsDecimal-Without sep (c ∷ cs) f (h, hs) = (f c h, IsDecimal-Without sep cs f hs)

not_colon : (c : ℕ) → is_decimal c ≡ true → is_colon c ≡ false
not_colon c h = ground arith

not_dash : (c : ℕ) → is_decimal c ≡ true → is_dash c ≡ false
not_dash c h = ground arith

not_separator : (c : ℕ) → is_decimal c ≡ true → is_separator c ≡ false
not_separator c h = ground arith

decimal-Without :
    (sep : ℕ → Bool) (n : ℕ)
    → ((c : ℕ) → is_decimal c ≡ true → sep c ≡ false)
    → Without sep (decimal n)
decimal-Without sep n f = IsDecimal-Without sep (decimal n) f (decimal-IsDecimal n)

-- Every line range whose lines are 32-bit numbers is parsed from its text.
pub parse_line_range-print_line_range :
    (r : LineRange)
    → r.start_lineno < u32_mod
    → r.end_lineno < u32_mod
    → parse_line_range (print_line_range r) ≡ some r
unfolding parse_line_range print_line_range
parse_line_range-print_line_range r h k =
    let w =
      split_on-next is_dash (decimal r.start_lineno) b'-' (decimal r.end_lineno)
        (decimal-Without is_dash _ not_dash) refl in
    let l = split_on-last is_dash (decimal r.end_lineno) (decimal-Without is_dash _ not_dash) in
    rw (w, l, parse_u32-decimal r.start_lineno h, parse_u32-decimal r.end_lineno k)

-- Every source range whose numbers have 32 bits is parsed from its text.
pub parse_source_range-print_source_range :
    (r : SourceRange)
    → r.start_lineno < u32_mod
    → r.start_col < u32_mod
    → r.end_lineno < u32_mod
    → r.end_col < u32_mod
    → parse_source_range (print_source_range r) ≡ some r
unfolding parse_source_range print_source_range
parse_source_range-print_source_range r h1 h2 h3 h4 =
    let free : (n : ℕ) → Without is_separator (decimal n) =
      λ n. decimal-Without is_separator n not_separator in
    let next = λ (n s : ℕ) (e : is_separator s ≡ true) (rest : List ℕ).
      split_on-next is_separator (decimal n) s rest (free n) e in
    rw (
      next r.start_lineno b':' refl _,
      next r.start_col b'-' refl _,
      next r.end_lineno b':' refl _,
      split_on-last is_separator (decimal r.end_col) (free r.end_col),
      parse_u32-decimal r.start_lineno h1,
      parse_u32-decimal r.start_col h2,
      parse_u32-decimal r.end_lineno h3,
      parse_u32-decimal r.end_col h4,
    )

contains-Without : (cs : List ℕ) → Without is_dash cs → contains b'-' cs ≡ false
contains-Without [] h = refl
contains-Without (c ∷ cs) (h, hs) = rw h (contains-Without cs hs)

contains_dash : (cs ds : List ℕ) → contains b'-' (cs ++ (b'-' ∷ ds)) ≡ true
contains_dash [] ds = refl
contains_dash (c ∷ cs) ds = ground (arith, contains_dash cs ds)

-- Columns that are equal are written once.
columns_one : (n : ℕ) → columns (decimal n) ≡ some (decimal n, decimal n)
unfolding columns
columns_one n = rw (contains-Without (decimal n) (decimal-Without is_dash n not_dash))

columns_two : (n m : ℕ) → columns (decimal n ++ (b'-' ∷ decimal m)) ≡ some (decimal n, decimal m)
unfolding columns
columns_two n m = rw (
  contains_dash (decimal n) (decimal m),
  split_on-next is_dash (decimal n) b'-' (decimal m) (decimal-Without is_dash n not_dash) refl,
  split_on-last is_dash (decimal m) (decimal-Without is_dash m not_dash),
)

-- The columns of a location are parsed behind its line.
location_of :
    (l s e : ℕ) (cols : List ℕ)
    → l < u32_mod
    → s < u32_mod
    → e < u32_mod
    → Without is_colon cols
    → columns cols ≡ some (decimal s, decimal e)
    → parse_location (padded 5 l ++ (b':' ∷ cols))
      ≡ some (record { lineno = l; col_start = s; col_end = e })
unfolding parse_location parse_columns location_pieces
location_of l s e cols hl hs he free c =
    let w =
      split_on-next is_colon (padded 5 l) b':' cols
        (IsDecimal-Without is_colon _ not_colon (padded-IsDecimal 5 l)) refl in
    rw (
      w,
      split_on-last is_colon cols free,
      parse_u32-padded 5 l hl,
      c,
      parse_u32-decimal s hs,
      parse_u32-decimal e he,
    )

-- Every location whose numbers have 32 bits is parsed from its text.
pub parse_location-print_location :
    (loc : Location)
    → loc.lineno < u32_mod
    → loc.col_start < u32_mod
    → loc.col_end < u32_mod
    → parse_location (print_location loc) ≡ some loc
unfolding print_location
parse_location-print_location loc hl hs he =
    let free : (n : ℕ) → Without is_colon (decimal n) = λ n. decimal-Without is_colon n not_colon in
    elim (Bool-cases (loc.col_start == loc.col_end)) [
      | inl e ↦ rw e (
          location_of loc.lineno loc.col_start loc.col_end _ hl hs he (free loc.col_start) (
            columns_one loc.col_start
            ∙ ap (λ k. some (decimal loc.col_start, decimal k))
                ((==_iff loc.col_start loc.col_end).0 e)))
      | inr e ↦ rw e (
          location_of loc.lineno loc.col_start loc.col_end _ hl hs he
            (All-append (λ c. is_colon c ≡ false) (decimal loc.col_start)
              (b'-' ∷ decimal loc.col_end) (free loc.col_start) (refl, free loc.col_end))
            (columns_two loc.col_start loc.col_end))
    ]
