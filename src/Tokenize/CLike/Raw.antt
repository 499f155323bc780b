-- ===== src/Tokenize/CLike/Raw.antt =====
-- Raw string literals: Rust's `r#"…"#` and C++'s `R"delimiter(…)delimiter"`.
use mozsearch.Prelude.{
  ℕ, ◌+◌, ◌-◌, Bool, true, false, not, ◌&&◌, ◌||◌, Option, none, some, List, [], ◌∷◌, ◌++◌, ◌⊎◌,
  inl, inr, ltb, ◌==◌, if◌then◌else◌,
}
use mozsearch.Tokenize.{token, string_literal, plain_text, Cursor, past, advance}
use mozsearch.Tokenize.CLike.State.{
  Literal, move, push_newline, Ending, closed, cut_off, scan, Lexer, Outcome, go_on, finish,
  open_literal, after, is_empty,
}

-- The hashes behind `r`: their number if a quote follows, and the cursor where the loop ends.
pub record Hashes : Type 0 where
  pub nhashes : ℕ
  pub cursor : Cursor
  pub valid : Bool

unfoldable pub hashes_turn : Hashes → ℕ → List ℕ → Hashes ⊎ Hashes
hashes_turn s x r =
    if x == b'"'
    then inr (record s { cursor = past s.cursor x r; valid = true })
    else if not (x == b'#') || is_empty r
    then inr (record s { cursor = past s.cursor x r })
    else inl (record s { nhashes = s.nhashes + 1; cursor = past s.cursor x r })

-- The loop over the body. `pending` hashes are still to follow a quote; 0 is outside that check.
pub record RawBody : Type 0 where
  pub lit : Literal
  pub pending : ℕ

unfoldable pub rust_raw_scan : ℕ → RawBody → ℕ → List ℕ → RawBody ⊎ Ending
rust_raw_scan nhashes s x r =
    let lit = move false s.lit x r in
    if x == b'\n'
    then inl (record { lit = push_newline string_literal lit; pending = 0 })
    else if not (x == b'"')
    then inl (record { lit = lit; pending = 0 })
    else if nhashes == 0
    then inr (closed lit)
    else inl (record { lit = lit; pending = nhashes })

-- `continue 'rust_raw_string` at a character that is no hash leaves it to the scan.
unfoldable pub rust_raw_turn : ℕ → RawBody → ℕ → List ℕ → RawBody ⊎ Ending
rust_raw_turn nhashes s x r =
    if ltb 0 s.pending && x == b'#'
    then (if s.pending == 1
        then inr (closed (move false s.lit x r))
        else inl (record { lit = move false s.lit x r; pending = s.pending - 1 }))
    else rust_raw_scan nhashes s x r

unfoldable pub rust_raw : ℕ → Lexer → Cursor → Outcome
rust_raw start lx c =
    let h = scan hashes_turn (λ s. s) (record { nhashes = 0; cursor = c; valid = false }) c.rest in
    if h.valid
    then after string_literal lx.maybe_regexp lx (
        scan (rust_raw_turn h.nhashes) (λ s. cut_off (s.lit).tokens)
          (record { lit = open_literal start lx h.cursor; pending = 0 }) (h.cursor).rest)
    else go_on (record lx {
      cursor = h.cursor;
      tokens = lx.tokens ++ (token start (h.cursor).pos plain_text ∷ []);
    })

-- The delimiter of a C++ raw string; `found` once its parenthesis was read.
pub record Delimiter : Type 0 where
  pub delimiter : List ℕ
  pub cursor : Cursor
  pub found : Bool

unfoldable pub delimiter_turn : Delimiter → ℕ → List ℕ → Delimiter ⊎ Delimiter
delimiter_turn s x r =
    let c = past s.cursor x r in
    if x == b'('
    then inr (record s { cursor = c; found = true })
    else if is_empty r
    then inr (record s { cursor = c })
    else inl (record s { delimiter = s.delimiter ++ (x ∷ []); cursor = c })

-- The loop over the body. Behind `)` the rest of the delimiter is expected, and then a quote.
pub record CppBody : Type 0 where
  pub lit : Literal
  pub expected : Option (List ℕ)

unfoldable pub cpp_raw_scan : List ℕ → CppBody → ℕ → List ℕ → CppBody ⊎ Ending
cpp_raw_scan delimiter s x r =
    let lit = move false s.lit x r in
    inl (record {
      lit = if x == b'\n' then push_newline string_literal lit else lit;
      expected = if x == b')' then some delimiter else none;
    })

unfoldable pub cpp_raw_expect : Option (List ℕ) → List ℕ → CppBody → ℕ → List ℕ → CppBody ⊎ Ending
cpp_raw_expect none delimiter s x r = cpp_raw_scan delimiter s x r
cpp_raw_expect (some []) delimiter s x r =
    if x == b'"' then inr (closed (move false s.lit x r)) else cpp_raw_scan delimiter s x r
cpp_raw_expect (some (d ∷ ds)) delimiter s x r =
    if d == x
    then inl (record { lit = move false s.lit x r; expected = some ds })
    else cpp_raw_scan delimiter s x r

unfoldable pub cpp_raw_turn : List ℕ → CppBody → ℕ → List ℕ → CppBody ⊎ Ending
cpp_raw_turn delimiter s x r = cpp_raw_expect s.expected delimiter s x r

-- The cursor stands at the quote behind `R`.
unfoldable pub cpp_raw : ℕ → Lexer → Cursor → Outcome
cpp_raw start lx c =
    let c = advance c in
    let d =
      scan delimiter_turn (λ s. s) (record { delimiter = []; cursor = c; found = false }) c.rest in
    if d.found
    then after string_literal false lx (
        scan (cpp_raw_turn d.delimiter) (λ s. cut_off (s.lit).tokens)
          (record { lit = open_literal start lx d.cursor; expected = none }) (d.cursor).rest)
    else finish lx.tokens
