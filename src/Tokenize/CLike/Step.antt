-- ===== src/Tokenize/CLike/Step.antt =====
-- The main loop of `tokenize_c_like`.
use mozsearch.Prelude.{
  ℕ, zero, suc, ◌+◌, ◌-◌, Bool, true, false, ◌&&◌, ◌||◌, Option, none, some, List, [], ◌∷◌, ◌++◌,
  ◌==◌, if◌then◌else◌, length,
}
use mozsearch.Tokenize.{Token, token, newline, Cursor, past, advance, start_of}
use mozsearch.Tokenize.CLike.State.{
  LanguageSpec, is_ident, peek_char, peek_char2, Lexer, Outcome, go_on, finish, newline_tokens,
}
use mozsearch.Tokenize.CLike.Raw.{
  rust_raw, cpp_raw, rust_raw_turn, rust_raw_scan, hashes_turn, cpp_raw_turn, cpp_raw_expect,
  cpp_raw_scan, delimiter_turn,
}
use mozsearch.Tokenize.CLike.Comments.{
  line_comment, block_comment, line_comment_turn, after_line_comment, block_comment_turn,
}
use mozsearch.Tokenize.CLike.Quotes.{
  template, quote, regexp, template_turn, after_template, quote_body, quote_turn, lonely_quote,
  label_turn, regexp_turn,
}
use mozsearch.Tokenize.CLike.Words.{
  ident, preprocessor, punct, allows_regexp, word_turn, blank_turn,
}
use mozsearch.Tokenize.Plain.{tokenize_plain}

-- The count of the innermost template, and whether `ch` brings the lexer back into its string.
unfoldable pub track_braces : ℕ → List ℕ → List ℕ × Bool
track_braces ch [] = ([], false)
track_braces ch (n ∷ ns) =
    if ch == b'{'
    then ((n + 1) ∷ ns, false)
    else if ch == b'}'
    then (if n - 1 == 0 then (ns, true) else ((n - 1) ∷ ns, false))
    else (n ∷ ns, false)

-- Rust's `b` in front of a string or a raw string is read over, and `start` stays.
unfoldable pub has_byte_prefix : LanguageSpec → ℕ → List ℕ → Bool
has_byte_prefix spec ch r =
    spec.rust_tweaks
    && (ch == b'b'
        && (peek_char r == b'\''
            || peek_char r == b'"'
            || (peek_char r == b'r' && (peek_char2 r == b'"' || peek_char2 r == b'#'))))

abbrev pub is_blank : ℕ → Bool
is_blank x = x == b' ' || x == b'\t' || x == b'\r'

module _ (unicode : ℕ → Bool) (spec : LanguageSpec) (text : List ℕ) where
  -- `ch == '/' && spec.c_style_comments`
  unfoldable pub slash : ℕ → Lexer → Cursor → Outcome
  slash start lx c =
      let ch = peek_char c.rest in
      if ch == b'*'
      then block_comment spec start lx c
      else if ch == b'/'
      then line_comment start lx (advance c)
      else if lx.maybe_regexp && spec.regexp_literals
      then regexp text start lx c
      else punct true start lx c

  -- The chain of tests on `ch`, which stands before the cursor.
  unfoldable pub dispatch : Bool → ℕ → ℕ → Lexer → Cursor → Outcome
  dispatch continue_backtick start ch lx c =
      let next = peek_char c.rest in
      if spec.rust_tweaks && (ch == b'r' && (next == b'#' || next == b'"'))
      then rust_raw start lx c
      else if ch == b'R' && next == b'"'
      then cpp_raw start lx c
      else if is_ident unicode spec ch
      then ident unicode spec start ch lx c
      else if ch == b'\n'
      then go_on (record lx { cursor = c; tokens = lx.tokens ++ (token start c.pos newline ∷ []) })
      else if is_blank ch
      then go_on (record lx { cursor = c })
      else if ch == b'#' && spec.hash_comment
      then line_comment start lx c
      else if ch == b'#' && spec.c_preprocessor
      then preprocessor unicode spec start lx c
      else if ch == b'/' && spec.c_style_comments
      then slash start lx c
      else if continue_backtick || (ch == b'`' && spec.backtick_strings)
      then template start lx c
      else if ch == b'\'' || ch == b'"'
      then quote unicode spec start ch lx c
      else punct (allows_regexp ch) start lx c

  -- A turn at the character `x` with `r` behind it.
  unfoldable pub turn : Lexer → ℕ → List ℕ → Outcome
  turn lx x r =
      let start = (lx.cursor).pos in
      let c = past lx.cursor x r in
      let (nesting, continue_backtick) = track_braces x lx.nesting in
      let lx = record lx { nesting = nesting } in
      if has_byte_prefix spec x r
      then dispatch continue_backtick start (peek_char r) lx (advance c)
      else dispatch continue_backtick start x lx c

  -- The `while` loop on fuel: `none` means that the fuel ran out.
  unfoldable pub lex_loop : ℕ → Lexer → List ℕ → Option (List Token)
  lex_loop zero lx l = none
  lex_loop (suc fuel) lx [] = some lx.tokens
  lex_loop (suc fuel) lx (x ∷ r) = elim (turn lx x r) [
    | finish ts ↦ some ts
    | go_on lx' ↦ lex_loop fuel lx' (lx'.cursor).rest
  ]

  -- A turn consumes a character at least, so one more than their number is fuel enough.
  unfoldable pub tokenize_c_like : Option (List Token)
  unfolding lex_loop turn dispatch slash track_braces has_byte_prefix advance rust_raw rust_raw_turn
      rust_raw_scan hashes_turn cpp_raw cpp_raw_turn cpp_raw_expect cpp_raw_scan delimiter_turn
      line_comment line_comment_turn after_line_comment block_comment block_comment_turn template
      template_turn after_template quote quote_body quote_turn lonely_quote label_turn regexp
      regexp_turn tokenize_plain ident word_turn preprocessor blank_turn punct newline_tokens
  tokenize_c_like =
      lex_loop (suc (length text))
        (record { cursor = start_of text; tokens = []; nesting = []; maybe_regexp = true }) text
