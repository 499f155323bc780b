-- ===== src/Tokenize/CLike/Quotes.antt =====
-- Quoted literals: quotes, template strings, regular expressions.
use mozsearch.Prelude.{
  ℕ, ◌+◌, Bool, true, false, not, ◌&&◌, ◌||◌, none, List, [], ◌∷◌, ◌++◌, ◌⊎◌, inl, inr, ◌==◌,
  if◌then◌else◌,
}
use mozsearch.Tokenize.{
  token, string_literal, regular_expression_literal, punctuation, identifier, Cursor, past, advance,
}
use mozsearch.Tokenize.Plain.{tokenize_plain}
use mozsearch.Tokenize.CLike.State.{
  LanguageSpec, is_ident, peek_char, peek_char2, peek_isnot, Literal, move, push_newline, Ending,
  closed, cut_off, scan, Lexer, Outcome, go_on, finish, open_literal, emit, after,
}

-- A backslash takes the next character with it, unless that is a line feed.
unfoldable pub template_turn : Literal → ℕ → List ℕ → Literal ⊎ (Bool × Ending)
template_turn s x r =
    let lit = move false s x r in
    if s.skip
    then inl lit
    else if x == b'`'
    then inr (false, closed lit)
    else if x == b'\n'
    then inl (push_newline string_literal lit)
    else if x == b'\\' && peek_isnot b'\n' r
    then inl (move true s x r)
    else if x == b'$' && peek_char r == b'{'
    then inr (true, closed (record lit { cursor = advance lit.cursor }))
    else inl lit

-- The flag says that the loop ended at `${`, with a count of its own for the braces to come.
unfoldable pub after_template : Lexer → Bool × Ending → Outcome
after_template lx (opens, cut_off ts) = finish ts
after_template lx (opens, closed s) = go_on (record {
  cursor = s.cursor;
  tokens = if (s.cursor).pos == s.start then s.tokens else emit string_literal s;
  nesting = if opens then 1 ∷ lx.nesting else lx.nesting;
  maybe_regexp = true;
})

unfoldable pub template : ℕ → Lexer → Cursor → Outcome
template start lx c =
    after_template lx
      (scan template_turn (λ s. (false, cut_off s.tokens)) (open_literal start lx c) c.rest)

-- Inside quotes `ch`, tripled or not.
unfoldable pub quote_turn : ℕ → Bool → Literal → ℕ → List ℕ → Literal ⊎ Ending
quote_turn ch triple s x r =
    let lit = move false s x r in
    if s.skip
    then inl lit
    else if x == ch && (not triple || (peek_char r == ch && peek_char2 r == ch))
    then inr (closed (if triple then record lit { cursor = advance (advance lit.cursor) } else lit))
    else if x == b'\n'
    then inl (push_newline string_literal lit)
    else if x == b'\\' && peek_isnot b'\n' r
    then inl (move true s x r)
    else inl lit

-- `while is_ident(peek_char()) { get_char(); }`
unfoldable pub label_turn : (ℕ → Bool) → LanguageSpec → Cursor → ℕ → List ℕ → Cursor ⊎ Cursor
label_turn unicode spec c x r = if is_ident unicode spec x then inl (past c x r) else inr c

-- Rust's `'` before a label: two tokens.
unfoldable pub lonely_quote : (ℕ → Bool) → LanguageSpec → ℕ → Lexer → Cursor → Outcome
lonely_quote unicode spec start lx c =
    let end = scan (label_turn unicode spec) (λ c. c) c c.rest in
    go_on (record lx {
      cursor = end;
      tokens =
          lx.tokens
          ++ (token start (start + 1) punctuation
              ∷ token (start + 1) end.pos (identifier none)
              ∷ []);
    })

unfoldable pub quote_body : ℕ → ℕ → Bool → Lexer → Cursor → Outcome
quote_body start ch triple lx c =
    after string_literal false lx
      (scan (quote_turn ch triple) (λ s. cut_off s.tokens) (open_literal start lx c) c.rest)

unfoldable pub quote : (ℕ → Bool) → LanguageSpec → ℕ → ℕ → Lexer → Cursor → Outcome
quote unicode spec start ch lx c =
    let triple =
      spec.triple_quote_literals && (peek_char c.rest == ch && peek_char2 c.rest == ch) in
    let c = if triple then advance (advance c) else c in
    if spec.rust_tweaks
      && (ch == b'\'' && (not (peek_char c.rest == b'\\') && not (peek_char2 c.rest == b'\'')))
    then lonely_quote unicode spec start lx c
    else quote_body start ch triple lx c

-- A regular expression; `in_class` is the loop behind `[`, which stops before `]`.
pub record Regexp : Type 0 where
  pub lit : Literal
  pub in_class : Bool

unfoldable pub regexp_turn : List ℕ → Regexp → ℕ → List ℕ → Regexp ⊎ Ending
regexp_turn text s x r =
    let lit = move false s.lit x r in
    if (s.lit).skip
    then inl (record s { lit = lit })
    else if s.in_class && not (x == b']')
    then inl (record s { lit = lit })
    else if x == b'/'
    then inr (closed lit)
    else if x == b'['
    then inl (record { lit = lit; in_class = true })
    else if x == b'\\' && peek_isnot b'\n' r
    then inl (record { lit = move true s.lit x r; in_class = false })
    else if x == b'\n'
    then inr (cut_off (tokenize_plain text))
    else inl (record { lit = lit; in_class = false })

-- An invalid one makes the whole text plain.
unfoldable pub regexp : List ℕ → ℕ → Lexer → Cursor → Outcome
regexp text start lx c = after regular_expression_literal true lx (
    scan (regexp_turn text) (λ s. cut_off (tokenize_plain text))
      (record { lit = open_literal start lx c; in_class = false }) c.rest)
