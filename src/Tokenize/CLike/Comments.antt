-- ===== src/Tokenize/CLike/Comments.antt =====
-- Comments: `#` to the end of the line, `//` and `/* */`.
use mozsearch.Prelude.{
  ℕ, ◌+◌, ◌-◌, true, false, ◌&&◌, List, [], ◌∷◌, ◌++◌, ◌⊎◌, inl, inr, ◌==◌, if◌then◌else◌,
}
use mozsearch.Tokenize.{token, comment, newline, Cursor, advance}
use mozsearch.Tokenize.CLike.State.{
  LanguageSpec, peek_char, Literal, move, push_newline, Ending, closed, cut_off, scan, Lexer,
  Outcome, go_on, finish, open_literal, emit, after,
}

unfoldable pub line_comment_turn : Literal → ℕ → List ℕ → Literal ⊎ Ending
line_comment_turn s x r =
    if x == b'\n' then inr (closed (move false s x r)) else inl (move false s x r)

-- The comment and its line feed are two tokens; at the end of the text there is but one.
unfoldable pub after_line_comment : Lexer → Ending → Outcome
after_line_comment lx (cut_off ts) = finish ts
after_line_comment lx (closed s) =
    let nl = (s.cursor).pos - 1 in
    go_on (record lx {
      cursor = s.cursor;
      tokens = s.tokens ++ (token s.start nl comment ∷ token nl (s.cursor).pos newline ∷ []);
    })

unfoldable pub line_comment : ℕ → Lexer → Cursor → Outcome
line_comment start lx c =
    after_line_comment lx
      (scan line_comment_turn (λ s. cut_off (emit comment s)) (open_literal start lx c) c.rest)

-- `nesting` counts the comments that are open; only Rust's nest.
pub record BlockComment : Type 0 where
  pub lit : Literal
  pub depth : ℕ

-- `break` leaves the `/` of `*/` to the `get_char` behind the loop: it is read here.
unfoldable pub block_comment_turn : LanguageSpec → BlockComment → ℕ → List ℕ → BlockComment ⊎ Ending
block_comment_turn spec s x r =
    let lit = move false s.lit x r in
    let skipping = move true s.lit x r in
    if (s.lit).skip
    then inl (record s { lit = lit })
    else if x == b'*' && peek_char r == b'/'
    then (if s.depth == 1
        then inr (closed (record lit { cursor = advance lit.cursor }))
        else inl (record { lit = skipping; depth = s.depth - 1 }))
    else if x == b'\n'
    then inl (record s { lit = push_newline comment lit })
    else if spec.rust_tweaks && (x == b'/' && peek_char r == b'*')
    then inl (record { lit = skipping; depth = s.depth + 1 })
    else inl (record s { lit = lit })

-- The cursor stands at the `*` behind `/`.
unfoldable pub block_comment : LanguageSpec → ℕ → Lexer → Cursor → Outcome
block_comment spec start lx c =
    let c = advance c in
    after comment lx.maybe_regexp lx (
      scan (block_comment_turn spec) (λ s. cut_off (s.lit).tokens)
        (record { lit = open_literal start lx c; depth = 1 }) c.rest)
