-- ===== src/Tokenize/CLike/State.antt =====
-- What the closures of `tokenize_c_like` read and write, and the shape of its inner loops.
use mozsearch.Prelude.{
  ℕ, ◌+◌, ◌-◌, Bool, true, false, not, ◌&&◌, ◌||◌, Option, List, [], ◌∷◌, ◌++◌, ◌⊎◌, inl, inr, ltb,
  ◌==◌, if◌then◌else◌,
}
use mozsearch.Tokenize.{
  Token, TokenKind, token, newline, Cursor, past, is_lower, is_upper, is_digit,
}

-- `languages.rs`. A map of reserved words is its `get`.
pub record LanguageSpec : Type 0 where
  pub reserved_words : List ℕ → Option (List ℕ)
  pub hash_comment : Bool
  pub hash_identifier : Bool
  pub c_style_comments : Bool
  pub backtick_strings : Bool
  pub regexp_literals : Bool
  pub triple_quote_literals : Bool
  pub c_preprocessor : Bool
  pub rust_tweaks : Bool
  pub cxx14_digit_separators : Bool

-- `char::is_alphabetic`: the letters of ASCII, and beyond it what Unicode's table says.
abbrev pub is_alphabetic : (ℕ → Bool) → ℕ → Bool
is_alphabetic unicode c = if ltb c 0x80 then is_lower c || is_upper c else unicode c

abbrev pub is_ident : (ℕ → Bool) → LanguageSpec → ℕ → Bool
is_ident unicode spec c =
    c == b'_' || is_alphabetic unicode c || is_digit c || (c == b'#' && spec.hash_identifier)

-- `peek_char`, `peek_char2` and `peek_isnot`, of the characters left.
abbrev pub peek_char : List ℕ → ℕ
peek_char [] = b'!'
peek_char (x ∷ r) = x

abbrev pub peek_char2 : List ℕ → ℕ
peek_char2 [] = b'!'
peek_char2 (x ∷ r) = peek_char r

abbrev pub peek_isnot : ℕ → List ℕ → Bool
peek_isnot c [] = false
peek_isnot c (x ∷ r) = not (x == c)

abbrev pub is_empty : List ℕ → Bool
is_empty [] = true
is_empty (x ∷ r) = false

-- Inside a literal or a comment: where the current token starts, the tokens so far, and the cursor.
-- `skip` says that the next character is taken by a `get_char` of its own.
pub record Literal : Type 0 where
  pub start : ℕ
  pub tokens : List Token
  pub cursor : Cursor
  pub skip : Bool

-- `get_char` past `x`.
abbrev pub move : Bool → Literal → ℕ → List ℕ → Literal
move skip s x r = record s { cursor = past s.cursor x r; skip = skip }

-- `push_newline`, with the line feed just read in front of `pos`.
unfoldable pub newline_tokens : ℕ → ℕ → TokenKind → List Token
newline_tokens start pos kind =
    let nl = pos - 1 in
    (if start == nl then [] else token start nl kind ∷ []) ++ (token nl pos newline ∷ [])

abbrev pub push_newline : TokenKind → Literal → Literal
push_newline kind s = record s {
  start = (s.cursor).pos - 1 + 1;
  tokens = s.tokens ++ newline_tokens s.start (s.cursor).pos kind;
}

-- How such a loop ends: by its `break`, or by a `return tokens` at the end of the text.
pub data Ending : Type 0 where
  closed : Literal → Ending
  cut_off : List Token → Ending

-- `loop { if at the end { … } let next = get_char(); … }`: a turn goes on or ends the loop.
-- `peek_pos() == string.len()` holds exactly when no character is left.
abbrev pub scan {ℓ κ} :
    {S : Type ℓ} {R : Type κ} → (S → ℕ → List ℕ → S ⊎ R) → (S → R) → S → List ℕ → R
scan turn stop s [] = stop s
scan turn stop s (x ∷ r) = elim (turn s x r) [ inl s' ↦ scan turn stop s' r | inr q ↦ q ]

-- The state of the main loop. The last of `backtick_nesting` stands first here.
pub record Lexer : Type 0 where
  pub cursor : Cursor
  pub tokens : List Token
  pub nesting : List ℕ
  pub maybe_regexp : Bool

-- A turn of the main loop goes on, or returns from the function.
pub data Outcome : Type 0 where
  go_on : Lexer → Outcome
  finish : List Token → Outcome

-- The literal that begins at byte `start` with the cursor at `c`.
abbrev pub open_literal : ℕ → Lexer → Cursor → Literal
open_literal start lx c = record { start = start; tokens = lx.tokens; cursor = c; skip = false }

-- `tokens.push(Token { start, end: peek_pos(), kind })`
abbrev pub emit : TokenKind → Literal → List Token
emit kind s = s.tokens ++ (token s.start (s.cursor).pos kind ∷ [])

-- The lexer behind a literal that ended, with the new `next_token_maybe_regexp_literal`.
abbrev pub after : TokenKind → Bool → Lexer → Ending → Outcome
after kind regexp lx (closed s) =
    go_on (record lx { cursor = s.cursor; tokens = emit kind s; maybe_regexp = regexp })
after kind regexp lx (cut_off ts) = finish ts
