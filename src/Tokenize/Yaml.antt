-- ===== src/Tokenize/Yaml.antt =====
-- `tokenize_yaml`
-- Each inner loop takes the cursor and the characters left, `c.rest`, and returns the cursor at
-- which it breaks. `peek_char` gives NUL at the end of the text; each loop then stops there.
pub mod Tiling
use mozsearch.Prelude.{
  ℕ, zero, suc, Bool, true, false, ◌&&◌, ◌||◌, Option, none, some, List, [], ◌∷◌, ◌==◌,
  if◌then◌else◌, length,
}
use mathlib.Core.Option
use mozsearch.Tokenize.{
  Token, TokenKind, token, plain_text, newline, string_literal, comment, identifier, Cursor, past,
  start_of, is_lower, is_upper, is_digit,
}

abbrev is_eol : ℕ → Bool
is_eol x = x == b'\r' || x == b'\n'

-- `was_after_space`, of the character before the one just read.
abbrev was_after_space : Option ℕ → Bool
was_after_space none = true
was_after_space (some x) = x == b' ' || x == b'\t' || x == b'\r' || x == b'\n'

abbrev is_word : ℕ → Bool
is_word x =
    is_upper x
    || is_lower x
    || is_digit x
    || x == b'_'
    || x == b'.'
    || x == b'$'
    || x == b'*'
    || x == b'/'

-- The loop behind an opening quote `q`. The flag says that a backslash was just consumed, so that
-- the next character is consumed unless it ends the line.
quoted : ℕ → Bool → Cursor → List ℕ → Cursor
quoted q escaped c [] = c
quoted q escaped c (x ∷ r) =
    let plain = quoted q false (past c x r) r in
    let escape = quoted q true (past c x r) r in
    if is_eol x
    then c
    else if escaped
    then plain
    else if x == q || x == 0
    then past c x r
    else if x == b'\\'
    then escape
    else plain

comment_loop : Cursor → List ℕ → Cursor
comment_loop c [] = c
comment_loop c (x ∷ r) =
    let on = comment_loop (past c x r) r in if x == b'\n' || x == 0 then c else on

word_loop : Cursor → List ℕ → Cursor
word_loop c [] = c
word_loop c (x ∷ r) = let on = word_loop (past c x r) r in if is_word x || x == b'-' then on else c

text_loop : Cursor → List ℕ → Cursor
text_loop c [] = c
text_loop c (x ∷ r) =
    let on = text_loop (past c x r) r in
    if x == b'\n' || x == b'"' || x == b'\'' || x == b'#' || x == 0
    then c
    else if is_word x
    then c
    else on

-- One turn of the main loop, at a character `x` with `r` behind it.
yaml_token : Cursor → ℕ → List ℕ → Cursor × TokenKind
unfolding quoted comment_loop word_loop text_loop
yaml_token c x r =
    if x == b'\n'
    then (past c x r, newline)
    else if x == b'"'
    then (quoted b'"' false (past c x r) r, string_literal)
    else if x == b'\''
    then (quoted b'\'' false (past c x r) r, string_literal)
    else if x == b'#' && was_after_space c.prev
    then (comment_loop (past c x r) r, comment)
    else if is_word x
    then (word_loop (past c x r) r, identifier none)
    else (text_loop (past c x r) r, plain_text)

-- The `while` loop on fuel: `none` means that the fuel ran out.
yaml_loop : ℕ → Cursor → Option (List Token)
yaml_loop zero c = none
yaml_loop (suc fuel) c = elim c.rest [
  | [] ↦ some []
  | x ∷ r ↦
      let (c', kind) = yaml_token c x r in
      Option.map (λ ts. token c.pos c'.pos kind ∷ ts) (yaml_loop fuel c')
]

-- A turn consumes a character at least, so one more than their number is fuel enough.
unfoldable pub tokenize_yaml : List ℕ → Option (List Token)
unfolding yaml_loop yaml_token
tokenize_yaml text = yaml_loop (suc (length text)) (start_of text)
