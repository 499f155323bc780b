-- ===== src/Tokenize.antt =====
-- tools/src/tokenize.rs: the tokens, and the cursor that every tokenizer moves over its text.
-- A text is the list of its code points (the source's `chars` vector, `char_indices`), and a
-- position is a byte offset, so a code point counts as long as its UTF-8 encoding.
pub mod Scan
pub mod Boundaries
mod Tests
mod ScriptTests
pub mod Plain
pub mod Yaml
pub mod CLike
pub mod TagLike
pub mod Embed
pub mod Xpidl
use mozsearch.Prelude.{
  ℕ, ◌+◌, Bool, ◌||◌, ◌&&◌, Option, none, some, List, [], ◌∷◌, ltb, leb, ◌==◌, if◌then◌else◌,
}

pub data TokenKind : Type 0 where
  plain_text punctuation : TokenKind
  identifier : Option (List ℕ) → TokenKind
  string_literal comment regular_expression_literal : TokenKind
  tag_name tag_attr_name end_tag_name newline : TokenKind

pub record Token : Type 0 where
  pub start : ℕ
  pub end : ℕ
  pub kind : TokenKind

abbrev pub token : ℕ → ℕ → TokenKind → Token
token s e k = record { start = s; end = e; kind = k }

-- `char::len_utf8`
abbrev pub width : ℕ → ℕ
width c = if ltb c 0x80 then 1 else if ltb c 0x800 then 2 else if ltb c 0x10000 then 3 else 4

-- `str::len`
abbrev pub byte_len : List ℕ → ℕ
byte_len [] = 0
byte_len (c ∷ cs) = width c + byte_len cs

-- `cur_pos` with what it indexes: the byte offset of the next character (`peek_pos`, which is
-- `string.len()` at the end), the characters from there on, and the one read last.
pub record Cursor : Type 0 where
  pub pos : ℕ
  pub prev : Option ℕ
  pub rest : List ℕ

abbrev pub start_of : List ℕ → Cursor
start_of text = record { pos = 0; prev = none; rest = text }

abbrev pub past : Cursor → ℕ → List ℕ → Cursor
past c x r = record { pos = c.pos + width x; prev = some x; rest = r }

-- The new cursor of `get_char` and of `consume_char`: nothing moves at the end of the text.
abbrev pub advance_in : Cursor → List ℕ → Cursor
advance_in c [] = c
advance_in c (x ∷ r) = past c x r

unfoldable pub advance : Cursor → Cursor
advance c = advance_in c c.rest

abbrev pub is_lower : ℕ → Bool
is_lower c = leb b'a' c && leb c b'z'

abbrev pub is_upper : ℕ → Bool
is_upper c = leb b'A' c && leb c b'Z'

abbrev pub is_digit : ℕ → Bool
is_digit c = leb b'0' c && leb c b'9'
