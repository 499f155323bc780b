-- ===== src/Tokenize/Scan.antt =====
-- What the tokens of a text look like: `Tiles` for tokens that lie end to end over the whole text.
use mozsearch.Prelude.{
  ℕ, ◌+◌, List, [], ◌∷◌, ◌++◌, ◌≡◌, ◌≢◌, refl, ap, sym, subst, ◌∙◌, All, arith, All-append,
  append_assoc,
}
use mozsearch.Tokenize.{
  TokenKind, token, plain_text, punctuation, identifier, string_literal, comment,
  regular_expression_literal, tag_name, tag_attr_name, end_tag_name, newline, Token, byte_len,
  Cursor, past,
}

abbrev pub NoNewline : List ℕ → Type 0
NoNewline chunk = All (λ c. c ≢ b'\n') chunk

-- A `newline` token is one line feed, and any other token stays on its line.
abbrev pub OnOneLine : TokenKind → List ℕ → Type 0
OnOneLine newline chunk = chunk ≡ b'\n' ∷ []
OnOneLine plain_text chunk = NoNewline chunk
OnOneLine punctuation chunk = NoNewline chunk
OnOneLine (identifier _) chunk = NoNewline chunk
OnOneLine string_literal chunk = NoNewline chunk
OnOneLine comment chunk = NoNewline chunk
OnOneLine regular_expression_literal chunk = NoNewline chunk
OnOneLine tag_name chunk = NoNewline chunk
OnOneLine tag_attr_name chunk = NoNewline chunk
OnOneLine end_tag_name chunk = NoNewline chunk

-- From byte `pos` on the tokens cut `text` into pieces that are not empty, one to a token and
-- with nothing between them, and each is on one line.
pub data Tiles : ℕ → List ℕ → List Token → Type 0 where
  done : {pos : ℕ} → Tiles pos [] []
  cut :
      {pos : ℕ} {text : List ℕ} {t : Token} {ts : List Token} (chunk rest : List ℕ)
      → text ≡ chunk ++ rest
      → chunk ≢ []
      → t.start ≡ pos
      → t.end ≡ pos + byte_len chunk
      → OnOneLine t.kind chunk
      → Tiles t.end rest ts
      → Tiles pos text (t ∷ ts)

pub byte_len-append : (xs ys : List ℕ) → byte_len (xs ++ ys) ≡ byte_len xs + byte_len ys
byte_len-append [] ys = omega arith
byte_len-append (x ∷ xs) ys = omega (arith, byte_len-append xs ys)

pub Tiles-newline :
    {rest : List ℕ} {ts : List Token} (pos : ℕ)
    → Tiles (pos + 1) rest ts
    → Tiles pos (b'\n' ∷ rest) (token pos (pos + 1) newline ∷ ts)
Tiles-newline {rest} pos t = cut (b'\n' ∷ []) rest refl (cc) refl (omega arith) refl t

pub Tiles-shift :
    {text : List ℕ} {ts : List Token} {p q : ℕ} → p ≡ q → Tiles p text ts → Tiles q text ts
Tiles-shift {text} {ts} e t = subst (λ p. Tiles p text ts) e t

-- One cursor stands `chunk` further than the other, and `P` holds of what was read.
pub record Moved (P : List ℕ → Type 0) (from to : Cursor) : Type 0 where
  pub chunk : List ℕ
  pub split : from.rest ≡ chunk ++ to.rest
  pub moved : to.pos ≡ from.pos + byte_len chunk
  pub holds : P chunk

unfoldable pub Moved-refl : (c : Cursor) → Moved NoNewline c c
Moved-refl c = record { chunk = []; split = refl; moved = omega arith; holds = tt }

pub Moved-trans : {a b c : Cursor} → Moved NoNewline a b → Moved NoNewline b c → Moved NoNewline a c
Moved-trans {c = c} m n = record {
  chunk = m.chunk ++ n.chunk;
  split = m.split ∙ ap (λ r. m.chunk ++ r) n.split ∙ sym (append_assoc m.chunk n.chunk c.rest);
  moved = omega (arith, m.moved, n.moved, byte_len-append m.chunk n.chunk);
  holds = All-append (λ c. c ≢ b'\n') m.chunk n.chunk m.holds n.holds;
}

pub Moved-past :
    (c : Cursor) (x : ℕ) (r : List ℕ) → c.rest ≡ x ∷ r → x ≢ b'\n' → Moved NoNewline c (past c x r)
Moved-past c x r s ne = record { chunk = x ∷ []; split = s; moved = omega arith; holds = (ne, tt) }
