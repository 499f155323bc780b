-- ===== src/Tokenize/CLike/Words.antt =====
-- Identifiers, numbers, preprocessor directives and punctuation.
use mozsearch.Prelude.{
  ℕ, Bool, false, ◌&&◌, ◌||◌, List, [], ◌∷◌, ◌++◌, ◌⊎◌, inl, inr, ◌==◌, if◌then◌else◌, list_eq,
  codes,
}
use mozsearch.Tokenize.{token, punctuation, identifier, Cursor, past, is_digit}
use mozsearch.Tokenize.CLike.State.{LanguageSpec, is_ident, scan, Lexer, Outcome, go_on}

-- The characters read of a word, and the cursor.
pub record Word : Type 0 where
  pub word : List ℕ
  pub cursor : Cursor

unfoldable pub word_turn : (ℕ → Bool) → LanguageSpec → Bool → Word → ℕ → List ℕ → Word ⊎ Word
word_turn unicode spec number s x r =
    if is_ident unicode spec x || (number && x == b'\'')
    then inl (record { word = s.word ++ (x ∷ []); cursor = past s.cursor x r })
    else inr s

unfoldable pub ident : (ℕ → Bool) → LanguageSpec → ℕ → ℕ → Lexer → Cursor → Outcome
ident unicode spec start ch lx c =
    let number = spec.cxx14_digit_separators && is_digit ch in
    let w =
      scan (word_turn unicode spec number) (λ s. s) (record { word = ch ∷ []; cursor = c })
        c.rest in
    go_on (record lx {
      cursor = w.cursor;
      tokens =
          lx.tokens ++ (token start (w.cursor).pos (identifier (spec.reserved_words w.word)) ∷ []);
      maybe_regexp = list_eq w.word (codes "return");
    })

unfoldable pub blank_turn : Cursor → ℕ → List ℕ → Cursor ⊎ Cursor
blank_turn c x r = if x == b' ' || x == b'\t' then inl (past c x r) else inr c

unfoldable pub preprocessor : (ℕ → Bool) → LanguageSpec → ℕ → Lexer → Cursor → Outcome
preprocessor unicode spec start lx c =
    let c = scan blank_turn (λ c. c) c c.rest in
    let w =
      scan (word_turn unicode spec false) (λ s. s) (record { word = b'#' ∷ []; cursor = c })
        c.rest in
    go_on (record lx {
      cursor = w.cursor;
      tokens =
          lx.tokens ++ (token start (w.cursor).pos (identifier (spec.reserved_words w.word)) ∷ []);
      maybe_regexp = false;
    })

abbrev pub allows_regexp : ℕ → Bool
allows_regexp x =
    x == b'='
    || x == b'('
    || x == b'['
    || x == b'{'
    || x == b'}'
    || x == b':'
    || x == b';'
    || x == b'&'
    || x == b'|'
    || x == b'!'
    || x == b','
    || x == b'?'
    || x == b'>'
    || x == b'<'

unfoldable pub punct : Bool → ℕ → Lexer → Cursor → Outcome
punct regexp start lx c = go_on (record lx {
  cursor = c;
  tokens = lx.tokens ++ (token start c.pos punctuation ∷ []);
  maybe_regexp = regexp;
})
