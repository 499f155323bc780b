-- ===== src/Tokenize/Tests.antt =====
-- Runs of the tokenizers, and the witnesses.
use mozsearch.Prelude.{
  ℕ, if◌then◌else◌, Bool, true, false, list_eq, none, some, List, [], ◌∷◌, ◌≡◌, refl, codes,
}
use mozsearch.Tokenize.{
  tag_name, tag_attr_name, end_tag_name, Token, token, plain_text, newline, punctuation,
  string_literal, comment, identifier, regular_expression_literal, byte_len,
}
use mozsearch.Tokenize.Scan.{Tiles}
use mozsearch.Tokenize.Plain.{tokenize_plain}
use mozsearch.Tokenize.Plain.Tiling.{tokenize_plain-Tiles}
use mozsearch.Tokenize.CLike.State.{LanguageSpec}
use mozsearch.Tokenize.CLike.Step.{tokenize_c_like}
use mozsearch.Tokenize.CLike.Order.Loop.{tokenize_c_like-InOrder}
use mozsearch.Tokenize.Boundaries.{InOrder}
use mozsearch.Tokenize.TagLike.Step.{tag_tokens}
use mozsearch.Tokenize.TagLike.Order.Loop.{tag_tokens-InOrder}
use mozsearch.Tokenize.Yaml.{tokenize_yaml}
use mozsearch.Tokenize.Yaml.Tiling.{tokenize_yaml-Tiles}

abbrev lines : List ℕ
lines = codes "ab\n\nc\n"

plain_run :
    tokenize_plain lines
    ≡ token 0 2 plain_text
      ∷ token 2 3 newline
      ∷ token 3 4 newline
      ∷ token 4 5 plain_text
      ∷ token 5 6 newline
      ∷ []
unfolding tokenize_plain
plain_run = refl

tokenize_plain-Tiles_example : Tiles 0 lines (tokenize_plain lines)
tokenize_plain-Tiles_example = tokenize_plain-Tiles lines

abbrev pref : List ℕ
pref = codes "a.b: 'x\\'y' # é\n"

yaml_run :
    tokenize_yaml pref
    ≡ some (
        token 0 3 (identifier none)
        ∷ token 3 5 plain_text
        ∷ token 5 11 string_literal
        ∷ token 11 12 plain_text
        ∷ token 12 16 comment
        ∷ token 16 17 newline
        ∷ [])
unfolding tokenize_yaml
yaml_run = refl

tokenize_yaml-Tiles_example : (ts : List Token) × (tokenize_yaml pref ≡ some ts) × Tiles 0 pref ts
tokenize_yaml-Tiles_example = tokenize_yaml-Tiles pref

abbrev js : LanguageSpec
js = record {
  reserved_words = λ w. if list_eq w (codes "let") then some (codes "reserved") else none;
  hash_comment = false;
  hash_identifier = true;
  c_style_comments = true;
  backtick_strings = true;
  regexp_literals = true;
  triple_quote_literals = false;
  c_preprocessor = false;
  rust_tweaks = false;
  cxx14_digit_separators = false;
}

abbrev rust : LanguageSpec
rust = record js {
  hash_comment = true;
  hash_identifier = false;
  backtick_strings = false;
  regexp_literals = false;
  rust_tweaks = true;
}

abbrev ascii : ℕ → Bool
ascii c = false

abbrev template_text : List ℕ
template_text = codes "let a=`x${y}\nz`; // é"

template_run :
    tokenize_c_like ascii js template_text
    ≡ some (
        token 0 3 (identifier (some (codes "reserved")))
        ∷ token 4 5 (identifier none)
        ∷ token 5 6 punctuation
        ∷ token 6 10 string_literal
        ∷ token 10 11 (identifier none)
        ∷ token 11 12 string_literal
        ∷ token 12 13 newline
        ∷ token 13 15 string_literal
        ∷ token 15 16 punctuation
        ∷ token 17 22 comment
        ∷ [])
unfolding tokenize_c_like
template_run = refl

regexp_run :
    tokenize_c_like ascii js (codes "a=/[/]\\//;(b/c)/d")
    ≡ some (
        token 0 1 (identifier none)
        ∷ token 1 2 punctuation
        ∷ token 2 9 regular_expression_literal
        ∷ token 9 10 punctuation
        ∷ token 10 11 punctuation
        ∷ token 11 12 (identifier none)
        ∷ token 12 13 punctuation
        ∷ token 13 14 (identifier none)
        ∷ token 14 15 punctuation
        ∷ token 15 16 punctuation
        ∷ token 16 17 (identifier none)
        ∷ [])
unfolding tokenize_c_like
regexp_run = refl

rust_run :
    tokenize_c_like ascii rust (codes "br#\"a\"#'b /*/**/*/")
    ≡ some (
        token 0 7 string_literal
        ∷ token 7 8 punctuation
        ∷ token 8 9 (identifier none)
        ∷ token 10 18 comment
        ∷ [])
unfolding tokenize_c_like
rust_run = refl

tokenize_c_like-InOrder_example :
    (ts : List Token) × (tokenize_c_like ascii js template_text ≡ some ts)
    × InOrder template_text 0 ts (byte_len template_text)
tokenize_c_like-InOrder_example = tokenize_c_like-InOrder ascii js template_text

abbrev tagged : List ℕ
tagged = codes "<a b='c'>é\n</a><!-- x -->"

tag_run :
    tag_tokens ascii tagged
    ≡ some (
        token 0 1 punctuation
        ∷ token 1 2 tag_name
        ∷ token 2 3 punctuation
        ∷ token 3 4 tag_attr_name
        ∷ token 4 5 punctuation
        ∷ token 5 6 punctuation
        ∷ token 6 7 string_literal
        ∷ token 7 8 punctuation
        ∷ token 8 9 punctuation
        ∷ token 9 11 plain_text
        ∷ token 11 12 newline
        ∷ token 12 14 punctuation
        ∷ token 14 15 end_tag_name
        ∷ token 15 16 punctuation
        ∷ token 16 26 comment
        ∷ token 26 26 plain_text
        ∷ [])
unfolding tag_tokens
tag_run = refl

tag_tokens-InOrder_example :
    (ts : List Token) × (tag_tokens ascii tagged ≡ some ts) × InOrder tagged 0 ts (byte_len tagged)
tag_tokens-InOrder_example = tag_tokens-InOrder ascii tagged
