-- ===== src/Tokenize/ScriptTests.antt =====
-- Runs of the tokenizers that call other tokenizers, and the witnesses.
use mozsearch.Prelude.{ℕ, Bool, true, false, none, some, List, [], ◌∷◌, ◌≡◌, refl, codes, arith}
use mozsearch.Tokenize.{
  Token, token, plain_text, identifier, punctuation, tag_name, end_tag_name, byte_len,
}
use mozsearch.Tokenize.Boundaries.{InOrder}
use mozsearch.Tokenize.CLike.State.{LanguageSpec}
use mozsearch.Tokenize.Xpidl.{tokenize_xpidl}
use mozsearch.Tokenize.Xpidl.Order.{tokenize_xpidl-InOrder}
use mozsearch.Tokenize.TagLike.Step.{tag_tokens}
use mozsearch.Tokenize.TagLike.Scripts.{initial, tokenize_tag_like}
use mozsearch.Tokenize.TagLike.Order.EmitLoop.{quiet_loop, tokenize_tag_like-InOrder}

abbrev ascii : ℕ → Bool
ascii c = false

abbrev idl : LanguageSpec
idl = record {
  reserved_words = λ w. none;
  hash_comment = false;
  c_style_comments = true;
  backtick_strings = false;
  regexp_literals = false;
  triple_quote_literals = false;
  c_preprocessor = false;
  cxx14_digit_separators = false;
  rust_tweaks = false;
  hash_identifier = false;
}

-- A style sheet with no tokens.
abbrev no_css : List ℕ → List Token
no_css style = []

no_css-InOrder : (part : List ℕ) → InOrder part 0 (no_css part) (byte_len part)
no_css-InOrder part = omega arith

abbrev block : List ℕ
block = codes "a\n%{C++\nb\n%}\nc"

tokenize_xpidl-InOrder_example :
    (ts : List Token) × (tokenize_xpidl ascii idl idl block ≡ some ts)
    × InOrder block 0 ts (byte_len block)
tokenize_xpidl-InOrder_example = tokenize_xpidl-InOrder ascii idl idl block

abbrev scripted : List ℕ
scripted = codes "<script>a</script>"

abbrev scripted_tags : List Token
scripted_tags =
    token 0 1 punctuation
    ∷ token 1 7 tag_name
    ∷ token 7 8 punctuation
    ∷ token 8 9 plain_text
    ∷ token 9 11 punctuation
    ∷ token 11 17 end_tag_name
    ∷ token 17 18 punctuation
    ∷ token 18 18 plain_text
    ∷ []

scripted_run : tag_tokens ascii scripted ≡ some scripted_tags
unfolding tag_tokens
scripted_run = refl

scripted_quiet : quiet_loop ascii no_css idl scripted scripted_tags initial 0 ≡ true
unfolding quiet_loop
scripted_quiet = refl

tokenize_tag_like-InOrder_example :
    (ts : List Token) × (tokenize_tag_like ascii no_css idl scripted ≡ some ts)
    × InOrder scripted 0 ts (byte_len scripted)
tokenize_tag_like-InOrder_example =
    tokenize_tag_like-InOrder ascii no_css idl no_css-InOrder scripted scripted_tags scripted_run
      scripted_quiet

-- A tag in the text of a XUL field: its name, at 9, comes in front of the tokens of the field, and
-- the end tag takes the place of the inner tag on the stack, so the field is open again at its end.
out_of_order :
    tokenize_tag_like ascii no_css idl (codes "<field>a<b>cd</field>")
    ≡ some (
        token 0 1 punctuation
        ∷ token 1 6 tag_name
        ∷ token 6 7 punctuation
        ∷ token 9 10 tag_name
        ∷ token 7 8 (identifier none)
        ∷ token 8 9 punctuation
        ∷ token 9 10 punctuation
        ∷ token 10 12 (identifier none)
        ∷ token 13 15 punctuation
        ∷ token 15 20 end_tag_name
        ∷ token 20 21 punctuation
        ∷ [])
unfolding tokenize_tag_like
out_of_order = refl
