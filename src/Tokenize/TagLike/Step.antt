-- ===== src/Tokenize/TagLike/Step.antt =====
-- The loop over the characters of a tagged text, and the tokens that it makes.
use mozsearch.Prelude.{
  ℕ, zero, suc, ◌-◌, Bool, false, Option, none, some, List, [], ◌∷◌, ◌==◌, if◌then◌else◌, length,
}
use mozsearch.Tokenize.{Token, plain_text, past, start_of, byte_len, width, advance}
use mozsearch.Tokenize.Plain.{tokenize_plain}
use mozsearch.Tokenize.TagLike.State.{
  TagState, tag_none, tag_start, tag_id, tag_after_id, attr_name, before_eq, attr_eq, attr_value,
  attr_bare_value, end_tag_id, end_start_tag, end_tag_done, cdata, tag_comment, tag_pi, doctype,
  TagLexer, TagOutcome, go_on, invalid, push,
}
use mozsearch.Tokenize.TagLike.Text.{in_none, in_cdata, in_comment, in_pi, in_doctype, open_tag}
use mozsearch.Tokenize.TagLike.Tags.{
  in_start, in_id, in_after_id, in_attr_name, in_end_tag_id, in_before_eq, in_attr_eq,
  in_attr_value, in_attr_bare_value, in_end_tag_done, in_end_start_tag,
}

-- `&string[from..to]`
unfoldable pub drop_bytes : List ℕ → ℕ → List ℕ
drop_bytes [] n = []
drop_bytes (c ∷ cs) n = if n == 0 then c ∷ cs else drop_bytes cs (n - width c)

unfoldable pub take_bytes : List ℕ → ℕ → List ℕ
take_bytes [] n = []
take_bytes (c ∷ cs) n = if n == 0 then [] else c ∷ take_bytes cs (n - width c)

unfoldable pub slice : List ℕ → ℕ → ℕ → List ℕ
unfolding drop_bytes take_bytes
slice text from to = take_bytes (drop_bytes text from) (to - from)

module _ (unicode : ℕ → Bool) (text : List ℕ) where
  -- `match tag_state`
  unfoldable pub in_state : TagState → ℕ → ℕ → TagLexer → TagOutcome
  in_state (tag_none p) s ch lx = in_none p s ch lx
  in_state (tag_start p) s ch lx = in_start unicode p s ch lx
  in_state (tag_id p) s ch lx = in_id unicode (slice text p s) p s ch lx
  in_state tag_after_id s ch lx = in_after_id unicode s ch lx
  in_state (attr_name p) s ch lx = in_attr_name unicode p s ch lx
  in_state before_eq s ch lx = in_before_eq s ch lx
  in_state attr_eq s ch lx = in_attr_eq s ch lx
  in_state (attr_value q p) s ch lx = in_attr_value q p s ch lx
  in_state (attr_bare_value p) s ch lx = in_attr_bare_value p s ch lx
  in_state (end_tag_id p) s ch lx = in_end_tag_id unicode p s ch lx
  in_state (end_start_tag p) s ch lx = in_end_start_tag p s ch lx
  in_state end_tag_done s ch lx = in_end_tag_done s ch lx
  in_state (cdata p) s ch lx = in_cdata p s ch lx
  in_state (tag_comment p) s ch lx = in_comment p s ch lx
  in_state (tag_pi p) s ch lx = in_pi p s ch lx
  in_state (doctype b) s ch lx = in_doctype b s ch lx

  -- `get_char`, and the match.
  unfoldable pub tag_turn : TagLexer → ℕ → List ℕ → TagOutcome
  tag_turn lx x r = in_state lx.state (lx.cursor).pos x (record lx { cursor = past lx.cursor x r })

  -- Behind the loop: the text since the last tag.
  unfoldable pub tag_end : TagState → TagLexer → List Token
  tag_end (tag_none p) lx = push p (byte_len text) plain_text lx.tokens
  tag_end _ lx = lx.tokens

  -- The `while` loop on fuel: `none` means that the fuel ran out. An error makes the text plain.
  unfoldable pub tag_loop : ℕ → TagLexer → List ℕ → Option (List Token)
  tag_loop zero lx l = none
  tag_loop (suc fuel) lx [] = some (tag_end lx.state lx)
  tag_loop (suc fuel) lx (x ∷ r) = elim (tag_turn lx x r) [
    | go_on lx' ↦ tag_loop fuel lx' (lx'.cursor).rest
    | invalid ↦ some (tokenize_plain text)
  ]

  -- The tokens before those of scripts and styles take the place of theirs. A turn consumes a
  -- character at least, so one more than their number is fuel enough.
  unfoldable pub tag_tokens : Option (List Token)
  unfolding tag_loop tag_turn tag_end in_state slice advance in_none open_tag in_cdata in_comment
      in_pi in_doctype in_start in_id in_after_id in_attr_name in_end_tag_id in_before_eq in_attr_eq
      in_attr_value in_attr_bare_value in_end_tag_done in_end_start_tag tokenize_plain
  tag_tokens =
      tag_loop (suc (length text))
        (record {
          cursor = start_of text;
          tokens = [];
          state = tag_none 0;
          in_script = false;
          in_style = false;
        })
        text
