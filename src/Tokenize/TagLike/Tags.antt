-- ===== src/Tokenize/TagLike/Tags.antt =====
-- The states inside of tags. Each takes the start of the character just read, that character, and
-- the lexer behind it.
use mozsearch.Prelude.{ℕ, Bool, false, not, ◌&&◌, ◌||◌, List, ◌==◌, if◌then◌else◌, list_eq, codes}
use mozsearch.Tokenize.{punctuation, newline, tag_name, tag_attr_name, end_tag_name, string_literal}
use mozsearch.Tokenize.TagLike.State.{
  tag_none, tag_id, tag_after_id, attr_name, before_eq, attr_eq, attr_value, attr_bare_value,
  end_tag_id, end_start_tag, end_tag_done, TagLexer, TagOutcome, go_on, invalid, tag_ident,
  is_whitespace, punctuation_kind, peek_ahead, push, enter,
}

module _ (unicode : ℕ → Bool) where
  unfoldable pub in_start : ℕ → ℕ → ℕ → TagLexer → TagOutcome
  in_start open_pos start ch lx =
      let pos = (lx.cursor).pos in
      if tag_ident unicode ch
      then enter (tag_id start) (push open_pos start punctuation lx.tokens) lx
      else if ch == b'/'
      then enter (end_tag_id pos) (push open_pos pos punctuation lx.tokens) lx
      else invalid

  -- `word` is the text from `id_start` to `start`.
  unfoldable pub in_id : List ℕ → ℕ → ℕ → ℕ → TagLexer → TagOutcome
  in_id word id_start start ch lx =
      let pos = (lx.cursor).pos in
      let ts = push id_start start tag_name lx.tokens in
      let named = record lx {
        in_script = list_eq word (codes "script");
        in_style = list_eq word (codes "style");
      } in
      if tag_ident unicode ch
      then go_on lx
      else if ch == b'/'
      then enter (end_start_tag start) ts named
      else if ch == b'>'
      then enter (tag_none pos) (push start pos (punctuation_kind ch) ts) named
      else if is_whitespace ch
      then enter tag_after_id (push start pos (punctuation_kind ch) ts) named
      else invalid

  unfoldable pub in_after_id : ℕ → ℕ → TagLexer → TagOutcome
  in_after_id start ch lx =
      let pos = (lx.cursor).pos in
      let ts = push start pos (punctuation_kind ch) lx.tokens in
      if tag_ident unicode ch
      then enter (attr_name start) lx.tokens lx
      else if ch == b'>'
      then enter (tag_none pos) ts lx
      else if ch == b'/'
      then enter (end_start_tag start) lx.tokens lx
      else if is_whitespace ch
      then enter tag_after_id ts lx
      else go_on lx

  unfoldable pub in_attr_name : ℕ → ℕ → ℕ → TagLexer → TagOutcome
  in_attr_name id_start start ch lx =
      let pos = (lx.cursor).pos in
      let ts = push id_start start tag_attr_name lx.tokens in
      let us = push start pos (punctuation_kind ch) ts in
      if tag_ident unicode ch
      then go_on lx
      else if ch == b'/'
      then enter (end_start_tag start) ts lx
      else if ch == b'>'
      then enter (tag_none pos) us lx
      else if ch == b'='
      then enter attr_eq us lx
      else if is_whitespace ch
      then enter before_eq us lx
      else invalid

  unfoldable pub in_end_tag_id : ℕ → ℕ → ℕ → TagLexer → TagOutcome
  in_end_tag_id id_start start ch lx =
      let pos = (lx.cursor).pos in
      let us = push start pos (punctuation_kind ch) (push id_start start end_tag_name lx.tokens) in
      let outside = record lx { in_script = false; in_style = false } in
      if tag_ident unicode ch
      then go_on lx
      else if ch == b'>'
      then enter (tag_none pos) us outside
      else if is_whitespace ch
      then enter end_tag_done us outside
      else invalid

unfoldable pub in_before_eq : ℕ → ℕ → TagLexer → TagOutcome
in_before_eq start ch lx =
    let pos = (lx.cursor).pos in
    let ts = push start pos (punctuation_kind ch) lx.tokens in
    if ch == b'='
    then enter attr_eq ts lx
    else if ch == b'>'
    then enter (tag_none pos) ts lx
    else if ch == b'/'
    then enter (end_start_tag start) lx.tokens lx
    else if is_whitespace ch
    then enter before_eq ts lx
    else go_on lx

unfoldable pub in_attr_eq : ℕ → ℕ → TagLexer → TagOutcome
in_attr_eq start ch lx =
    let pos = (lx.cursor).pos in
    if ch == b'"' || ch == b'\''
    then enter (attr_value ch pos) (push start pos punctuation lx.tokens) lx
    else if is_whitespace ch
    then enter attr_eq (push start pos (punctuation_kind ch) lx.tokens) lx
    else enter (attr_bare_value start) lx.tokens lx

unfoldable pub in_attr_value : ℕ → ℕ → ℕ → ℕ → TagLexer → TagOutcome
in_attr_value end_ch attr_start start ch lx =
    let pos = (lx.cursor).pos in
    let ts = push attr_start start string_literal lx.tokens in
    if ch == end_ch
    then enter tag_after_id (push start pos punctuation ts) lx
    else if ch == b'\n'
    then enter (attr_value end_ch pos) (push start pos newline ts) lx
    else go_on lx

unfoldable pub in_attr_bare_value : ℕ → ℕ → ℕ → TagLexer → TagOutcome
in_attr_bare_value attr_start start ch lx =
    let pos = (lx.cursor).pos in
    let ts = push attr_start start string_literal lx.tokens in
    let us = push start pos (punctuation_kind ch) ts in
    if is_whitespace ch || ch == b'>' || (ch == b'/' && peek_ahead (codes ">") (lx.cursor).rest)
    then (if ch == b'>'
        then enter (tag_none pos) us lx
        else if ch == b'/'
        then enter (end_start_tag start) ts lx
        else if is_whitespace ch
        then enter tag_after_id us lx
        else enter (attr_bare_value attr_start) ts lx)
    else go_on lx

unfoldable pub in_end_tag_done : ℕ → ℕ → TagLexer → TagOutcome
in_end_tag_done start ch lx =
    let pos = (lx.cursor).pos in
    let ts = push start pos (punctuation_kind ch) lx.tokens in
    if ch == b'>'
    then enter (tag_none pos) ts lx
    else if not (is_whitespace ch)
    then invalid
    else enter end_tag_done ts lx

unfoldable pub in_end_start_tag : ℕ → ℕ → ℕ → TagLexer → TagOutcome
in_end_start_tag slash start ch lx =
    let pos = (lx.cursor).pos in
    if ch == b'>'
    then enter (tag_none pos) (push slash pos (punctuation_kind ch) lx.tokens)
        (record lx { in_script = false; in_style = false })
    else go_on lx
