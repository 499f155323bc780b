-- ===== src/Tokenize/TagLike/Text.antt =====
-- The states outside of tags: text, CDATA, comments, processing instructions, the doctype.
-- Each takes the start of the character just read, that character, and the lexer behind it.
use mozsearch.Prelude.{ℕ, Bool, true, false, not, ◌&&◌, ◌||◌, List, ◌==◌, if◌then◌else◌, codes}
use mozsearch.Tokenize.{Token, plain_text, punctuation, newline, comment, Cursor, advance}
use mozsearch.Tokenize.TagLike.State.{
  tag_none, tag_start, cdata, tag_comment, tag_pi, doctype, TagLexer, TagOutcome, go_on, peek_ahead,
  push, push_some, enter,
}

abbrev pub advance_eight : Cursor → Cursor
advance_eight c = advance (advance (advance (advance (advance (advance (advance (advance c)))))))

-- `<` outside of a script.
unfoldable pub open_tag : ℕ → TagLexer → List Token → TagOutcome
open_tag start lx ts =
    let r = (lx.cursor).rest in
    let c' = advance_eight lx.cursor in
    if peek_ahead (codes "!--") r
    then enter (tag_comment start) ts lx
    else if peek_ahead (codes "![CDATA[") r
    then go_on
        (record lx { cursor = c'; tokens = push start c'.pos punctuation ts; state = cdata c'.pos })
    else if peek_ahead (codes "!DOCTYPE") r || peek_ahead (codes "!doctype") r
    then enter (doctype false) (push start (lx.cursor).pos punctuation ts) lx
    else if peek_ahead (codes "?") r
    then enter (tag_pi start) ts lx
    else enter (tag_start start) ts lx

unfoldable pub in_none : ℕ → ℕ → ℕ → TagLexer → TagOutcome
in_none plain_start start ch lx =
    let r = (lx.cursor).rest in
    let pos = (lx.cursor).pos in
    let skip =
      (lx.in_script && not (peek_ahead (codes "/script") r))
      || (lx.in_style && not (peek_ahead (codes "/style") r)) in
    let ts = push_some plain_start start plain_text lx.tokens in
    if ch == b'<' && not skip
    then open_tag start lx ts
    else if ch == b'\n'
    then enter (tag_none pos) (push start pos newline ts) lx
    else go_on lx

unfoldable pub in_cdata : ℕ → ℕ → ℕ → TagLexer → TagOutcome
in_cdata cdata_start start ch lx =
    let c' = advance (advance lx.cursor) in
    let pos = (lx.cursor).pos in
    if ch == b']' && peek_ahead (codes "]>") (lx.cursor).rest
    then go_on (record lx {
      cursor = c';
      tokens = push_some cdata_start c'.pos plain_text lx.tokens;
      state = tag_none c'.pos;
    })
    else if ch == b'\n'
    then enter (cdata pos)
        (push start pos newline (push_some cdata_start start plain_text lx.tokens)) lx
    else go_on lx

unfoldable pub in_comment : ℕ → ℕ → ℕ → TagLexer → TagOutcome
in_comment comment_start start ch lx =
    let c' = advance (advance lx.cursor) in
    let pos = (lx.cursor).pos in
    if ch == b'-' && peek_ahead (codes "->") (lx.cursor).rest
    then go_on (record lx {
      cursor = c';
      tokens = push comment_start c'.pos comment lx.tokens;
      state = tag_none c'.pos;
    })
    else if ch == b'\n'
    then enter (tag_comment pos)
        (push start pos newline (push comment_start start comment lx.tokens)) lx
    else go_on lx

unfoldable pub in_pi : ℕ → ℕ → ℕ → TagLexer → TagOutcome
in_pi comment_start start ch lx =
    let pos = (lx.cursor).pos in
    if ch == b'>'
    then enter (tag_none pos) (push comment_start pos comment lx.tokens) lx
    else if ch == b'\n'
    then enter (tag_pi pos) (push start pos newline (push comment_start start comment lx.tokens)) lx
    else go_on lx

unfoldable pub in_doctype : Bool → ℕ → ℕ → TagLexer → TagOutcome
in_doctype in_bracket start ch lx =
    let pos = (lx.cursor).pos in
    if ch == b'[' && not in_bracket
    then enter (doctype true) lx.tokens lx
    else if ch == b']' && in_bracket
    then enter (doctype false) lx.tokens lx
    else if ch == b'>' && not in_bracket
    then enter (tag_none start) lx.tokens lx
    else if ch == b'<'
    then enter (doctype in_bracket) (push start pos punctuation lx.tokens) lx
    else if ch == b'\n'
    then enter (doctype in_bracket) (push start pos newline lx.tokens) lx
    else go_on lx
