-- ===== src/Tokenize/TagLike/Order/Text.antt =====
-- The states outside of tags keep the invariant.
use mozsearch.Prelude.{ℕ, ◌≤◌, Bool, not, ◌&&◌, ◌||◌, List, ◌==◌, if-elim, codes, arith}
use mozsearch.Tokenize.{Token, plain_text, punctuation, newline, comment, Cursor, advance}
use mozsearch.Tokenize.CLike.Order.Inv.{Within, advance-Within}
use mozsearch.Tokenize.TagLike.State.{TagLexer, peek_ahead}
use mozsearch.Tokenize.TagLike.Text.{
  advance_eight, open_tag, in_none, in_cdata, in_comment, in_pi, in_doctype,
}
use mozsearch.Tokenize.TagLike.Order.Inv.{
  Upto, Good, Upto-move, Upto-push_end, Upto-skip_end, Upto-push_some, Upto-boundary, Turn,
  push_start, skip_start, push_some_start,
}

module _ (text : List ℕ) (n : ℕ) where
  -- One `get_char` after another.
  advances :
      {d : Cursor} (low : ℕ)
      → Within text n d × (low ≤ d.pos)
      → Within text n (advance d) × (low ≤ (advance d).pos)
  advances low (w, le) = let (w', le') = advance-Within w in (w', omega (arith, le, le'))

  eight :
      {d : Cursor} {low : ℕ}
      → Within text n d × (low ≤ d.pos)
      → Within text n (advance_eight d) × (low ≤ (advance_eight d).pos)
  eight {low = m} w =
      advances m
        (advances m (advances m (advances m (advances m (advances m (advances m (advances m w)))))))

  open_tag-Good :
      (start : ℕ) (lx : TagLexer) (ts : List Token)
      → Upto text n start ts lx.cursor
      → Good text n (open_tag start lx ts)
  unfolding open_tag
  open_tag-Good start lx ts u =
      let G = Good text n in
      let r = (lx.cursor).rest in
      let w : Within text n lx.cursor × ((lx.cursor).pos ≤ (lx.cursor).pos) =
        (u.within, omega arith) in
      if-elim G (peek_ahead (codes "!--") r) (λ _. u)
        λ _.
          if-elim G (peek_ahead (codes "![CDATA[") r)
            (λ _. Upto-push_end punctuation (Upto-move u (eight w)))
            λ _.
              if-elim G (peek_ahead (codes "!DOCTYPE") r || peek_ahead (codes "!doctype") r)
                (λ _. Upto-push_end punctuation u)
                λ _. if-elim G (peek_ahead (codes "?") r) (λ _. u) (λ _. u)

  module _ (p start ch : ℕ) (lx : TagLexer) (t : Turn text n p start lx) where
    twice :
        Within text n (advance (advance lx.cursor))
        × ((lx.cursor).pos ≤ (advance (advance lx.cursor)).pos)
    twice = advances (lx.cursor).pos (advance-Within (t.upto).within)

    pub in_none-Good : Good text n (in_none p start ch lx)
    unfolding in_none
    in_none-Good =
        let r = (lx.cursor).rest in
        let u = push_some_start plain_text t in
        if-elim (Good text n)
          (ch == b'<'
            && not (
                (lx.in_script && not (peek_ahead (codes "/script") r))
                || (lx.in_style && not (peek_ahead (codes "/style") r))))
          (λ _. open_tag-Good start lx _ u)
          λ _. if-elim (Good text n) (ch == b'\n') (λ _. Upto-push_end newline u) (λ _. t.stays)

    pub in_cdata-Good : Good text n (in_cdata p start ch lx)
    unfolding in_cdata
    in_cdata-Good =
        let u = Upto-move t.upto twice in
        if-elim (Good text n) (ch == b']' && peek_ahead (codes "]>") (lx.cursor).rest)
          (λ _. Upto-push_some _ plain_text (Upto-boundary u) u.le (omega arith) u)
          λ _.
            if-elim (Good text n) (ch == b'\n')
              (λ _. Upto-push_end newline (push_some_start plain_text t)) (λ _. t.stays)

    pub in_comment-Good : Good text n (in_comment p start ch lx)
    unfolding in_comment
    in_comment-Good =
        if-elim (Good text n) (ch == b'-' && peek_ahead (codes "->") (lx.cursor).rest)
          (λ _. Upto-push_end comment (Upto-move t.upto twice))
          λ _.
            if-elim (Good text n) (ch == b'\n') (λ _. Upto-push_end newline (push_start comment t))
              (λ _. t.stays)

    pub in_pi-Good : Good text n (in_pi p start ch lx)
    unfolding in_pi
    in_pi-Good =
        if-elim (Good text n) (ch == b'>') (λ _. Upto-push_end comment t.upto)
          λ _.
            if-elim (Good text n) (ch == b'\n') (λ _. Upto-push_end newline (push_start comment t))
              (λ _. t.stays)

    pub in_doctype-Good : (b : Bool) → Good text n (in_doctype b start ch lx)
    unfolding in_doctype
    in_doctype-Good b =
        let G = Good text n in
        let u = skip_start t in
        if-elim G (ch == b'[' && not b) (λ _. Upto-skip_end u)
          λ _.
            if-elim G (ch == b']' && b) (λ _. Upto-skip_end u)
              λ _.
                if-elim G (ch == b'>' && not b) (λ _. u)
                  λ _.
                    if-elim G (ch == b'<') (λ _. Upto-push_end punctuation u)
                      λ _. if-elim G (ch == b'\n') (λ _. Upto-push_end newline u) (λ _. t.stays)
