-- ===== src/Tokenize/CLike/Order/Comments.antt =====
-- Comments keep the invariant.
use mozsearch.Prelude.{
  ℕ, ◌-◌, ◌≤◌, true, false, ◌&&◌, List, [], ◌∷◌, ◌≡◌, subst, ◌==◌, if-elim, arith, append_assoc,
  All,
}
use mozsearch.Tokenize.{token, comment, newline, Cursor, past, advance, byte_len}
use mozsearch.Tokenize.Boundaries.{
  InOrder, InOrder-mono, InOrder-concat, IsBoundary, IsAt-boundary, IsAt-le,
}
use mozsearch.Tokenize.CLike.State.{
  LanguageSpec, peek_char, Literal, Ending, closed, cut_off, Lexer, open_literal, emit,
}
use mozsearch.Tokenize.CLike.Comments.{
  line_comment_turn, after_line_comment, line_comment, BlockComment, block_comment_turn,
  block_comment,
}
use mozsearch.Tokenize.CLike.Order.Inv.{
  advance-IsLit, OnTurn, scan-elim, advance-Within, IsLit, LitAt, Ends, Good, move-LitAt,
  newline-LitAt, after-Good, Begins, Begins-move, open_literal-LitAt, cut_off-Ends,
}

module _ (text : List ℕ) (n : ℕ) where
  -- A line comment ends right behind its line feed.
  abbrev LineEnds : Ending → Type 0
  LineEnds (closed s) =
      IsLit text n s × IsBoundary text ((s.cursor).pos - 1) × (s.start ≤ (s.cursor).pos - 1)
  LineEnds (cut_off ts) = InOrder text 0 ts (byte_len text)

  line_comment_turn-Turn :
      (s : Literal) (x : ℕ) (r : List ℕ)
      → LitAt text n s (x ∷ r)
      → OnTurn (LitAt text n) LineEnds r (line_comment_turn s x r)
  unfolding line_comment_turn
  line_comment_turn-Turn s x r (l, e) =
      let next = move-LitAt false x r (l, e) in
      if-elim (OnTurn (LitAt text n) LineEnds r) (x == b'\n')
        (λ h.
          let back : (s.cursor).pos ≡ (past s.cursor x r).pos - 1 = ground arith in
          (
            next.0,
            subst (λ p. IsBoundary text p) back (IsAt-boundary (l.within).stands),
            omega (arith, l.le),
          ))
        (λ _. next)

  after_line_comment-Good :
      (lx : Lexer) (e : Ending)
      → All (λ k. 1 ≤ k) lx.nesting
      → LineEnds e
      → Good text n (after_line_comment lx e)
  unfolding after_line_comment
  after_line_comment-Good lx (closed s) nests (l, bl, le) =
      let nl = (s.cursor).pos - 1 in
      let first = InOrder-concat text 0 s.tokens s.start nl comment l.order le l.starts bl in
      record {
        order =
            subst (λ ts. InOrder text 0 ts (s.cursor).pos)
              (append_assoc s.tokens (token s.start nl comment ∷ []) _)
              (InOrder-concat text 0 _ nl (s.cursor).pos newline first (omega arith) bl
                (IsAt-boundary (l.within).stands));
        within = l.within;
        nests = nests;
      }
  after_line_comment-Good lx (cut_off ts) b o = o

  -- At the end of the text the comment is the last token.
  cut_short :
      (s : Literal) {l : List ℕ}
      → LitAt text n s l
      → InOrder text 0 (emit comment s) (byte_len text)
  cut_short s (l, e) =
      let stands = (l.within).stands in
      InOrder-mono text 0 (emit comment s) (IsAt-le stands) (
        InOrder-concat text 0 s.tokens s.start (s.cursor).pos comment l.order l.le l.starts
          (IsAt-boundary stands))

  pub line_comment-Good :
      (start : ℕ) (lx : Lexer) (c : Cursor)
      → Begins text n start lx c
      → Good text n (line_comment start lx c)
  unfolding line_comment
  line_comment-Good start lx c b = after_line_comment-Good lx _ b.nests (
      scan-elim (LitAt text n) LineEnds line_comment_turn (λ s. cut_off (emit comment s))
        (λ s p. cut_short s p) line_comment_turn-Turn (open_literal start lx c) c.rest
        (open_literal-LitAt b))

  abbrev BlockAt : BlockComment → List ℕ → Type 0
  BlockAt s l = LitAt text n s.lit l

  block_comment_turn-Turn :
      (spec : LanguageSpec) (s : BlockComment) (x : ℕ) (r : List ℕ)
      → BlockAt s (x ∷ r)
      → OnTurn BlockAt (Ends text n) r (block_comment_turn spec s x r)
  unfolding block_comment_turn
  block_comment_turn-Turn spec s x r p =
      let next = move-LitAt false x r p in
      let skipping = move-LitAt true x r p in
      let P = OnTurn BlockAt (Ends text n) r in
      if-elim P (s.lit).skip (λ _. next)
        λ _.
          if-elim P (x == b'*' && peek_char r == b'/')
            (λ _. if-elim P (s.depth == 1) (λ _. advance-IsLit next.0) (λ _. skipping))
            λ _.
              if-elim P (x == b'\n') (λ h. newline-LitAt false comment x r h p)
                λ _.
                  if-elim P (spec.rust_tweaks && (x == b'/' && peek_char r == b'*')) (λ _. skipping)
                    (λ _. next)

  pub block_comment-Good :
      (spec : LanguageSpec) (start : ℕ) (lx : Lexer) (c : Cursor)
      → Begins text n start lx c
      → Good text n (block_comment spec start lx c)
  unfolding block_comment
  block_comment-Good spec start lx c b =
      let b1 = Begins-move b (advance-Within b.within) in
      after-Good text n comment lx.maybe_regexp lx _ b.nests (
        scan-elim BlockAt (Ends text n) (block_comment_turn spec) (λ s. cut_off (s.lit).tokens)
          (λ s p. cut_off-Ends text n s.lit p) (block_comment_turn-Turn spec)
          (record { lit = open_literal start lx (advance c); depth = 1 }) (advance c).rest
          (open_literal-LitAt b1))
