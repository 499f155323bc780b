-- ===== src/Tokenize/CLike/Order/Quotes.antt =====
-- Quoted literals keep the invariant.
use mozsearch.Prelude.{
  ℕ, ◌+◌, ◌≤◌, Bool, true, false, not, ◌&&◌, ◌||◌, none, List, [], ◌∷◌, refl, subst, ◌==◌,
  if◌then◌else◌, if-elim, arith, append_assoc, All,
}
use mozsearch.Tokenize.{
  token, string_literal, regular_expression_literal, punctuation, identifier, Cursor, advance,
  byte_len,
}
use mozsearch.Tokenize.Boundaries.{
  InOrder, InOrder-mono, InOrder-concat, IsBoundary, IsAt-boundary, Tiles-InOrder,
}
use mozsearch.Tokenize.Plain.{tokenize_plain}
use mozsearch.Tokenize.Plain.Tiling.{tokenize_plain-Tiles}
use mozsearch.Tokenize.CLike.State.{
  LanguageSpec, is_ident, peek_char, peek_char2, peek_isnot, Literal, Ending, closed, cut_off, scan,
  Lexer, open_literal,
}
use mozsearch.Tokenize.CLike.Quotes.{
  template_turn, after_template, template, quote_turn, label_turn, lonely_quote, quote_body, quote,
  Regexp, regexp_turn, regexp,
}
use mozsearch.Tokenize.CLike.Order.Inv.{
  OnTurn, scan-elim, Within, Within-past, advance-Within, IsLit, LitAt, CursorAt, Ends, Good,
  move-LitAt, newline-LitAt, advance-IsLit, after-Good, Begins, Begins-move, open_literal-LitAt,
  cut_off-Ends,
}

module _ (text : List ℕ) (n : ℕ) where
  abbrev TemplateEnds : Bool × Ending → Type 0
  TemplateEnds e = Ends text n e.1

  template_turn-Turn :
      (s : Literal) (x : ℕ) (r : List ℕ)
      → LitAt text n s (x ∷ r)
      → OnTurn (LitAt text n) TemplateEnds r (template_turn s x r)
  unfolding template_turn
  template_turn-Turn s x r p =
      let next = move-LitAt false x r p in
      let P = OnTurn (LitAt text n) TemplateEnds r in
      if-elim P s.skip (λ _. next)
        λ _.
          if-elim P (x == b'`') (λ _. next.0)
            λ _.
              if-elim P (x == b'\n') (λ h. newline-LitAt false string_literal x r h p)
                λ _.
                  if-elim P (x == b'\\' && peek_isnot b'\n' r) (λ _. move-LitAt true x r p)
                    λ _.
                      if-elim P (x == b'$' && peek_char r == b'{') (λ _. advance-IsLit next.0)
                        (λ _. next)

  after_template-Good :
      (lx : Lexer) (opens : Bool) (e : Ending)
      → All (λ k. 1 ≤ k) lx.nesting
      → Ends text n e
      → Good text n (after_template lx (opens, e))
  unfolding after_template
  after_template-Good lx opens (closed s) nests l = record {
    order =
        if-elim (λ ts. InOrder text 0 ts (s.cursor).pos) ((s.cursor).pos == s.start)
          (λ h. InOrder-mono text 0 s.tokens l.le l.order)
          (λ _.
            InOrder-concat text 0 s.tokens s.start (s.cursor).pos string_literal l.order l.le
              l.starts (IsAt-boundary (l.within).stands));
    within = l.within;
    nests = if-elim (All (λ k. 1 ≤ k)) opens (λ _. (omega arith, nests)) (λ _. nests);
  }
  after_template-Good lx opens (cut_off ts) nests o = o

  pub template-Good :
      (start : ℕ) (lx : Lexer) (c : Cursor)
      → Begins text n start lx c
      → Good text n (template start lx c)
  unfolding template
  template-Good start lx c b =
      let s0 = open_literal start lx c in
      let stop = λ (s : Literal). let e : Bool × Ending = (false, cut_off s.tokens) in e in
      let ended = scan template_turn stop s0 c.rest in
      after_template-Good lx ended.0 ended.1 b.nests (
        scan-elim (LitAt text n) TemplateEnds template_turn stop (λ s p. cut_off-Ends text n s p)
          template_turn-Turn s0 c.rest (open_literal-LitAt b))

  quote_turn-Turn :
      (ch : ℕ) (triple : Bool) (s : Literal) (x : ℕ) (r : List ℕ)
      → LitAt text n s (x ∷ r)
      → OnTurn (LitAt text n) (Ends text n) r (quote_turn ch triple s x r)
  unfolding quote_turn
  quote_turn-Turn ch triple s x r p =
      let next = move-LitAt false x r p in
      let P = OnTurn (LitAt text n) (Ends text n) r in
      if-elim P s.skip (λ _. next)
        λ _.
          if-elim P (x == ch && (not triple || (peek_char r == ch && peek_char2 r == ch)))
            (λ _.
              if-elim (IsLit text n) triple (λ _. advance-IsLit (advance-IsLit next.0))
                (λ _. next.0))
            λ _.
              if-elim P (x == b'\n') (λ h. newline-LitAt false string_literal x r h p)
                λ _.
                  if-elim P (x == b'\\' && peek_isnot b'\n' r) (λ _. move-LitAt true x r p)
                    (λ _. next)

  quote_body-Good :
      (start ch : ℕ) (triple : Bool) (lx : Lexer) (c : Cursor)
      → Begins text n start lx c
      → Good text n (quote_body start ch triple lx c)
  unfolding quote_body
  quote_body-Good start ch triple lx c b = after-Good text n string_literal false lx _ b.nests (
      scan-elim (LitAt text n) (Ends text n) (quote_turn ch triple) (λ s. cut_off s.tokens)
        (λ s p. cut_off-Ends text n s p) (quote_turn-Turn ch triple) (open_literal start lx c)
        c.rest (open_literal-LitAt b))

  label_turn-Turn :
      (unicode : ℕ → Bool) (spec : LanguageSpec) (low : ℕ) (c : Cursor) (x : ℕ) (r : List ℕ)
      → CursorAt text n low c (x ∷ r)
      → OnTurn
          (CursorAt text n low)
          (λ d. Within text n d × (low ≤ d.pos))
          r
          (label_turn unicode spec c x r)
  unfolding label_turn
  label_turn-Turn unicode spec low c x r (w, le, e) =
      if-elim (OnTurn (CursorAt text n low) (λ d. Within text n d × (low ≤ d.pos)) r)
        (is_ident unicode spec x) (λ _. (Within-past x r w e, omega arith, refl)) (λ _. (w, le))

  -- The quote itself, one byte long, and where it ends.
  pub record QuoteAt (start : ℕ) (lx : Lexer) (c : Cursor) : Type 0 where
    pub begins : Begins text n start lx c
    pub quoted : IsBoundary text (start + 1)
    pub behind : start + 1 ≤ c.pos

  lonely_quote-Good :
      (unicode : ℕ → Bool) (spec : LanguageSpec) (start : ℕ) (lx : Lexer) (c : Cursor)
      → QuoteAt start lx c
      → Good text n (lonely_quote unicode spec start lx c)
  unfolding lonely_quote
  lonely_quote-Good unicode spec start lx c q =
      let b = q.begins in
      let end = scan (label_turn unicode spec) (λ d. d) c c.rest in
      let ended =
        scan-elim (CursorAt text n c.pos) (λ d. Within text n d × (c.pos ≤ d.pos))
          (label_turn unicode spec) (λ d. d) (λ s p. (p.0, p.1))
          (label_turn-Turn unicode spec c.pos) c c.rest (b.within, omega arith, refl) in
      let first =
        InOrder-concat text 0 lx.tokens start (start + 1) punctuation b.order (omega arith) b.starts
          q.quoted in
      record {
        order =
            subst (λ ts. InOrder text 0 ts end.pos)
              (append_assoc lx.tokens (token start (start + 1) punctuation ∷ []) _)
              (InOrder-concat text 0 _ (start + 1) _ (identifier none) first
                (omega (arith, q.behind, ended.1)) q.quoted (IsAt-boundary (ended.0).stands));
        within = ended.0;
        nests = b.nests;
      }

  pub QuoteAt-move :
      {start : ℕ} {lx : Lexer} {c c' : Cursor}
      → QuoteAt start lx c
      → Within text n c' × (c.pos ≤ c'.pos)
      → QuoteAt start lx c'
  QuoteAt-move q m = record {
    begins = Begins-move q.begins m;
    quoted = q.quoted;
    behind = omega (arith, q.behind, m.1);
  }

  pub quote-Good :
      (unicode : ℕ → Bool) (spec : LanguageSpec) (start ch : ℕ) (lx : Lexer) (c : Cursor)
      → QuoteAt start lx c
      → Good text n (quote unicode spec start ch lx c)
  unfolding quote
  quote-Good unicode spec start ch lx c q =
      let triple =
        spec.triple_quote_literals && (peek_char c.rest == ch && peek_char2 c.rest == ch) in
      let w1 = advance-Within (q.begins).within in
      let w2 = advance-Within w1.0 in
      let q' =
        if-elim (QuoteAt start lx) triple (λ _. QuoteAt-move (QuoteAt-move q w1) w2) (λ _. q) in
      let c' = if triple then advance (advance c) else c in
      if-elim (Good text n)
        (spec.rust_tweaks
          && (ch == b'\''
              && (not (peek_char c'.rest == b'\\') && not (peek_char2 c'.rest == b'\''))))
        (λ _. lonely_quote-Good unicode spec start lx c' q')
        (λ _. quote_body-Good start ch triple lx c' q'.begins)

  abbrev RegexpAt : Regexp → List ℕ → Type 0
  RegexpAt s l = LitAt text n s.lit l

  plain-InOrder : InOrder text 0 (tokenize_plain text) (byte_len text)
  plain-InOrder = Tiles-InOrder (tokenize_plain-Tiles text)

  regexp_turn-Turn :
      (s : Regexp) (x : ℕ) (r : List ℕ)
      → RegexpAt s (x ∷ r)
      → OnTurn RegexpAt (Ends text n) r (regexp_turn text s x r)
  unfolding regexp_turn
  regexp_turn-Turn s x r p =
      let next = move-LitAt false x r p in
      let P = OnTurn RegexpAt (Ends text n) r in
      if-elim P (s.lit).skip (λ _. next)
        λ _.
          if-elim P (s.in_class && not (x == b']')) (λ _. next)
            λ _.
              if-elim P (x == b'/') (λ _. next.0)
                λ _.
                  if-elim P (x == b'[') (λ _. next)
                    λ _.
                      if-elim P (x == b'\\' && peek_isnot b'\n' r) (λ _. move-LitAt true x r p)
                        λ _. if-elim P (x == b'\n') (λ _. plain-InOrder) (λ _. next)

  pub regexp-Good :
      (start : ℕ) (lx : Lexer) (c : Cursor)
      → Begins text n start lx c
      → Good text n (regexp text start lx c)
  unfolding regexp
  regexp-Good start lx c b = after-Good text n regular_expression_literal true lx _ b.nests (
      scan-elim RegexpAt (Ends text n) (regexp_turn text) (λ s. cut_off (tokenize_plain text))
        (λ s p. plain-InOrder) regexp_turn-Turn
        (record { lit = open_literal start lx c; in_class = false }) c.rest (open_literal-LitAt b))
