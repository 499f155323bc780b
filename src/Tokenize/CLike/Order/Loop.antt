-- ===== src/Tokenize/CLike/Order/Loop.antt =====
-- The main loop: every turn keeps the invariant and reads a character, so that it ends.
use mozsearch.Prelude.{
  ℕ, zero, suc, ◌+◌, ◌-◌, ◌≤◌, Bool, true, ◌&&◌, ◌||◌, Option, some, List, [], ◌∷◌, ◌≡◌, refl,
  subst, ap, ◌==◌, if-elim, arith, All, length,
}
use mozsearch.Tokenize.{Token, newline, Cursor, past, advance, start_of, byte_len, width}
use mozsearch.Tokenize.Boundaries.{
  InOrder, InOrder-mono, IsBoundary, IsAt-boundary, IsAt-past, IsAt-le,
}
use mozsearch.Tokenize.CLike.State.{
  LanguageSpec, is_ident, peek_char, Lexer, Outcome, go_on, finish,
}
use mozsearch.Tokenize.CLike.Words.{allows_regexp}
use mozsearch.Tokenize.CLike.Step.{
  track_braces, has_byte_prefix, is_blank, slash, dispatch, turn, lex_loop, tokenize_c_like,
}
use mozsearch.Tokenize.CLike.Order.Inv.{
  Within, advance-Within, IsLexer, Good, Begins, Begins-move, push-Good,
}
use mozsearch.Tokenize.CLike.Order.Raw.{rust_raw-Good, cpp_raw-Good}
use mozsearch.Tokenize.CLike.Order.Comments.{line_comment-Good, block_comment-Good}
use mozsearch.Tokenize.CLike.Order.Quotes.{
  QuoteAt, QuoteAt-move, template-Good, quote-Good, regexp-Good,
}
use mozsearch.Tokenize.CLike.Order.Words.{ident-Good, preprocessor-Good, punct-Good}

-- A count that falls to 0 is popped, so none is 0, and `braces.get() - 1` does not underflow.
track_braces-All :
    (ch : ℕ) (ns : List ℕ) → All (λ k. 1 ≤ k) ns → All (λ k. 1 ≤ k) (track_braces ch ns).0
unfolding track_braces
track_braces-All ch [] h = tt
track_braces-All ch (k ∷ ns) (h, hs) =
    let P : List ℕ × Bool → Type 0 = λ t. All (λ k. 1 ≤ k) t.0 in
    if-elim P (ch == b'{') (λ _. (omega arith, hs))
      λ _.
        if-elim P (ch == b'}') (λ _. if-elim P (k - 1 == 0) (λ _. hs) (λ e. (ground arith, hs)))
          (λ _. (h, hs))

-- The two characters that may begin a quoted literal are one byte long.
prefix-width :
    (spec : LanguageSpec) (x : ℕ) (r : List ℕ) → has_byte_prefix spec x r ≡ true → width x ≡ 1
unfolding has_byte_prefix
prefix-width spec x r h = ground arith

module _ (unicode : ℕ → Bool) (spec : LanguageSpec) (text : List ℕ) where
  module _ (n start : ℕ) (lx : Lexer) (c : Cursor) (b : Begins text n start lx c) where
    slash-Good : Good text n (slash unicode spec text start lx c)
    unfolding slash
    slash-Good =
        if-elim (Good text n) (peek_char c.rest == b'*')
          (λ _. block_comment-Good text n spec start lx c b)
          λ _.
            if-elim (Good text n) (peek_char c.rest == b'/')
              (λ _. line_comment-Good text n start lx _ (Begins-move b (advance-Within b.within)))
              λ _.
                if-elim (Good text n) (lx.maybe_regexp && spec.regexp_literals)
                  (λ _. regexp-Good text n start lx c b) (λ _. punct-Good text n true start lx c b)

    dispatch-Good :
        (continue_backtick : Bool) (ch : ℕ)
        → ((ch == b'\'' || ch == b'"') ≡ true → QuoteAt text n start lx c)
        → Good text n (dispatch unicode spec text continue_backtick start ch lx c)
    unfolding dispatch
    dispatch-Good continue_backtick ch quoted =
        let G = Good text n in
        let next = peek_char c.rest in
        if-elim G (spec.rust_tweaks && (ch == b'r' && (next == b'#' || next == b'"')))
          (λ _. rust_raw-Good text n start lx c b)
          λ _.
            if-elim G (ch == b'R' && next == b'"') (λ _. cpp_raw-Good text n start lx c b)
              λ _.
                if-elim G (is_ident unicode spec ch)
                  (λ _. ident-Good text n unicode spec start ch lx c b)
                  λ _.
                    if-elim G (ch == b'\n') (λ _. push-Good newline lx.maybe_regexp b)
                      λ _.
                        if-elim G (is_blank ch) (λ _. skip-Good)
                          λ _.
                            if-elim G (ch == b'#' && spec.hash_comment)
                              (λ _. line_comment-Good text n start lx c b)
                              λ _.
                                if-elim G (ch == b'#' && spec.c_preprocessor)
                                  (λ _. preprocessor-Good text n unicode spec start lx c b)
                                  λ _.
                                    if-elim G (ch == b'/' && spec.c_style_comments)
                                      (λ _. slash-Good)
                                      λ _.
                                        if-elim G
                                          (continue_backtick
                                            || (ch == b'`' && spec.backtick_strings))
                                          (λ _. template-Good text n start lx c b)
                                          λ _.
                                            if-elim G (ch == b'\'' || ch == b'"')
                                              (λ h.
                                                quote-Good text n unicode spec start ch lx c
                                                  (quoted h))
                                              (λ _.
                                                punct-Good text n (allows_regexp ch) start lx c b)
      where
        skip-Good : Good text n (go_on (record lx { cursor = c }))
        skip-Good = record {
          order = InOrder-mono text 0 lx.tokens b.le b.order;
          within = b.within;
          nests = b.nests;
        }

  turn-Good :
      (n : ℕ) (lx : Lexer) (x : ℕ) (r : List ℕ)
      → IsLexer text (suc n) lx
      → (lx.cursor).rest ≡ x ∷ r
      → Good text n (turn unicode spec text lx x r)
  unfolding turn
  turn-Good n lx x r g e =
      let start = (lx.cursor).pos in
      let c = past lx.cursor x r in
      let t = track_braces x lx.nesting in
      let lx' = record lx { nesting = t.0 } in
      let stands = IsAt-past x r (g.within).stands e in
      let w : Within text n c = record {
        stands = stands;
        left = omega (arith, (g.within).left, ap length e);
      } in
      let b : Begins text n start lx' c = record {
        order = g.order;
        starts = IsAt-boundary (g.within).stands;
        nests = track_braces-All x lx.nesting g.nests;
        within = w;
        le = omega arith;
      } in
      let at_quote : width x ≡ 1 → QuoteAt text n start lx' c = λ one. record {
        begins = b;
        quoted = subst (λ k. IsBoundary text (start + k)) one (IsAt-boundary stands);
        behind = omega (arith, one);
      } in
      let further = advance-Within w in
      if-elim (Good text n) (has_byte_prefix spec x r)
        (λ h.
          dispatch-Good n start lx' (advance c) (Begins-move b further) t.1 (peek_char r)
            (λ _. QuoteAt-move text n (at_quote (prefix-width spec x r h)) further))
        (λ _. dispatch-Good n start lx' c b t.1 x (λ q. at_quote (ground arith)))

  -- What is to be shown of a run: it has a result, and the tokens are in order.
  abbrev Runs : Option (List Token) → Type 0
  Runs o = (ts : List Token) × (o ≡ some ts) × InOrder text 0 ts (byte_len text)

  outcome-Runs :
      (n : ℕ) (next : Lexer → Option (List Token)) (o : Outcome)
      → ((lx : Lexer) → IsLexer text n lx → Runs (next lx))
      → Good text n o
      → Runs (elim o [ finish ts ↦ some ts | go_on lx ↦ next lx ])
  outcome-Runs n next (go_on lx) ih g = ih lx g
  outcome-Runs n next (finish ts) ih g = (ts, refl, g)

  lex_loop-Runs :
      (n : ℕ) (lx : Lexer) (l : List ℕ)
      → IsLexer text n lx
      → (lx.cursor).rest ≡ l
      → Runs (lex_loop unicode spec text (suc n) lx l)
  unfolding lex_loop
  lex_loop-Runs n lx [] g e =
      (lx.tokens, refl, InOrder-mono text 0 lx.tokens (IsAt-le (g.within).stands) g.order)
  lex_loop-Runs zero lx (x ∷ r) g e = absurd (omega (arith, (g.within).left, ap length e))
  lex_loop-Runs (suc n) lx (x ∷ r) g e =
      outcome-Runs n (λ lx'. lex_loop unicode spec text (suc n) lx' (lx'.cursor).rest)
        (turn unicode spec text lx x r) (λ lx' g'. lex_loop-Runs n lx' (lx'.cursor).rest g' refl)
        (turn-Good n lx x r g e)

  -- For every text, language and table of the letters beyond ASCII, the fuel suffices, and the
  -- tokens that `tokenize_c_like` returns are in order: each starts at or behind the end of the one
  -- before it, ends at or behind its own start and within the text, and starts and ends at a
  -- boundary between two characters.
  pub tokenize_c_like-InOrder :
      (ts : List Token) × (tokenize_c_like unicode spec text ≡ some ts)
      × InOrder text 0 ts (byte_len text)
  unfolding tokenize_c_like
  tokenize_c_like-InOrder =
      lex_loop-Runs (length text)
        (record { cursor = start_of text; tokens = []; nesting = []; maybe_regexp = true }) text
        (record {
          order = omega arith;
          within = record {
            stands = record { before = []; split = refl; size = refl };
            left = omega arith;
          };
          nests = tt;
        })
        refl
