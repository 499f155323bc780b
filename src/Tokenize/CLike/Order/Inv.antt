-- ===== src/Tokenize/CLike/Order/Inv.antt =====
-- The invariants of the lexer and of its inner loops, with the rules by which they are kept.
use mozsearch.Prelude.{
  ℕ, ◌+◌, ◌-◌, ◌≤◌, Bool, true, List, [], ◌∷◌, ◌++◌, ◌⊎◌, inl, inr, ◌≡◌, refl, sym, subst, ap, ◌==◌,
  All, arith, length, append_assoc, if-elim,
}
use mozsearch.Tokenize.{
  Token, TokenKind, token, newline, Cursor, past, advance, advance_in, byte_len,
}
use mozsearch.Tokenize.Boundaries.{
  InOrder, InOrder-mono, InOrder-concat, IsBoundary, IsAt, IsAt-boundary, IsAt-past, IsAt-le,
}
use mozsearch.Tokenize.CLike.State.{
  Literal, move, push_newline, newline_tokens, Ending, closed, cut_off, scan, Lexer, Outcome, go_on,
  finish, open_literal, after,
}

-- A turn keeps `P` of the state and the characters left, or ends with `Q`.
abbrev pub OnTurn {ℓ κ} :
    {S : Type ℓ} {R : Type κ} → (S → List ℕ → Type 0) → (R → Type 0) → List ℕ → S ⊎ R → Type 0
OnTurn P Q r (inl s) = P s r
OnTurn P Q r (inr q) = Q q

on_turn {ℓ κ} :
    {S : Type ℓ} {R : Type κ} (P : S → List ℕ → Type 0) (Q : R → Type 0) (r : List ℕ) (next : S → R)
    → ((s : S) → P s r → Q (next s))
    → (o : S ⊎ R) → OnTurn P Q r o
    → Q (elim o [ inl s ↦ next s | inr q ↦ q ])
on_turn P Q r next h (inl s) p = h s p
on_turn P Q r next h (inr q) p = p

-- The rule for an inner loop.
pub scan-elim {ℓ κ} :
    {S : Type ℓ} {R : Type κ} (P : S → List ℕ → Type 0) (Q : R → Type 0)
    (turn : S → ℕ → List ℕ → S ⊎ R) (stop : S → R)
    → ((s : S) → P s [] → Q (stop s))
    → ((s : S) (x : ℕ) (r : List ℕ) → P s (x ∷ r) → OnTurn P Q r (turn s x r))
    → (s : S) (l : List ℕ) → P s l
    → Q (scan turn stop s l)
scan-elim P Q turn stop at_end step s [] p = at_end s p
scan-elim P Q turn stop at_end step s (x ∷ r) p =
    on_turn P Q r (λ s'. scan turn stop s' r) (λ s' p'. scan-elim P Q turn stop at_end step s' r p')
      (turn s x r) (step s x r p)

-- A cursor in the text with at most `n` characters left.
pub record Within (text : List ℕ) (n : ℕ) (c : Cursor) : Type 0 where
  pub stands : IsAt text c
  pub left : length c.rest ≤ n

-- Inside a literal.
pub record IsLit (text : List ℕ) (n : ℕ) (s : Literal) : Type 0 where
  pub order : InOrder text 0 s.tokens s.start
  pub starts : IsBoundary text s.start
  pub within : Within text n s.cursor
  pub le : s.start ≤ (s.cursor).pos

-- Between two tokens. A template's count of braces is 1 at least.
pub record IsLexer (text : List ℕ) (n : ℕ) (lx : Lexer) : Type 0 where
  pub order : InOrder text 0 lx.tokens (lx.cursor).pos
  pub within : Within text n lx.cursor
  pub nests : All (λ k. 1 ≤ k) lx.nesting

module _ (text : List ℕ) (n : ℕ) where
  abbrev pub LitAt : Literal → List ℕ → Type 0
  LitAt s l = IsLit text n s × ((s.cursor).rest ≡ l)

  abbrev pub CursorAt : ℕ → Cursor → List ℕ → Type 0
  CursorAt low c l = Within text n c × (low ≤ c.pos) × (c.rest ≡ l)

  abbrev pub Ends : Ending → Type 0
  Ends (closed s) = IsLit text n s
  Ends (cut_off ts) = InOrder text 0 ts (byte_len text)

  abbrev pub Good : Outcome → Type 0
  Good (go_on lx) = IsLexer text n lx
  Good (finish ts) = InOrder text 0 ts (byte_len text)

newline_tokens-InOrder :
    (text : List ℕ) (ts : List Token) (start pos : ℕ) (kind : TokenKind)
    → InOrder text 0 ts start
    → start ≤ pos - 1
    → pos ≡ pos - 1 + 1
    → IsBoundary text start
    → IsBoundary text (pos - 1)
    → IsBoundary text pos
    → InOrder text 0 (ts ++ newline_tokens start pos kind) (pos - 1 + 1)
unfolding newline_tokens
newline_tokens-InOrder text ts start pos kind o le e bs bn bp =
    let nl = pos - 1 in
    let last = token nl pos newline in
    let close : (us : List Token)
        → InOrder text 0 us nl
        → InOrder text 0 (us ++ (last ∷ [])) (nl + 1) =
      λ us h.
        subst (λ q. InOrder text 0 (us ++ (last ∷ [])) q) e
          (InOrder-concat text 0 us nl pos newline h (omega arith) bn bp) in
    if-elim (λ pre. InOrder text 0 (ts ++ (pre ++ (last ∷ []))) (nl + 1)) (start == nl)
      (λ h. close ts (InOrder-mono text 0 ts (omega arith) o))
      (λ h.
        subst (λ us. InOrder text 0 us (nl + 1))
          (append_assoc ts (token start nl kind ∷ []) (last ∷ []))
          (close (ts ++ (token start nl kind ∷ []))
            (InOrder-concat text 0 ts start nl kind o le bs bn)))

module _ {text : List ℕ} {n : ℕ} where
  pub Within-past :
      {c : Cursor} (x : ℕ) (r : List ℕ)
      → Within text n c
      → c.rest ≡ x ∷ r
      → Within text n (past c x r)
  Within-past x r w s = record {
    stands = IsAt-past x r w.stands s;
    left = omega (arith, w.left, ap length s);
  }

  advance_in-Within :
      {c : Cursor} (l : List ℕ)
      → Within text n c
      → c.rest ≡ l
      → Within text n (advance_in c l) × (c.pos ≤ (advance_in c l).pos)
  advance_in-Within [] w s = (w, omega arith)
  advance_in-Within (x ∷ r) w s = (Within-past x r w s, omega arith)

  pub advance-Within :
      {c : Cursor} → Within text n c → Within text n (advance c) × (c.pos ≤ (advance c).pos)
  unfolding advance
  advance-Within {c} w = advance_in-Within c.rest w refl

  pub move-LitAt :
      (skip : Bool) {s : Literal} (x : ℕ) (r : List ℕ)
      → LitAt text n s (x ∷ r)
      → LitAt text n (move skip s x r) r
  move-LitAt skip {s} x r (l, e) = (
    record {
      order = l.order;
      starts = l.starts;
      within = Within-past x r l.within e;
      le = omega (arith, l.le);
    },
    refl,
  )

  -- `get_char` once more, and the loop ends.
  pub advance-IsLit :
      {s : Literal} → IsLit text n s → IsLit text n (record s { cursor = advance s.cursor })
  advance-IsLit l =
      let (w, le) = advance-Within l.within in
      record { order = l.order; starts = l.starts; within = w; le = omega (arith, l.le, le) }

  pub newline-LitAt :
      (skip : Bool) (kind : TokenKind) {s : Literal} (x : ℕ) (r : List ℕ)
      → (x == b'\n') ≡ true
      → LitAt text n s (x ∷ r)
      → LitAt text n (push_newline kind (move skip s x r)) r
  newline-LitAt skip kind {s} x r h (l, e) =
      let c = past s.cursor x r in
      let w = Within-past x r l.within e in
      let back : c.pos - 1 ≡ (s.cursor).pos = ground arith in
      let on : c.pos ≡ c.pos - 1 + 1 = ground arith in
      let here = IsAt-boundary w.stands in
      let line = subst (λ p. IsBoundary text p) (sym back) (IsAt-boundary (l.within).stands) in
      (
        record {
          order =
              newline_tokens-InOrder text s.tokens s.start c.pos kind l.order (omega (arith, l.le))
                on l.starts line here;
          starts = subst (λ p. IsBoundary text p) on here;
          within = w;
          le = omega arith;
        },
        refl,
      )

module _ (text : List ℕ) (n : ℕ) where
  pub after-Good :
      (kind : TokenKind) (b : Bool) (lx : Lexer) (e : Ending)
      → All (λ k. 1 ≤ k) lx.nesting
      → Ends text n e
      → Good text n (after kind b lx e)
  after-Good kind b lx (closed s) nests l = record {
    order =
        InOrder-concat text 0 s.tokens s.start (s.cursor).pos kind l.order l.le l.starts
          (IsAt-boundary (l.within).stands);
    within = l.within;
    nests = nests;
  }
  after-Good kind b lx (cut_off ts) nests o = o

  -- A loop that the end of the text cuts off returns the tokens of the lines before.
  pub cut_off-Ends :
      (s : Literal) {l : List ℕ} → LitAt text n s l → InOrder text 0 s.tokens (byte_len text)
  cut_off-Ends s (l, e) =
      InOrder-mono text 0 s.tokens (omega (arith, l.le, IsAt-le (l.within).stands)) l.order

-- Where a branch of the main loop begins: the token's start, the lexer, and the cursor behind it.
pub record Begins (text : List ℕ) (n start : ℕ) (lx : Lexer) (c : Cursor) : Type 0 where
  pub order : InOrder text 0 lx.tokens start
  pub starts : IsBoundary text start
  pub nests : All (λ k. 1 ≤ k) lx.nesting
  pub within : Within text n c
  pub le : start ≤ c.pos

module _ {text : List ℕ} {n start : ℕ} {lx : Lexer} where
  pub Begins-move :
      {c c' : Cursor}
      → Begins text n start lx c
      → Within text n c' × (c.pos ≤ c'.pos)
      → Begins text n start lx c'
  Begins-move b (w, le) = record {
    order = b.order;
    starts = b.starts;
    nests = b.nests;
    within = w;
    le = omega (arith, b.le);
  }

  pub open_literal-LitAt :
      {c : Cursor} → Begins text n start lx c → LitAt text n (open_literal start lx c) c.rest
  open_literal-LitAt b =
      (record { order = b.order; starts = b.starts; within = b.within; le = b.le }, refl)

  -- A branch that pushes one token up to `c`.
  pub push-Good :
      (kind : TokenKind) (b : Bool) {c : Cursor}
      → Begins text n start lx c
      → Good text n (
          go_on (record lx {
            cursor = c;
            tokens = lx.tokens ++ (token start c.pos kind ∷ []);
            maybe_regexp = b;
          }))
  push-Good kind b {c} g = record {
    order =
        InOrder-concat text 0 lx.tokens start c.pos kind g.order g.le g.starts
          (IsAt-boundary (g.within).stands);
    within = g.within;
    nests = g.nests;
  }
