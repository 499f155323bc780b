-- ===== src/Tokenize/Boundaries.antt =====
-- Positions of a text between two characters, and tokens in order between such positions.
use mozsearch.Prelude.{ℕ, ◌≤◌, List, [], ◌∷◌, ◌++◌, ◌≡◌, refl, ap, sym, ◌∙◌, arith, append_assoc}
use mozsearch.Tokenize.{Token, token, TokenKind, Cursor, past, byte_len}
use mozsearch.Tokenize.Scan.{Tiles, done, cut, byte_len-append}

-- A slice of the text may begin or end here.
pub record IsBoundary (text : List ℕ) (pos : ℕ) : Type 0 where
  pub before : List ℕ
  pub behind : List ℕ
  pub split : text ≡ before ++ behind
  pub size : pos ≡ byte_len before

-- From `lo` to `hi` the tokens lie in order, each ends no earlier than it starts, and both its
-- ends are boundaries of the text.
abbrev pub InOrder : List ℕ → ℕ → List Token → ℕ → Type 0
InOrder text lo [] hi = lo ≤ hi
InOrder text lo (t ∷ ts) hi =
    (lo ≤ t.start)
    × (t.start ≤ t.end)
    × IsBoundary text t.start
    × IsBoundary text t.end
    × InOrder text t.end ts hi

module _ (text : List ℕ) where
  pub InOrder-mono :
      (lo : ℕ) (ts : List Token) {hi hi' : ℕ}
      → hi ≤ hi'
      → InOrder text lo ts hi
      → InOrder text lo ts hi'
  InOrder-mono lo [] le h = omega arith
  InOrder-mono lo (t ∷ ts) le (a, b, c, d, rest) = (a, b, c, d, InOrder-mono t.end ts le rest)

  pub InOrder-concat :
      (lo : ℕ) (ts : List Token) (s e : ℕ) (kind : TokenKind)
      → InOrder text lo ts s
      → s ≤ e
      → IsBoundary text s
      → IsBoundary text e
      → InOrder text lo (ts ++ (token s e kind ∷ [])) e
  InOrder-concat lo [] s e kind h le bs be = (h, le, bs, be, omega arith)
  InOrder-concat lo (t ∷ ts) s e kind (a, b, c, d, rest) le bs be =
      (a, b, c, d, InOrder-concat t.end ts s e kind rest le bs be)

module _ {text : List ℕ} where
  pub IsBoundary-le : {pos : ℕ} → IsBoundary text pos → pos ≤ byte_len text
  IsBoundary-le b = omega (arith, ap byte_len b.split, byte_len-append b.before b.behind, b.size)

-- Where a cursor stands in a text.
pub record IsAt (text : List ℕ) (c : Cursor) : Type 0 where
  pub before : List ℕ
  pub split : text ≡ before ++ c.rest
  pub size : c.pos ≡ byte_len before

module _ {text : List ℕ} where
  pub IsAt-boundary : {c : Cursor} → IsAt text c → IsBoundary text c.pos
  IsAt-boundary {c} a = record {
    before = a.before;
    behind = c.rest;
    split = a.split;
    size = a.size;
  }

  pub IsAt-past :
      {c : Cursor} (x : ℕ) (r : List ℕ) → IsAt text c → c.rest ≡ x ∷ r → IsAt text (past c x r)
  IsAt-past x r a s = record {
    before = a.before ++ (x ∷ []);
    split = a.split ∙ ap (λ l. a.before ++ l) s ∙ sym (append_assoc a.before (x ∷ []) r);
    size = omega (arith, a.size, byte_len-append a.before (x ∷ []));
  }

  pub IsAt-le : {c : Cursor} → IsAt text c → c.pos ≤ byte_len text
  IsAt-le a = IsBoundary-le (IsAt-boundary a)

-- Tokens that tile a text are in order.
Tiles-InOrder_from :
    {text : List ℕ} {pos : ℕ} {left : List ℕ} {ts : List Token} (before : List ℕ)
    → text ≡ before ++ left
    → pos ≡ byte_len before
    → Tiles pos left ts
    → InOrder text pos ts (byte_len text)
Tiles-InOrder_from before s p done = omega (arith, p, ap byte_len s, byte_len-append before [])
Tiles-InOrder_from {text} before s p (cut {pos} {t = t} chunk rest e ne st en line tiles) =
    let split = s ∙ ap (λ l. before ++ l) e ∙ sym (append_assoc before chunk rest) in
    let size : t.end ≡ byte_len (before ++ chunk) =
      omega (arith, st, en, p, byte_len-append before chunk) in
    (
      omega (arith, st),
      omega (arith, st, en),
      record {
        before = before;
        behind = chunk ++ rest;
        split = s ∙ ap (λ l. before ++ l) e;
        size = st ∙ p;
      },
      record { before = before ++ chunk; behind = rest; split = split; size = size },
      Tiles-InOrder_from (before ++ chunk) split size tiles,
    )

pub Tiles-InOrder :
    {text : List ℕ} {ts : List Token} → Tiles 0 text ts → InOrder text 0 ts (byte_len text)
Tiles-InOrder t = Tiles-InOrder_from [] refl refl t
