-- ===== src/Tokenize/TagLike/Order/Inv.antt =====
-- The invariant of the tags' machine, and how a push keeps it.
use mozsearch.Prelude.{ℕ, ◌≤◌, List, arith, ltb, if-elim}
use mozsearch.Tokenize.{Token, TokenKind, Cursor}
use mozsearch.Tokenize.Boundaries.{InOrder, InOrder-mono, InOrder-concat, IsBoundary, IsAt-boundary}
use mozsearch.Tokenize.CLike.Order.Inv.{Within}
use mozsearch.Tokenize.TagLike.State.{
  TagState, tag_none, tag_start, tag_id, tag_after_id, attr_name, before_eq, attr_eq, attr_value,
  attr_bare_value, end_tag_id, end_start_tag, end_tag_done, cdata, tag_comment, tag_pi, doctype,
  TagLexer, TagOutcome, go_on, invalid, push, push_some,
}

-- Where the token begins that a state is reading; the cursor, if it reads none.
abbrev pub mark : TagState → ℕ → ℕ
mark (tag_none p) pos = p
mark (tag_start p) pos = p
mark (tag_id p) pos = p
mark tag_after_id pos = pos
mark (attr_name p) pos = p
mark before_eq pos = pos
mark attr_eq pos = pos
mark (attr_value _ p) pos = p
mark (attr_bare_value p) pos = p
mark (end_tag_id p) pos = p
mark (end_start_tag p) pos = p
mark end_tag_done pos = pos
mark (cdata p) pos = p
mark (tag_comment p) pos = p
mark (tag_pi p) pos = p
mark (doctype _) pos = pos

-- The tokens are in order up to the boundary `q`, which is not behind the cursor.
pub record Upto (text : List ℕ) (n q : ℕ) (ts : List Token) (c : Cursor) : Type 0 where
  pub order : InOrder text 0 ts q
  pub bound : IsBoundary text q
  pub within : Within text n c
  pub le : q ≤ c.pos

abbrev pub IsTag : List ℕ → ℕ → TagLexer → Type 0
IsTag text n lx = Upto text n (mark lx.state (lx.cursor).pos) lx.tokens lx.cursor

abbrev pub Good : List ℕ → ℕ → TagOutcome → Type 0
Good text n (go_on lx) = IsTag text n lx
Good text n invalid = Unit

module _ {text : List ℕ} {n : ℕ} where
  pub Upto-move :
      {q : ℕ} {ts : List Token} {c c' : Cursor}
      → Upto text n q ts c
      → Within text n c' × (c.pos ≤ c'.pos)
      → Upto text n q ts c'
  Upto-move u (w, le) = record {
    order = u.order;
    bound = u.bound;
    within = w;
    le = omega (arith, u.le, le);
  }

  -- A push from `q` on, and the same under a test.
  pub Upto-push :
      {q : ℕ} {ts : List Token} {c : Cursor} (e : ℕ) (kind : TokenKind)
      → IsBoundary text e
      → q ≤ e
      → e ≤ c.pos
      → Upto text n q ts c
      → Upto text n e (push q e kind ts) c
  Upto-push {q} {ts} e kind b le le' u = record {
    order = InOrder-concat text 0 ts q e kind u.order le u.bound b;
    bound = b;
    within = u.within;
    le = le';
  }

  pub Upto-skip :
      {q : ℕ} {ts : List Token} {c : Cursor} (e : ℕ)
      → IsBoundary text e
      → q ≤ e
      → e ≤ c.pos
      → Upto text n q ts c
      → Upto text n e ts c
  Upto-skip {ts = ts} e b le le' u = record {
    order = InOrder-mono text 0 ts le u.order;
    bound = b;
    within = u.within;
    le = le';
  }

  pub Upto-push_some :
      {q : ℕ} {ts : List Token} {c : Cursor} (e : ℕ) (kind : TokenKind)
      → IsBoundary text e
      → q ≤ e
      → e ≤ c.pos
      → Upto text n q ts c
      → Upto text n e (push_some q e kind ts) c
  Upto-push_some {q} {c = c} e kind b le le' u =
      if-elim (λ us. Upto text n e us c) (ltb q e) (λ _. Upto-push e kind b le le' u)
        (λ _. Upto-skip e b le le' u)

  -- Up to the cursor.
  pub Upto-boundary :
      {q : ℕ} {ts : List Token} {c : Cursor} → Upto text n q ts c → IsBoundary text c.pos
  Upto-boundary u = IsAt-boundary (u.within).stands

  pub Upto-push_end :
      {q : ℕ} {ts : List Token} {c : Cursor} (kind : TokenKind)
      → Upto text n q ts c
      → Upto text n c.pos (push q c.pos kind ts) c
  Upto-push_end {c = c} kind u = Upto-push c.pos kind (Upto-boundary u) u.le (omega arith) u

  pub Upto-skip_end :
      {q : ℕ} {ts : List Token} {c : Cursor} → Upto text n q ts c → Upto text n c.pos ts c
  Upto-skip_end {c = c} u = Upto-skip c.pos (Upto-boundary u) u.le (omega arith) u

-- What a state's function is given: the tokens up to its mark, and the character just read, which
-- begins at `start` and ends at the cursor. The state may also stay as it is.
pub record Turn (text : List ℕ) (n p start : ℕ) (lx : TagLexer) : Type 0 where
  pub upto : Upto text n p lx.tokens lx.cursor
  pub before : p ≤ start
  pub starts : IsBoundary text start
  pub reads : start ≤ (lx.cursor).pos
  pub stays : IsTag text n lx

module _ {text : List ℕ} {n p start : ℕ} {lx : TagLexer} where
  pub push_start :
      (kind : TokenKind)
      → Turn text n p start lx
      → Upto text n start (push p start kind lx.tokens) lx.cursor
  push_start kind t = Upto-push start kind t.starts t.before t.reads t.upto

  pub skip_start : Turn text n p start lx → Upto text n start lx.tokens lx.cursor
  skip_start t = Upto-skip start t.starts t.before t.reads t.upto

  pub push_some_start :
      (kind : TokenKind)
      → Turn text n p start lx
      → Upto text n start (push_some p start kind lx.tokens) lx.cursor
  push_some_start kind t = Upto-push_some start kind t.starts t.before t.reads t.upto
