-- ===== src/Tokenize/TagLike/Order/Loop.antt =====
-- The loop of the tags' machine: every turn keeps the invariant and reads a character.
use mozsearch.Prelude.{
  ℕ, zero, suc, Bool, false, Option, some, List, [], ◌∷◌, ◌≡◌, refl, ap, sym, append-nil, arith,
  length,
}
use mozsearch.Tokenize.{Token, plain_text, Cursor, past, start_of, byte_len}
use mozsearch.Tokenize.Boundaries.{
  InOrder, InOrder-mono, InOrder-concat, IsBoundary-le, IsAt-boundary, IsAt-past, Tiles-InOrder,
}
use mozsearch.Tokenize.Plain.Tiling.{tokenize_plain-Tiles}
use mozsearch.Tokenize.Plain.{tokenize_plain}
use mozsearch.Tokenize.CLike.Order.Inv.{Within}
use mozsearch.Tokenize.TagLike.State.{
  TagState, tag_none, tag_start, tag_id, tag_after_id, attr_name, before_eq, attr_eq, attr_value,
  attr_bare_value, end_tag_id, end_start_tag, end_tag_done, cdata, tag_comment, tag_pi, doctype,
  TagLexer, TagOutcome, go_on, invalid,
}
use mozsearch.Tokenize.TagLike.Step.{slice, in_state, tag_turn, tag_end, tag_loop, tag_tokens}
use mozsearch.Tokenize.TagLike.Order.Inv.{Upto, mark, IsTag, Good, Upto-skip_end, Turn}
use mozsearch.Tokenize.TagLike.Order.Text.{
  in_none-Good, in_cdata-Good, in_comment-Good, in_pi-Good, in_doctype-Good,
}
use mozsearch.Tokenize.TagLike.Order.Tags.{
  in_start-Good, in_id-Good, in_after_id-Good, in_attr_name-Good, in_end_tag_id-Good,
  in_before_eq-Good, in_attr_eq-Good, in_attr_value-Good, in_attr_bare_value-Good,
  in_end_tag_done-Good, in_end_start_tag-Good,
}

module _ (unicode : ℕ → Bool) (text : List ℕ) where
  in_state-Good :
      (n : ℕ) (st : TagState) (start ch : ℕ) (lx : TagLexer)
      → Turn text n (mark st start) start lx
      → Good text n (in_state unicode text st start ch lx)
  unfolding in_state
  in_state-Good n (tag_none p) s ch lx t = in_none-Good text n p s ch lx t
  in_state-Good n (tag_start p) s ch lx t = in_start-Good text n unicode p s ch lx t
  in_state-Good n (tag_id p) s ch lx t = in_id-Good text n unicode p s ch lx t (slice text p s)
  in_state-Good n tag_after_id s ch lx t = in_after_id-Good text n unicode s s ch lx t
  in_state-Good n (attr_name p) s ch lx t = in_attr_name-Good text n unicode p s ch lx t
  in_state-Good n before_eq s ch lx t = in_before_eq-Good text n s s ch lx t
  in_state-Good n attr_eq s ch lx t = in_attr_eq-Good text n s s ch lx t
  in_state-Good n (attr_value q p) s ch lx t = in_attr_value-Good text n p s ch lx t q
  in_state-Good n (attr_bare_value p) s ch lx t = in_attr_bare_value-Good text n p s ch lx t
  in_state-Good n (end_tag_id p) s ch lx t = in_end_tag_id-Good text n unicode p s ch lx t
  in_state-Good n (end_start_tag p) s ch lx t = in_end_start_tag-Good text n p s ch lx t
  in_state-Good n end_tag_done s ch lx t = in_end_tag_done-Good text n s s ch lx t
  in_state-Good n (cdata p) s ch lx t = in_cdata-Good text n p s ch lx t
  in_state-Good n (tag_comment p) s ch lx t = in_comment-Good text n p s ch lx t
  in_state-Good n (tag_pi p) s ch lx t = in_pi-Good text n p s ch lx t
  in_state-Good n (doctype b) s ch lx t = in_doctype-Good text n s s ch lx t b

  -- The mark is left alone, or moves with the cursor.
  moved-Upto :
      (n : ℕ) (st : TagState) (pos : ℕ) {ts : List Token} {c : Cursor}
      → Upto text n (mark st pos) ts c
      → Upto text n (mark st c.pos) ts c
  moved-Upto n tag_after_id pos u = Upto-skip_end u
  moved-Upto n before_eq pos u = Upto-skip_end u
  moved-Upto n attr_eq pos u = Upto-skip_end u
  moved-Upto n end_tag_done pos u = Upto-skip_end u
  moved-Upto n (doctype b) pos u = Upto-skip_end u
  moved-Upto n _ pos u = u

  tag_turn-Good :
      (n : ℕ) (lx : TagLexer) (x : ℕ) (r : List ℕ)
      → IsTag text (suc n) lx
      → (lx.cursor).rest ≡ x ∷ r
      → Good text n (tag_turn unicode text lx x r)
  unfolding tag_turn
  tag_turn-Good n lx x r u e =
      let start = (lx.cursor).pos in
      let c = past lx.cursor x r in
      let here = (u.within).stands in
      let w : Within text n c = record {
        stands = IsAt-past x r here e;
        left = omega (arith, (u.within).left, ap length e);
      } in
      let v : Upto text n (mark lx.state start) lx.tokens c = record {
        order = u.order;
        bound = u.bound;
        within = w;
        le = omega (arith, u.le);
      } in
      in_state-Good n lx.state start x (record lx { cursor = c })
        (record {
          upto = v;
          before = u.le;
          starts = IsAt-boundary here;
          reads = omega arith;
          stays = moved-Upto n lx.state start v;
        })

  abbrev Runs : Option (List Token) → Type 0
  Runs o = (ts : List Token) × (o ≡ some ts) × InOrder text 0 ts (byte_len text)

  outcome-Runs :
      (n : ℕ) (next : TagLexer → Option (List Token)) (o : TagOutcome)
      → ((lx : TagLexer) → IsTag text n lx → Runs (next lx))
      → Good text n o
      → Runs (elim o [ go_on lx ↦ next lx | invalid ↦ some (tokenize_plain text) ])
  outcome-Runs n next (go_on lx) ih g = ih lx g
  outcome-Runs n next invalid ih g =
      (tokenize_plain text, refl, Tiles-InOrder (tokenize_plain-Tiles text))

  tag_end-InOrder :
      (n : ℕ) (st : TagState) (lx : TagLexer)
      → Upto text n (mark st (lx.cursor).pos) lx.tokens lx.cursor
      → InOrder text 0 (tag_end unicode text st lx) (byte_len text)
  unfolding tag_end
  tag_end-InOrder n (tag_none p) lx u =
      InOrder-concat text 0 lx.tokens p (byte_len text) plain_text u.order (IsBoundary-le u.bound)
        u.bound (record { before = text; behind = []; split = sym (append-nil text); size = refl })
  tag_end-InOrder n _ lx u = InOrder-mono text 0 lx.tokens (IsBoundary-le u.bound) u.order

  tag_loop-Runs :
      (n : ℕ) (lx : TagLexer) (l : List ℕ)
      → IsTag text n lx
      → (lx.cursor).rest ≡ l
      → Runs (tag_loop unicode text (suc n) lx l)
  unfolding tag_loop
  tag_loop-Runs n lx [] u e = (_, refl, tag_end-InOrder n lx.state lx u)
  tag_loop-Runs zero lx (x ∷ r) u e = absurd (omega (arith, (u.within).left, ap length e))
  tag_loop-Runs (suc n) lx (x ∷ r) u e =
      outcome-Runs n (λ lx'. tag_loop unicode text (suc n) lx' (lx'.cursor).rest)
        (tag_turn unicode text lx x r) (λ lx' u'. tag_loop-Runs n lx' (lx'.cursor).rest u' refl)
        (tag_turn-Good n lx x r u e)

  -- For every text and table of the letters beyond ASCII, the fuel suffices, and the tokens that
  -- the first loop of `tokenize_tag_like` makes (before those inside scripts and styles take the
  -- place of some) are in order: each starts at or behind the end of the one before it, ends at or
  -- behind its own start and within the text, and starts and ends at a boundary between two
  -- characters.
  pub tag_tokens-InOrder :
      (ts : List Token) × (tag_tokens unicode text ≡ some ts) × InOrder text 0 ts (byte_len text)
  unfolding tag_tokens
  tag_tokens-InOrder =
      tag_loop-Runs (length text)
        (record {
          cursor = start_of text;
          tokens = [];
          state = tag_none 0;
          in_script = false;
          in_style = false;
        })
        text
        (record {
          order = omega arith;
          bound = record { before = []; behind = text; split = refl; size = refl };
          within = record {
            stands = record { before = []; split = refl; size = refl };
            left = omega arith;
          };
          le = omega arith;
        })
        refl
