-- ===== src/Tokenize/TagLike/Order/Tags.antt =====
-- The states inside of tags keep the invariant.
use mozsearch.Prelude.{
  ℕ, Bool, not, ◌&&◌, ◌||◌, List, ◌==◌, if-elim, codes, Bool-cases, inl, inr, arith,
}
use mozsearch.Tokenize.{punctuation, newline, tag_name, tag_attr_name, end_tag_name, string_literal}
use mozsearch.Tokenize.TagLike.State.{
  TagLexer, tag_ident, is_whitespace, punctuation_kind, peek_ahead,
}
use mozsearch.Tokenize.TagLike.Tags.{
  in_start, in_id, in_after_id, in_attr_name, in_end_tag_id, in_before_eq, in_attr_eq,
  in_attr_value, in_attr_bare_value, in_end_tag_done, in_end_start_tag,
}
use mozsearch.Tokenize.TagLike.Order.Inv.{Good, Upto-push_end, Turn, push_start, skip_start}

module _ (text : List ℕ) (n : ℕ) (unicode : ℕ → Bool) (p start ch : ℕ) (lx : TagLexer)
    (t : Turn text n p start lx) where
  pub in_start-Good : Good text n (in_start unicode p start ch lx)
  unfolding in_start
  in_start-Good =
      if-elim (Good text n) (tag_ident unicode ch) (λ _. push_start punctuation t)
        λ _. if-elim (Good text n) (ch == b'/') (λ _. Upto-push_end punctuation t.upto) (λ _. tt)

  pub in_id-Good : (word : List ℕ) → Good text n (in_id unicode word p start ch lx)
  unfolding in_id
  in_id-Good word =
      let G = Good text n in
      let u = push_start tag_name t in
      if-elim G (tag_ident unicode ch) (λ _. t.stays)
        λ _.
          if-elim G (ch == b'/') (λ _. u)
            λ _.
              if-elim G (ch == b'>') (λ _. Upto-push_end (punctuation_kind ch) u)
                λ _.
                  if-elim G (is_whitespace ch) (λ _. Upto-push_end (punctuation_kind ch) u)
                    (λ _. tt)

  pub in_after_id-Good : Good text n (in_after_id unicode start ch lx)
  unfolding in_after_id
  in_after_id-Good =
      let G = Good text n in
      let u = skip_start t in
      let v = Upto-push_end (punctuation_kind ch) u in
      if-elim G (tag_ident unicode ch) (λ _. u)
        λ _.
          if-elim G (ch == b'>') (λ _. v)
            λ _.
              if-elim G (ch == b'/') (λ _. u)
                λ _. if-elim G (is_whitespace ch) (λ _. v) (λ _. t.stays)

  pub in_attr_name-Good : Good text n (in_attr_name unicode p start ch lx)
  unfolding in_attr_name
  in_attr_name-Good =
      let G = Good text n in
      let u = push_start tag_attr_name t in
      let v = Upto-push_end (punctuation_kind ch) u in
      if-elim G (tag_ident unicode ch) (λ _. t.stays)
        λ _.
          if-elim G (ch == b'/') (λ _. u)
            λ _.
              if-elim G (ch == b'>') (λ _. v)
                λ _.
                  if-elim G (ch == b'=') (λ _. v)
                    λ _. if-elim G (is_whitespace ch) (λ _. v) (λ _. tt)

  pub in_end_tag_id-Good : Good text n (in_end_tag_id unicode p start ch lx)
  unfolding in_end_tag_id
  in_end_tag_id-Good =
      let G = Good text n in
      let v = Upto-push_end (punctuation_kind ch) (push_start end_tag_name t) in
      if-elim G (tag_ident unicode ch) (λ _. t.stays)
        λ _. if-elim G (ch == b'>') (λ _. v) λ _. if-elim G (is_whitespace ch) (λ _. v) (λ _. tt)

module _ (text : List ℕ) (n p start ch : ℕ) (lx : TagLexer) (t : Turn text n p start lx) where
  pub in_before_eq-Good : Good text n (in_before_eq start ch lx)
  unfolding in_before_eq
  in_before_eq-Good =
      let G = Good text n in
      let u = skip_start t in
      let v = Upto-push_end (punctuation_kind ch) u in
      if-elim G (ch == b'=') (λ _. v)
        λ _.
          if-elim G (ch == b'>') (λ _. v)
            λ _.
              if-elim G (ch == b'/') (λ _. u)
                λ _. if-elim G (is_whitespace ch) (λ _. v) (λ _. t.stays)

  pub in_attr_eq-Good : Good text n (in_attr_eq start ch lx)
  unfolding in_attr_eq
  in_attr_eq-Good =
      let G = Good text n in
      let u = skip_start t in
      if-elim G (ch == b'"' || ch == b'\'') (λ _. Upto-push_end punctuation u)
        λ _. if-elim G (is_whitespace ch) (λ _. Upto-push_end (punctuation_kind ch) u) (λ _. u)

  pub in_attr_value-Good : (quote : ℕ) → Good text n (in_attr_value quote p start ch lx)
  unfolding in_attr_value
  in_attr_value-Good quote =
      let G = Good text n in
      let u = push_start string_literal t in
      if-elim G (ch == quote) (λ _. Upto-push_end punctuation u)
        λ _. if-elim G (ch == b'\n') (λ _. Upto-push_end newline u) (λ _. t.stays)

  pub in_attr_bare_value-Good : Good text n (in_attr_bare_value p start ch lx)
  unfolding in_attr_bare_value
  in_attr_bare_value-Good =
      let G = Good text n in
      let u = push_start string_literal t in
      let v = Upto-push_end (punctuation_kind ch) u in
      let last =
        is_whitespace ch || ch == b'>' || (ch == b'/' && peek_ahead (codes ">") (lx.cursor).rest) in
      elim (Bool-cases last) [
        | inl h ↦ rw h (
            if-elim G (ch == b'>') (λ _. v)
              λ e1.
                if-elim G (ch == b'/') (λ _. u)
                  λ e2. if-elim G (is_whitespace ch) (λ _. v) (λ e3. absurd (ground arith)))
        | inr h ↦ rw h t.stays
      ]

  pub in_end_tag_done-Good : Good text n (in_end_tag_done start ch lx)
  unfolding in_end_tag_done
  in_end_tag_done-Good =
      let G = Good text n in
      let v = Upto-push_end (punctuation_kind ch) (skip_start t) in
      if-elim G (ch == b'>') (λ _. v) λ _. if-elim G (not (is_whitespace ch)) (λ _. tt) (λ _. v)

  pub in_end_start_tag-Good : Good text n (in_end_start_tag p start ch lx)
  unfolding in_end_start_tag
  in_end_start_tag-Good =
      if-elim (Good text n) (ch == b'>') (λ _. Upto-push_end (punctuation_kind ch) t.upto)
        (λ _. t.stays)
