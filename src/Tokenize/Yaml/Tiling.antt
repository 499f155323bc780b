-- ===== src/Tokenize/Yaml/Tiling.antt =====
-- The tokens of `tokenize_yaml` tile the text, and its fuel suffices.
use mozsearch.Prelude.{
  ℕ, zero, suc, ◌+◌, ◌<◌, Bool, true, false, ◌&&◌, ◌||◌, none, some, List, [], ◌∷◌, ◌++◌, ◌==◌, ◌≡◌,
  ◌≢◌, refl, ap, ◌∙◌, arith, ==_iff, if-elim, length, length-append,
}
use mathlib.Core.Option
use mozsearch.Tokenize.{
  Token, TokenKind, token, plain_text, newline, string_literal, comment, identifier, Cursor, past,
  start_of, byte_len,
}
use mozsearch.Tokenize.Scan.{
  Tiles, done, cut, NoNewline, OnOneLine, Moved, Moved-refl, Moved-trans, Moved-past,
}
use mozsearch.Tokenize.Yaml.{
  is_eol, is_word, was_after_space, quoted, comment_loop, word_loop, text_loop, yaml_token,
  yaml_loop, tokenize_yaml,
}

module _ (q : ℕ) where
  quoted-Moved :
      (e : Bool) (c : Cursor) (l : List ℕ) → c.rest ≡ l → Moved NoNewline c (quoted q e c l)
  unfolding quoted
  quoted-Moved e c [] s = Moved-refl c
  quoted-Moved e c (x ∷ r) s =
      if-elim (Moved NoNewline c) (is_eol x) (λ _. Moved-refl c)
        λ h.
          let step = Moved-past c x r s (ground arith) in
          let plain = Moved-trans step (quoted-Moved false (past c x r) r refl) in
          if-elim (Moved NoNewline c) e (λ _. plain)
            λ _.
              if-elim (Moved NoNewline c) (x == q || x == 0) (λ _. step)
                λ _.
                  if-elim (Moved NoNewline c) (x == b'\\')
                    (λ _. Moved-trans step (quoted-Moved true (past c x r) r refl)) (λ _. plain)

comment_loop-Moved : (c : Cursor) (l : List ℕ) → c.rest ≡ l → Moved NoNewline c (comment_loop c l)
unfolding comment_loop
comment_loop-Moved c [] s = Moved-refl c
comment_loop-Moved c (x ∷ r) s =
    if-elim (Moved NoNewline c) (x == b'\n' || x == 0) (λ _. Moved-refl c)
      λ h. Moved-trans (Moved-past c x r s (ground arith)) (comment_loop-Moved (past c x r) r refl)

word-ne : (x : ℕ) → (is_word x || x == b'-') ≡ true → x ≢ b'\n'
word-ne x h e = ground (arith, e)

word_loop-Moved : (c : Cursor) (l : List ℕ) → c.rest ≡ l → Moved NoNewline c (word_loop c l)
unfolding word_loop
word_loop-Moved c [] s = Moved-refl c
word_loop-Moved c (x ∷ r) s =
    if-elim (Moved NoNewline c) (is_word x || x == b'-')
      (λ h. Moved-trans (Moved-past c x r s (word-ne x h)) (word_loop-Moved (past c x r) r refl))
      (λ _. Moved-refl c)

text_loop-Moved : (c : Cursor) (l : List ℕ) → c.rest ≡ l → Moved NoNewline c (text_loop c l)
unfolding text_loop
text_loop-Moved c [] s = Moved-refl c
text_loop-Moved c (x ∷ r) s =
    if-elim (Moved NoNewline c) (x == b'\n' || x == b'"' || x == b'\'' || x == b'#' || x == 0)
      (λ _. Moved-refl c)
      λ h.
        if-elim (Moved NoNewline c) (is_word x) (λ _. Moved-refl c)
          λ _. Moved-trans (Moved-past c x r s (ground arith)) (text_loop-Moved (past c x r) r refl)

-- What a turn of the main loop reads: at least its first character, on one line.
record Turn (c : Cursor) (x : ℕ) (r : List ℕ) (t : Cursor × TokenKind) : Type 0 where
  chunk : List ℕ
  split : r ≡ chunk ++ (t.0).rest
  moved : (t.0).pos ≡ c.pos + byte_len (x ∷ chunk)
  on_line : OnOneLine t.1 (x ∷ chunk)

module _ (c : Cursor) (x : ℕ) (r : List ℕ) where
  turn :
      (c' : Cursor) (kind : TokenKind) (m : Moved NoNewline (past c x r) c')
      → OnOneLine kind (x ∷ m.chunk)
      → Turn c x r (c', kind)
  turn c' kind m h = record {
    chunk = m.chunk;
    split = m.split;
    moved = omega (arith, m.moved);
    on_line = h;
  }

  yaml_token-Turn : Turn c x r (yaml_token c x r)
  unfolding yaml_token Moved-refl
  yaml_token-Turn =
      let at = past c x r in
      if-elim (Turn c x r) (x == b'\n')
        (λ e. turn at newline (Moved-refl at) (ap (λ (y : ℕ). y ∷ []) ((==_iff x b'\n').0 e)))
        λ h.
          let ne : x ≢ b'\n' = ground arith in
          let double = quoted-Moved b'"' false at r refl in
          let single = quoted-Moved b'\'' false at r refl in
          let remark = comment_loop-Moved at r refl in
          let word = word_loop-Moved at r refl in
          let text = text_loop-Moved at r refl in
          if-elim (Turn c x r) (x == b'"') (λ _. turn _ string_literal double (ne, double.holds))
            λ _.
              if-elim (Turn c x r) (x == b'\'')
                (λ _. turn _ string_literal single (ne, single.holds))
                λ _.
                  if-elim (Turn c x r) (x == b'#' && was_after_space c.prev)
                    (λ _. turn _ comment remark (ne, remark.holds))
                    λ _.
                      if-elim (Turn c x r) (is_word x)
                        (λ _. turn _ (identifier none) word (ne, word.holds))
                        λ _. turn _ plain_text text (ne, text.holds)

yaml_loop_step :
    (fuel : ℕ) (c : Cursor) (x : ℕ) (r : List ℕ)
    → c.rest ≡ x ∷ r
    → yaml_loop (suc fuel) c
      ≡ Option.map
          (λ ts. token c.pos ((yaml_token c x r).0).pos (yaml_token c x r).1 ∷ ts)
          (yaml_loop fuel (yaml_token c x r).0)
unfolding yaml_loop
yaml_loop_step fuel c x r s =
    ap
      (λ l. elim l [
        | [] ↦ some []
        | x ∷ r ↦
            Option.map (λ ts. token c.pos ((yaml_token c x r).0).pos (yaml_token c x r).1 ∷ ts)
              (yaml_loop fuel (yaml_token c x r).0)
      ])
      s

yaml_loop-Tiles :
    (fuel : ℕ) (c : Cursor) (l : List ℕ)
    → c.rest ≡ l
    → length l < fuel
    → (ts : List Token) × (yaml_loop fuel c ≡ some ts) × Tiles c.pos l ts
unfolding yaml_loop
yaml_loop-Tiles zero c l s h = elim h [ ]
yaml_loop-Tiles (suc fuel) c [] s h = ([], rw s, done)
yaml_loop-Tiles (suc fuel) c (x ∷ r) s h =
    let t = yaml_token-Turn c x r in
    let (c', kind) = yaml_token c x r in
    let left : length c'.rest < fuel =
      omega (arith, ap length t.split, length-append t.chunk c'.rest) in
    let (ts, run, tiles) = yaml_loop-Tiles fuel c' c'.rest refl left in
    (
      token c.pos c'.pos kind ∷ ts,
      yaml_loop_step fuel c x r s ∙ ap (Option.map (λ ts. token c.pos c'.pos kind ∷ ts)) run,
      cut (x ∷ t.chunk) c'.rest (ap (λ l. x ∷ l) t.split) (cc) refl t.moved t.on_line tiles,
    )

-- For every text, the fuel suffices and `tokenize_yaml` returns tokens that cut the text, from its
-- first byte to its last, into pieces that are not empty, with nothing between them; each line
-- feed is a `newline` token of its own, and no other token holds a line feed.
pub tokenize_yaml-Tiles :
    (text : List ℕ) → (ts : List Token) × (tokenize_yaml text ≡ some ts) × Tiles 0 text ts
unfolding tokenize_yaml
tokenize_yaml-Tiles text =
    yaml_loop-Tiles (suc (length text)) (start_of text) text refl (omega arith)
