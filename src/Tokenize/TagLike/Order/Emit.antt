-- ===== src/Tokenize/TagLike/Order/Emit.antt =====
-- The tokens that the second loop of `tokenize_tag_like` puts together are in order, if the text of
-- a script or a style is not cut by the tokens of tags.
use mozsearch.Prelude.{
  ℕ, ◌≤◌, Bool, true, false, ◌&&◌, ◌||◌, not, Option, none, some, List, [], ◌∷◌, ◌++◌, ◌≡◌, refl,
  sym, subst, arith, ◌==◌, if◌then◌else◌, if-elim, list_eq, codes,
}
use mozsearch.Tokenize.{
  Token, token, TokenKind, plain_text, punctuation, identifier, string_literal, comment,
  regular_expression_literal, tag_name, tag_attr_name, end_tag_name, newline, byte_len,
}
use mozsearch.Tokenize.Boundaries.{IsBoundary, InOrder, InOrder-mono, InOrder-concat}
use mozsearch.Tokenize.Embed.{
  move_tokens, Between, Between-start, Between-end, InOrder-move, InOrder-append,
}
use mozsearch.Tokenize.CLike.State.{LanguageSpec}
use mozsearch.Tokenize.CLike.Order.Loop.{tokenize_c_like-InOrder}
use mozsearch.Tokenize.TagLike.Slices.{Between-join}
use mozsearch.Tokenize.TagLike.Scripts.{
  Emitter, push_result, pop, peek, starting_script, on_attr_name, on_text, emit_script, on_literal,
  end_script, on_punctuation, emit,
}

-- A token that only adds its text to a script or a style, or ends it.
abbrev pub is_quiet : List ℕ → TokenKind → Bool
is_quiet part plain_text = true
is_quiet part newline = true
is_quiet part comment = true
is_quiet part punctuation = not (list_eq part (codes ">") || list_eq part (codes "/>"))
is_quiet part _ = false

-- Inside a script or a style a token starts where the last one ended, at `pos`, and is quiet.
abbrev pub quiet : Emitter → ℕ → List ℕ → Token → Bool
quiet e pos part t = not (e.in_script || e.in_style) || (t.start == pos && is_quiet part t.kind)

-- Where the tokens made so far end, and what is collected of a script or a style up to `pos`.
pub data Emits (text : List ℕ) (e : Emitter) (pos : ℕ) : Type 0 where
  outside :
      e.in_script ≡ false
      → e.in_style ≡ false
      → InOrder text 0 e.result pos
      → e.script ≡ []
      → e.style ≡ []
      → Emits text e pos
  scripting :
      e.in_script ≡ true
      → e.in_style ≡ false
      → InOrder text 0 e.result e.script_start
      → Between text e.script_start pos e.script
      → e.style ≡ []
      → Emits text e pos
  styling :
      e.in_script ≡ false
      → e.in_style ≡ true
      → InOrder text 0 e.result e.style_start
      → Between text e.style_start pos e.style
      → e.script ≡ []
      → Emits text e pos

pub off : (a b : Bool) → a ≡ false → a && b ≡ true → ⊥
off a b h k = ground arith

off_right : (a b : Bool) → b ≡ false → a && b ≡ true → ⊥
off_right a b h k = ground arith

pub clash : (a : Bool) → a ≡ true → a ≡ false → ⊥
clash a h k = ground arith

module _ (text : List ℕ) where
  Between-empty : {pos : ℕ} → IsBoundary text pos → Between text pos pos []
  Between-empty b = record {
    before = b.before;
    behind = b.behind;
    split = b.split;
    begins = b.size;
    ends = omega arith;
  }

  -- A token behind the position, and its text.
  pub record Seen (pos : ℕ) (part : List ℕ) (t : Token) : Type 0 where
    pub behind : pos ≤ t.start
    pub forward : t.start ≤ t.end
    pub within : Between text t.start t.end part

  meets :
      {pos from to : ℕ} {part : List ℕ}
      → from ≡ pos
      → Between text from to part
      → Between text pos to part
  meets {pos} {from} {to} {part} e b = subst (λ n. Between text n to part) e b

  Seen-push :
      {lo pos : ℕ} {part : List ℕ} {t : Token} (ts : List Token) (k : TokenKind)
      → Seen pos part t
      → lo ≤ pos
      → InOrder text 0 ts lo
      → InOrder text 0 (ts ++ (token t.start t.end k ∷ [])) t.end
  Seen-push {lo} {pos} {part} {t} ts k s le h =
      InOrder-concat text 0 ts t.start t.end k
        (InOrder-mono text 0 ts (omega (arith, le, s.behind)) h) s.forward (Between-start s.within)
        (Between-end s.within)

  module _ (unicode : ℕ → Bool) (tokenize_css : List ℕ → List Token) (script_spec : LanguageSpec)
      (css : (part : List ℕ) → InOrder part 0 (tokenize_css part) (byte_len part)) where
    pub emit_script-InOrder :
        (script : List ℕ) (start to : ℕ) (e : Emitter)
        → Between text start to script
        → InOrder text 0 e.result start
        → (ts : List Token) × (emit_script unicode tokenize_css script_spec script start e
            ≡ some (record e { result = e.result ++ ts }))
          × InOrder text 0 (e.result ++ ts) to
    unfolding emit_script
    emit_script-InOrder script start to e b h =
        let (ts, q, o) = tokenize_c_like-InOrder unicode script_spec script in
        (
          move_tokens start ts,
          rw q refl,
          InOrder-append text 0 start to e.result _ h (InOrder-move ts b o),
        )

    pub emit_style-InOrder :
        (style : List ℕ) (start to : ℕ) (ts : List Token)
        → Between text start to style
        → InOrder text 0 ts start
        → InOrder text 0 (ts ++ move_tokens start (tokenize_css style)) to
    emit_style-InOrder style start to ts b h =
        InOrder-append text 0 start to ts _ h (InOrder-move (tokenize_css style) b (css style))

    -- What is to be shown of a step.
    abbrev pub Steps : Option Emitter → ℕ → Type 0
    Steps o pos = (e : Emitter) × (o ≡ some e) × Emits text e pos

    on_literal-Steps :
        (e : Emitter) (pos : ℕ) (part : List ℕ) (t : Token)
        → Seen pos part t
        → e.in_script ≡ false
        → e.in_style ≡ false
        → InOrder text 0 e.result pos
        → e.script ≡ []
        → e.style ≡ []
        → Steps (on_literal unicode tokenize_css script_spec part t e) t.end
    unfolding on_literal
    on_literal-Steps e pos part t s hs hy h es ey =
        let push = outside hs hy (Seen-push e.result t.kind s (omega arith) h) es ey in
        if-elim (λ o. Steps o t.end) e.literal_is_id
          (λ _.
            (_, refl, outside hs hy (Seen-push e.result (identifier none) s (omega arith) h) es ey))
          (λ _.
            if-elim (λ o. Steps o t.end) e.literal_is_js
              (λ _.
                let (ts, q, o) =
                  emit_script-InOrder part t.start t.end (record e { literal_is_js = false })
                    s.within (InOrder-mono text 0 e.result s.behind h) in
                (_, q, outside hs hy o es ey))
              (λ _.
                if-elim (λ o. Steps o t.end) e.literal_is_css
                  (λ _. (
                    _,
                    refl,
                    outside hs hy
                        (emit_style-InOrder part t.start t.end e.result s.within
                          (InOrder-mono text 0 e.result s.behind h))
                        es ey,
                  ))
                  (λ _. (_, refl, push))))

    punctuation_outside-Steps :
        (e : Emitter) (pos : ℕ) (part : List ℕ) (t : Token)
        → Seen pos part t
        → e.in_script ≡ false
        → e.in_style ≡ false
        → InOrder text 0 e.result pos
        → e.script ≡ []
        → e.style ≡ []
        → Steps (on_punctuation unicode tokenize_css script_spec part t e) t.end
    unfolding on_punctuation
    punctuation_outside-Steps e pos part t s hs hy h es ey =
        let ts = Seen-push e.result t.kind s (omega arith) h in
        let stack = if list_eq part (codes "/>") then pop e.tag_stack else e.tag_stack in
        let empty = Between-empty (Between-end s.within) in
        if-elim (λ o. Steps o t.end) (starting_script stack && list_eq part (codes ">"))
          (λ _. (_, refl, scripting refl hy ts (rw es empty) ey))
          (λ _.
            if-elim (λ o. Steps o t.end) (e.in_script && list_eq part (codes "</"))
              (λ q. absurd (off e.in_script _ hs q))
              (λ _.
                if-elim (λ o. Steps o t.end) e.in_script (λ q. absurd (clash e.in_script q hs))
                  (λ _.
                    if-elim (λ o. Steps o t.end)
                      (peek stack 0 (codes "style") && list_eq part (codes ">"))
                      (λ _. (_, refl, styling hs refl ts (rw ey empty) es))
                      (λ _.
                        if-elim (λ o. Steps o t.end) (e.in_style && list_eq part (codes "</"))
                          (λ q. absurd (off e.in_style _ hy q))
                          (λ _.
                            if-elim (λ o. Steps o t.end) e.in_style
                              (λ q. absurd (clash e.in_style q hy))
                              (λ _. (_, refl, outside hs hy ts es ey)))))))

    punctuation_scripting-Steps :
        (e : Emitter) (pos : ℕ) (part : List ℕ) (t : Token)
        → Seen pos part t
        → e.in_script ≡ true
        → e.in_style ≡ false
        → InOrder text 0 e.result e.script_start
        → Between text e.script_start pos e.script
        → e.style ≡ []
        → t.start ≡ pos
        → list_eq part (codes ">") ≡ false
        → Steps (on_punctuation unicode tokenize_css script_spec part t e) t.end
    unfolding on_punctuation end_script
    punctuation_scripting-Steps e pos part t s hs hy h b ey at ng =
        let stack = if list_eq part (codes "/>") then pop e.tag_stack else e.tag_stack in
        let le : e.script_start ≤ pos = omega (arith, b.ends) in
        let ts = Seen-push e.result t.kind s le h in
        let (us, q, o) =
          emit_script-InOrder e.script e.script_start pos (record e { tag_stack = stack }) b h in
        if-elim (λ o. Steps o t.end) (starting_script stack && list_eq part (codes ">"))
          (λ q. absurd (off_right (starting_script stack) _ ng q))
          (λ _.
            if-elim (λ o. Steps o t.end) (e.in_script && list_eq part (codes "</"))
              (λ _.
                if-elim (λ o. Steps o t.end) e.script_has_src
                  (λ _. (_, refl, outside refl hy ts refl ey))
                  (λ _. (
                    push_result t (record e {
                      tag_stack = stack;
                      result = e.result ++ us;
                      script = [];
                      in_script = false;
                    }),
                    rw q refl,
                    outside refl hy (Seen-push (e.result ++ us) t.kind s (omega arith) o) refl ey,
                  )))
              (λ _.
                if-elim (λ o. Steps o t.end) e.in_script
                  (λ _. (_, refl, scripting hs hy h (Between-join b (meets at s.within)) ey))
                  (λ q. absurd (clash e.in_script hs q))))

    punctuation_styling-Steps :
        (e : Emitter) (pos : ℕ) (part : List ℕ) (t : Token)
        → Seen pos part t
        → e.in_script ≡ false
        → e.in_style ≡ true
        → InOrder text 0 e.result e.style_start
        → Between text e.style_start pos e.style
        → e.script ≡ []
        → t.start ≡ pos
        → list_eq part (codes ">") ≡ false
        → Steps (on_punctuation unicode tokenize_css script_spec part t e) t.end
    unfolding on_punctuation
    punctuation_styling-Steps e pos part t s hs hy h b es at ng =
        let stack = if list_eq part (codes "/>") then pop e.tag_stack else e.tag_stack in
        let o = emit_style-InOrder e.style e.style_start pos e.result b h in
        if-elim (λ o. Steps o t.end) (starting_script stack && list_eq part (codes ">"))
          (λ q. absurd (off_right (starting_script stack) _ ng q))
          (λ _.
            if-elim (λ o. Steps o t.end) (e.in_script && list_eq part (codes "</"))
              (λ q. absurd (off e.in_script _ hs q))
              (λ _.
                if-elim (λ o. Steps o t.end) e.in_script (λ q. absurd (clash e.in_script q hs))
                  (λ _.
                    if-elim (λ o. Steps o t.end)
                      (peek stack 0 (codes "style") && list_eq part (codes ">"))
                      (λ q. absurd (off_right (peek stack 0 (codes "style")) _ ng q))
                      (λ _.
                        if-elim (λ o. Steps o t.end) (e.in_style && list_eq part (codes "</"))
                          (λ _. (
                            _,
                            refl,
                            outside hs refl (Seen-push _ t.kind s (omega arith) o) es refl,
                          ))
                          (λ _.
                            if-elim (λ o. Steps o t.end) e.in_style
                              (λ _.
                                (_, refl, styling hs hy h (Between-join b (meets at s.within)) es))
                              (λ q. absurd (clash e.in_style hy q)))))))

    on_text-Steps :
        (e : Emitter) (pos : ℕ) (part : List ℕ) (t : Token)
        → Seen pos part t
        → Emits text e pos
        → (e.in_script || e.in_style ≡ true → t.start ≡ pos)
        → Steps (some (on_text part t e)) t.end
    unfolding on_text
    on_text-Steps e pos part t s (outside hs hy h es ey) at =
        if-elim (λ x. Steps (some x) t.end) e.in_script (λ q. absurd (clash e.in_script q hs))
          (λ _.
            if-elim (λ x. Steps (some x) t.end) e.in_style (λ q. absurd (clash e.in_style q hy))
              (λ _. (_, refl, outside hs hy (Seen-push e.result t.kind s (omega arith) h) es ey)))
    on_text-Steps e pos part t s (scripting hs hy h b ey) at =
        if-elim (λ x. Steps (some x) t.end) e.in_script
          (λ _.
            (_, refl, scripting hs hy h (Between-join b (meets (at (ground arith)) s.within)) ey))
          (λ q. absurd (clash e.in_script hs q))
    on_text-Steps e pos part t s (styling hs hy h b es) at =
        if-elim (λ x. Steps (some x) t.end) e.in_script (λ q. absurd (clash e.in_script q hs))
          (λ _.
            if-elim (λ x. Steps (some x) t.end) e.in_style
              (λ _.
                (_, refl, styling hs hy h (Between-join b (meets (at (ground arith)) s.within)) es))
              (λ q. absurd (clash e.in_style hy q)))

    on_punctuation-Steps :
        (e : Emitter) (pos : ℕ) (part : List ℕ) (t : Token)
        → Seen pos part t
        → Emits text e pos
        → (e.in_script || e.in_style ≡ true → (t.start ≡ pos) × (is_quiet part punctuation ≡ true))
        → Steps (on_punctuation unicode tokenize_css script_spec part t e) t.end
    on_punctuation-Steps e pos part t s (outside hs hy h es ey) at =
        punctuation_outside-Steps e pos part t s hs hy h es ey
    on_punctuation-Steps e pos part t s (scripting hs hy h b ey) at =
        let (same, calm) = at (ground arith) in
        punctuation_scripting-Steps e pos part t s hs hy h b ey same (ground arith)
    on_punctuation-Steps e pos part t s (styling hs hy h b es) at =
        let (same, calm) = at (ground arith) in
        punctuation_styling-Steps e pos part t s hs hy h b es same (ground arith)

    -- A token that cannot stand in a script or a style.
    abbrev Outside : Emitter → ℕ → Type 0
    Outside e pos =
        (e.in_script ≡ false)
        × (e.in_style ≡ false)
        × InOrder text 0 e.result pos
        × (e.script ≡ [])
        × (e.style ≡ [])

    leaves :
        (e : Emitter) (pos : ℕ)
        → Emits text e pos
        → (e.in_script || e.in_style ≡ true → ⊥)
        → Outside e pos
    leaves e pos (outside hs hy h es ey) no_way = (hs, hy, h, es, ey)
    leaves e pos (scripting hs hy h b ey) no_way = absurd (no_way (ground arith))
    leaves e pos (styling hs hy h b es) no_way = absurd (no_way (ground arith))

    pub emit-Steps :
        (k : TokenKind) (e : Emitter) (pos : ℕ) (part : List ℕ) (t : Token)
        → Seen pos part t
        → Emits text e pos
        → (e.in_script || e.in_style ≡ true → (t.start ≡ pos) × (is_quiet part k ≡ true))
        → Steps (emit unicode tokenize_css script_spec k part t e) t.end
    unfolding emit on_attr_name
    emit-Steps plain_text e pos part t s m at = on_text-Steps e pos part t s m (λ i. (at i).0)
    emit-Steps newline e pos part t s m at = on_text-Steps e pos part t s m (λ i. (at i).0)
    emit-Steps comment e pos part t s m at = on_text-Steps e pos part t s m (λ i. (at i).0)
    emit-Steps punctuation e pos part t s m at = on_punctuation-Steps e pos part t s m at
    emit-Steps string_literal e pos part t s m at =
        let (hs, hy, h, es, ey) = leaves e pos m (λ i. ground (arith, at i)) in
        on_literal-Steps e pos part t s hs hy h es ey
    emit-Steps tag_name e pos part t s m at =
        let (hs, hy, h, es, ey) = leaves e pos m (λ i. ground (arith, at i)) in
        (_, refl, outside hs hy (Seen-push e.result t.kind s (omega arith) h) es ey)
    emit-Steps end_tag_name e pos part t s m at =
        let (hs, hy, h, es, ey) = leaves e pos m (λ i. ground (arith, at i)) in
        (_, refl, outside hs hy (Seen-push e.result t.kind s (omega arith) h) es ey)
    emit-Steps tag_attr_name e pos part t s m at =
        let (hs, hy, h, es, ey) = leaves e pos m (λ i. ground (arith, at i)) in
        (_, refl, outside hs hy (Seen-push e.result t.kind s (omega arith) h) es ey)
    emit-Steps (identifier sym) e pos part t s m at =
        let (hs, hy, h, es, ey) = leaves e pos m (λ i. ground (arith, at i)) in
        if-elim (λ o. Steps o t.end) (e.in_script || e.in_style)
          (λ q. absurd (ground (arith, at q)))
          (λ _. (_, refl, outside hs hy (Seen-push e.result t.kind s (omega arith) h) es ey))
    emit-Steps regular_expression_literal e pos part t s m at =
        let (hs, hy, h, es, ey) = leaves e pos m (λ i. ground (arith, at i)) in
        if-elim (λ o. Steps o t.end) (e.in_script || e.in_style)
          (λ q. absurd (ground (arith, at q)))
          (λ _. (_, refl, outside hs hy (Seen-push e.result t.kind s (omega arith) h) es ey))
