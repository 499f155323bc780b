-- ===== src/Tokenize/TagLike/Order/EmitLoop.antt =====
-- The second loop of `tokenize_tag_like` and what follows it, and the function as a whole.
use mozsearch.Prelude.{
  ℕ, ◌≤◌, Bool, true, false, ◌&&◌, ◌||◌, not, Option, none, some, List, [], ◌∷◌, ◌++◌, ◌≡◌, refl,
  sym, subst, ◌∙◌, arith, ==_iff, if-elim,
}
use mathlib.Core.Option.{some-injective}
use mozsearch.Prelude.Text.{◌>>=◌}
use mozsearch.Tokenize.{Token, byte_len}
use mozsearch.Tokenize.Boundaries.{InOrder, InOrder-mono}
use mozsearch.Tokenize.CLike.State.{LanguageSpec}
use mozsearch.Tokenize.TagLike.Step.{slice, tag_tokens}
use mozsearch.Tokenize.TagLike.Slices.{slice-Between}
use mozsearch.Tokenize.TagLike.Order.Loop.{tag_tokens-InOrder}
use mozsearch.Tokenize.TagLike.Order.Emit.{
  quiet, Emits, outside, scripting, styling, Seen, emit_script-InOrder, emit_style-InOrder,
  emit-Steps, clash, off,
}
use mozsearch.Tokenize.TagLike.Scripts.{
  Emitter, initial, emit, emit_loop, end_style, emit_end, tokenize_tag_like,
}

-- Along the loop, no token cuts the text of a script or a style.
abbrev pub then_quiet : Option Emitter → (Emitter → Bool) → Bool
then_quiet none f = true
then_quiet (some e) f = f e

unfoldable pub quiet_loop :
    (ℕ → Bool) → (List ℕ → List Token) → LanguageSpec → List ℕ → List Token → Emitter → ℕ → Bool
unfolding emit slice
quiet_loop unicode css spec string [] e pos = true
quiet_loop unicode css spec string (t ∷ ts) e pos =
    quiet e pos (slice string t.start t.end) t
    && then_quiet (emit unicode css spec t.kind (slice string t.start t.end) t e)
        (λ e'. quiet_loop unicode css spec string ts e' t.end)

quiet-inside :
    (i q r s : Bool) → (not i || (q && r)) && s ≡ true → i ≡ true → (q ≡ true) × (r ≡ true)
quiet-inside i q r s h k = ground arith

and_right : (a b : Bool) → a && b ≡ true → b ≡ true
and_right a b h = ground arith

module _ (unicode : ℕ → Bool) (tokenize_css : List ℕ → List Token) (script_spec : LanguageSpec)
    (css : (part : List ℕ) → InOrder part 0 (tokenize_css part) (byte_len part))
    (text : List ℕ) where
  emit_loop-Emits :
      (ts : List Token) (e : Emitter) (pos : ℕ)
      → Emits text e pos
      → InOrder text pos ts (byte_len text)
      → quiet_loop unicode tokenize_css script_spec text ts e pos ≡ true
      → (e' : Emitter) × (last : ℕ) × (emit_loop unicode tokenize_css script_spec text ts e
          ≡ some e')
        × Emits text e' last
        × (last ≤ byte_len text)
  unfolding emit_loop quiet_loop
  emit_loop-Emits [] e pos m h q = (e, pos, refl, m, h)
  emit_loop-Emits (t ∷ ts) e pos m (h1, h2, h3, h4, hs) q =
      let part = slice text t.start t.end in
      let s : Seen text pos part t = record {
        behind = h1;
        forward = h2;
        within = slice-Between h3 h4 h2;
      } in
      let (e1, c, m1) =
        emit-Steps text unicode tokenize_css script_spec css t.kind e pos part t s m (λ i.
          let (a, b) = quiet-inside (e.in_script || e.in_style) _ _ _ q i in
          ((==_iff t.start pos).0 a, b)) in
      let more : quiet_loop unicode tokenize_css script_spec text ts e1 t.end ≡ true =
        subst
          (λ o.
            then_quiet o (λ e'. quiet_loop unicode tokenize_css script_spec text ts e' t.end)
            ≡ true)
          c (and_right (quiet e pos part t) _ q) in
      let (e2, last, c2, m2, le) = emit_loop-Emits ts e1 t.end m1 hs more in
      (e2, last, rw c c2, m2, le)

  abbrev Done : Option Emitter → ℕ → Type 0
  Done o last =
      (ts : List Token) × ((o >>= λ e. some (end_style unicode tokenize_css script_spec e))
        ≡ some ts)
      × InOrder text 0 ts last

  -- The end of an emitter outside of a style.
  plain-Done :
      (e : Emitter) (last : ℕ)
      → e.in_style ≡ false
      → InOrder text 0 e.result last
      → Done (some e) last
  plain-Done e last hy h =
      if-elim (λ ts. (us : List Token) × (some ts ≡ some us) × InOrder text 0 us last) e.in_style
        (λ q. absurd (clash e.in_style q hy)) (λ _. (e.result, refl, h))

  emit_end-InOrder :
      (e : Emitter) (last : ℕ)
      → Emits text e last
      → (ts : List Token) × (emit_end unicode tokenize_css script_spec e ≡ some ts)
        × InOrder text 0 ts last
  unfolding emit_end
  emit_end-InOrder e last (outside hs hy h es ey) =
      if-elim (λ o. Done o last) (e.in_script && e.script_has_src)
        (λ q. absurd (off e.in_script _ hs q)) (λ _. plain-Done e last hy h)
  emit_end-InOrder e last (scripting hs hy h b ey) =
      let (us, q, o) =
        emit_script-InOrder text unicode tokenize_css script_spec css e.script e.script_start last e
          b h in
      if-elim (λ o. Done o last) (e.in_script && e.script_has_src)
        (λ _. rw q (plain-Done (record e { result = e.result ++ us }) last hy o))
        (λ _. plain-Done e last hy (InOrder-mono text 0 e.result (omega (arith, b.ends)) h))
  emit_end-InOrder e last (styling hs hy h b es) =
      if-elim (λ o. Done o last) (e.in_script && e.script_has_src)
        (λ q. absurd (off e.in_script _ hs q))
        (λ _.
          if-elim (λ ts. (us : List Token) × (some ts ≡ some us) × InOrder text 0 us last)
            e.in_style
            (λ _. (
              _,
              refl,
              emit_style-InOrder text unicode tokenize_css script_spec css e.style e.style_start
                  last e.result b h,
            ))
            (λ q. absurd (clash e.in_style hy q)))

  -- For every text, script language, table of the letters beyond ASCII, and `tokenize_css` whose
  -- tokens are in order: if no token of the tags' loop cuts the text of a script or a style (it
  -- starts where the last one ended, and is text, a newline, a comment or punctuation that is
  -- neither `>` nor `/>`), `tokenize_tag_like` fails no assertion, and its tokens are in order:
  -- each starts at or behind the end of the one before it, ends at or behind its own start and
  -- within the text, and starts and ends at a boundary between two characters.
  pub tokenize_tag_like-InOrder :
      (tags : List Token)
      → tag_tokens unicode text ≡ some tags
      → quiet_loop unicode tokenize_css script_spec text tags initial 0 ≡ true
      → (ts : List Token) × (tokenize_tag_like unicode tokenize_css script_spec text ≡ some ts)
        × InOrder text 0 ts (byte_len text)
  unfolding tokenize_tag_like
  tokenize_tag_like-InOrder tags t q =
      let (tags', t', o') = tag_tokens-InOrder unicode text in
      let same : tags' ≡ tags = some-injective tags' tags (sym t' ∙ t) in
      let (e, last, c, m, le) =
        emit_loop-Emits tags initial 0 (outside refl refl (omega arith) refl refl)
          (subst (λ ts. InOrder text 0 ts (byte_len text)) same o') q in
      let (ts, c', o) = emit_end-InOrder e last m in (ts, rw (t, c) c', InOrder-mono text 0 ts le o)
