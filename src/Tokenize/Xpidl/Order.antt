-- ===== src/Tokenize/Xpidl/Order.antt =====
-- tools/src/tokenize.rs, tokenize_xpidl: the tokens are in order.
use mozsearch.Prelude.{
  ℕ, zero, suc, ◌+◌, ◌-◌, ◌≤◌, ◌<◌, Bool, Option, none, some, List, [], ◌∷◌, ◌++◌, ◌≡◌, refl, ap,
  sym, subst, ◌∙◌, arith, append_assoc, append-nil, length, length-append, codes, ◌==◌, Bool-cases,
  Option-cases, inl, inr,
}
use mathlib.Core.Option.{some-injective, none-ne-some}
use mozsearch.Tokenize.{Token, byte_len}
use mozsearch.Tokenize.Scan.{byte_len-append}
use mozsearch.Tokenize.Boundaries.{IsBoundary, InOrder, InOrder-mono, IsBoundary-le}
use mozsearch.Tokenize.Embed.{move_tokens, Between, Between-end, InOrder-move, InOrder-append}
use mozsearch.Tokenize.CLike.State.{LanguageSpec}
use mozsearch.Tokenize.CLike.Order.Loop.{tokenize_c_like-InOrder}
use mozsearch.Tokenize.Xpidl.{
  strip_prefix, push_piece, here_or, find, marker, Round, stop, again, part_tokens, cdata_half,
  xpidl_round, xpidl_loop, tokenize_xpidl,
}

strip_prefix-append : (p cs r : List ℕ) → strip_prefix p cs ≡ some r → cs ≡ p ++ r
strip_prefix-append [] cs r h = some-injective cs r h
strip_prefix-append (q ∷ p) [] r h = absurd (none-ne-some r h)
strip_prefix-append (q ∷ p) (c ∷ cs) r h = ground (arith, strip_prefix-append p cs r)

pieces-append :
    (p : List ℕ) (c : ℕ) (cs : List ℕ) (o : Option (List ℕ)) (q : Option (List ℕ × List ℕ))
    (a b : List ℕ)
    → ((r : List ℕ) → o ≡ some r → c ∷ cs ≡ p ++ r)
    → ((u v : List ℕ) → q ≡ some (u, v) → cs ≡ u ++ (p ++ v))
    → here_or o (push_piece c q) ≡ some (a, b)
    → c ∷ cs ≡ a ++ (p ++ b)
pieces-append p c cs (some r) q a b f g h =
    subst (λ (t : List ℕ × List ℕ). c ∷ cs ≡ t.0 ++ (p ++ t.1)) (some-injective ([], r) (a, b) h)
      (f r refl)
pieces-append p c cs none none a b f g h = absurd (none-ne-some (a, b) h)
pieces-append p c cs none (some (u, v)) a b f g h =
    subst (λ (t : List ℕ × List ℕ). c ∷ cs ≡ t.0 ++ (p ++ t.1)) (some-injective (c ∷ u, v) (a, b) h)
      (ap (λ r. c ∷ r) (g u v refl))

-- What `find` returns puts the text together again.
find-append : (p cs a b : List ℕ) → find p cs ≡ some (a, b) → cs ≡ a ++ (p ++ b)
unfolding find
find-append p [] a b h = absurd (none-ne-some (a, b) h)
find-append p (c ∷ cs) a b h =
    pieces-append p c cs (strip_prefix p (c ∷ cs)) (find p cs) a b (strip_prefix-append p (c ∷ cs))
      (find-append p cs) h

module _ (text : List ℕ) where
  -- The text from a position on.
  record Rest (pos : ℕ) (rest : List ℕ) : Type 0 where
    before : List ℕ
    split : text ≡ before ++ rest
    size : pos ≡ byte_len before

  Rest-move :
      (pos : ℕ) (rest part behind : List ℕ)
      → Rest pos rest
      → rest ≡ part ++ behind
      → Rest (pos + byte_len part) behind
  Rest-move pos rest part behind r e = record {
    before = r.before ++ part;
    split = r.split ∙ ap (λ x. r.before ++ x) e ∙ sym (append_assoc r.before part behind);
    size = omega (arith, r.size, byte_len-append r.before part);
  }

  Rest-Between :
      (pos : ℕ) (rest part behind : List ℕ)
      → Rest pos rest
      → rest ≡ part ++ behind
      → Between text pos (pos + byte_len part) part
  Rest-Between pos rest part behind r e = record {
    before = r.before;
    behind = behind;
    split = r.split ∙ ap (λ x. r.before ++ x) e;
    begins = r.size;
    ends = refl;
  }

  Rest-boundary : (pos : ℕ) (rest : List ℕ) → Rest pos rest → IsBoundary text pos
  Rest-boundary pos rest r = record {
    before = r.before;
    behind = rest;
    split = r.split;
    size = r.size;
  }

  -- A marker that ends in a newline, as a comment and the newline.
  marker-InOrder :
      (pos n : ℕ) (mark rest behind : List ℕ)
      → Rest pos rest
      → rest ≡ mark ++ (b'\n' ∷ behind)
      → byte_len mark + 1 ≡ n
      → InOrder text pos (marker pos n) (pos + n) × Rest (pos + n) behind
  marker-InOrder pos n mark rest behind r e m =
      let line = Rest-move pos rest mark (b'\n' ∷ behind) r e in
      let next = Rest-move (pos + byte_len mark) (b'\n' ∷ behind) (b'\n' ∷ []) behind line refl in
      let at_line : pos + byte_len mark ≡ pos + n - 1 = omega (arith, m) in
      let at_next : pos + byte_len mark + 1 ≡ pos + n = omega (arith, m) in
      let line' = subst (λ k. Rest k (b'\n' ∷ behind)) at_line line in
      let next' = subst (λ k. Rest k behind) at_next next in
      (
        (
          omega arith,
          omega (arith, m),
          Rest-boundary pos rest r,
          Rest-boundary _ _ line',
          (
            omega arith,
            omega (arith, m),
            Rest-boundary _ _ line',
            Rest-boundary _ _ next',
            omega arith,
          ),
        ),
        next',
      )

  part_tokens-InOrder :
      (unicode : ℕ → Bool) (s : LanguageSpec) (pos : ℕ) (rest part behind : List ℕ)
      → Rest pos rest
      → rest ≡ part ++ behind
      → (ts : List Token) × (part_tokens unicode s pos part ≡ some ts)
        × InOrder text pos ts (pos + byte_len part)
  unfolding part_tokens
  part_tokens-InOrder unicode s pos rest part behind r e =
      let (ts, q, o) = tokenize_c_like-InOrder unicode s part in
      (move_tokens pos ts, rw q refl, InOrder-move ts (Rest-Between pos rest part behind r e) o)

  module _ (unicode : ℕ → Bool) (spec cdata_spec : LanguageSpec) where
    -- What is to be shown of a round: it answers, and the tokens so far are in order.
    abbrev Ends : ℕ → Round → Type 0
    Ends n (stop ts) = InOrder text 0 ts (byte_len text)
    Ends n (again s r ts) = Rest s r × InOrder text 0 ts s × (length r < n)

    -- The part in front of a marker, or the last one, is tokenized behind the result so far.
    part-InOrder :
        (s : LanguageSpec) (pos : ℕ) (rest part behind : List ℕ) (result : List Token)
        → Rest pos rest
        → rest ≡ part ++ behind
        → InOrder text 0 result pos
        → (ts : List Token) × (part_tokens unicode s pos part ≡ some ts)
          × InOrder text 0 (result ++ ts) (pos + byte_len part)
    part-InOrder s pos rest part behind result r e h =
        let (ts, q, o) = part_tokens-InOrder unicode s pos rest part behind r e in
        (ts, q, InOrder-append text 0 pos (pos + byte_len part) result ts h o)

    within :
        (pos : ℕ) (rest part behind : List ℕ)
        → Rest pos rest
        → rest ≡ part ++ behind
        → pos + byte_len part ≤ byte_len text
    within pos rest part behind r e =
        IsBoundary-le (Between-end (Rest-Between pos rest part behind r e))

    cdata_half-Ends :
        (n pos : ℕ) (rest : List ℕ) (result : List Token)
        → Rest pos rest
        → InOrder text 0 result pos
        → length rest < n
        → (o : Round) × (cdata_half unicode spec cdata_spec pos rest result ≡ some o) × Ends n o
    unfolding cdata_half
    cdata_half-Ends n pos rest result r h k = elim (Option-cases (find (codes "%}\n") rest)) [
      | inl e ↦
          let (ts, q, o) =
            part-InOrder cdata_spec pos rest rest [] result r (sym (append-nil rest)) h in
          (
            stop (result ++ ts),
            rw (cdata_half, e, q) refl,
            InOrder-mono text 0 (result ++ ts) (within pos rest rest [] r (sym (append-nil rest)))
                o,
          )
      | inr ((a, b), e) ↦
          let w = find-append (codes "%}\n") rest a b e in
          let (ts, q, o) = part-InOrder cdata_spec pos rest a (codes "%}\n" ++ b) result r w h in
          elim (Bool-cases (byte_len b == 0)) [
            | inl z ↦ (
              stop (result ++ ts),
              rw (cdata_half, e, q, z) refl,
              InOrder-mono text 0 (result ++ ts) (within pos rest a (codes "%}\n" ++ b) r w) o,
            )
            | inr z ↦
                let pos' = pos + byte_len a in
                let (m, r') =
                  marker-InOrder pos' 3 (codes "%}") (codes "%}\n" ++ b) b
                    (Rest-move pos rest a (codes "%}\n" ++ b) r w) refl refl in
                (
                  again (pos' + 3) b ((result ++ ts) ++ marker pos' 3),
                  rw (cdata_half, e, q, z) refl,
                  (
                    r',
                    InOrder-append text 0 pos' (pos' + 3) (result ++ ts) (marker pos' 3) o m,
                    omega (arith, k, ap length w, length-append a (codes "%}\n" ++ b)),
                  ),
                )
          ]
    ]

    xpidl_round-Ends :
        (pos : ℕ) (rest : List ℕ) (result : List Token)
        → Rest pos rest
        → InOrder text 0 result pos
        → (o : Round) × (xpidl_round unicode spec cdata_spec pos rest result ≡ some o)
          × Ends (length rest) o
    unfolding xpidl_round
    xpidl_round-Ends pos rest result r h = elim (Option-cases (find (codes "%{C++\n") rest)) [
      | inl e ↦
          let (ts, q, o) = part-InOrder spec pos rest rest [] result r (sym (append-nil rest)) h in
          (
            stop (result ++ ts),
            rw (xpidl_round, e, q) refl,
            InOrder-mono text 0 (result ++ ts) (within pos rest rest [] r (sym (append-nil rest)))
                o,
          )
      | inr ((a, b), e) ↦
          let w = find-append (codes "%{C++\n") rest a b e in
          let (ts, q, o) = part-InOrder spec pos rest a (codes "%{C++\n" ++ b) result r w h in
          elim (Bool-cases (byte_len b == 0)) [
            | inl z ↦ (
              stop (result ++ ts),
              rw (xpidl_round, e, q, z) refl,
              InOrder-mono text 0 (result ++ ts) (within pos rest a (codes "%{C++\n" ++ b) r w) o,
            )
            | inr z ↦
                let pos' = pos + byte_len a in
                let (m, r') =
                  marker-InOrder pos' 6 (codes "%{C++") (codes "%{C++\n" ++ b) b
                    (Rest-move pos rest a (codes "%{C++\n" ++ b) r w) refl refl in
                let (half, c, ends) =
                  cdata_half-Ends (length rest) (pos' + 6) b ((result ++ ts) ++ marker pos' 6) r'
                    (InOrder-append text 0 pos' (pos' + 6) (result ++ ts) (marker pos' 6) o m)
                    (omega (arith, ap length w, length-append a (codes "%{C++\n" ++ b))) in
                (half, rw (xpidl_round, e, q, z) c, ends)
          ]
    ]

    round-InOrder :
        (fuel n : ℕ) (o : Round)
        → n ≤ fuel
        → Ends n o
        → ((s : ℕ) (l : List ℕ) (t : List Token)
            → Rest s l
            → InOrder text 0 t s
            → length l < fuel
            → (ts : List Token) × (xpidl_loop unicode spec cdata_spec fuel s l t ≡ some ts)
              × InOrder text 0 ts (byte_len text))
        → (ts : List Token) × ((elim o [
          | stop ts' ↦ some ts'
          | again s l t ↦ xpidl_loop unicode spec cdata_spec fuel s l t
        ])
            ≡ some ts)
          × InOrder text 0 ts (byte_len text)
    round-InOrder fuel n (stop t) k ends ih = (t, refl, ends)
    round-InOrder fuel n (again s l t) k (r, h, small) ih = ih s l t r h (omega (arith, k, small))

    xpidl_loop-InOrder :
        (fuel pos : ℕ) (rest : List ℕ) (result : List Token)
        → Rest pos rest
        → InOrder text 0 result pos
        → length rest < fuel
        → (ts : List Token) × (xpidl_loop unicode spec cdata_spec fuel pos rest result ≡ some ts)
          × InOrder text 0 ts (byte_len text)
    unfolding xpidl_loop
    xpidl_loop-InOrder zero pos rest result r h k = absurd (omega (arith, k))
    xpidl_loop-InOrder (suc fuel) pos rest result r h k =
        let (o, e, ends) = xpidl_round-Ends pos rest result r h in
        let (ts, q, w) =
          round-InOrder fuel (length rest) o (omega (arith, k)) ends
            (λ s l t. xpidl_loop-InOrder fuel s l t) in
        (ts, rw (xpidl_loop, e) q, w)

-- For every text, both languages and every table of the letters beyond ASCII, the fuel suffices,
-- and the tokens that `tokenize_xpidl` returns are in order: each starts at or behind the end of
-- the one before it, ends at or behind its own start and within the text, and starts and ends at a
-- boundary between two characters.
pub tokenize_xpidl-InOrder :
    (unicode : ℕ → Bool) (spec cdata_spec : LanguageSpec) (text : List ℕ)
    → (ts : List Token) × (tokenize_xpidl unicode spec cdata_spec text ≡ some ts)
      × InOrder text 0 ts (byte_len text)
unfolding tokenize_xpidl
tokenize_xpidl-InOrder unicode spec cdata_spec text =
    xpidl_loop-InOrder text unicode spec cdata_spec (suc (length text)) 0 text []
      (record { before = []; split = refl; size = refl }) (omega arith) (omega arith)
