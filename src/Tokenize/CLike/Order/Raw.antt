-- ===== src/Tokenize/CLike/Order/Raw.antt =====
-- Raw string literals keep the invariant.
use mozsearch.Prelude.{
  ℕ, ◌≤◌, false, not, ◌&&◌, ◌||◌, Option, none, some, List, [], ◌∷◌, refl, ltb, ◌==◌, if-elim,
  arith,
}
use mozsearch.Tokenize.{string_literal, plain_text, Cursor, past, advance}
use mozsearch.Tokenize.CLike.State.{cut_off, scan, Lexer, open_literal, is_empty}
use mozsearch.Tokenize.CLike.Raw.{
  Hashes, hashes_turn, RawBody, rust_raw_scan, rust_raw_turn, rust_raw, Delimiter, delimiter_turn,
  CppBody, cpp_raw_scan, cpp_raw_expect, cpp_raw_turn, cpp_raw,
}
use mozsearch.Tokenize.CLike.Order.Inv.{
  OnTurn, scan-elim, Within, Within-past, advance-Within, LitAt, CursorAt, Ends, Good, move-LitAt,
  newline-LitAt, after-Good, cut_off-Ends, Begins, Begins-move, open_literal-LitAt, push-Good,
}

module _ (text : List ℕ) (n : ℕ) where
  abbrev RawAt : RawBody → List ℕ → Type 0
  RawAt s l = LitAt text n s.lit l

  rust_raw_scan-Turn :
      (k : ℕ) (s : RawBody) (x : ℕ) (r : List ℕ)
      → RawAt s (x ∷ r)
      → OnTurn RawAt (Ends text n) r (rust_raw_scan k s x r)
  unfolding rust_raw_scan
  rust_raw_scan-Turn k s x r p =
      let next = move-LitAt false x r p in
      if-elim (OnTurn RawAt (Ends text n) r) (x == b'\n')
        (λ h. newline-LitAt false string_literal x r h p)
        λ _.
          if-elim (OnTurn RawAt (Ends text n) r) (not (x == b'"')) (λ _. next)
            λ _. if-elim (OnTurn RawAt (Ends text n) r) (k == 0) (λ _. next.0) (λ _. next)

  rust_raw_turn-Turn :
      (k : ℕ) (s : RawBody) (x : ℕ) (r : List ℕ)
      → RawAt s (x ∷ r)
      → OnTurn RawAt (Ends text n) r (rust_raw_turn k s x r)
  unfolding rust_raw_turn
  rust_raw_turn-Turn k s x r p =
      let next = move-LitAt false x r p in
      if-elim (OnTurn RawAt (Ends text n) r) (ltb 0 s.pending && x == b'#')
        (λ _. if-elim (OnTurn RawAt (Ends text n) r) (s.pending == 1) (λ _. next.0) (λ _. next))
        (λ _. rust_raw_scan-Turn k s x r p)

  abbrev HashesAt : ℕ → Hashes → List ℕ → Type 0
  HashesAt low s l = CursorAt text n low s.cursor l

  abbrev HashesEnd : ℕ → Hashes → Type 0
  HashesEnd low s = Within text n s.cursor × (low ≤ (s.cursor).pos)

  hashes_turn-Turn :
      (low : ℕ) (s : Hashes) (x : ℕ) (r : List ℕ)
      → HashesAt low s (x ∷ r)
      → OnTurn (HashesAt low) (HashesEnd low) r (hashes_turn s x r)
  unfolding hashes_turn
  hashes_turn-Turn low s x r (w, le, e) =
      let next = Within-past x r w e in
      let le' : low ≤ (past s.cursor x r).pos = omega arith in
      if-elim (OnTurn (HashesAt low) (HashesEnd low) r) (x == b'"') (λ _. (next, le'))
        λ _.
          if-elim (OnTurn (HashesAt low) (HashesEnd low) r) (not (x == b'#') || is_empty r)
            (λ _. (next, le')) (λ _. (next, le', refl))

  pub rust_raw-Good :
      (start : ℕ) (lx : Lexer) (c : Cursor)
      → Begins text n start lx c
      → Good text n (rust_raw start lx c)
  unfolding rust_raw
  rust_raw-Good start lx c b =
      let h0 : Hashes = record { nhashes = 0; cursor = c; valid = false } in
      let h = scan hashes_turn (λ s. s) h0 c.rest in
      let ended =
        scan-elim (HashesAt c.pos) (HashesEnd c.pos) hashes_turn (λ s. s) (λ s p. (p.0, p.1))
          (hashes_turn-Turn c.pos) h0 c.rest (b.within, omega arith, refl) in
      let b' = Begins-move b ended in
      if-elim (Good text n) h.valid
        (λ _. after-Good text n string_literal lx.maybe_regexp lx _ b.nests (
          scan-elim RawAt (Ends text n) (rust_raw_turn h.nhashes) (λ s. cut_off (s.lit).tokens)
            (λ s p. cut_off-Ends text n s.lit p) (rust_raw_turn-Turn h.nhashes)
            (record { lit = open_literal start lx h.cursor; pending = 0 }) (h.cursor).rest
            (open_literal-LitAt b')))
        (λ _. push-Good plain_text lx.maybe_regexp b')

  abbrev DelimiterAt : ℕ → Delimiter → List ℕ → Type 0
  DelimiterAt low s l = CursorAt text n low s.cursor l

  abbrev DelimiterEnd : ℕ → Delimiter → Type 0
  DelimiterEnd low s = Within text n s.cursor × (low ≤ (s.cursor).pos)

  delimiter_turn-Turn :
      (low : ℕ) (s : Delimiter) (x : ℕ) (r : List ℕ)
      → DelimiterAt low s (x ∷ r)
      → OnTurn (DelimiterAt low) (DelimiterEnd low) r (delimiter_turn s x r)
  unfolding delimiter_turn
  delimiter_turn-Turn low s x r (w, le, e) =
      let next = Within-past x r w e in
      let le' : low ≤ (past s.cursor x r).pos = omega arith in
      if-elim (OnTurn (DelimiterAt low) (DelimiterEnd low) r) (x == b'(') (λ _. (next, le'))
        λ _.
          if-elim (OnTurn (DelimiterAt low) (DelimiterEnd low) r) (is_empty r) (λ _. (next, le'))
            (λ _. (next, le', refl))

  abbrev CppAt : CppBody → List ℕ → Type 0
  CppAt s l = LitAt text n s.lit l

  cpp_raw_scan-Turn :
      (d : List ℕ) (s : CppBody) (x : ℕ) (r : List ℕ)
      → CppAt s (x ∷ r)
      → OnTurn CppAt (Ends text n) r (cpp_raw_scan d s x r)
  unfolding cpp_raw_scan
  cpp_raw_scan-Turn d s x r p =
      if-elim (λ l. LitAt text n l r) (x == b'\n') (λ h. newline-LitAt false string_literal x r h p)
        (λ _. move-LitAt false x r p)

  cpp_raw_expect-Turn :
      (o : Option (List ℕ)) (d : List ℕ) (s : CppBody) (x : ℕ) (r : List ℕ)
      → CppAt s (x ∷ r)
      → OnTurn CppAt (Ends text n) r (cpp_raw_expect o d s x r)
  unfolding cpp_raw_expect
  cpp_raw_expect-Turn none d s x r p = cpp_raw_scan-Turn d s x r p
  cpp_raw_expect-Turn (some []) d s x r p =
      if-elim (OnTurn CppAt (Ends text n) r) (x == b'"') (λ _. (move-LitAt false x r p).0)
        (λ _. cpp_raw_scan-Turn d s x r p)
  cpp_raw_expect-Turn (some (e ∷ es)) d s x r p =
      if-elim (OnTurn CppAt (Ends text n) r) (e == x) (λ _. move-LitAt false x r p)
        (λ _. cpp_raw_scan-Turn d s x r p)

  cpp_raw_turn-Turn :
      (d : List ℕ) (s : CppBody) (x : ℕ) (r : List ℕ)
      → CppAt s (x ∷ r)
      → OnTurn CppAt (Ends text n) r (cpp_raw_turn d s x r)
  unfolding cpp_raw_turn
  cpp_raw_turn-Turn d s x r p = cpp_raw_expect-Turn s.expected d s x r p

  pub cpp_raw-Good :
      (start : ℕ) (lx : Lexer) (c : Cursor)
      → Begins text n start lx c
      → Good text n (cpp_raw start lx c)
  unfolding cpp_raw
  cpp_raw-Good start lx c b =
      let b1 = Begins-move b (advance-Within b.within) in
      let c1 = advance c in
      let d0 : Delimiter = record { delimiter = []; cursor = c1; found = false } in
      let d = scan delimiter_turn (λ s. s) d0 c1.rest in
      let ended =
        scan-elim (DelimiterAt c1.pos) (DelimiterEnd c1.pos) delimiter_turn (λ s. s)
          (λ s p. (p.0, p.1)) (delimiter_turn-Turn c1.pos) d0 c1.rest
          (b1.within, omega arith, refl) in
      let b2 = Begins-move b1 ended in
      if-elim (Good text n) d.found
        (λ _. after-Good text n string_literal false lx _ b.nests (
          scan-elim CppAt (Ends text n) (cpp_raw_turn d.delimiter) (λ s. cut_off (s.lit).tokens)
            (λ s p. cut_off-Ends text n s.lit p) (cpp_raw_turn-Turn d.delimiter)
            (record { lit = open_literal start lx d.cursor; expected = none }) (d.cursor).rest
            (open_literal-LitAt b2)))
        (λ _. cut_off-Ends text n (open_literal start lx c) (open_literal-LitAt b))
