-- ===== src/Tokenize/CLike/Order/Words.antt =====
-- Words and punctuation keep the invariant.
use mozsearch.Prelude.{ℕ, ◌≤◌, Bool, false, ◌&&◌, ◌||◌, List, [], ◌∷◌, refl, ◌==◌, if-elim, arith}
use mozsearch.Tokenize.{punctuation, identifier, Cursor, is_digit}
use mozsearch.Tokenize.CLike.State.{LanguageSpec, is_ident, scan, Lexer}
use mozsearch.Tokenize.CLike.Words.{Word, word_turn, ident, blank_turn, preprocessor, punct}
use mozsearch.Tokenize.CLike.Order.Inv.{
  OnTurn, scan-elim, Within, Within-past, CursorAt, Good, Begins, Begins-move, push-Good,
}

module _ (text : List ℕ) (n : ℕ) where
  abbrev WordAt : ℕ → Word → List ℕ → Type 0
  WordAt low s l = CursorAt text n low s.cursor l

  abbrev WordEnd : ℕ → Word → Type 0
  WordEnd low s = Within text n s.cursor × (low ≤ (s.cursor).pos)

  word_turn-Turn :
      (unicode : ℕ → Bool) (spec : LanguageSpec) (number : Bool) (low : ℕ) (s : Word) (x : ℕ)
      (r : List ℕ)
      → WordAt low s (x ∷ r)
      → OnTurn (WordAt low) (WordEnd low) r (word_turn unicode spec number s x r)
  unfolding word_turn
  word_turn-Turn unicode spec number low s x r (w, le, e) =
      if-elim (OnTurn (WordAt low) (WordEnd low) r)
        (is_ident unicode spec x || (number && x == b'\''))
        (λ _. (Within-past x r w e, omega arith, refl)) (λ _. (w, le))

  word-End :
      (unicode : ℕ → Bool) (spec : LanguageSpec) (number : Bool) (first : List ℕ) (c : Cursor)
      → Within text n c
      → WordEnd c.pos (
          scan
            (word_turn unicode spec number)
            (λ s. s)
            (record { word = first; cursor = c })
            c.rest)
  word-End unicode spec number first c w =
      scan-elim (WordAt c.pos) (WordEnd c.pos) (word_turn unicode spec number) (λ s. s)
        (λ s p. (p.0, p.1)) (word_turn-Turn unicode spec number c.pos)
        (record { word = first; cursor = c }) c.rest (w, omega arith, refl)

  pub ident-Good :
      (unicode : ℕ → Bool) (spec : LanguageSpec) (start ch : ℕ) (lx : Lexer) (c : Cursor)
      → Begins text n start lx c
      → Good text n (ident unicode spec start ch lx c)
  unfolding ident
  ident-Good unicode spec start ch lx c b = push-Good (identifier _) _ (
      Begins-move b
        (word-End unicode spec (spec.cxx14_digit_separators && is_digit ch) (ch ∷ []) c b.within))

  blank_turn-Turn :
      (low : ℕ) (c : Cursor) (x : ℕ) (r : List ℕ)
      → CursorAt text n low c (x ∷ r)
      → OnTurn (CursorAt text n low) (λ d. Within text n d × (low ≤ d.pos)) r (blank_turn c x r)
  unfolding blank_turn
  blank_turn-Turn low c x r (w, le, e) =
      if-elim (OnTurn (CursorAt text n low) (λ d. Within text n d × (low ≤ d.pos)) r)
        (x == b' ' || x == b'\t') (λ _. (Within-past x r w e, omega arith, refl)) (λ _. (w, le))

  pub preprocessor-Good :
      (unicode : ℕ → Bool) (spec : LanguageSpec) (start : ℕ) (lx : Lexer) (c : Cursor)
      → Begins text n start lx c
      → Good text n (preprocessor unicode spec start lx c)
  unfolding preprocessor
  preprocessor-Good unicode spec start lx c b =
      let c1 = scan blank_turn (λ d. d) c c.rest in
      let blanks =
        scan-elim (CursorAt text n c.pos) (λ d. Within text n d × (c.pos ≤ d.pos)) blank_turn
          (λ d. d) (λ s p. (p.0, p.1)) (blank_turn-Turn c.pos) c c.rest
          (b.within, omega arith, refl) in
      push-Good (identifier _) false
        (Begins-move (Begins-move b blanks) (word-End unicode spec false (b'#' ∷ []) c1 blanks.0))

  pub punct-Good :
      (regexp : Bool) (start : ℕ) (lx : Lexer) (c : Cursor)
      → Begins text n start lx c
      → Good text n (punct regexp start lx c)
  unfolding punct
  punct-Good regexp start lx c b = push-Good punctuation regexp b
