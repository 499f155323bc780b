-- ===== src/Tokenize/Plain/Tiling.antt =====
-- The tokens of `tokenize_plain` tile the text.
use mozsearch.Prelude.{
  ℕ, ◌+◌, List, [], ◌∷◌, ◌++◌, ◌==◌, ◌≡◌, ◌≢◌, refl, ap, subst, sym, arith, Bool-cases, inl, inr,
  ==_iff, ==-true, ==-false, append-nil,
}
use mozsearch.Tokenize.{Token, byte_len}
use mozsearch.Tokenize.Scan.{
  Tiles, done, Tiles-newline, Tiles-shift, cut, NoNewline, byte_len-append,
}
use mozsearch.Tokenize.Plain.{push_front, split, line_token, line_loop, tokenize_plain}

-- A text is a first line with no line feed, and either its end or a line feed and more lines.
data Lines : List ℕ → List (List ℕ) → Type 0 where
  last : (line : List ℕ) → NoNewline line → Lines line (line ∷ [])
  more :
      {text rest : List ℕ} {ls : List (List ℕ)} (line : List ℕ)
      → NoNewline line
      → text ≡ line ++ (b'\n' ∷ rest)
      → Lines rest ls
      → Lines text (line ∷ ls)

Lines-push :
    {text : List ℕ} {ls : List (List ℕ)} (c : ℕ)
    → c ≢ b'\n'
    → Lines text ls
    → Lines (c ∷ text) (push_front c ls)
Lines-push c ne (last line h) = last (c ∷ line) (ne, h)
Lines-push c ne (more line h e l) = more (c ∷ line) (ne, h) (ap (λ r. c ∷ r) e) l

split-Lines : (text : List ℕ) → Lines text (split b'\n' text)
unfolding split
split-Lines [] = last [] tt
split-Lines (c ∷ cs) = elim (Bool-cases (c == b'\n')) [
  | inl e ↦ rw e (more [] tt (ap (λ (x : ℕ). x ∷ cs) ((==_iff c b'\n').0 e)) (split-Lines cs))
  | inr e ↦ rw e (Lines-push c (λ q. ground arith) (split-Lines cs))
]

line-Tiles :
    {ts : List Token} (line rest : List ℕ) (start : ℕ)
    → NoNewline line
    → Tiles (start + byte_len line) rest ts
    → Tiles start (line ++ rest) (line_token start line ++ ts)
line-Tiles [] rest start h t = Tiles-shift (omega arith) t
line-Tiles (c ∷ line) rest start h t = cut (c ∷ line) rest refl (cc) refl refl h t

line_loop-Tiles :
    {text : List ℕ} {ls : List (List ℕ)} (len start : ℕ)
    → Lines text ls
    → len ≡ start + byte_len text
    → Tiles start text (line_loop len start ls)
unfolding line_loop
line_loop-Tiles len start (last line h) e = rw (==-true (start + byte_len line) len (sym e)) (
    subst (λ text. Tiles start text (line_token start line ++ [])) (append-nil line)
      (line-Tiles line [] start h done))
line_loop-Tiles len start (more {rest} line h s l) e =
    let size = byte_len-append line (b'\n' ∷ rest) in
    let total = ap byte_len s in
    rw (s, ==-false (start + byte_len line) len (omega arith))
      (line-Tiles line (b'\n' ∷ rest) start h (
        Tiles-newline (start + byte_len line)
          (line_loop-Tiles len (start + byte_len line + 1) l (omega arith))))

-- For every text, the tokens of `tokenize_plain` cut it, from its first byte to its last, into
-- pieces that are not empty, with nothing between them; each line feed is a `newline` token of its
-- own, and no other token holds a line feed.
pub tokenize_plain-Tiles : (text : List ℕ) → Tiles 0 text (tokenize_plain text)
unfolding tokenize_plain
tokenize_plain-Tiles text = line_loop-Tiles (byte_len text) 0 (split-Lines text) (omega arith)
