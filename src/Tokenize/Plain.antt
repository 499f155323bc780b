-- ===== src/Tokenize/Plain.antt =====
-- `tokenize_plain`
pub mod Tiling
use mozsearch.Prelude.{ℕ, ◌+◌, List, [], ◌∷◌, ◌++◌, ◌==◌, if◌then◌else◌}
use mozsearch.Tokenize.{Token, token, plain_text, newline, byte_len}

-- `str::split` at one character: always at least one piece.
abbrev pub push_front : ℕ → List (List ℕ) → List (List ℕ)
push_front c [] = (c ∷ []) ∷ []
push_front c (p ∷ ps) = (c ∷ p) ∷ ps

unfoldable pub split : ℕ → List ℕ → List (List ℕ)
split sep [] = [] ∷ []
split sep (c ∷ cs) = if c == sep then [] ∷ split sep cs else push_front c (split sep cs)

-- `if !line.is_empty() { tokens.push(…) }`
abbrev pub line_token : ℕ → List ℕ → List Token
line_token start [] = []
line_token start line = token start (start + byte_len line) plain_text ∷ []

-- The `for` loop over the lines; `len` is `string.len()`.
unfoldable pub line_loop : ℕ → ℕ → List (List ℕ) → List Token
line_loop len start [] = []
line_loop len start (line ∷ lines) =
    let end = start + byte_len line in
    let rest = token end (end + 1) newline ∷ line_loop len (end + 1) lines in
    line_token start line ++ (if end == len then [] else rest)

unfoldable pub tokenize_plain : List ℕ → List Token
unfolding split line_loop
tokenize_plain text = line_loop (byte_len text) 0 (split b'\n' text)
