-- ===== src/Tokenize/TagLike/State.antt =====
-- The state of the loop over the characters of a tagged text.
use mozsearch.Prelude.{ℕ, Bool, true, false, ◌||◌, List, [], ◌∷◌, ◌++◌, ltb, ◌==◌, if◌then◌else◌}
use mozsearch.Tokenize.{Token, TokenKind, token, newline, punctuation, Cursor, is_digit}
use mozsearch.Tokenize.CLike.State.{is_alphabetic}

pub data TagState : Type 0 where
  tag_none : ℕ → TagState
  tag_start : ℕ → TagState
  tag_id : ℕ → TagState
  tag_after_id : TagState
  attr_name : ℕ → TagState
  before_eq : TagState
  attr_eq : TagState
  attr_value : ℕ → ℕ → TagState
  attr_bare_value : ℕ → TagState
  end_tag_id : ℕ → TagState
  end_start_tag : ℕ → TagState
  end_tag_done : TagState
  cdata : ℕ → TagState
  tag_comment : ℕ → TagState
  tag_pi : ℕ → TagState
  doctype : Bool → TagState

pub record TagLexer : Type 0 where
  pub cursor : Cursor
  pub tokens : List Token
  pub state : TagState
  pub in_script : Bool
  pub in_style : Bool

-- A turn goes on, or meets an error: then the whole text is plain.
pub data TagOutcome : Type 0 where
  go_on : TagLexer → TagOutcome
  invalid : TagOutcome

abbrev pub tag_ident : (ℕ → Bool) → ℕ → Bool
tag_ident unicode c =
    c == b'.' || c == b'_' || c == b'-' || c == b':' || is_alphabetic unicode c || is_digit c

abbrev pub is_whitespace : ℕ → Bool
is_whitespace c = c == b' ' || c == b'\t' || c == b'\n' || c == b'\r'

abbrev pub punctuation_kind : ℕ → TokenKind
punctuation_kind c = if c == b'\n' then newline else punctuation

-- `peek_ahead`
abbrev pub peek_ahead : List ℕ → List ℕ → Bool
peek_ahead [] r = true
peek_ahead (c ∷ cs) [] = false
peek_ahead (c ∷ cs) (x ∷ r) = if x == c then peek_ahead cs r else false

-- `tokens.push(…)`, with a new state, and the push under `if start < end`.
abbrev pub push : ℕ → ℕ → TokenKind → List Token → List Token
push s e kind ts = ts ++ (token s e kind ∷ [])

abbrev pub push_some : ℕ → ℕ → TokenKind → List Token → List Token
push_some s e kind ts = if ltb s e then push s e kind ts else ts

abbrev pub enter : TagState → List Token → TagLexer → TagOutcome
enter st ts lx = go_on (record lx { state = st; tokens = ts })
