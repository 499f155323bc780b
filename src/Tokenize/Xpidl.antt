-- ===== src/Tokenize/Xpidl.antt =====
-- tools/src/tokenize.rs, tokenize_xpidl: interface definitions with blocks of C++ in them. The part
-- of the text from `idl_start` on is carried along with that position.
pub mod Order
use mozsearch.Prelude.{
  ℕ, zero, suc, ◌+◌, ◌-◌, Bool, Option, none, some, List, [], ◌∷◌, ◌++◌, if◌then◌else◌, ◌==◌, codes,
  length,
}
use mozsearch.Prelude.Text.{◌>>=◌}
use mozsearch.Tokenize.{Token, token, comment, newline, byte_len}
use mozsearch.Tokenize.Embed.{move_tokens}
use mozsearch.Tokenize.CLike.State.{LanguageSpec}
use mozsearch.Tokenize.CLike.Step.{tokenize_c_like}

-- The text behind a prefix.
abbrev pub strip_prefix : List ℕ → List ℕ → Option (List ℕ)
strip_prefix [] cs = some cs
strip_prefix (p ∷ ps) [] = none
strip_prefix (p ∷ ps) (c ∷ cs) = if c == p then strip_prefix ps cs else none

abbrev pub push_piece : ℕ → Option (List ℕ × List ℕ) → Option (List ℕ × List ℕ)
push_piece c none = none
push_piece c (some (a, b)) = some (c ∷ a, b)

-- `find` of a pattern that is not empty: what stands in front of its first occurrence, and behind
-- it.
abbrev pub here_or : Option (List ℕ) → Option (List ℕ × List ℕ) → Option (List ℕ × List ℕ)
here_or (some behind) later = some ([], behind)
here_or none later = later

unfoldable pub find : List ℕ → List ℕ → Option (List ℕ × List ℕ)
find pattern [] = none
find pattern (c ∷ cs) = here_or (strip_prefix pattern (c ∷ cs)) (push_piece c (find pattern cs))

-- The marker of `n` bytes behind `at`, as a comment and a newline.
abbrev pub marker : ℕ → ℕ → List Token
marker at n = token at (at + n - 1) comment ∷ token (at + n - 1) (at + n) newline ∷ []

-- How a round ends: the loop stops, or goes on behind a block.
pub data Round : Type 0 where
  stop : List Token → Round
  again : ℕ → List ℕ → List Token → Round

-- One part, tokenized and moved to where it stands.
unfoldable pub part_tokens : (ℕ → Bool) → LanguageSpec → ℕ → List ℕ → Option (List Token)
unfolding tokenize_c_like
part_tokens unicode s start part =
    tokenize_c_like unicode s part >>= λ ts. some (move_tokens start ts)

module _ (unicode : ℕ → Bool) (spec cdata_spec : LanguageSpec) where
  -- The second half of a round: `rest` is the text from `cdata_start` on.
  unfoldable pub cdata_half : ℕ → List ℕ → List Token → Option Round
  unfolding part_tokens find
  cdata_half cdata_start rest result = elim (find (codes "%}\n") rest) [
    | none ↦ part_tokens unicode cdata_spec cdata_start rest >>= λ ts. some (stop (result ++ ts))
    | some e ↦ part_tokens unicode cdata_spec cdata_start e.0 >>= λ ts.
        let cdata_end = cdata_start + byte_len e.0 in
        if byte_len e.1 == 0
        then some (stop (result ++ ts))
        else some (again (cdata_end + 3) e.1 ((result ++ ts) ++ marker cdata_end 3))
  ]

  -- A round from `idl_start`, with the text from there on and the result so far.
  unfoldable pub xpidl_round : ℕ → List ℕ → List Token → Option Round
  unfolding part_tokens find cdata_half
  xpidl_round idl_start rest result = elim (find (codes "%{C++\n") rest) [
    | none ↦ part_tokens unicode spec idl_start rest >>= λ ts. some (stop (result ++ ts))
    | some e ↦ part_tokens unicode spec idl_start e.0 >>= λ ts.
        let idl_end = idl_start + byte_len e.0 in
        if byte_len e.1 == 0
        then some (stop (result ++ ts))
        else cdata_half (idl_end + 6) e.1 ((result ++ ts) ++ marker idl_end 6)
  ]

  -- The loop, on fuel: a round that goes on has read both markers.
  unfoldable pub xpidl_loop : ℕ → ℕ → List ℕ → List Token → Option (List Token)
  xpidl_loop zero idl_start rest result = none
  xpidl_loop (suc fuel) idl_start rest result = xpidl_round idl_start rest result >>= λ round.
      elim round [ stop ts ↦ some ts | again s r ts ↦ xpidl_loop fuel s r ts ]

  unfoldable pub tokenize_xpidl : List ℕ → Option (List Token)
  unfolding xpidl_loop xpidl_round
  tokenize_xpidl string = xpidl_loop (suc (length string)) 0 string []
