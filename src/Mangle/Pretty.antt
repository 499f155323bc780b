-- ===== src/Mangle/Pretty.antt =====
-- `split_pretty`
use mozsearch.Prelude.{ℕ, ◌+◌, ◌-◌, List, [], ◌∷◌, ◌++◌, ◌==◌, if◌then◌else◌, codes}
use mozsearch.Tokenize.TagLike.State.{peek_ahead}

pub data SplitState : Type 0 where
  not_in_arg not_in_arg_saw_colon in_arg in_arg_saw_lt : SplitState

pub record Splitter : Type 0 where
  pub pieces : List (List ℕ)
  pub token : List ℕ
  pub state : SplitState
  pub arg_depth : ℕ

-- `str::split_inclusive`
unfoldable pub split_inclusive : ℕ → List ℕ → List ℕ → List (List ℕ)
split_inclusive sep [] [] = []
split_inclusive sep (p ∷ piece) [] = (p ∷ piece) ∷ []
split_inclusive sep piece (c ∷ cs) =
    let ended = (piece ++ (c ∷ [])) ∷ split_inclusive sep [] cs in
    let more = split_inclusive sep (piece ++ (c ∷ [])) cs in if c == sep then ended else more

abbrev pub push : ℕ → Splitter → Splitter
push c s = record s { token = s.token ++ (c ∷ []) }

abbrev pub to_state : SplitState → Splitter → Splitter
to_state st s = record s { state = st }

-- The match on a state and a character. `arg_depth` is at least 1 inside an argument.
unfoldable pub split_step : SplitState → ℕ → Splitter → Splitter
split_step not_in_arg c s =
    if c == b':'
    then to_state not_in_arg_saw_colon s
    else if c == b'<'
    then push c (record s { state = in_arg; arg_depth = 1 })
    else push c s
split_step not_in_arg_saw_colon c s =
    if c == b':'
    then record s { pieces = s.pieces ++ (s.token ∷ []); token = []; state = not_in_arg }
    else to_state not_in_arg (push c (push b')' s))
split_step in_arg c s =
    if c == b'<'
    then to_state in_arg_saw_lt (push c s)
    else if c == b'>'
    then (let depth = s.arg_depth - 1 in
        push c (record s { arg_depth = depth; state = if depth == 0 then not_in_arg else s.state }))
    else push c s
split_step in_arg_saw_lt c s =
    if c == b'<'
    then to_state in_arg (push c s)
    else to_state in_arg (push c (record s { arg_depth = s.arg_depth + 1 }))

unfoldable pub split_loop : Splitter → List ℕ → Splitter
split_loop s [] = s
split_loop s (c ∷ cs) = split_loop (split_step s.state c s) cs

-- `if !token.is_empty() { pieces.push(token); }`
abbrev pub last_piece : List ℕ → List (List ℕ)
last_piece [] = []
last_piece (c ∷ cs) = (c ∷ cs) ∷ []

abbrev pub initial : Splitter
initial = record { pieces = []; token = []; state = not_in_arg; arg_depth = 0 }

unfoldable pub split_chars : List ℕ → List (List ℕ)
unfolding split_loop split_step
split_chars pretty = let s = split_loop initial pretty in s.pieces ++ last_piece s.token

-- The pieces and their delimiter.
unfoldable pub split_pretty : List ℕ → List ℕ → List (List ℕ) × List ℕ
unfolding split_chars split_inclusive
split_pretty pretty sym =
    if peek_ahead (codes "FILE_") sym
    then (split_inclusive b'/' [] pretty, [])
    else (split_chars pretty, codes "::")
