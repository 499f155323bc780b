-- ===== src/Mangle/Segments.antt =====
-- `split_pretty` takes apart what was joined by `::`.
use mozsearch.Prelude.{ℕ, List, [], ◌∷◌, ◌++◌, ◌≡◌, ◌≢◌, refl}
use mozsearch.Mangle.Pretty.{SplitState, Splitter, split_step, split_loop, last_piece}

-- Text inside template arguments: a shift, or a nested list of arguments that does not begin with
-- an angle bracket.
pub data Args : List ℕ → Type 0 where
  nil : Args []
  char : {c : ℕ} {args : List ℕ} → c ≢ b'<' → c ≢ b'>' → Args args → Args (c ∷ args)
  shift : {args : List ℕ} → Args args → Args (b'<' ∷ b'<' ∷ args)
  nested :
      {c : ℕ} {args rest : List ℕ}
      → c ≢ b'<'
      → c ≢ b'>'
      → Args args
      → Args rest
      → Args (b'<' ∷ c ∷ (args ++ (b'>' ∷ rest)))

-- A segment: no colon and no `<` but for lists of template arguments.
pub data Segment : List ℕ → Type 0 where
  nil : Segment []
  char : {c : ℕ} {seg : List ℕ} → c ≢ b':' → c ≢ b'<' → Segment seg → Segment (c ∷ seg)
  template : {args seg : List ℕ} → Args args → Segment seg → Segment (b'<' ∷ (args ++ (b'>' ∷ seg)))

abbrev pub join : List (List ℕ) → List ℕ
join [] = []
join (s ∷ []) = s
join (s ∷ t ∷ ss) = s ++ (b':' ∷ b':' ∷ join (t ∷ ss))

abbrev at : List (List ℕ) → List ℕ → SplitState → ℕ → Splitter
at pieces token state depth = record {
  pieces = pieces;
  token = token;
  state = state;
  arg_depth = depth;
}

split_loop-append :
    (s : Splitter) (cs ds : List ℕ) → split_loop s (cs ++ ds) ≡ split_loop (split_loop s cs) ds
unfolding split_loop
split_loop-append s [] ds = refl
split_loop-append s (c ∷ cs) ds = split_loop-append (split_step s.state c s) cs ds

abbrev pub EndsWithText : List (List ℕ) → Type 0
EndsWithText [] = Unit
EndsWithText (s ∷ []) = s ≢ []
EndsWithText (s ∷ t ∷ ss) = EndsWithText (t ∷ ss)

-- The pieces, for a machine that has read some before.
abbrev pieces_of : Splitter → List (List ℕ)
pieces_of s = s.pieces ++ last_piece s.token
