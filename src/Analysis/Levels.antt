-- ===== src/Analysis/Levels.antt =====
-- tools/src/file_format/analysis.rs: the symbols and the confidence that a merge leaves.
use mozsearch.Prelude.{
  ◌≡◌, refl, ap, Bool, true, false, none, some, List, [], ◌∷◌, ◌++◌, list_eq, if◌then◌else◌, arith,
  Bool-cases, inl, inr,
}
use mozsearch.Analysis.Source.{
  Text, ConfidenceLevel, cpp_template_heuristic, max, Map, get, modify_or_insert,
}

abbrev pub member : Text → List Text → Bool
member t [] = false
member t (s ∷ ss) = if list_eq s t then true else member t ss

-- The elements that were not seen before, in their order.
unfoldable pub first_ones : List Text → List Text → List Text
first_ones seen [] = []
first_ones seen (s ∷ ss) =
    let known = first_ones seen ss in
    let new = first_ones (seen ++ (s ∷ [])) ss in if member s seen then known else s ∷ new

-- The highest level that the pairs of both lists give a symbol.
unfoldable pub highest : Text → List Text → List ConfidenceLevel → ConfidenceLevel
highest t (s ∷ ss) (c ∷ cs) = let rest = highest t ss cs in if list_eq s t then max c rest else rest
highest t _ _ = cpp_template_heuristic

abbrev pub keys : Map ConfidenceLevel → List Text
keys [] = []
keys ((k, v) ∷ m) = k ∷ keys m

pub keys-append : (m n : Map ConfidenceLevel) → keys (m ++ n) ≡ keys m ++ keys n
keys-append [] n = refl
keys-append ((k, v) ∷ m) n = ap (λ r. k ∷ r) (keys-append m n)

pub member-keys_empty :
    (t : Text) (m : Map ConfidenceLevel) → get t m ≡ none → member t (keys m) ≡ false
unfolding get
member-keys_empty t [] h = refl
member-keys_empty t ((k, v) ∷ m) h = ground (arith, member-keys_empty t m)

pub member-keys_full :
    (t : Text) (m : Map ConfidenceLevel) (d : ConfidenceLevel)
    → get t m ≡ some d
    → member t (keys m) ≡ true
unfolding get
member-keys_full t [] d h = ground arith
member-keys_full t ((k, v) ∷ m) d h = ground (arith, member-keys_full t m d)

pub keys-modify :
    (t : Text) (f : ConfidenceLevel → ConfidenceLevel) (v : ConfidenceLevel)
    (m : Map ConfidenceLevel) (d : ConfidenceLevel)
    → get t m ≡ some d
    → keys (modify_or_insert t f v m) ≡ keys m
unfolding get modify_or_insert
keys-modify t f v [] d h = ground arith
keys-modify t f v ((k, w) ∷ m) d h = elim (Bool-cases (list_eq k t)) [
  | inl e ↦ rw e refl
  | inr e ↦ rw e (ap (λ r. k ∷ r) (keys-modify t f v m d (ground arith)))
]
