-- ===== src/Crossref/Order.antt =====
-- The order of byte strings that the file is sorted by.
use mozsearch.Prelude.{ℕ, ◌≡◌, refl, true, false, List, [], ◌∷◌, ltb, list_eq, arith}
use mozsearch.Identifiers.{bytes_ltb}

ltb-irreflexive : (a : ℕ) → ltb a a ≡ false
ltb-irreflexive a = ground arith

pub bytes_ltb-irreflexive : (s : List ℕ) → bytes_ltb s s ≡ false
bytes_ltb-irreflexive [] = refl
bytes_ltb-irreflexive (a ∷ s) = rw (ltb-irreflexive a, bytes_ltb-irreflexive s) refl

pub bytes_ltb-total :
    (s t : List ℕ) → list_eq s t ≡ false → bytes_ltb s t ≡ false → bytes_ltb t s ≡ true
bytes_ltb-total [] [] e h = ground arith
bytes_ltb-total [] (b ∷ t) e h = ground arith
bytes_ltb-total (a ∷ s) [] e h = refl
bytes_ltb-total (a ∷ s) (b ∷ t) e h = ground (arith, bytes_ltb-total s t)

pub bytes_ltb-transitive :
    (s t u : List ℕ) → bytes_ltb s t ≡ true → bytes_ltb t u ≡ true → bytes_ltb s u ≡ true
bytes_ltb-transitive s t [] h k = ground arith
bytes_ltb-transitive [] [] (c ∷ u) h k = refl
bytes_ltb-transitive (a ∷ s) [] (c ∷ u) h k = ground arith
bytes_ltb-transitive [] (b ∷ t) (c ∷ u) h k = refl
bytes_ltb-transitive (a ∷ s) (b ∷ t) (c ∷ u) h k = ground (arith, bytes_ltb-transitive s t u)
