-- ===== src/Identifiers/Results.antt =====
-- tools/src/file_format/identifiers.rs, lookup: which lines of the file it looks at.
use mozsearch.Prelude.{
  ℕ, ◌-◌, ◌≡◌, refl, ap, sym, subst, ◌∙◌, Bool, true, false, some, List, [], ◌∷◌, ◌++◌, leb, ◌==◌,
  length, length-append, arith, All, append_assoc, append-nil, take-append, drop-append, drop,
}
use mozsearch.Identifiers.{bound_of, goes_right, bisect, slice}
use mozsearch.Identifiers.Lines.{IsLine, join}
use mozsearch.Identifiers.Search.{bisect-partition, join-append}
use mozsearch.Identifiers.Lookup.{strip_return, lines, collect, lookup}

lines-line :
    (acc l ys : List ℕ)
    → All (λ c. (c == b'\n') ≡ false) l
    → lines acc (l ++ (b'\n' ∷ ys)) ≡ strip_return (acc ++ l) ∷ lines [] ys
unfolding lines
lines-line acc [] ys h = ap (λ x. strip_return x ∷ lines [] ys) (sym (append-nil acc))
lines-line acc (c ∷ l) ys (h, hs) = rw h (
    lines-line (acc ++ (c ∷ [])) l ys hs
    ∙ ap (λ x. strip_return x ∷ lines [] ys) (append_assoc acc (c ∷ []) l))

-- The lines of a file of lines that do not end in a carriage return.
lines-join :
    (ls : List (List ℕ))
    → All IsLine ls
    → All (λ l. strip_return l ≡ l) ls
    → lines [] (join ls) ≡ ls
lines-join [] h k = unfold lines in refl
lines-join (l ∷ ls) (h, hs) (k, ks) =
    lines-line [] l (join ls) h.1 ∙ rw (k, lines-join ls hs ks) refl

slice-join :
    (fs ms bs : List (List ℕ))
    → slice (join (fs ++ (ms ++ bs))) (length (join fs)) (length (join (fs ++ ms))) ≡ join ms
unfolding slice
slice-join fs ms bs =
    let gap : length (join (fs ++ ms)) - length (join fs) ≡ length (join ms) =
      ap (λ x. length x - length (join fs)) (join-append fs ms)
      ∙ omega (arith, length-append (join fs) (join ms)) in
    let behind : drop (length (join fs)) (join fs ++ join (ms ++ bs)) ≡ join (ms ++ bs) =
      drop-append (join fs) (join (ms ++ bs)) (length (join fs)) 0 (omega arith) in
    rw (join-append fs (ms ++ bs), gap, behind, join-append ms bs) (take-append (join ms) (join bs))

-- In a file of lines that are not empty, where first come lines before the needle, then lines from
-- the needle up to its upper bound, none of which ends in a carriage return, then lines behind this
-- bound, `lookup` collects its results from the lines in the middle and no others.
pub lookup-collect :
    (fs ms bs : List (List ℕ)) (needle : List ℕ) (exact_match ignore_case : Bool) (max_results : ℕ)
    → All IsLine (fs ++ (ms ++ bs))
    → All IsLine ms
    → All (λ l. strip_return l ≡ l) ms
    → All (λ l. goes_right (bound_of needle false) false l ≡ true) fs
    → All (λ l. goes_right (bound_of needle false) false l ≡ false) (ms ++ bs)
    → All (λ l. goes_right (bound_of needle true) true l ≡ true) (fs ++ ms)
    → All (λ l. goes_right (bound_of needle true) true l ≡ false) bs
    → lookup (join (fs ++ (ms ++ bs))) needle exact_match ignore_case max_results
      ≡ collect needle exact_match ignore_case max_results 0 ms
unfolding lookup
lookup-collect fs ms bs needle x i n h hm r a1 a2 b1 b2 =
    let low = bisect-partition fs (ms ++ bs) needle false h a1 a2 in
    let same : (fs ++ ms) ++ bs ≡ fs ++ (ms ++ bs) = append_assoc fs ms bs in
    let high : bisect (join (fs ++ (ms ++ bs))) needle true ≡ some (length (join (fs ++ ms))) =
      subst (λ ls. bisect (join ls) needle true ≡ some (length (join (fs ++ ms)))) same
        (bisect-partition (fs ++ ms) bs needle true (subst (λ ls. All IsLine ls) (sym same) h) b1
          b2) in
    let ordered : leb (length (join fs)) (length (join (fs ++ ms))) ≡ true =
      ap (λ x. leb (length (join fs)) (length x)) (join-append fs ms)
      ∙ ground (arith, length-append (join fs) (join ms)) in
    rw (low, high, ordered, slice-join fs ms bs, lines-join ms hm r) refl
