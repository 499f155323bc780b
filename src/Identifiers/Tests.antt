-- ===== src/Identifiers/Tests.antt =====
-- Runs of identifiers.rs at concrete inputs.
use mozsearch.Prelude.{
  ℕ, ◌+◌, ◌≤◌, ◌≡◌, refl, true, false, some, List, [], ◌∷◌, ◌++◌, length, codes, All, arith,
}
use mozsearch.Identifiers.{bisect}
use mozsearch.Identifiers.Lines.{IsLine, join}
use mozsearch.Identifiers.Search.{bisect-partition}
use mozsearch.Identifiers.Lookup.{IdentResult, collect, lookup}
use mozsearch.Identifiers.Results.{lookup-collect}
use mozsearch.Identifiers.Wanted.{IsWanted, collect-IsWanted}

abbrev front_lines : List (List ℕ)
front_lines = codes "Abc s" ∷ []

abbrev foo_lines : List (List ℕ)
foo_lines = codes "foo F" ∷ codes "Foo.bar G" ∷ []

abbrev back_lines : List (List ℕ)
back_lines = codes "gh h" ∷ []

file_lines : All IsLine (front_lines ++ (foo_lines ++ back_lines))
file_lines = (
  (λ e. cc, (refl, (refl, (refl, (refl, (refl, tt)))))),
  (
    (λ e. cc, (refl, (refl, (refl, (refl, (refl, tt)))))),
    (
      (λ e. cc, (refl, (refl, (refl, (refl, (refl, (refl, (refl, (refl, (refl, tt)))))))))),
      ((λ e. cc, (refl, (refl, (refl, (refl, tt))))), tt),
    ),
  ),
)

bisect-partition_example :
    bisect (join (front_lines ++ (foo_lines ++ back_lines))) (codes "foo") false
    ≡ some (length (join front_lines))
bisect-partition_example =
    bisect-partition front_lines (foo_lines ++ back_lines) (codes "foo") false file_lines (refl, tt)
      (refl, (refl, (refl, tt)))

lookup-collect_example :
    lookup (join (front_lines ++ (foo_lines ++ back_lines))) (codes "foo") false true 5
    ≡ collect (codes "foo") false true 5 0 foo_lines
lookup-collect_example =
    lookup-collect front_lines foo_lines back_lines (codes "foo") false true 5 file_lines
      (
        (λ e. cc, (refl, (refl, (refl, (refl, (refl, tt)))))),
        ((λ e. cc, (refl, (refl, (refl, (refl, (refl, (refl, (refl, (refl, (refl, tt)))))))))), tt),
      )
      (refl, (refl, tt)) (refl, tt) (refl, (refl, (refl, tt))) (refl, (refl, (refl, tt))) (refl, tt)

collect-IsWanted_example :
    (rs : List IdentResult) × (collect (codes "foo") false true 5 0 foo_lines ≡ some rs)
    × All (IsWanted (codes "foo") false true) rs
    × (0 + length rs ≤ 5)
collect-IsWanted_example =
    collect-IsWanted (codes "foo") false true 5 0 foo_lines
      (
        (refl, (refl, (refl, (refl, (refl, tt))))),
        ((refl, (refl, (refl, (refl, (refl, (refl, (refl, (refl, (refl, tt))))))))), tt),
      )
      (ground arith)
