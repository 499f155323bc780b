-- ===== src/Mangle/Tests.antt =====
-- The source's own tests of the manglings, and the witnesses.
use mozsearch.Prelude.{ℕ, List, [], ◌∷◌, ◌++◌, ◌≡◌, refl, codes, arith}
use mozsearch.Mangle.Files.{first_byte, make_file_sym_from_path, mangle_file}
use mozsearch.Mangle.Decode.{
  demangle, demangle-mangle_file, make_file_sym_from_path-injective,
  make_file_sym_from_path_confuses,
}
use mozsearch.Mangle.Pretty.{split_pretty}

mangled :
    make_file_sym_from_path (codes "subdir/header@with,many^strange~chars.h")
    ≡ codes "FILE_subdir/header@40with@2Cmany@5Estrange@7Echars@2Eh"
unfolding make_file_sym_from_path
mangled = refl

demangle-mangle_file_example : demangle (mangle_file (codes "a.h")) ≡ codes "a.h"
demangle-mangle_file_example = demangle-mangle_file (codes "a.h") (omega arith)

make_file_sym_from_path-injective_example : codes "b.h" ≡ codes "b.h"
make_file_sym_from_path-injective_example =
    make_file_sym_from_path-injective (codes "b.h") (codes "b.h") (omega arith) (omega arith) refl

-- U+00E9 and U+00E8.
make_file_sym_from_path_confuses_example :
    make_file_sym_from_path (codes "caf" ++ (0xE9 ∷ []))
    ≡ make_file_sym_from_path (codes "caf" ++ (0xE8 ∷ []))
unfolding first_byte
make_file_sym_from_path_confuses_example =
    make_file_sym_from_path_confuses (codes "caf") [] 0xE9 0xE8 (omega arith) (omega arith) refl

abbrev type_sym : List ℕ
type_sym = codes "T_blah"

split_runs :
    (split_pretty (codes "foo/bar/Baz.h") (codes "FILE_foo_bar_Baz.h")
      ≡ (codes "foo/" ∷ codes "bar/" ∷ codes "Baz.h" ∷ [], []))
    × (split_pretty (codes "nsCOMPtr::operator->") type_sym
        ≡ (codes "nsCOMPtr" ∷ codes "operator->" ∷ [], codes "::"))
    × (split_pretty (codes "Array<std::pair<uint8_t>, 1 << x>::DoStuff") type_sym
        ≡ (codes "Array<std::pair<uint8_t>, 1 << x>" ∷ codes "DoStuff" ∷ [], codes "::"))
unfolding split_pretty
split_runs = (refl, refl, refl)

-- An empty list of arguments inside another one counts as open.
split_empty_args :
    split_pretty (codes "set<less<>>::insert") type_sym
    ≡ (codes "set<less<>>::insert" ∷ [], codes "::")
unfolding split_pretty
split_empty_args = refl
