-- ===== src/Blame/Transfer.antt =====
-- tools/src/bin/build-blame.rs, blame_for_path: the blame of a file, each line this commit's or
-- that of the line of a parent that it is. What libgit2 and the blame repository give of a parent
-- (its path of the file, its blame, the lines unmodified) is a record, and a parent without these
-- is not among them; `none` is a panic.
use mozsearch.Prelude.{
  ℕ, zero, suc, Option, none, some, List, [], ◌∷◌, ◌++◌, list_eq, if◌then◌else◌, get_elem?, codes,
}
use mozsearch.Prelude.Text.{◌>>=◌, decimal}
use mozsearch.Blame.{LineData, serialize, deserialize, is_path_unchanged}

pub record Parent : Type 0 where
  pub parent_path : List ℕ
  pub blame : List (List ℕ)
  pub unmodified : List (ℕ × ℕ)

-- The lines of this commit, from a line number on.
abbrev pub own_lines : List ℕ → ℕ → ℕ → List (List ℕ)
own_lines rev line zero = []
own_lines rev line (suc n) =
    serialize (record { rev = rev; path = codes "%"; lineno = decimal line })
    ∷ own_lines rev (suc line) n

-- `blame[lineno] = line`
abbrev pub set_line : ℕ → List ℕ → List (List ℕ) → Option (List (List ℕ))
set_line n line [] = none
set_line zero line (b ∷ bs) = some (line ∷ bs)
set_line (suc n) line (b ∷ bs) = set_line n line bs >>= λ rest. some (b ∷ rest)

abbrev pub moved_line : List ℕ → LineData → List ℕ
moved_line parent_path d =
    serialize (if is_path_unchanged d then record d { path = parent_path } else d)

-- A line of the parent's blame, with the path that the file had there if it has another one now.
unfoldable pub from_parent : List ℕ → Parent → List ℕ → Option (List ℕ)
from_parent path p line =
    if list_eq path p.parent_path
    then some line
    else deserialize line >>= λ d. some (moved_line p.parent_path d)

abbrev pub transfer : List ℕ → Parent → List (ℕ × ℕ) → List (List ℕ) → Option (List (List ℕ))
transfer path p [] blame = some blame
transfer path p ((lineno, parent_lineno) ∷ pairs) blame =
    get_elem? p.blame parent_lineno >>= λ parent_line. from_parent path p parent_line >>= λ line.
    set_line lineno line blame >>= λ blame1. transfer path p pairs blame1

-- The parents in the order in which they are taken, the last one first.
abbrev pub transfer_all : List ℕ → List Parent → List (List ℕ) → Option (List (List ℕ))
transfer_all path [] blame = some blame
transfer_all path (p ∷ ps) blame =
    transfer path p p.unmodified blame >>= λ blame1. transfer_all path ps blame1

-- `join("\n")`, with the empty entry at the end.
abbrev pub join_lines : List (List ℕ) → List ℕ
join_lines [] = []
join_lines (b ∷ bs) = b ++ (b'\n' ∷ join_lines bs)

unfoldable pub blame_for_path : List ℕ → List ℕ → ℕ → List Parent → Option (List ℕ)
blame_for_path rev path linecount parents =
    transfer_all path parents (own_lines rev 1 linecount) >>= λ blame. some (join_lines blame)
