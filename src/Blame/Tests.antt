-- ===== src/Blame/Tests.antt =====
-- Runs of blame.rs and build-blame.rs at concrete inputs.
use mozsearch.Prelude.{ℕ, ◌≡◌, inr, arith, refl, false, some, List, [], ◌∷◌, codes}
use mozsearch.Blame.{
  LineData, serialize, deserialize, splitn, split_once, is_path_unchanged, sanitize, escape,
  replace, count_lines,
}
use mozsearch.Blame.RoundTrips.{deserialize-serialize, unquote, unquote-sanitize}
use mozsearch.Blame.Unmodified.{unmodified_lines}
use mozsearch.Prelude.Text.{decimal, digits}
use mozsearch.Blame.Transfer.{Parent, own_lines, from_parent, transfer, blame_for_path}
use mozsearch.Blame.Transferred.{IsLine, IsTransferable, IsTransferred, transfer-IsTransferred}
use mozsearch.Blame.Unmodified.Edits.{kept, added, removed, Hunk, hunks_of}
use mozsearch.Blame.Unmodified.Hunks.{unmodified_lines-all_kept}

abbrev a_line : LineData
a_line = record { rev = codes "ab"; path = codes "%"; lineno = codes "7" }

deserialize-serialize_example : deserialize (serialize a_line) ≡ some a_line
deserialize-serialize_example =
    deserialize-serialize a_line (refl, (refl, tt)) (refl, tt) (refl, tt)

unquote-sanitize_example : unquote (sanitize (codes "\"a\\b")) ≡ some (codes "\"a\\b")
unquote-sanitize_example = unquote-sanitize (codes "\"a\\b")

-- The quoted form of a path with a line feed, which git rejects.
line_feed : sanitize (codes "a\nb") ≡ codes "\"a\\\nb\""
unfolding sanitize escape replace
line_feed = refl

-- A colon in the path moves its end to the line number.
colon_in_path :
    deserialize (serialize (record { rev = codes "ab"; path = codes "p:q"; lineno = codes "7" }))
    ≡ some (record { rev = codes "ab"; path = codes "p"; lineno = codes "q" })
unfolding deserialize serialize
colon_in_path = refl

count_two : count_lines (codes "a\nb") ≡ 2
unfolding count_lines
count_two = refl

abbrev one_hunk : List Hunk
one_hunk = record { skipped = 1; edits = kept ∷ removed ∷ added ∷ added ∷ kept ∷ [] } ∷ []

unmodified_lines-all_kept_example :
    unmodified_lines
      (codes "a\nb\nc\nd\ne\nf\n")
      (record { is_binary = false; hunks = hunks_of 0 0 one_hunk })
    ≡ some ((0, 0) ∷ (1, 1) ∷ (4, 3) ∷ (5, 4) ∷ [])
unfolding count_lines
unmodified_lines-all_kept_example =
    unmodified_lines-all_kept one_hunk 1 (codes "a\nb\nc\nd\ne\nf\n") (inr tt, tt) refl

abbrev parent : Parent
parent = record {
  parent_path = codes "old";
  blame = codes "p:%:1:" ∷ codes "q:x:5:" ∷ [];
  unmodified = (0, 0) ∷ (2, 1) ∷ [];
}

abbrev own_blame : List (List ℕ)
own_blame = own_lines (codes "c") 1 3

first-IsLine : IsLine (codes "p:%:1:")
first-IsLine = record {
  rev = codes "p";
  name = codes "%";
  lineno = codes "1";
  line_eq = refl;
  plain_rev = (refl, tt);
  plain_name = (refl, tt);
  plain_lineno = (refl, tt);
}

second-IsLine : IsLine (codes "q:x:5:")
second-IsLine = record {
  rev = codes "q";
  name = codes "x";
  lineno = codes "5";
  line_eq = refl;
  plain_rev = (refl, tt);
  plain_name = (refl, tt);
  plain_lineno = (refl, tt);
}

first-IsTransferable : IsTransferable (codes "new") parent 3 (0, 0)
first-IsTransferable = record {
  inside = omega arith;
  parent_line = codes "p:%:1:";
  has_line = refl;
  readable = inr first-IsLine;
}

second-IsTransferable : IsTransferable (codes "new") parent 3 (2, 1)
second-IsTransferable = record {
  inside = omega arith;
  parent_line = codes "q:x:5:";
  has_line = refl;
  readable = inr second-IsLine;
}

transfer-IsTransferred_example :
    (after : List (List ℕ)) × (transfer (codes "new") parent parent.unmodified own_blame
      ≡ some after)
    × IsTransferred (codes "new") parent parent.unmodified own_blame after
transfer-IsTransferred_example =
    transfer-IsTransferred (codes "new") parent parent.unmodified own_blame
      (first-IsTransferable, (second-IsTransferable, tt)) ((omega arith, tt), (tt, tt))

one_parent :
    blame_for_path (codes "c") (codes "new") 3 (parent ∷ [])
    ≡ some (codes "p:old:1:\nc:%:2:\nq:x:5:\n")
unfolding blame_for_path from_parent deserialize splitn split_once is_path_unchanged serialize
    decimal digits
one_parent = refl

abbrev edited_parent : Parent
edited_parent = record {
  parent_path = codes "f";
  blame = codes "p:%:1:" ∷ codes "p:%:2:" ∷ codes "p:%:3:" ∷ codes "p:%:4:" ∷ codes "p:%:5:" ∷ [];
  unmodified = [];
}
