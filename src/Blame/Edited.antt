-- ===== src/Blame/Edited.antt =====
-- The blame of a file that was edited: unmodified_lines and blame_for_path together.
use mozsearch.Prelude.{ℕ, suc, ◌+◌, ◌<◌, ◌≤◌, List, [], ◌∷◌}
use mozsearch.Blame.Unmodified.Edits.{Hunk, old_size}

-- The new lines ascend from `n` on and are below `m`, the old ones are below `k`.
Between : ℕ → ℕ → ℕ → List (ℕ × ℕ) → Type 0
Between n m k [] = Unit {0}
Between n m k (q ∷ qs) = (n ≤ q.0) × (q.0 < m) × (q.1 < k) × Between (suc q.0) m k qs

abbrev pub old_total : ℕ → List Hunk → ℕ
old_total old [] = old
old_total old (h ∷ hs) = old_total (old + h.skipped + old_size h.edits) hs
