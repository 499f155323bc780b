-- ===== src/Blame/Unmodified/Edits.antt =====
-- How one file is edited into another, hunk by hunk, and the patch that says so.
use mozsearch.Prelude.{ℕ, zero, suc, ◌+◌, ◌≡◌, ◌⊎◌, none, some, List, [], ◌∷◌, ◌++◌}
use mozsearch.Blame.Unmodified.{addition, deletion, context, other, PatchLine}

-- `no_line` is a mark in the patch, such as that for a missing newline at the end.
pub data Edit : Type 0 where
  kept : Edit
  added : Edit
  removed : Edit
  no_line : Edit

-- Lines that are the same and not in the patch, and then the lines of a hunk.
pub record Hunk : Type 0 where
  pub skipped : ℕ
  pub edits : List Edit

-- The lines of a hunk behind so many lines of the old and the new file.
abbrev pub lines_of : ℕ → ℕ → List Edit → List PatchLine
lines_of old new [] = []
lines_of old new (kept ∷ es) =
    record { origin = context; old_lineno = some (suc old); new_lineno = some (suc new) }
    ∷ lines_of (suc old) (suc new) es
lines_of old new (added ∷ es) =
    record { origin = addition; old_lineno = none; new_lineno = some (suc new) }
    ∷ lines_of old (suc new) es
lines_of old new (removed ∷ es) =
    record { origin = deletion; old_lineno = some (suc old); new_lineno = none }
    ∷ lines_of (suc old) new es
lines_of old new (no_line ∷ es) =
    record { origin = other; old_lineno = none; new_lineno = none } ∷ lines_of old new es

abbrev pub old_size : List Edit → ℕ
old_size [] = 0
old_size (kept ∷ es) = suc (old_size es)
old_size (added ∷ es) = old_size es
old_size (removed ∷ es) = suc (old_size es)
old_size (no_line ∷ es) = old_size es

abbrev pub new_size : List Edit → ℕ
new_size [] = 0
new_size (kept ∷ es) = suc (new_size es)
new_size (added ∷ es) = suc (new_size es)
new_size (removed ∷ es) = new_size es
new_size (no_line ∷ es) = new_size es

abbrev pub hunks_of : ℕ → ℕ → List Hunk → List (List PatchLine)
hunks_of old new [] = []
hunks_of old new (h ∷ hs) =
    lines_of (old + h.skipped) (new + h.skipped) h.edits
    ∷ hunks_of (old + h.skipped + old_size h.edits) (new + h.skipped + new_size h.edits) hs

abbrev pub new_total : ℕ → List Hunk → ℕ
new_total new [] = new
new_total new (h ∷ hs) = new_total (new + h.skipped + new_size h.edits) hs

-- The pairs of so many lines that are the same, from a new and an old one on.
abbrev pub same_lines : ℕ → ℕ → ℕ → List (ℕ × ℕ)
same_lines old new zero = []
same_lines old new (suc n) = (new, old) ∷ same_lines (suc old) (suc new) n

abbrev pub kept_lines : ℕ → ℕ → List Edit → List (ℕ × ℕ)
kept_lines old new [] = []
kept_lines old new (kept ∷ es) = (new, old) ∷ kept_lines (suc old) (suc new) es
kept_lines old new (added ∷ es) = kept_lines old (suc new) es
kept_lines old new (removed ∷ es) = kept_lines (suc old) new es
kept_lines old new (no_line ∷ es) = kept_lines old new es

-- All lines of the new file that are lines of the old one, with these, `rest` behind the hunks.
abbrev pub all_kept : ℕ → ℕ → List Hunk → ℕ → List (ℕ × ℕ)
all_kept old new [] rest = same_lines old new rest
all_kept old new (h ∷ hs) rest =
    same_lines old new h.skipped
    ++ (kept_lines (old + h.skipped) (new + h.skipped) h.edits
        ++ all_kept (old + h.skipped + old_size h.edits) (new + h.skipped + new_size h.edits) hs
            rest)

-- A hunk behind lines that are skipped begins with a line of the new file, as a hunk does that has
-- context.
abbrev pub StartsNew : List Edit → Type 0
StartsNew [] = ⊥
StartsNew (kept ∷ es) = Unit {0}
StartsNew (added ∷ es) = Unit {0}
StartsNew (removed ∷ es) = ⊥
StartsNew (no_line ∷ es) = ⊥

abbrev pub HasContext : Hunk → Type 0
HasContext h = (h.skipped ≡ 0) ⊎ StartsNew h.edits
