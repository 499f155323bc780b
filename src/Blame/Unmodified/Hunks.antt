-- ===== src/Blame/Unmodified/Hunks.antt =====
-- unmodified_lines on all hunks of the patch of an edit.
use mozsearch.Prelude.{
  ℕ, suc, ◌+◌, ◌-◌, ◌≡◌, ◌⊎◌, inl, inr, refl, sym, ap, ◌∙◌, false, Option, some, List, [], ◌∷◌,
  ◌++◌, append_assoc, All, arith,
}
use mozsearch.Prelude.Text.{◌>>=◌}
use mozsearch.Blame.{count_lines}
use mozsearch.Blame.Unmodified.{Walk, shifted, walk_lines, walk_hunks, unmodified_lines}
use mozsearch.Blame.Unmodified.Edits.{
  Edit, kept, added, removed, no_line, Hunk, lines_of, old_size, new_size, hunks_of, new_total,
  same_lines, kept_lines, all_kept, StartsNew, HasContext,
}
use mozsearch.Blame.Unmodified.Exact.{
  At, Told, skipped_kept, skipped_added, walk_lines-Told, moved, shifted-same_lines,
}

behind_skipped :
    (es : List Edit) (old new g : ℕ) (w : Walk)
    → At old new w
    → StartsNew es
    → Told
        (old + g + old_size es)
        (new + g + new_size es)
        (same_lines old new g ++ kept_lines (old + g) (new + g) es)
        w
        (walk_lines (lines_of (old + g) (new + g) es) w)
behind_skipped [] old new g w a s = elim s [ ]
behind_skipped (kept ∷ es) old new g w a s =
    skipped_kept es old new g (old + g) (new + g) w refl refl a
      (walk_lines-Told es (suc (old + g)) (suc (new + g)))
behind_skipped (added ∷ es) old new g w a s =
    skipped_added es old new g (old + g) (new + g) w refl refl a
      (walk_lines-Told es (old + g) (suc (new + g)))
behind_skipped (removed ∷ es) old new g w a s = elim s [ ]
behind_skipped (no_line ∷ es) old new g w a s = elim s [ ]

hunk-Told :
    (es : List Edit) (old new g : ℕ) (w : Walk)
    → At old new w
    → (g ≡ 0) ⊎ StartsNew es
    → Told
        (old + g + old_size es)
        (new + g + new_size es)
        (same_lines old new g ++ kept_lines (old + g) (new + g) es)
        w
        (walk_lines (lines_of (old + g) (new + g) es) w)
hunk-Told es old new g w a (inl e) =
    let nothing : same_lines old new g ≡ [] = ap (same_lines old new) e in
    moved _ _ w _ (old + g + old_size es) (old + g + old_size es) (new + g + new_size es)
      (new + g + new_size es) refl refl
      (ap (λ l. l ++ kept_lines (old + g) (new + g) es) (sym nothing))
      (walk_lines-Told es (old + g) (new + g) w
        (record { latest = omega (arith, e, a.latest); shift = omega (arith, e, a.shift) }))
hunk-Told es old new g w a (inr s) = behind_skipped es old new g w a s

abbrev ended : ℕ → Option Walk → Option (List (ℕ × ℕ))
ended total o =
    o >>= λ w. some (w.unchanged ++ shifted w.latest_line (total - w.latest_line) w.delta)

walk_hunks-all_kept :
    (hs : List Hunk) (old new rest total : ℕ) (w : Walk)
    → At old new w
    → All HasContext hs
    → total ≡ new_total new hs + rest
    → ended total (walk_hunks (hunks_of old new hs) w)
      ≡ some (w.unchanged ++ all_kept old new hs rest)
unfolding Told
walk_hunks-all_kept [] old new rest total w a c e =
    let size : total - w.latest_line ≡ rest = omega (arith, e, a.latest) in
    rw (size, a.latest)
      (ap (λ l. some (w.unchanged ++ l)) (shifted-same_lines old new rest w.delta a.shift))
walk_hunks-all_kept (h ∷ hs) old new rest total w a (c, cs) e =
    let o1 = old + h.skipped + old_size h.edits in
    let n1 = new + h.skipped + new_size h.edits in
    let same = same_lines old new h.skipped in
    let told = kept_lines (old + h.skipped) (new + h.skipped) h.edits in
    let t = hunk-Told h.edits old new h.skipped w a c in
    let more = all_kept o1 n1 hs rest in
    rw t.1 (
      walk_hunks-all_kept hs o1 n1 rest total t.0 t.3 cs e
      ∙ ap some (
          ap (λ l. l ++ more) t.2
          ∙ append_assoc w.unchanged (same ++ told) more
          ∙ ap (λ l. w.unchanged ++ l) (append_assoc same told more)))

-- For every edit of a file into another, given by its hunks and `rest` lines that are the same
-- behind them, `unmodified_lines` on the patch of the edit does not panic, and gives each line of
-- the new file that is one of the old file, in order and with its place in both; if a hunk behind
-- lines that it skips begins with a line of the new file, and the new file has as many lines as
-- the edit says.
pub unmodified_lines-all_kept :
    (hs : List Hunk) (rest : ℕ) (blob : List ℕ)
    → All HasContext hs
    → count_lines blob ≡ new_total 0 hs + rest
    → unmodified_lines blob (record { is_binary = false; hunks = hunks_of 0 0 hs })
      ≡ some (all_kept 0 0 hs rest)
unfolding unmodified_lines
unmodified_lines-all_kept hs rest blob c e =
    walk_hunks-all_kept hs 0 0 rest (count_lines blob)
      (record { unchanged = []; latest_line = 0; delta = record { rise = 0; fall = 0 } })
      (record { latest = refl; shift = refl }) c e
