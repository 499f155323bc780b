-- ===== src/Blame/Unmodified.antt =====
-- tools/src/bin/build-blame.rs, unmodified_lines: the lines that a patch leaves as they are. A
-- patch is what libgit2 gives: hunks of lines with their numbers in the old and the new file. The
-- `i32` of the shift is its rise and its fall, as line numbers are below 2^31; `none` is a panic.
pub mod Edits
pub mod Exact
pub mod Hunks
use mozsearch.Prelude.{
  ℕ, zero, suc, ◌+◌, ◌-◌, ◌^◌, Bool, true, false, Option, none, some, List, [], ◌∷◌, ◌++◌, leb,
  ◌==◌, if◌then◌else◌,
}
use mozsearch.Prelude.Text.{◌>>=◌}
use mozsearch.Blame.{count_lines}

pub data Origin : Type 0 where
  addition : Origin
  deletion : Origin
  context : Origin
  other : Origin

pub record PatchLine : Type 0 where
  pub origin : Origin
  pub old_lineno : Option ℕ
  pub new_lineno : Option ℕ

pub record Patch : Type 0 where
  pub is_binary : Bool
  pub hunks : List (List PatchLine)

pub record Shift : Type 0 where
  pub rise : ℕ
  pub fall : ℕ

-- `((lineno as i32) + delta) as usize`
abbrev pub add_delta : ℕ → Shift → ℕ
add_delta lineno delta =
    if leb delta.fall (lineno + delta.rise)
    then lineno + delta.rise - delta.fall
    else lineno + delta.rise + 2 ^ 64 - delta.fall

pub record Walk : Type 0 where
  pub unchanged : List (ℕ × ℕ)
  pub latest_line : ℕ
  pub delta : Shift

-- `for i in latest_line..end`, with `n` of these.
abbrev pub shifted : ℕ → ℕ → Shift → List (ℕ × ℕ)
shifted i zero delta = []
shifted i (suc n) delta = (i, add_delta i delta) ∷ shifted (suc i) n delta

-- The lines in front of a line that is in the new file. Its number is 1 or more in a patch of libgit2,
-- so that `lineno - 1` does not drop below 0.
abbrev pub up_to : Option ℕ → Walk → Walk
up_to none w = w
up_to (some lineno) w = record w {
  unchanged = w.unchanged ++ shifted w.latest_line (lineno - 1 - w.latest_line) w.delta;
  latest_line = lineno - 1 + 1;
}

-- A line of context, with the assertion on its numbers.
abbrev pub keep_line : Option ℕ → Option ℕ → Walk → Option Walk
keep_line none new w = none
keep_line (some old) none w = none
keep_line (some old) (some new) w =
    if old == add_delta new w.delta
    then some (record w { unchanged = w.unchanged ++ ((new - 1, old - 1) ∷ []) })
    else none

abbrev pub by_origin : Origin → PatchLine → Walk → Option Walk
by_origin addition l w = some (record w { delta = record w.delta { fall = suc w.delta.fall } })
by_origin deletion l w = some (record w { delta = record w.delta { rise = suc w.delta.rise } })
by_origin context l w = keep_line l.old_lineno l.new_lineno w
by_origin other l w = some w

abbrev pub walk_line : PatchLine → Walk → Option Walk
walk_line l w = by_origin l.origin l (up_to l.new_lineno w)

abbrev pub walk_lines : List PatchLine → Walk → Option Walk
walk_lines [] w = some w
walk_lines (l ∷ ls) w = walk_line l w >>= λ w1. walk_lines ls w1

abbrev pub walk_hunks : List (List PatchLine) → Walk → Option Walk
walk_hunks [] w = some w
walk_hunks (h ∷ hs) w = walk_lines h w >>= λ w1. walk_hunks hs w1

unfoldable pub unmodified_lines : List ℕ → Patch → Option (List (ℕ × ℕ))
unmodified_lines blob patch =
    if patch.is_binary
    then some []
    else walk_hunks patch.hunks
        (record { unchanged = []; latest_line = 0; delta = record { rise = 0; fall = 0 } })
      >>= λ w.
          some (w.unchanged ++ shifted w.latest_line (count_lines blob - w.latest_line) w.delta)
