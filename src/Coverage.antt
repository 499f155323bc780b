-- ===== src/Coverage.antt =====
-- tools/src/file_format/coverage.rs: interpolation of line coverage.
-- A raw value is `none` where the line has no coverage data. The lazy fork of the iterator,
-- `raw.clone().flatten().next()`, is `next_some` of the values not read yet.
pub mod Spec
mod Tests
use mozsearch.Prelude.{ℕ, zero, suc, Option, none, some, List, [], ◌∷◌}

pub data InterpolatedCoverage : Type 0 where
  covered : ℕ → InterpolatedCoverage
  uncovered interpolated_hit interpolated_miss : InterpolatedCoverage

-- `flatten().next()`
unfoldable pub next_some : List (Option ℕ) → Option ℕ
next_some [] = none
next_some (some v ∷ raw) = some v
next_some (none ∷ raw) = next_some raw

-- The match on the last and the next value.
abbrev pub interp_val : Option ℕ → Option ℕ → InterpolatedCoverage
interp_val (some zero) (some zero) = interpolated_miss
interp_val (some _) (some _) = interpolated_hit
interp_val _ _ = uncovered

-- The `while let` loop: `last_interp_val`, `last_noninterp_val`, and the values left.
unfoldable pub loop :
    Option InterpolatedCoverage → Option ℕ → List (Option ℕ) → List InterpolatedCoverage
loop interp last [] = []
loop interp last (some v ∷ raw) = covered v ∷ loop none (some v) raw
loop (some i) last (none ∷ raw) = i ∷ loop (some i) last raw
loop none last (none ∷ raw) = let i = interp_val last (next_some raw) in i ∷ loop (some i) last raw

unfoldable pub interpolate_coverage : List (Option ℕ) → List InterpolatedCoverage
unfolding loop next_some
interpolate_coverage raw = loop (some uncovered) none raw
