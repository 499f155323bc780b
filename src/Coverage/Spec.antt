-- ===== src/Coverage/Spec.antt =====
-- Interpolation against a description that looks at each line by itself.
use mozsearch.Prelude.{
  ℕ, zero, suc, Option, none, some, List, [], ◌∷◌, ◌≡◌, refl, ap, ◌∙◌, get_elem?, arith,
  if◌then◌else◌, ◌==◌, ◌+◌,
}
use mozsearch.Coverage.{
  InterpolatedCoverage, covered, uncovered, interpolated_hit, interpolated_miss, next_some,
  interp_val, loop, interpolate_coverage,
}

-- The nearest value above line `i`, counted from `last` at the start.
abbrev pub value_above : Option ℕ → List (Option ℕ) → ℕ → Option ℕ
value_above last [] i = last
value_above last (r ∷ raw) zero = last
value_above last (some v ∷ raw) (suc i) = value_above (some v) raw i
value_above last (none ∷ raw) (suc i) = value_above last raw i

-- The nearest value below line `i`.
abbrev pub value_below : List (Option ℕ) → ℕ → Option ℕ
value_below [] i = none
value_below (r ∷ raw) zero = next_some raw
value_below (r ∷ raw) (suc i) = value_below raw i

-- What the nearest neighbours with data say.
abbrev pub between : Option ℕ → Option ℕ → InterpolatedCoverage
between none b = uncovered
between (some a) none = uncovered
between (some a) (some b) = if a + b == 0 then interpolated_miss else interpolated_hit

-- A line with data keeps it; any other shows what its nearest neighbours with data say.
abbrev pub line_spec : List (Option ℕ) → ℕ → Option ℕ → Option InterpolatedCoverage
line_spec raw i last = elim (get_elem? raw i) [
  | none ↦ none
  | some none ↦ some (between (value_above last raw i) (value_below raw i))
  | some (some v) ↦ some (covered v)
]

interp_val-between : (a b : Option ℕ) → interp_val a b ≡ between a b
interp_val-between none b = refl
interp_val-between (some zero) none = refl
interp_val-between (some zero) (some zero) = refl
interp_val-between (some zero) (some (suc b)) = ground arith
interp_val-between (some (suc a)) none = refl
interp_val-between (some (suc a)) (some b) = ground arith

-- What the cached value is, whenever the loop holds one.
abbrev Cached : Option InterpolatedCoverage → Option ℕ → List (Option ℕ) → Type 0
Cached none last raw = Unit
Cached (some i) last raw = i ≡ interp_val last (next_some raw)

loop_line :
    (interp : Option InterpolatedCoverage) (last : Option ℕ) (raw : List (Option ℕ)) (i : ℕ)
    → Cached interp last raw
    → get_elem? (loop interp last raw) i ≡ line_spec raw i last
unfolding loop next_some
loop_line interp last [] i c = refl
loop_line interp last (some v ∷ raw) zero c = refl
loop_line interp last (some v ∷ raw) (suc i) c = loop_line none (some v) raw i tt
loop_line none last (none ∷ raw) zero c = ap some (interp_val-between last (next_some raw))
loop_line none last (none ∷ raw) (suc i) c =
    loop_line (some (interp_val last (next_some raw))) last raw i refl
loop_line (some k) last (none ∷ raw) zero c = ap some (c ∙ interp_val-between last (next_some raw))
loop_line (some k) last (none ∷ raw) (suc i) c = loop_line (some k) last raw i c

interp_val-none : (o : Option ℕ) → uncovered ≡ interp_val none o
interp_val-none none = refl
interp_val-none (some v) = refl

-- For every list of raw values and every line number, the result at that line is: nothing if the
-- line is beyond the end; the line's own value if it has one; and for a line with no data, a miss
-- if the nearest values above and below it are both 0, a hit if both exist and one of them is not
-- 0, and uncovered if there is none above or none below.
pub interpolate_coverage-line :
    (raw : List (Option ℕ)) (i : ℕ) → get_elem? (interpolate_coverage raw) i ≡ line_spec raw i none
unfolding interpolate_coverage
interpolate_coverage-line raw i =
    loop_line (some uncovered) none raw i (interp_val-none (next_some raw))
