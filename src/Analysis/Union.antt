-- ===== src/Analysis/Union.antt =====
-- tools/src/file_format/analysis.rs, SourceRange::union: the least range around both.
use mozsearch.Prelude.{
  sym, ℕ, ◌≡◌, Bool, true, ◌&&◌, ◌||◌, ltb, leb, ◌==◌, ◌≢◌, arith, ==-false, if-elim,
}
use mozsearch.Analysis.Locations.{SourceRange, union, union_start, union_end}

-- Position (l, c) is not behind position (m, d).
abbrev pub before : ℕ → ℕ → ℕ → ℕ → Bool
before l c m d = ltb l m || (l == m && leb c d)

-- Range `r` encloses range `s`.
abbrev pub Encloses : SourceRange → SourceRange → Type 0
Encloses r s =
    (before r.start_lineno r.start_col s.start_lineno s.start_col ≡ true)
    × (before s.end_lineno s.end_col r.end_lineno r.end_col ≡ true)

-- `u` starts where the first of the ranges `a` and `b` does.
abbrev StartsFirst : SourceRange → SourceRange → SourceRange → Type 0
StartsFirst a b u =
    (before u.start_lineno u.start_col a.start_lineno a.start_col ≡ true)
    × (before u.start_lineno u.start_col b.start_lineno b.start_col ≡ true)
    × ((l c : ℕ)
        → before l c a.start_lineno a.start_col ≡ true
        → before l c b.start_lineno b.start_col ≡ true
        → before l c u.start_lineno u.start_col ≡ true)

-- `u` ends where the last of the ranges `a` and `b` does.
abbrev EndsLast : SourceRange → SourceRange → SourceRange → Type 0
EndsLast a b u =
    (before a.end_lineno a.end_col u.end_lineno u.end_col ≡ true)
    × (before b.end_lineno b.end_col u.end_lineno u.end_col ≡ true)
    × ((l c : ℕ)
        → before a.end_lineno a.end_col l c ≡ true
        → before b.end_lineno b.end_col l c ≡ true
        → before u.end_lineno u.end_col l c ≡ true)

union_start-StartsFirst : (a b : SourceRange) → StartsFirst a b (union_start a b)
union_start-StartsFirst a b =
    if-elim (StartsFirst a b) (ltb b.start_lineno a.start_lineno)
      (λ e. (ground arith, ground arith, λ l c h k. ground arith))
      (λ e.
        if-elim (StartsFirst a b) (b.start_lineno == a.start_lineno && ltb b.start_col a.start_col)
          (λ f. (ground arith, ground arith, λ l c h k. ground arith))
          (λ f. (ground arith, ground arith, λ l c h k. ground arith)))

union_end-EndsLast : (a b : SourceRange) → EndsLast a b (union_end a b)
union_end-EndsLast a b =
    if-elim (EndsLast a b) (ltb a.end_lineno b.end_lineno)
      (λ e. (ground arith, ground arith, λ l c h k. ground arith))
      (λ e.
        if-elim (EndsLast a b) (b.end_lineno == a.end_lineno && ltb a.end_col b.end_col)
          (λ f. (ground arith, ground arith, λ l c h k. ground arith))
          (λ f. (ground arith, ground arith, λ l c h k. ground arith)))

-- The two cascades do not touch the other one's fields.
union_start_keeps :
    (a b : SourceRange)
    → ((union_start a b).end_lineno ≡ a.end_lineno) × ((union_start a b).end_col ≡ a.end_col)
union_start_keeps a b =
    let P : SourceRange → Type 0 = λ u. (u.end_lineno ≡ a.end_lineno) × (u.end_col ≡ a.end_col) in
    if-elim P (ltb b.start_lineno a.start_lineno) (λ e. (λ i. a.end_lineno, λ i. a.end_col))
      (λ e.
        if-elim P (b.start_lineno == a.start_lineno && ltb b.start_col a.start_col)
          (λ f. (λ i. a.end_lineno, λ i. a.end_col)) (λ f. (λ i. a.end_lineno, λ i. a.end_col)))

union_end_keeps :
    (a b : SourceRange)
    → ((union_end a b).start_lineno ≡ a.start_lineno) × ((union_end a b).start_col ≡ a.start_col)
union_end_keeps a b =
    let P : SourceRange → Type 0 =
      λ u. (u.start_lineno ≡ a.start_lineno) × (u.start_col ≡ a.start_col) in
    if-elim P (ltb a.end_lineno b.end_lineno) (λ e. (λ i. a.start_lineno, λ i. a.start_col))
      (λ e.
        if-elim P (b.end_lineno == a.end_lineno && ltb a.end_col b.end_col)
          (λ f. (λ i. a.start_lineno, λ i. a.start_col))
          (λ f. (λ i. a.start_lineno, λ i. a.start_col)))

cascades-Encloses :
    (a b u v r : SourceRange)
    → StartsFirst a b u
    → (u.end_lineno ≡ a.end_lineno) × (u.end_col ≡ a.end_col)
    → EndsLast u b v
    → (v.start_lineno ≡ u.start_lineno) × (v.start_col ≡ u.start_col)
    → Encloses r a
    → Encloses r b
    → Encloses v a × Encloses v b × Encloses r v
cascades-Encloses a b u v r (s1, s2, s3) (k1, k2) (e1, e2, e3) (j1, j2) (p1, p2) (q1, q2) = (
  (rw (j1, j2) s1, rw (sym k1, sym k2) e1),
  (rw (j1, j2) s2, e2),
  (rw (j1, j2) (s3 _ _ p1 q1), e3 _ _ (rw (k1, k2) p2) q2),
)

-- The union of two ranges whose starting lines are not 0 is the least range around both: it
-- encloses both, and every range that encloses both encloses it.
pub union-Encloses :
    (a b r : SourceRange)
    → a.start_lineno ≢ 0
    → b.start_lineno ≢ 0
    → Encloses r a
    → Encloses r b
    → Encloses (union a b) a × Encloses (union a b) b × Encloses r (union a b)
unfolding union
union-Encloses a b r ha hb p q =
    rw (==-false b.start_lineno 0 hb, ==-false a.start_lineno 0 ha)
      (cascades-Encloses a b (union_start a b) _ r (union_start-StartsFirst a b)
        (union_start_keeps a b) (union_end-EndsLast (union_start a b) b)
        (union_end_keeps (union_start a b) b) p q)
