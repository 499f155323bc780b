-- ===== src/Blame/Unmodified/Exact.antt =====
-- unmodified_lines in a hunk: the lines that are kept, with their old numbers.
use mozsearch.Prelude.{
  ℕ, zero, suc, ◌+◌, ◌-◌, ◌≡◌, refl, sym, ap, ◌∙◌, true, Option, none, some, List, [], ◌∷◌, ◌++◌,
  leb, ◌==◌, ==-true, append_assoc, append-nil, arith,
}
use mozsearch.Blame.Unmodified.{
  addition, deletion, context, other, PatchLine, Shift, add_delta, Walk, shifted, up_to, keep_line,
  walk_line, walk_lines,
}
use mozsearch.Blame.Unmodified.Edits.{
  Edit, kept, added, removed, no_line, lines_of, old_size, new_size, same_lines, kept_lines,
}

add_delta-eq : (old new : ℕ) (d : Shift) → old + d.fall ≡ new + d.rise → add_delta new d ≡ old
add_delta-eq old new d h =
    let t : leb d.fall (new + d.rise) ≡ true = ground arith in rw t (omega (arith, h))

pub shifted-same_lines :
    (old new n : ℕ) (d : Shift)
    → old + d.fall ≡ new + d.rise
    → shifted new n d ≡ same_lines old new n
shifted-same_lines old new zero d h = refl
shifted-same_lines old new (suc n) d h =
    rw (add_delta-eq old new d h, shifted-same_lines (suc old) (suc new) n d (omega (arith, h)))
      refl

-- Everything up to an old and a new line is told.
pub record At (old new : ℕ) (w : Walk) : Type 0 where
  pub latest : w.latest_line ≡ new
  pub shift : old + w.delta.fall ≡ new + w.delta.rise

unfoldable pub Told : ℕ → ℕ → List (ℕ × ℕ) → Walk → Option Walk → Type 0
Told old new pairs w o =
    (after : Walk) × (o ≡ some after) × (after.unchanged ≡ w.unchanged ++ pairs) × At old new after

pub moved :
    (pairs pairs' : List (ℕ × ℕ)) (w : Walk) (r : Option Walk) (o o' n n' : ℕ)
    → o ≡ o'
    → n ≡ n'
    → pairs ≡ pairs'
    → Told o n pairs w r
    → Told o' n' pairs' w r
unfolding Told
moved pairs pairs' w r o o' n n' e f p t = (
  t.0,
  t.1,
  t.2 ∙ ap (λ l. w.unchanged ++ l) p,
  record { latest = t.3.latest ∙ f; shift = omega (arith, e, f, t.3.shift) },
)

-- The lines that were skipped are told at a line of the new file.
up_to-same_lines :
    (old new g n : ℕ) (w : Walk)
    → n ≡ new + g
    → At old new w
    → (up_to (some (suc n)) w).unchanged ≡ w.unchanged ++ same_lines old new g
up_to-same_lines old new g n w e a =
    let size : suc n - 1 - w.latest_line ≡ g = omega (arith, e, a.latest) in
    let first : w.latest_line ≡ new = a.latest in
    rw (size, first) (ap (λ l. w.unchanged ++ l) (shifted-same_lines old new g w.delta a.shift))

keep_line-told :
    (old new : ℕ) (w : Walk)
    → suc old + w.delta.fall ≡ suc new + w.delta.rise
    → keep_line (some (suc old)) (some (suc new)) w
      ≡ some (record w { unchanged = w.unchanged ++ ((new, old) ∷ []) })
keep_line-told old new w h =
    let t : (suc old == add_delta (suc new) w.delta) ≡ true =
      ==-true (suc old) (add_delta (suc new) w.delta)
        (sym (add_delta-eq (suc old) (suc new) w.delta h)) in
    let i : suc new - 1 ≡ new = omega arith in
    let j : suc old - 1 ≡ old = omega arith in rw t (rw (i, j) refl)

-- A line of context, behind `g` lines that were skipped.
kept_line-Told :
    (old new g o n : ℕ) (w : Walk)
    → o ≡ old + g
    → n ≡ new + g
    → At old new w
    → Told (suc o) (suc n) (same_lines old new g ++ ((n, o) ∷ [])) w (
        walk_line
          (record { origin = context; old_lineno = some (suc o); new_lineno = some (suc n) })
          w)
unfolding Told
kept_line-Told old new g o n w e f a =
    let u = up_to (some (suc n)) w in
    let s : suc o + w.delta.fall ≡ suc n + w.delta.rise = omega (arith, e, f, a.shift) in
    let pair = (n, o) ∷ [] in
    (
      record u { unchanged = u.unchanged ++ pair },
      keep_line-told o n u s,
      ap (λ l. l ++ pair) (up_to-same_lines old new g n w f a)
          ∙ append_assoc w.unchanged (same_lines old new g) pair,
      record { latest = omega arith; shift = s },
    )

added_line-Told :
    (old new g o n : ℕ) (w : Walk)
    → o ≡ old + g
    → n ≡ new + g
    → At old new w
    → Told o
        (suc n)
        (same_lines old new g)
        w
        (walk_line (record { origin = addition; old_lineno = none; new_lineno = some (suc n) }) w)
unfolding Told
added_line-Told old new g o n w e f a =
    let u = up_to (some (suc n)) w in
    (
      record u { delta = record u.delta { fall = suc u.delta.fall } },
      refl,
      up_to-same_lines old new g n w f a,
      record { latest = omega arith; shift = omega (arith, e, f, a.shift) },
    )

removed_line-Told :
    (o n : ℕ) (w : Walk)
    → At o n w
    → Told
        (suc o)
        n
        []
        w
        (walk_line (record { origin = deletion; old_lineno = some (suc o); new_lineno = none }) w)
unfolding Told
removed_line-Told o n w a = (
  record w { delta = record w.delta { rise = suc w.delta.rise } },
  refl,
  sym (append-nil w.unchanged),
  record { latest = a.latest; shift = omega (arith, a.shift) },
)

other_line-Told :
    (o n : ℕ) (w : Walk)
    → At o n w
    → Told o n [] w (walk_line (record { origin = other; old_lineno = none; new_lineno = none }) w)
unfolding Told
other_line-Told o n w a = (w, refl, sym (append-nil w.unchanged), a)

-- What a line tells, and then what the lines behind it do.
then_lines :
    (o1 n1 o2 n2 : ℕ) (a b : List (ℕ × ℕ)) (w : Walk) (l : PatchLine) (ls : List PatchLine)
    → Told o1 n1 a w (walk_line l w)
    → ((w1 : Walk) → At o1 n1 w1 → Told o2 n2 b w1 (walk_lines ls w1))
    → Told o2 n2 (a ++ b) w (walk_lines (l ∷ ls) w)
unfolding Told
then_lines o1 n1 o2 n2 a b w l ls t f =
    let r = f t.0 t.3 in
    (r.0, rw t.1 r.1, r.2 ∙ ap (λ x. x ++ b) t.2 ∙ append_assoc w.unchanged a b, r.3)

-- A hunk that begins with a line of context, or with a new line, behind lines that are skipped.
pub skipped_kept :
    (es : List Edit) (old new g o n : ℕ) (w : Walk)
    → o ≡ old + g
    → n ≡ new + g
    → At old new w
    → ((w1 : Walk)
        → At (suc o) (suc n) w1
        → Told
            (suc o + old_size es)
            (suc n + new_size es)
            (kept_lines (suc o) (suc n) es)
            w1
            (walk_lines (lines_of (suc o) (suc n) es) w1))
    → Told
        (o + old_size (kept ∷ es))
        (n + new_size (kept ∷ es))
        (same_lines old new g ++ kept_lines o n (kept ∷ es))
        w
        (walk_lines (lines_of o n (kept ∷ es)) w)
skipped_kept es old new g o n w e f a more =
    moved _ _ w _ (suc o + old_size es) (o + suc (old_size es)) (suc n + new_size es)
      (n + suc (new_size es)) (omega arith) (omega arith)
      (append_assoc (same_lines old new g) ((n, o) ∷ []) (kept_lines (suc o) (suc n) es))
      (then_lines (suc o) (suc n) (suc o + old_size es) (suc n + new_size es)
        (same_lines old new g ++ ((n, o) ∷ [])) (kept_lines (suc o) (suc n) es) w
        (record { origin = context; old_lineno = some (suc o); new_lineno = some (suc n) })
        (lines_of (suc o) (suc n) es) (kept_line-Told old new g o n w e f a) more)

pub skipped_added :
    (es : List Edit) (old new g o n : ℕ) (w : Walk)
    → o ≡ old + g
    → n ≡ new + g
    → At old new w
    → ((w1 : Walk)
        → At o (suc n) w1
        → Told
            (o + old_size es)
            (suc n + new_size es)
            (kept_lines o (suc n) es)
            w1
            (walk_lines (lines_of o (suc n) es) w1))
    → Told
        (o + old_size (added ∷ es))
        (n + new_size (added ∷ es))
        (same_lines old new g ++ kept_lines o n (added ∷ es))
        w
        (walk_lines (lines_of o n (added ∷ es)) w)
skipped_added es old new g o n w e f a more =
    moved _ _ w _ (o + old_size es) (o + old_size es) (suc n + new_size es) (n + suc (new_size es))
      refl (omega arith) refl
      (then_lines o (suc n) (o + old_size es) (suc n + new_size es) (same_lines old new g)
        (kept_lines o (suc n) es) w
        (record { origin = addition; old_lineno = none; new_lineno = some (suc n) })
        (lines_of o (suc n) es) (added_line-Told old new g o n w e f a) more)

nothing-Told : (o n : ℕ) (w : Walk) → At o n w → Told (o + 0) (n + 0) [] w (some w)
unfolding Told
nothing-Told o n w a = (
  w,
  refl,
  sym (append-nil w.unchanged),
  record { latest = omega (arith, a.latest); shift = omega (arith, a.shift) },
)

pub walk_lines-Told :
    (es : List Edit) (o n : ℕ) (w : Walk)
    → At o n w
    → Told
        (o + old_size es)
        (n + new_size es)
        (kept_lines o n es)
        w
        (walk_lines (lines_of o n es) w)
walk_lines-Told [] o n w a = nothing-Told o n w a
walk_lines-Told (kept ∷ es) o n w a =
    skipped_kept es o n 0 o n w (omega arith) (omega arith) a (walk_lines-Told es (suc o) (suc n))
walk_lines-Told (added ∷ es) o n w a =
    skipped_added es o n 0 o n w (omega arith) (omega arith) a (walk_lines-Told es o (suc n))
walk_lines-Told (removed ∷ es) o n w a =
    moved _ _ w _ (suc o + old_size es) (o + suc (old_size es)) (n + new_size es) (n + new_size es)
      (omega arith) refl refl
      (then_lines (suc o) n (suc o + old_size es) (n + new_size es) [] (kept_lines (suc o) n es) w
        (record { origin = deletion; old_lineno = some (suc o); new_lineno = none })
        (lines_of (suc o) n es) (removed_line-Told o n w a) (walk_lines-Told es (suc o) n))
walk_lines-Told (no_line ∷ es) o n w a =
    then_lines o n (o + old_size es) (n + new_size es) [] (kept_lines o n es) w
      (record { origin = other; old_lineno = none; new_lineno = none }) (lines_of o n es)
      (other_line-Told o n w a) (walk_lines-Told es o n)
