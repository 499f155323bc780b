-- ===== src/Identifiers/Lines.antt =====
-- tools/src/file_format/identifiers.rs, get_line: the line at a position of a file of lines.
use mozsearch.Prelude.{
  ℕ, zero, suc, ◌+◌, ◌-◌, ◌<◌, ◌≤◌, ◌≡◌, ◌≢◌, refl, ap, ◌∙◌, false, Option, none, some, List, [],
  ◌∷◌, ◌++◌, ltb, ◌==◌, if◌then◌else◌, length, length-append, get_elem?, drop, arith, All,
  drop-append, take-append, get_elem?-append, Option-cases, subst, ltb→lt, Bool-cases, inl, inr,
}
use mathlib.Core.Option.{some-injective, none-ne-some}
use mozsearch.Prelude.Text.{◌>>=◌}
use mozsearch.Identifiers.{
  is_newline, before_newline, anchor, line_start, line_end, slice, line_around, get_line,
}

-- A line that is not empty and has no newline.
abbrev pub IsLine : List ℕ → Type 0
IsLine l = (l ≢ []) × All (λ c. (c == b'\n') ≡ false) l

-- The file of some lines.
abbrev pub join : List (List ℕ) → List ℕ
join [] = []
join (l ∷ ls) = l ++ (b'\n' ∷ join ls)

-- The line that covers a position, its newline included.
abbrev pub line_at : List (List ℕ) → ℕ → List ℕ
line_at [] pos = []
line_at (l ∷ ls) pos = if ltb pos (suc (length l)) then l else line_at ls (pos - suc (length l))

abbrev Clean : List ℕ → Type 0
Clean l = All (λ c. (c == b'\n') ≡ false) l

get_elem?-Clean :
    (l ys : List ℕ) (n : ℕ) → Clean l → n < length l → is_newline (get_elem? (l ++ ys) n) ≡ false
get_elem?-Clean [] ys n h k = ground arith
get_elem?-Clean (c ∷ l) ys zero (h, hs) k = h
get_elem?-Clean (c ∷ l) ys (suc n) (h, hs) k = get_elem?-Clean l ys n hs (omega arith)

line_start-Clean : (l ys : List ℕ) (p : ℕ) → Clean l → p ≤ length l → line_start (l ++ ys) p ≡ 0
unfolding line_start
line_start-Clean l ys zero h k = refl
line_start-Clean l ys (suc p) h k =
    rw (get_elem?-Clean l ys p h (omega arith)) (line_start-Clean l ys p h (omega arith))

line_end-Clean :
    (l ys : List ℕ) (e p : ℕ)
    → Clean l
    → p ≤ length l
    → line_end e (drop p (l ++ (b'\n' ∷ ys))) ≡ e + (length l - p)
unfolding line_end
line_end-Clean [] ys e zero h q = omega arith
line_end-Clean [] ys e (suc p) h q = ground arith
line_end-Clean (c ∷ l) ys e zero (h, hs) q =
    rw h (line_end-Clean l ys (suc e) zero hs (omega arith) ∙ omega arith)
line_end-Clean (c ∷ l) ys e (suc p) (h, hs) q =
    line_end-Clean l ys e p hs (omega arith) ∙ omega arith

line_around-first :
    (l ys : List ℕ) (p : ℕ) → Clean l → p ≤ length l → line_around (l ++ (b'\n' ∷ ys)) p ≡ l
unfolding line_around slice
line_around-first l ys p h k =
    let e : line_end p (drop p (l ++ (b'\n' ∷ ys))) ≡ length l =
      line_end-Clean l ys p p h k ∙ omega arith in
    let n : length l - 0 ≡ length l = omega arith in
    rw (line_start-Clean l (b'\n' ∷ ys) p h k, e, n) (take-append l (b'\n' ∷ ys))

-- Behind a whole line everything is as it is in the rest of the file.
line_start_behind :
    (l ys : List ℕ) (n p : ℕ)
    → n ≡ suc (length l) + p
    → line_start (l ++ (b'\n' ∷ ys)) n ≡ suc (length l) + line_start ys p
unfolding line_start
line_start_behind l ys zero p h = absurd (omega (arith, h))
line_start_behind l ys (suc n) zero h =
    rw (get_elem?-append l (b'\n' ∷ ys) n 0 (omega (arith, h))) (omega (arith, h))
line_start_behind l ys (suc n) (suc p) h =
    rw (get_elem?-append l (b'\n' ∷ ys) n (suc p) (omega (arith, h)))
      (elim (Bool-cases (is_newline (get_elem? ys p))) [
        | inl e ↦ rw e (omega (arith, h))
        | inr e ↦ rw e (line_start_behind l ys n p (omega (arith, h)))
      ])

line_end_shift : (k e : ℕ) (cs : List ℕ) → line_end (k + e) cs ≡ k + line_end e cs
unfolding line_end
line_end_shift k e [] = refl
line_end_shift k e (c ∷ cs) =
    let more : line_end (suc (k + e)) cs ≡ k + line_end (suc e) cs =
      ap (λ x. line_end x cs) (omega arith) ∙ line_end_shift k (suc e) cs in
    elim (Bool-cases (c == b'\n')) [ inl q ↦ rw q refl | inr q ↦ rw q more ]

line_around_behind :
    (l ys : List ℕ) (p : ℕ)
    → line_around (l ++ (b'\n' ∷ ys)) (suc (length l) + p) ≡ line_around ys p
unfolding line_around slice
line_around_behind l ys p =
    let k = suc (length l) in
    let s = line_start ys p in
    let e = line_end p (drop p ys) in
    let ds : drop (k + p) (l ++ (b'\n' ∷ ys)) ≡ drop p ys =
      drop-append l (b'\n' ∷ ys) (k + p) (suc p) (omega arith) in
    let dt : drop (k + s) (l ++ (b'\n' ∷ ys)) ≡ drop s ys =
      drop-append l (b'\n' ∷ ys) (k + s) (suc s) (omega arith) in
    let w : (k + e) - (k + s) ≡ e - s = omega arith in
    rw (line_start_behind l ys (k + p) p refl, ds, line_end_shift k p (drop p ys), dt, w) refl

before_newline_behind :
    (k p q : ℕ) → before_newline p ≡ some q → before_newline (suc k + p) ≡ some (suc k + q)
before_newline_behind k zero q h = ground arith
before_newline_behind k (suc p) q h =
    let w : suc k + suc p ≡ suc (suc k + p) = omega arith in
    ap (λ x. before_newline x) w ∙ ap (λ x. some (suc k + x)) (some-injective p q h)

anchor_of_behind :
    (o : Option ℕ) (k p q : ℕ)
    → (o >>= λ c. if c == b'\n' then before_newline p else some p) ≡ some q
    → (o >>= λ c. if c == b'\n' then before_newline (suc k + p) else some (suc k + p))
      ≡ some (suc k + q)
anchor_of_behind none k p q h = ground arith
anchor_of_behind (some c) k p q h = elim (Bool-cases (c == b'\n')) [
  | inl e ↦ rw e (
      before_newline_behind k p q
        (subst (λ b. (if b then before_newline p else some p) ≡ some q) e h))
  | inr e ↦ rw e (
      ap (λ x. some (suc k + x))
        (some-injective p q (subst (λ b. (if b then before_newline p else some p) ≡ some q) e h)))
]

anchor_behind :
    (l ys : List ℕ) (p q : ℕ)
    → anchor ys p ≡ some q
    → anchor (l ++ (b'\n' ∷ ys)) (suc (length l) + p) ≡ some (suc (length l) + q)
unfolding anchor
anchor_behind l ys p q h =
    rw (get_elem?-append l (b'\n' ∷ ys) (suc (length l) + p) (suc p) (omega arith))
      (anchor_of_behind (get_elem? ys p) (length l) p q h)

get_line_behind :
    (l ys r : List ℕ) (p : ℕ)
    → get_line ys p ≡ some r
    → get_line (l ++ (b'\n' ∷ ys)) (suc (length l) + p) ≡ some r
unfolding get_line
get_line_behind l ys r p h = elim (Option-cases (anchor ys p)) [
  | inl e ↦ absurd (none-ne-some r (subst (λ o. (o >>= λ x. some (line_around ys x)) ≡ some r) e h))
  | inr (q, e) ↦ rw (anchor_behind l ys p q e) (
      ap (λ x. some x) (line_around_behind l ys q)
      ∙ subst (λ o. (o >>= λ x. some (line_around ys x)) ≡ some r) e h)
]

get_elem?_inside :
    (l ys : List ℕ) (p : ℕ)
    → Clean l
    → p < length l
    → (c : ℕ) × (get_elem? (l ++ ys) p ≡ some c) × ((c == b'\n') ≡ false)
get_elem?_inside [] ys p h k = absurd (omega (arith, k))
get_elem?_inside (c ∷ l) ys zero (h, hs) k = (c, refl, h)
get_elem?_inside (c ∷ l) ys (suc p) (h, hs) k = get_elem?_inside l ys p hs (omega arith)

before_newline_end :
    (l : List ℕ) (p : ℕ)
    → l ≢ []
    → p ≡ length l
    → (q : ℕ) × (before_newline p ≡ some q) × (q ≤ length l)
before_newline_end [] p ne h = absurd (ne refl)
before_newline_end (c ∷ l) zero ne h = absurd (omega (arith, h))
before_newline_end (c ∷ l) (suc p) ne h = (p, refl, omega (arith, h))

anchor-first :
    (l ys : List ℕ) (p : ℕ)
    → IsLine l
    → p ≤ length l
    → (q : ℕ) × (anchor (l ++ (b'\n' ∷ ys)) p ≡ some q) × (q ≤ length l)
unfolding anchor
anchor-first l ys p (ne, h) k = elim (Bool-cases (ltb p (length l))) [
  | inl e ↦
      let (c, g, f) = get_elem?_inside l (b'\n' ∷ ys) p h (ltb→lt p (length l) e) in
      (p, rw (g, f) refl, k)
  | inr e ↦
      let w : p ≡ length l = ground arith in
      let (q, g, f) = before_newline_end l p ne w in
      (q, rw (get_elem?-append l (b'\n' ∷ ys) p 0 (omega (arith, w))) g, f)
]

get_line-first :
    (l ys : List ℕ) (p : ℕ) → IsLine l → p ≤ length l → get_line (l ++ (b'\n' ∷ ys)) p ≡ some l
unfolding get_line
get_line-first l ys p h k =
    let (q, e, b) = anchor-first l ys p h k in
    rw e (ap (λ x. some x) (line_around-first l ys q h.1 b))

-- At every position of a file of lines stands the line that covers it.
pub get_line-join :
    (ls : List (List ℕ)) (p : ℕ)
    → All IsLine ls
    → p < length (join ls)
    → get_line (join ls) p ≡ some (line_at ls p)
get_line-join [] p h k = absurd (omega (arith, k))
get_line-join (l ∷ ls) p (h, hs) k = elim (Bool-cases (ltb p (suc (length l)))) [
  | inl e ↦ rw e (get_line-first l (join ls) p h (ground arith))
  | inr e ↦
      let q = p - suc (length l) in
      let w : p ≡ suc (length l) + q = ground arith in
      let room : q < length (join ls) = omega (arith, k, w, length-append l (b'\n' ∷ join ls)) in
      rw e (
        ap (λ x. get_line (l ++ (b'\n' ∷ join ls)) x) w
        ∙ get_line_behind l (join ls) (line_at ls q) q (get_line-join ls q hs room))
]
