-- ===== src/Crossref/Lines.antt =====
-- get_id_line: walking back and forth inside of lines.
use mozsearch.Prelude.{
  ℕ, zero, suc, ◌+◌, ◌-◌, ◌≤◌, ◌<◌, ◌≡◌, refl, sym, ap, subst, ◌∙◌, false, some, List, [], ◌∷◌,
  ◌++◌, ◌==◌, length, length-append, get_elem?, get_elem?-append, drop, drop-append, arith,
  append_assoc,
}
use mozsearch.Crossref.{skip_line, to_newline, walk_back}
use mozsearch.Crossref.Entries.{NoNewline}

skip_line-line :
    (xs q : List ℕ) (i k : ℕ)
    → NoNewline xs
    → k ≤ length xs
    → skip_line (drop k (xs ++ (b'\n' ∷ q))) i ≡ i + (length xs - k)
skip_line-line [] q i zero n h = omega arith
skip_line-line [] q i (suc k) n h = absurd (omega (arith, h))
skip_line-line (x ∷ xs) q i zero (n, ns) h =
    rw n (omega (arith, skip_line-line xs q (suc i) zero ns (omega arith)))
skip_line-line (x ∷ xs) q i (suc k) (n, ns) h =
    omega (arith, skip_line-line xs q i k ns (omega (arith, h)))

-- From a place in a line, or its end, to its newline.
pub to_newline-line :
    (p xs q : List ℕ) (k : ℕ)
    → NoNewline xs
    → k ≤ length xs
    → to_newline (p ++ (xs ++ (b'\n' ∷ q))) (length p + k) ≡ length p + length xs
to_newline-line p xs q k n h =
    ap (λ l. skip_line l (length p + k)) (drop-append p (xs ++ (b'\n' ∷ q)) (length p + k) k refl)
    ∙ omega (arith, skip_line-line xs q (length p + k) k n h, h)

-- A place in a line has a byte that is not a newline.
pub byte_in_line :
    (p xs q : List ℕ) (k : ℕ)
    → NoNewline xs
    → k < length xs
    → (c : ℕ) × (get_elem? (p ++ (xs ++ q)) (length p + k) ≡ some c) × ((c == b'\n') ≡ false)
byte_in_line p xs q k n h =
    let m = here xs k n h in (m.0, get_elem?-append p (xs ++ q) (length p + k) k refl ∙ m.1, m.2)
  where
    here :
        (ys : List ℕ) (j : ℕ)
        → NoNewline ys
        → j < length ys
        → (c : ℕ) × (get_elem? (ys ++ q) j ≡ some c) × ((c == b'\n') ≡ false)
    here [] j n h = absurd (omega (arith, h))
    here (y ∷ ys) zero (n, ns) h = (y, refl, n)
    here (y ∷ ys) (suc j) (n, ns) h = here ys j ns (omega (arith, h))

step_back :
    (bytes : List ℕ) (s end c d : ℕ)
    → get_elem? bytes s ≡ some c
    → get_elem? bytes (suc s) ≡ some d
    → (c == b'\n') ≡ false
    → walk_back bytes (suc s) end ≡ walk_back bytes s end
step_back bytes s end c d h k n = rw h (rw k (rw n refl))

-- Over the bytes of a line to its start.
pub walk_back-line :
    (p xs q : List ℕ) (end k : ℕ)
    → NoNewline xs
    → k ≤ length xs
    → walk_back (p ++ (xs ++ (b'\n' ∷ q))) (length p + k) end
      ≡ walk_back (p ++ (xs ++ (b'\n' ∷ q))) (length p) end
walk_back-line p xs q end zero n h =
    ap (λ i. walk_back (p ++ (xs ++ (b'\n' ∷ q))) i end) (omega arith)
walk_back-line p xs q end (suc k) n h =
    let bytes = p ++ (xs ++ (b'\n' ∷ q)) in
    let b = byte_in_line p xs (b'\n' ∷ q) k n (omega (arith, h)) in
    let there : suc (length p + k) ≡ length p + suc k = omega arith in
    let d = byte_up_to p xs q (suc k) h in
    subst (λ i. walk_back bytes i end ≡ walk_back bytes (length p) end) there
      (step_back bytes (length p + k) end b.0 d.0 b.1
          (subst (λ i. get_elem? bytes i ≡ some d.0) (sym there) d.1) b.2
        ∙ walk_back-line p xs q end k n (omega (arith, h)))
  where
    byte_up_to :
        (p xs q : List ℕ) (k : ℕ)
        → k ≤ length xs
        → (d : ℕ) × (get_elem? (p ++ (xs ++ (b'\n' ∷ q))) (length p + k) ≡ some d)
    byte_up_to p xs q k h =
        let m = here xs k h in
        (m.0, get_elem?-append p (xs ++ (b'\n' ∷ q)) (length p + k) k refl ∙ m.1)
      where
        here :
            (ys : List ℕ) (j : ℕ)
            → j ≤ length ys
            → (d : ℕ) × (get_elem? (ys ++ (b'\n' ∷ q)) j ≡ some d)
        here [] zero h = (b'\n', refl)
        here [] (suc j) h = absurd (omega (arith, h))
        here (y ∷ ys) zero h = (y, refl)
        here (y ∷ ys) (suc j) h = here ys j (omega (arith, h))

-- Behind a newline, or at the start.
pub data EndsLine (p : List ℕ) : Type 0 where
  at_start : p ≡ [] → EndsLine p
  behind : (front : List ℕ) → p ≡ front ++ (b'\n' ∷ []) → EndsLine p

newline_before :
    (front q : List ℕ) → get_elem? ((front ++ (b'\n' ∷ [])) ++ q) (length front) ≡ some b'\n'
newline_before front q =
    ap (λ l. get_elem? l (length front)) (append_assoc front (b'\n' ∷ []) q)
    ∙ get_elem?-append front (b'\n' ∷ q) (length front) 0 (omega arith)

length-front : (front : List ℕ) → length (front ++ (b'\n' ∷ [])) ≡ suc (length front)
length-front front = omega (arith, length-append front (b'\n' ∷ []))

first_behind :
    (front q : List ℕ) (d : ℕ)
    → get_elem? ((front ++ (b'\n' ∷ [])) ++ (d ∷ q)) (suc (length front)) ≡ some d
first_behind front q d =
    get_elem?-append (front ++ (b'\n' ∷ [])) (d ∷ q) (suc (length front)) 0
      (omega (arith, length-front front))

-- The walk ends at an identifier line.
pub walk_back-start :
    (p q : List ℕ) (end : ℕ)
    → EndsLine p
    → walk_back (p ++ (b'!' ∷ q)) (length p) end ≡ some (length p, end)
walk_back-start p q end (at_start e) =
    subst (λ l. walk_back (l ++ (b'!' ∷ q)) (length l) end ≡ some (length l, end)) (sym e) refl
walk_back-start p q end (behind front e) =
    subst (λ l. walk_back (l ++ (b'!' ∷ q)) (length l) end ≡ some (length l, end)) (sym e)
      (subst (λ n. walk_back ((front ++ (b'\n' ∷ [])) ++ (b'!' ∷ q)) n end ≡ some (n, end))
        (sym (length-front front))
        (rw (newline_before front (b'!' ∷ q)) (rw (first_behind front q b'!') refl)))

-- At any other line it goes on with the newline in front for its end.
pub walk_back-reset :
    (front q : List ℕ) (d end : ℕ)
    → (d == b'!') ≡ false
    → walk_back ((front ++ (b'\n' ∷ [])) ++ (d ∷ q)) (length (front ++ (b'\n' ∷ []))) end
      ≡ walk_back ((front ++ (b'\n' ∷ [])) ++ (d ∷ q)) (length front) (length front)
walk_back-reset front q d end h =
    let bytes = (front ++ (b'\n' ∷ [])) ++ (d ∷ q) in
    subst (λ n. walk_back bytes n end ≡ walk_back bytes (length front) (length front))
      (sym (length-front front))
      (rw (newline_before front (d ∷ q)) (rw (first_behind front q d) (rw h refl)))
