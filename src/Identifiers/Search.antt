-- ===== src/Identifiers/Search.antt =====
-- tools/src/file_format/identifiers.rs, bisect: the search ends at a boundary between two lines.
use mozsearch.Prelude.{
  ℕ, zero, suc, ◌+◌, ◌-◌, ◌/◌, ◌<◌, ◌≤◌, ◌≡◌, refl, ap, sym, ◌∙◌, Bool, true, false, Option, some,
  List, [], ◌∷◌, ◌++◌, ltb, ◌==◌, length, length-append, arith, All, append_assoc, if-elim,
  Bool-cases, inl, inr,
}
use mozsearch.Prelude.Text.{◌>>=◌}
use mozsearch.Identifiers.{get_line, bound_of, goes_right, bisect_loop, bisect}
use mozsearch.Identifiers.Lines.{IsLine, join, line_at, get_line-join}

-- The search finds the place where a test turns false.
bisect_loop-turn :
    (right : ℕ → Option Bool) (n k fuel first count : ℕ)
    → ((pos : ℕ) → pos < k → right pos ≡ some true)
    → ((pos : ℕ) → k ≤ pos → pos < n → right pos ≡ some false)
    → count < fuel
    → first ≤ k
    → k ≤ first + count
    → first + count ≤ n
    → bisect_loop right fuel first count ≡ some k
unfolding bisect_loop
bisect_loop-turn right n k zero first count r l f a b c = absurd (omega (arith, f))
bisect_loop-turn right n k (suc fuel) first count r l f a b c = elim (Bool-cases (count == 0)) [
  | inl e ↦ rw e (ap (λ x. some x) (ground arith))
  | inr e ↦
      let step = count / 2 in
      let pos = first + step in
      let small : step < count = ground arith in
      elim (Bool-cases (ltb pos k)) [
        | inl t ↦
            rw (e, r pos (ground arith))
              (bisect_loop-turn right n k fuel (pos + 1) (count - (step + 1)) r l (omega arith)
                (ground arith) (omega arith) (omega arith))
        | inr t ↦
            rw (e, l pos (ground arith) (omega arith))
              (bisect_loop-turn right n k fuel first step r l (omega arith) a (ground arith)
                (omega arith))
      ]
]

line_at-front :
    (P : List ℕ → Type 0) (fs bs : List (List ℕ)) (p : ℕ)
    → All P fs
    → p < length (join fs)
    → P (line_at (fs ++ bs) p)
line_at-front P [] bs p h k = absurd (omega (arith, k))
line_at-front P (l ∷ fs) bs p (h, hs) k =
    if-elim P (ltb p (suc (length l))) (λ e. h)
      (λ e.
        line_at-front P fs bs (p - suc (length l)) hs
          (ground (arith, length-append l (b'\n' ∷ join fs))))

line_at-back :
    (P : List ℕ → Type 0) (fs bs : List (List ℕ)) (p : ℕ)
    → All P bs
    → length (join fs) ≤ p
    → p < length (join (fs ++ bs))
    → P (line_at (fs ++ bs) p)
line_at-back P [] [] p h k j = absurd (omega (arith, j))
line_at-back P [] (l ∷ bs) p (h, hs) k j =
    if-elim P (ltb p (suc (length l))) (λ e. h)
      (λ e.
        line_at-back P [] bs (p - suc (length l)) hs (omega arith)
          (ground (arith, length-append l (b'\n' ∷ join bs))))
line_at-back P (l ∷ fs) bs p hs k j =
    let room = length-append l (b'\n' ∷ join fs) in
    let far : ltb p (suc (length l)) ≡ false = ground (arith, room) in
    rw far (
      line_at-back P fs bs (p - suc (length l)) hs (omega (arith, room, k))
        (omega (arith, j, k, room, length-append l (b'\n' ∷ join (fs ++ bs)))))

pub join-append : (fs bs : List (List ℕ)) → join (fs ++ bs) ≡ join fs ++ join bs
join-append [] bs = refl
join-append (l ∷ fs) bs =
    ap (λ r. l ++ (b'\n' ∷ r)) (join-append fs bs)
    ∙ sym (append_assoc l (b'\n' ∷ join fs) (join bs))

-- In a file of lines that are not empty, where the lines of a first part are before the needle by
-- the test of the search and those of a second part are not, `bisect` does not panic, its fuel
-- suffices, and it returns the offset of the first line of the second part.
pub bisect-partition :
    (fs bs : List (List ℕ)) (needle : List ℕ) (upper_bound : Bool)
    → All IsLine (fs ++ bs)
    → All (λ l. goes_right (bound_of needle upper_bound) upper_bound l ≡ true) fs
    → All (λ l. goes_right (bound_of needle upper_bound) upper_bound l ≡ false) bs
    → bisect (join (fs ++ bs)) needle upper_bound ≡ some (length (join fs))
unfolding bisect
bisect-partition fs bs needle u h ha hb =
    let bound = bound_of needle u in
    let file = join (fs ++ bs) in
    let right = λ (pos : ℕ). get_line file pos >>= λ line. some (goes_right bound u line) in
    let size : length file ≡ length (join fs) + length (join bs) =
      ap (λ x. length x) (join-append fs bs) ∙ length-append (join fs) (join bs) in
    let before : (pos : ℕ) → pos < length (join fs) → right pos ≡ some true = λ pos k.
      rw (get_line-join (fs ++ bs) pos h (omega (arith, size, k)))
        (ap (λ x. some x) (line_at-front (λ l. goes_right bound u l ≡ true) fs bs pos ha k)) in
    let behind : (pos : ℕ) → length (join fs) ≤ pos → pos < length file → right pos ≡ some false =
      λ pos k j.
        rw (get_line-join (fs ++ bs) pos h j)
          (ap (λ x. some x) (line_at-back (λ l. goes_right bound u l ≡ false) fs bs pos hb k j)) in
    bisect_loop-turn right (length file) (length (join fs)) (suc (length file)) 0 (length file)
      before behind (omega arith) (omega arith) (omega (arith, size)) (omega arith)
