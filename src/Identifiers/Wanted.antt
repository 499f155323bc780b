-- ===== src/Identifiers/Wanted.antt =====
-- tools/src/file_format/identifiers.rs, lookup: what the results promise.
use mozsearch.Prelude.{
  ℕ, zero, suc, ◌+◌, ◌<◌, ◌≤◌, ◌≡◌, refl, ap, subst, Bool, true, false, not, ◌&&◌, ◌||◌, Option,
  none, some, List, [], ◌∷◌, ltb, leb, ◌==◌, if◌then◌else◌, length, get_elem?, drop, arith, All,
  Bool-cases, Option-cases, inl, inr,
}
use mathlib.Core.Option.{some-injective, none-ne-some}
use mozsearch.Prelude.Text.{contains}
use mozsearch.Identifiers.Lookup.{
  IdentResult, split_once_more, rsplit_once, continues_char, suffix_from, starts_with, accepts,
  collect,
}

abbrev pub IsAscii : List ℕ → Type 0
IsAscii s = All (λ c. ltb c 0x80 ≡ true) s

-- An id begins with the needle unless case is ignored, and is not longer when all of it must match.
abbrev pub IsWanted : List ℕ → Bool → Bool → IdentResult → Type 0
IsWanted needle exact_match ignore_case r =
    ((ignore_case || starts_with r.id needle) ≡ true)
    × ((not exact_match || leb (length r.id) (length needle)) ≡ true)

split_once_more-IsAscii :
    (c : ℕ) (o : Option (List ℕ × List ℕ)) (a b : List ℕ)
    → ltb c 0x80 ≡ true
    → ((a' b' : List ℕ) → o ≡ some (a', b') → IsAscii a')
    → split_once_more c o ≡ some (a, b)
    → IsAscii a
split_once_more-IsAscii c none a b h f e = ground arith
split_once_more-IsAscii c (some (u, v)) a b h f e =
    subst IsAscii (ap (λ p. p.0) (some-injective (c ∷ u, v) (a, b) e)) (h, f u v refl)

abbrev at_separator : Bool → List ℕ → Option (List ℕ × List ℕ)
at_separator t l = if t then some ([], l) else none

separator-IsAscii : (t : Bool) (l a b : List ℕ) → at_separator t l ≡ some (a, b) → IsAscii a
separator-IsAscii true l a b e = subst IsAscii (ap (λ p. p.0) (some-injective ([], l) (a, b) e)) tt
separator-IsAscii false l a b e = absurd (none-ne-some (a, b) e)

rsplit_once-IsAscii :
    (sep : ℕ) (l a b : List ℕ) → IsAscii l → rsplit_once sep l ≡ some (a, b) → IsAscii a
unfolding rsplit_once
rsplit_once-IsAscii sep [] a b h e = ground arith
rsplit_once-IsAscii sep (c ∷ l) a b (h, hs) e = elim (Bool-cases (contains sep l)) [
  | inl q ↦
      split_once_more-IsAscii c (rsplit_once sep l) a b h
        (λ u v k. rsplit_once-IsAscii sep l u v hs k)
        (subst
          (λ t.
            (if t then split_once_more c (rsplit_once sep l) else at_separator (c == sep) l)
            ≡ some (a, b))
          q e)
  | inr q ↦
      let k : at_separator (c == sep) l ≡ some (a, b) =
        subst
          (λ t.
            (if t then split_once_more c (rsplit_once sep l) else at_separator (c == sep) l)
            ≡ some (a, b))
          q e in
      separator-IsAscii (c == sep) l a b k
]

continues_char-IsAscii :
    (id : List ℕ) (n : ℕ) → IsAscii id → continues_char (get_elem? id n) ≡ false
continues_char-IsAscii [] n h = refl
continues_char-IsAscii (c ∷ id) zero (h, hs) = ground arith
continues_char-IsAscii (c ∷ id) (suc n) (h, hs) = continues_char-IsAscii id n hs

suffix_from-IsAscii : (id : List ℕ) (n : ℕ) → IsAscii id → suffix_from id n ≡ some (drop n id)
unfolding suffix_from
suffix_from-IsAscii id n h = rw (continues_char-IsAscii id n h) refl

and_true : (a b : Bool) → a && b ≡ true → (a ≡ true) × (b ≡ true)
and_true true b h = (refl, h)
and_true false b h = ground arith

not_or : (x c d : Bool) → not (x || c || d) ≡ true → (e : Bool) → not x || e ≡ true
not_or true c d h e = ground arith
not_or false c d h e = refl

or_true : (x : Bool) → x || true ≡ true
or_true true = refl
or_true false = refl

-- The tests answer on an ASCII id, and only a wanted id passes.
accepts-IsAscii :
    (needle : List ℕ) (x i : Bool) (id s : List ℕ)
    → IsAscii id
    → (b : Bool) × (accepts needle x i id ≡ some b)
      × (b ≡ true → IsWanted needle x i (record { id = id; symbol = s }))
unfolding accepts
accepts-IsAscii needle x i id s h =
    let suffix = drop (length needle) id in
    elim (Bool-cases (ltb (length needle) (length id))) [
      | inl e ↦ (
        _,
        rw (e, suffix_from-IsAscii id (length needle) h) refl,
        λ t.
            let (u, v) =
              and_true (not (x || contains b':' suffix || contains b'.' suffix))
                (i || starts_with id needle) t in
            (
              v,
              not_or x (contains b':' suffix) (contains b'.' suffix) u
                  (leb (length id) (length needle)),
            ),
      )
      | inr e ↦
          let short : leb (length id) (length needle) ≡ true = ground arith in
          (_, rw e refl, λ t. (t, rw short (or_true (not x))))
    ]

-- On lines of ASCII, with a limit above the number of results found before, the loop of `lookup`
-- does not panic; the id of every result it adds begins with the needle unless case is ignored, and
-- is not longer than the needle if the match must be exact; and the results do not exceed the
-- limit.
pub collect-IsWanted :
    (needle : List ℕ) (x i : Bool) (limit found : ℕ) (ls : List (List ℕ))
    → All IsAscii ls
    → found < limit
    → (rs : List IdentResult) × (collect needle x i limit found ls ≡ some rs)
      × All (IsWanted needle x i) rs
      × (found + length rs ≤ limit)
unfolding collect
collect-IsWanted needle x i limit found [] h k = ([], refl, tt, omega arith)
collect-IsWanted needle x i limit found (l ∷ ls) (h, hs) k =
    let (rest, e1, w1, n1) = collect-IsWanted needle x i limit found ls hs k in
    elim (Option-cases (rsplit_once b' ' l)) [
      | inl q ↦ (rest, rw (collect, q) e1, w1, n1)
      | inr ((id, s), q) ↦
          let r : IdentResult = record { id = id; symbol = s } in
          let (b, a, f) = accepts-IsAscii needle x i id s (rsplit_once-IsAscii b' ' l id s h q) in
          elim (Bool-cases b) [
            | inr t ↦ (rest, rw (collect, q, a, t) e1, w1, n1)
            | inl t ↦ elim (Bool-cases (found + 1 == limit)) [
              | inl m ↦ (r ∷ [], rw (collect, q, a, t, m) refl, (f t, tt), ground arith)
              | inr m ↦
                  let (more, e2, w2, n2) =
                    collect-IsWanted needle x i limit (found + 1) ls hs (ground arith) in
                  (r ∷ more, rw (collect, q, a, t, m, e2) refl, (f t, w2), omega (arith, n2))
            ]
          ]
    ]
