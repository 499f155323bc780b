-- ===== src/SymbolGraph/Lambda.antt =====
-- The names of C++ lambdas: is_lambda_pretty, and the regular expression of its comment.
use mozsearch.Prelude.{
  ℕ, ◌≡◌, ◌≢◌, ◌↔◌, refl, sym, ap, subst, ◌∙◌, Bool, true, false, Option, none, some, List, [], ◌∷◌,
  ◌++◌, ◌==◌, ==_iff, ==-true, if◌then◌else◌, All, All-append, codes, Bool-cases, Option-cases, inl,
  inr,
}
use mathlib.Core.Option.{some-injective, none-ne-some}
use mathlib.Core.Bool.{true≢false}
use mathlib.Core.List.{
  cons≢nil, reverse, reverse-append, reverse-reverse, append_assoc, reverse-cons,
}
use mozsearch.Prelude.Text.{◌>>=◌, is_decimal}

-- `match bytes.next() { Some(b) => {} _ => { return false; } }`
abbrev pub next_is : ℕ → List ℕ → Option (List ℕ)
next_is b [] = none
next_is b (c ∷ cs) = if c == b then some cs else none

abbrev pub next_digit : List ℕ → Option (List ℕ)
next_digit [] = none
next_digit (c ∷ cs) = if is_decimal c then some cs else none

-- The loop: digits, and an `a` behind them.
abbrev pub digits_then_a : List ℕ → Option (List ℕ)
digits_then_a [] = none
digits_then_a (c ∷ cs) =
    let rest = digits_then_a cs in
    if is_decimal c then rest else if c == b'a' then some cs else none

abbrev pub read_back : List ℕ → Option (List ℕ)
read_back bytes =
    next_is b')' bytes
    >>= next_digit
    >>= digits_then_a
    >>= next_is b'd'
    >>= next_is b'b'
    >>= next_is b'm'
    >>= next_is b'a'
    >>= next_is b'l'
    >>= next_is b'('

abbrev pub is_some : Option (List ℕ) → Bool
is_some none = false
is_some (some cs) = true

unfoldable pub is_lambda_pretty : List ℕ → Bool
is_lambda_pretty pretty = is_some (read_back (reverse pretty))

unfoldable pub Digits : List ℕ → Type 0
Digits ds = All (λ c. is_decimal c ≡ true) ds

-- `\(lambda\d+\)$`
pub record IsLambda (pretty : List ℕ) : Type 0 where
  pub before : List ℕ
  pub number : List ℕ
  pub digits : Digits number
  pub not_empty : number ≢ []
  pub text_eq : pretty ≡ before ++ (codes "(lambda" ++ (number ++ codes ")"))

next_is-inv : (b : ℕ) (cs rest : List ℕ) → next_is b cs ≡ some rest → cs ≡ b ∷ rest
next_is-inv b [] rest h = absurd (none-ne-some rest h)
next_is-inv b (c ∷ cs) rest h = elim (Bool-cases (c == b)) [
  | inl q ↦
      let same : cs ≡ rest =
        some-injective cs rest (subst (λ t. (if t then some cs else none) ≡ some rest) q h) in
      rw ((==_iff c b).0 q, same) refl
  | inr q ↦ absurd (none-ne-some rest (subst (λ t. (if t then some cs else none) ≡ some rest) q h))
]

next_is-next : (b : ℕ) (cs : List ℕ) → next_is b (b ∷ cs) ≡ some cs
next_is-next b cs = rw (==-true b b refl) refl

before_next :
    (b : ℕ) (o : Option (List ℕ)) (r : List ℕ) → (o >>= next_is b) ≡ some r → o ≡ some (b ∷ r)
before_next b none r h = absurd (none-ne-some r h)
before_next b (some cs) r h = ap some (next_is-inv b cs r h)

before_digit :
    (o : Option (List ℕ)) (r : List ℕ)
    → (o >>= next_digit) ≡ some r
    → (d : ℕ) × (is_decimal d ≡ true) × (o ≡ some (d ∷ r))
before_digit none r h = absurd (none-ne-some r h)
before_digit (some []) r h = absurd (none-ne-some r h)
before_digit (some (c ∷ cs)) r h = elim (Bool-cases (is_decimal c)) [
  | inl q ↦
      let same : cs ≡ r =
        some-injective cs r (subst (λ t. (if t then some cs else none) ≡ some r) q h) in
      (c, q, rw same refl)
  | inr q ↦ absurd (none-ne-some r (subst (λ t. (if t then some cs else none) ≡ some r) q h))
]

digits_then_a-inv :
    (cs r : List ℕ)
    → digits_then_a cs ≡ some r
    → (ds : List ℕ) × Digits ds × (cs ≡ ds ++ (b'a' ∷ r))
unfolding Digits
digits_then_a-inv [] r h = absurd (none-ne-some r h)
digits_then_a-inv (c ∷ cs) r h =
    let rest = digits_then_a cs in
    elim (Bool-cases (is_decimal c)) [
      | inl q ↦
          let more =
            digits_then_a-inv cs r (
              subst (λ t. (if t then rest else if c == b'a' then some cs else none) ≡ some r) q
                h) in
          (c ∷ more.0, (q, more.1), ap (λ l. c ∷ l) more.2)
      | inr q ↦
          let here : next_is b'a' (c ∷ cs) ≡ some r =
            subst (λ t. (if t then rest else if c == b'a' then some cs else none) ≡ some r) q h in
          ([], tt, next_is-inv b'a' (c ∷ cs) r here)
    ]

digits_then_a-next : (ds r : List ℕ) → Digits ds → digits_then_a (ds ++ (b'a' ∷ r)) ≡ some r
unfolding Digits
digits_then_a-next [] r h = refl
digits_then_a-next (d ∷ ds) r (h, hs) = rw h (digits_then_a-next ds r hs)

Digits-reverse : (ds : List ℕ) → Digits ds → Digits (reverse ds)
unfolding Digits
Digits-reverse [] h = h
Digits-reverse (d ∷ ds) (h, hs) =
    rw (reverse-cons d ds)
      (All-append (λ c. is_decimal c ≡ true) (reverse ds) (d ∷ []) (Digits-reverse ds hs) (h, tt))

reverse_text :
    (number r : List ℕ)
    → reverse (codes ")" ++ (number ++ (codes "adbmal(" ++ r)))
      ≡ reverse r ++ (codes "(lambda" ++ (reverse number ++ codes ")"))
reverse_text number r =
    reverse-append (codes ")") (number ++ (codes "adbmal(" ++ r))
    ∙ ap (λ l. l ++ codes ")")
        (reverse-append number (codes "adbmal(" ++ r)
          ∙ ap (λ l. l ++ reverse number) (reverse-append (codes "adbmal(") r))
    ∙ append_assoc (reverse r ++ codes "(lambda") (reverse number) (codes ")")
    ∙ append_assoc (reverse r) (codes "(lambda") (reverse number ++ codes ")")

before_letters :
    (o : Option (List ℕ)) (r : List ℕ)
    → (o
        >>= next_is b'd'
        >>= next_is b'b'
        >>= next_is b'm'
        >>= next_is b'a'
        >>= next_is b'l'
        >>= next_is b'(')
      ≡ some r
    → o ≡ some (codes "dbmal(" ++ r)
before_letters o r h =
    let o1 = o >>= next_is b'd' in
    let o2 = o1 >>= next_is b'b' in
    let o3 = o2 >>= next_is b'm' in
    let o4 = o3 >>= next_is b'a' in
    let o5 = o4 >>= next_is b'l' in
    before_next b'd' o (codes "bmal(" ++ r) (
      before_next b'b' o1 (codes "mal(" ++ r) (
        before_next b'm' o2 (codes "al(" ++ r) (
          before_next b'a' o3 (codes "l(" ++ r)
            (before_next b'l' o4 (codes "(" ++ r) (before_next b'(' o5 r h)))))

before_number :
    (o : Option (List ℕ)) (r : List ℕ)
    → (o >>= digits_then_a) ≡ some r
    → (ds : List ℕ) × Digits ds × (o ≡ some (ds ++ (b'a' ∷ r)))
before_number none r h = absurd (none-ne-some r h)
before_number (some cs) r h = let m = digits_then_a-inv cs r h in (m.0, m.1, ap some m.2)

twice_reversed :
    (number before : List ℕ)
    → reverse (codes ")" ++ (reverse number ++ (codes "adbmal(" ++ reverse before)))
      ≡ before ++ (codes "(lambda" ++ (number ++ codes ")"))
twice_reversed number before =
    reverse_text (reverse number) (reverse before)
    ∙ rw (reverse-reverse before, reverse-reverse number) refl

-- What is read back, and what it leaves.
read_back-inv :
    (bytes r : List ℕ)
    → read_back bytes ≡ some r
    → (number : List ℕ) × Digits number
      × (number ≢ [])
      × (bytes ≡ codes ")" ++ (number ++ (codes "adbmal(" ++ r)))
unfolding Digits
read_back-inv bytes r h =
    let o1 = next_is b')' bytes in
    let o2 = o1 >>= next_digit in
    let m = before_number o2 (codes "dbmal(" ++ r) (before_letters (o2 >>= digits_then_a) r h) in
    let d = before_digit o1 (m.0 ++ (codes "adbmal(" ++ r)) m.2 in
    (
      d.0 ∷ m.0,
      (d.1, m.1),
      cons≢nil,
      next_is-inv b')' bytes (d.0 ∷ (m.0 ++ (codes "adbmal(" ++ r))) d.2,
    )

read_back-next :
    (number r : List ℕ)
    → Digits number
    → number ≢ []
    → read_back (codes ")" ++ (number ++ (codes "adbmal(" ++ r))) ≡ some r
unfolding Digits
read_back-next [] r h n = absurd (n refl)
read_back-next (d ∷ ds) r (h, hs) n =
    rw h (rw (digits_then_a-next ds (codes "dbmal(" ++ r) hs) refl)

reverse-not_empty : (xs : List ℕ) → xs ≢ [] → reverse xs ≢ []
reverse-not_empty xs n e = n (sym (reverse-reverse xs) ∙ ap reverse e)

-- `is_lambda_pretty` says of the bytes of a name just what the regular expression of its comment
-- says: it holds of them exactly if they end in `(lambda`, one digit or more, and `)`.
pub is_lambda_pretty_lem : (pretty : List ℕ) → (is_lambda_pretty pretty ≡ true) ↔ IsLambda pretty
unfolding is_lambda_pretty
is_lambda_pretty_lem pretty =
    let bytes = reverse pretty in
    (
      λ h. elim (Option-cases (read_back bytes)) [
        | inl e ↦ absurd (true≢false (sym h ∙ ap is_some e))
        | inr e ↦
            let m = read_back-inv bytes e.0 e.1 in
            record {
              before = reverse e.0;
              number = reverse m.0;
              digits = Digits-reverse m.0 m.1;
              not_empty = reverse-not_empty m.0 m.2;
              text_eq = sym (reverse-reverse pretty) ∙ ap reverse m.3 ∙ reverse_text m.0 e.0;
            }
      ],
      λ l.
          let back : bytes
              ≡ codes ")" ++ (reverse l.number ++ (codes "adbmal(" ++ reverse l.before)) =
            ap reverse (l.text_eq ∙ sym (twice_reversed l.number l.before))
            ∙ reverse-reverse
                (codes ")" ++ (reverse l.number ++ (codes "adbmal(" ++ reverse l.before))) in
          rw
            (
              back,
              read_back-next (reverse l.number) (reverse l.before)
                  (Digits-reverse l.number l.digits) (reverse-not_empty l.number l.not_empty),
            )
            refl,
    )
