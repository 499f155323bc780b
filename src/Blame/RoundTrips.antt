-- ===== src/Blame/RoundTrips.antt =====
-- tools/src/blame.rs and tools/src/bin/build-blame.rs: what is written can be read back.
use mozsearch.Prelude.{
  ℕ, zero, suc, ◌+◌, ◌-◌, ◌*◌, ◌≡◌, refl, sym, ap, ◌∙◌, Bool, true, false, ◌||◌, ◌&&◌, leb, Option,
  none, some, List, [], ◌∷◌, ◌++◌, ◌==◌, if◌then◌else◌, arith, All, Bool-cases, inl, inr, ==_iff,
}
use mozsearch.Prelude.Text.{contains}
use mozsearch.Blame.{
  LineData, split_more, split_once, splitn, line_pieces, deserialize, serialize, escape,
  starts_with_quote, sanitize,
}

abbrev pub IsColonFree : List ℕ → Type 0
IsColonFree s = All (λ c. (c == b':') ≡ false) s

split_once-append : (a b : List ℕ) → IsColonFree a → split_once (a ++ (b':' ∷ b)) ≡ some (a, b)
unfolding split_once
split_once-append [] b h = refl
split_once-append (c ∷ a) b (h, hs) = rw h (ap (split_more c) (split_once-append a b hs))

splitn-append :
    (n : ℕ) (a b : List ℕ)
    → IsColonFree a
    → splitn (suc (suc n)) (a ++ (b':' ∷ b)) ≡ a ∷ splitn (suc n) b
unfolding splitn
splitn-append n a b h = rw (splitn, split_once-append a b h) refl

-- A line of blame whose revision, path and number have no colon is read back as it was written.
pub deserialize-serialize :
    (d : LineData)
    → IsColonFree d.rev
    → IsColonFree d.path
    → IsColonFree d.lineno
    → deserialize (serialize d) ≡ some d
unfolding deserialize serialize
deserialize-serialize d hr hp hl =
    let last = splitn-append 0 d.lineno [] hl in
    let middle = splitn-append 1 d.path (d.lineno ++ (b':' ∷ [])) hp in
    let first = splitn-append 2 d.rev (d.path ++ (b':' ∷ d.lineno ++ (b':' ∷ []))) hr in
    ap line_pieces (first ∙ ap (λ r. d.rev ∷ r) (middle ∙ ap (λ r. d.path ∷ r) last))

-- C-style unquoting, as in quote.c of git: a reader of what stands behind the opening quote, with
-- letters for control characters and three octal digits behind a backslash, and an error for any
-- other character there.
data Reading : Type 0 where
  plain : Reading
  escaped : Reading
  octal : ℕ → ℕ → Reading

escape_code : ℕ → Option ℕ
escape_code c =
    if c == b'\\' || c == b'"'
    then some c
    else if c == b'a'
    then some 7
    else if c == b'b'
    then some 8
    else if c == b't'
    then some 9
    else if c == b'n'
    then some 10
    else if c == b'v'
    then some 11
    else if c == b'f'
    then some 12
    else if c == b'r'
    then some 13
    else none

push_char : ℕ → Option (List ℕ) → Option (List ℕ)
push_char c none = none
push_char c (some s) = some (c ∷ s)

closing : List ℕ → Option (List ℕ)
closing [] = some []
closing (c ∷ s) = none

behind_backslash : Option ℕ → Option (List ℕ) → Option (List ℕ) → Option (List ℕ)
unfolding push_char
behind_backslash none digits rest = digits
behind_backslash (some c) digits rest = push_char c rest

unescape : Reading → List ℕ → Option (List ℕ)
unfolding escape_code push_char closing behind_backslash
unescape reading [] = none
unescape plain (c ∷ s) =
    let rest = push_char c (unescape plain s) in
    let next = unescape escaped s in
    if c == b'\\' then next else if c == b'"' then closing s else rest
unescape escaped (c ∷ s) =
    let rest = unescape plain s in
    let digits = unescape (octal 1 (c - b'0')) s in
    behind_backslash (escape_code c) (if leb b'0' c && leb c b'3' then digits else none) rest
unescape (octal zero v) (c ∷ s) =
    let rest = push_char (v * 8 + (c - b'0')) (unescape plain s) in
    if leb b'0' c && leb c b'7' then rest else none
unescape (octal (suc n) v) (c ∷ s) =
    let rest = unescape (octal n (v * 8 + (c - b'0'))) s in
    if leb b'0' c && leb c b'7' then rest else none

pub unquote : List ℕ → Option (List ℕ)
unfolding unescape
unquote [] = some []
unquote (c ∷ s) = let inner = unescape plain s in if c == b'"' then inner else some (c ∷ s)

push_unless :
    (b : Bool) (c : ℕ) (s : List ℕ)
    → push_char c (if b then none else some s) ≡ (if b then none else some (c ∷ s))
unfolding push_char
push_unless true c s = refl
push_unless false c s = refl

-- An escaped text in front of the closing quote is read as the text, and is an error if the text
-- has a line feed.
unescape-escape :
    (s : List ℕ)
    → unescape plain (escape s ++ (b'"' ∷ [])) ≡ (if contains b'\n' s then none else some s)
unfolding unescape escape escape_code push_char closing behind_backslash
unescape-escape [] = refl
unescape-escape (c ∷ s) = elim (Bool-cases (c == b'\\')) [
  | inl e ↦
      rw ((==_iff c b'\\').0 e)
        (ap (push_char b'\\') (unescape-escape s) ∙ push_unless (contains b'\n' s) b'\\' s)
  | inr e ↦ elim (Bool-cases (c == b'\n')) [
    | inl f ↦ rw ((==_iff c b'\n').0 f) refl
    | inr f ↦ elim (Bool-cases (c == b'"')) [
      | inl g ↦
          rw ((==_iff c b'"').0 g)
            (ap (push_char b'"') (unescape-escape s) ∙ push_unless (contains b'\n' s) b'"' s)
      | inr g ↦
          rw (e, f, g)
            (rw (e, g) (ap (push_char c) (unescape-escape s) ∙ push_unless (contains b'\n' s) c s))
    ]
  ]
]

plain-unquote : (s : List ℕ) → starts_with_quote s ≡ false → unquote s ≡ some s
unfolding unquote
plain-unquote [] h = refl
plain-unquote (c ∷ s) h = rw h refl

or_false : (a b : Bool) → a || b ≡ false → (a ≡ false) × (b ≡ false)
or_false true b h = ground arith
or_false false b h = (refl, h)

-- A path without a line feed is read back from its quoted form by C-style unquoting as git has it;
-- the quoted form of a path with a line feed is not, and is an error there.
pub unquote-sanitize :
    (path : List ℕ) → unquote (sanitize path) ≡ (if contains b'\n' path then none else some path)
unfolding sanitize unquote
unquote-sanitize path = elim (Bool-cases (starts_with_quote path || contains b'\n' path)) [
  | inl e ↦ rw e (unescape-escape path)
  | inr e ↦
      let no = or_false (starts_with_quote path) (contains b'\n' path) e in
      rw e (plain-unquote path no.0 ∙ sym (ap (λ b. if b then none else some path) no.1))
]
