-- ===== src/Prelude/Text.antt =====
-- Parts of Rust's standard library on texts: `split`, decimal numbers, `parse::<u32>`.
use Prim.Native.Nat.{ℕ, zero, suc, ◌+◌, ◌-◌, ◌*◌, ◌/◌, ◌%◌, ◌^◌, ◌<◌}
use mathlib.Core.Path.{◌≡◌, refl, ap, ◌∙◌}
use mathlib.Core.Bool.{Bool, true, false, ◌&&◌}
use mathlib.Core.Logic.{◌≢◌, inl, inr}
use mathlib.Core.Option.{Option, none, some}
use mathlib.Core.List.{List, [], ◌∷◌, ◌++◌}
use native.Mathlib.Omega.{arith}
use mozsearch.Prelude.Tests.{ltb, leb, ◌==◌, if◌then◌else◌, Bool-cases, lt→ltb, ==-false}
use mozsearch.Prelude.Lists.{length, All, All-append, replicate}

-- Chains of results; `none` is a panic or an error.
infixl 5 ◌>>=◌
abbrev pub ◌>>=◌ {ℓ κ} : {A : Type ℓ} {B : Type κ} → Option A → (A → Option B) → Option B
none >>= f = none
some a >>= f = f a

-- `str::split` at the characters of a class: always at least one piece.
abbrev pub push_front : ℕ → List (List ℕ) → List (List ℕ)
push_front c [] = (c ∷ []) ∷ []
push_front c (p ∷ ps) = (c ∷ p) ∷ ps

unfoldable pub split_on : (ℕ → Bool) → List ℕ → List (List ℕ)
split_on sep [] = [] ∷ []
split_on sep (c ∷ cs) = if sep c then [] ∷ split_on sep cs else push_front c (split_on sep cs)

abbrev pub Without : (ℕ → Bool) → List ℕ → Type 0
Without sep cs = All (λ c. sep c ≡ false) cs

pub split_on-last : (sep : ℕ → Bool) (cs : List ℕ) → Without sep cs → split_on sep cs ≡ cs ∷ []
unfolding split_on
split_on-last sep [] h = refl
split_on-last sep (c ∷ cs) (h, hs) = rw h (ap (push_front c) (split_on-last sep cs hs))

pub split_on-next :
    (sep : ℕ → Bool) (cs : List ℕ) (s : ℕ) (rest : List ℕ)
    → Without sep cs
    → sep s ≡ true
    → split_on sep (cs ++ (s ∷ rest)) ≡ cs ∷ split_on sep rest
unfolding split_on
split_on-next sep [] s rest h e = rw e
split_on-next sep (c ∷ cs) s rest (h, hs) e =
    rw h (ap (push_front c) (split_on-next sep cs s rest hs e))

-- `str::contains` of one character.
abbrev pub contains : ℕ → List ℕ → Bool
contains c [] = false
contains c (x ∷ xs) = if x == c then true else contains c xs

-- The decimal digits of a number in front of `acc`; the fuel is more than the number.
unfoldable pub digits : ℕ → ℕ → List ℕ → List ℕ
digits zero n acc = acc
digits (suc fuel) n acc =
    let rest = digits fuel (n / 10) ((b'0' + n % 10) ∷ acc) in
    if ltb n 10 then (b'0' + n) ∷ acc else rest

unfoldable pub decimal : ℕ → List ℕ
unfolding digits
decimal n = digits (suc n) n []

-- `{:05}`
unfoldable pub padded : ℕ → ℕ → List ℕ
padded width n = replicate (width - length (decimal n)) b'0' ++ decimal n

abbrev pub is_decimal : ℕ → Bool
is_decimal c = leb b'0' c && leb c b'9'

abbrev pub u32_mod : ℕ
u32_mod = 2 ^ 32

-- `parse::<u32>`: an optional sign, at least one digit, and no overflow.
unfoldable pub parse_digits : ℕ → List ℕ → Option ℕ
parse_digits acc [] = some acc
parse_digits acc (c ∷ cs) =
    let next = acc * 10 + (c - b'0') in
    let rest = parse_digits next cs in
    if is_decimal c then (if ltb next u32_mod then rest else none) else none

unfoldable pub parse_u32 : List ℕ → Option ℕ
unfolding parse_digits
parse_u32 [] = none
parse_u32 (c ∷ []) = parse_digits 0 (c ∷ [])
parse_u32 (c ∷ d ∷ cs) = if c == b'+' then parse_digits 0 (d ∷ cs) else parse_digits 0 (c ∷ d ∷ cs)

abbrev pub IsDecimal : List ℕ → Type 0
IsDecimal cs = All (λ c. is_decimal c ≡ true) cs

digits-IsDecimal : (fuel n : ℕ) (acc : List ℕ) → IsDecimal acc → IsDecimal (digits fuel n acc)
unfolding digits
digits-IsDecimal zero n acc h = h
digits-IsDecimal (suc fuel) n acc h = elim (Bool-cases (ltb n 10)) [
  | inl e ↦ rw e (ground arith, h)
  | inr e ↦ rw e (digits-IsDecimal fuel (n / 10) _ (ground arith, h))
]

pub decimal-IsDecimal : (n : ℕ) → IsDecimal (decimal n)
unfolding decimal
decimal-IsDecimal n = digits-IsDecimal (suc n) n [] tt

replicate-IsDecimal : (k : ℕ) → IsDecimal (replicate k b'0')
replicate-IsDecimal zero = tt
replicate-IsDecimal (suc k) = (refl, replicate-IsDecimal k)

pub padded-IsDecimal : (w n : ℕ) → IsDecimal (padded w n)
unfolding padded
padded-IsDecimal w n =
    All-append (λ c. is_decimal c ≡ true) (replicate (w - length (decimal n)) b'0') (decimal n)
      (replicate-IsDecimal (w - length (decimal n))) (decimal-IsDecimal n)

-- One digit is read.
parse_one :
    (a d n : ℕ) (acc : List ℕ)
    → d < 10
    → n ≡ a * 10 + d
    → n < u32_mod
    → parse_digits a ((b'0' + d) ∷ acc) ≡ parse_digits n acc
unfolding parse_digits
parse_one a d n acc h e k =
    let back : a * 10 + (b'0' + d - b'0') ≡ n = omega arith in
    let digit : is_decimal (b'0' + d) ≡ true = ground arith in rw (digit, back, lt→ltb n u32_mod k)

parse_digits-digits :
    (fuel n : ℕ) (acc : List ℕ)
    → n < fuel
    → n < u32_mod
    → parse_digits 0 (digits fuel n acc) ≡ parse_digits n acc
unfolding digits
parse_digits-digits zero n acc h k = elim h [ ]
parse_digits-digits (suc fuel) n acc h k = elim (Bool-cases (ltb n 10)) [
  | inl e ↦ rw e (parse_one 0 n n acc (ground arith) (omega arith) k)
  | inr e ↦ rw e (
      parse_digits-digits fuel (n / 10) ((b'0' + n % 10) ∷ acc) (ground arith) (omega arith)
      ∙ parse_one (n / 10) (n % 10) n acc (omega arith) (omega arith) k)
]

parse_digits-zeros :
    (k : ℕ) (cs : List ℕ) → parse_digits 0 (replicate k b'0' ++ cs) ≡ parse_digits 0 cs
parse_digits-zeros zero cs = refl
parse_digits-zeros (suc k) cs =
    parse_one 0 0 0 (replicate k b'0' ++ cs) (omega arith) refl (omega arith)
    ∙ parse_digits-zeros k cs

-- A text of digits has no sign.
parse_u32-IsDecimal : (cs : List ℕ) → IsDecimal cs → cs ≢ [] → parse_u32 cs ≡ parse_digits 0 cs
unfolding parse_u32
parse_u32-IsDecimal [] h ne = absurd (ne refl)
parse_u32-IsDecimal (c ∷ []) h ne = refl
parse_u32-IsDecimal (c ∷ d ∷ cs) (h, hs) ne = rw (==-false c b'+' (λ e. ground arith))

digits-cons_ne : (fuel n c : ℕ) (acc : List ℕ) → digits fuel n (c ∷ acc) ≢ []
unfolding digits
digits-cons_ne zero n c acc = λ e. cc
digits-cons_ne (suc fuel) n c acc = elim (Bool-cases (ltb n 10)) [
  | inl e ↦ rw e (λ q. cc)
  | inr e ↦ rw e (digits-cons_ne fuel (n / 10) (b'0' + n % 10) (c ∷ acc))
]

pub decimal-ne-nil : (n : ℕ) → decimal n ≢ []
unfolding decimal
decimal-ne-nil n = elim (Bool-cases (ltb n 10)) [
  | inl e ↦ rw e (λ q. cc)
  | inr e ↦ rw e (digits-cons_ne n (n / 10) (b'0' + n % 10) [])
]

parse_digits-decimal : (n : ℕ) → n < u32_mod → parse_digits 0 (decimal n) ≡ some n
unfolding decimal parse_digits
parse_digits-decimal n h = parse_digits-digits (suc n) n [] (omega arith) h

append-ne-nil : (xs ys : List ℕ) → ys ≢ [] → xs ++ ys ≢ []
append-ne-nil [] ys h = h
append-ne-nil (x ∷ xs) ys h = λ e. cc

-- A number printed in decimal is parsed as itself, padded with zeros or not.
pub parse_u32-padded : (w n : ℕ) → n < u32_mod → parse_u32 (padded w n) ≡ some n
parse_u32-padded w n h =
    parse_u32-IsDecimal (padded w n) (padded-IsDecimal w n)
      (unfold padded in append-ne-nil _ (decimal n) (decimal-ne-nil n))
    ∙ unfold padded in
      parse_digits-zeros (w - length (decimal n)) (decimal n) ∙ parse_digits-decimal n h

pub parse_u32-decimal : (n : ℕ) → n < u32_mod → parse_u32 (decimal n) ≡ some n
parse_u32-decimal n h =
    parse_u32-IsDecimal (decimal n) (decimal-IsDecimal n) (decimal-ne-nil n)
    ∙ parse_digits-decimal n h
