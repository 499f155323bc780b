-- ===== src/Crossref/Hex.antt =====
-- Numbers in hexadecimal digits, as the payloads of the external file have them.
use mozsearch.Prelude.{
  ℕ, zero, suc, ◌+◌, ◌*◌, ◌-◌, ◌/◌, ◌%◌, ◌<◌, ◌≡◌, refl, sym, ap, subst, ◌∙◌, true, false, ◌&&◌,
  some, List, [], ◌∷◌, leb, ltb, lt→ltb, ◌==◌, if◌then◌else◌, if-elim, All, arith, Bool-cases, inl,
  inr,
}
use mozsearch.Crossref.Payload.{usize_mod, hex_value, hex_digits, from_hex}

abbrev pub hex_digit : ℕ → ℕ
hex_digit d = if ltb d 10 then b'0' + d else b'a' + (d - 10)

-- `{:x}`: the digits of a number in front of `acc`; the fuel is more than the number.
unfoldable pub to_hex : ℕ → ℕ → List ℕ → List ℕ
to_hex zero n acc = acc
to_hex (suc fuel) n acc =
    let rest = to_hex fuel (n / 16) (hex_digit (n % 16) ∷ acc) in
    if ltb n 16 then hex_digit n ∷ acc else rest

low :
    (d : ℕ) → ltb d 10 ≡ true → hex_value (if ltb d 10 then b'0' + d else b'a' + (d - 10)) ≡ some d
low d q =
    let digit : leb b'0' (b'0' + d) && leb (b'0' + d) b'9' ≡ true = ground arith in
    rw q (rw digit (ap some (omega arith)))

high :
    (d : ℕ)
    → d < 16
    → ltb d 10 ≡ false
    → hex_value (if ltb d 10 then b'0' + d else b'a' + (d - 10)) ≡ some d
high d h q =
    let c = b'a' + (d - 10) in
    let no_digit : leb b'0' c && leb c b'9' ≡ false = ground arith in
    let letter : leb b'a' c && leb c b'f' ≡ true = ground arith in
    rw q (rw no_digit (rw letter (ap some (ground arith))))

hex_value-hex_digit : (d : ℕ) → d < 16 → hex_value (hex_digit d) ≡ some d
hex_value-hex_digit d h = elim (Bool-cases (ltb d 10)) [ inl q ↦ low d q | inr q ↦ high d h q ]

one_digit :
    (a d n : ℕ) (acc : List ℕ)
    → d < 16
    → n ≡ a * 16 + d
    → n < usize_mod
    → hex_digits a (hex_digit d ∷ acc) ≡ hex_digits n acc
unfolding hex_digits
one_digit a d n acc h e k =
    rw (hex_value-hex_digit d h) (rw (sym e) (rw (lt→ltb n usize_mod k) refl))

hex_digits-to_hex :
    (fuel n : ℕ) (acc : List ℕ)
    → n < fuel
    → n < usize_mod
    → hex_digits 0 (to_hex fuel n acc) ≡ hex_digits n acc
unfolding to_hex
hex_digits-to_hex zero n acc h k = elim h [ ]
hex_digits-to_hex (suc fuel) n acc h k = elim (Bool-cases (ltb n 16)) [
  | inl e ↦ rw e (one_digit 0 n n acc (ground arith) (omega arith) k)
  | inr e ↦ rw e (
      hex_digits-to_hex fuel (n / 16) (hex_digit (n % 16) ∷ acc) (ground arith) (omega arith)
      ∙ one_digit (n / 16) (n % 16) n acc (omega arith) (omega arith) k)
]

-- A hexadecimal digit is none of the bytes with a meaning of their own.
pub record IsPlain (c : ℕ) : Type 0 where
  pub no_plus : (c == b'+') ≡ false
  pub no_space : (c == b' ') ≡ false
  pub no_newline : (c == b'\n') ≡ false

hex_digit-IsPlain : (d : ℕ) → d < 16 → IsPlain (hex_digit d)
hex_digit-IsPlain d h =
    if-elim IsPlain (ltb d 10)
      (λ q. record { no_plus = ground arith; no_space = ground arith; no_newline = ground arith })
      (λ q. record { no_plus = ground arith; no_space = ground arith; no_newline = ground arith })

pub to_hex-IsPlain : (fuel n : ℕ) (acc : List ℕ) → All IsPlain acc → All IsPlain (to_hex fuel n acc)
unfolding to_hex
to_hex-IsPlain zero n acc h = h
to_hex-IsPlain (suc fuel) n acc h = elim (Bool-cases (ltb n 16)) [
  | inl e ↦ rw e (hex_digit-IsPlain n (ground arith), h)
  | inr e ↦ rw e (
      to_hex-IsPlain fuel (n / 16) (hex_digit (n % 16) ∷ acc)
        (hex_digit-IsPlain (n % 16) (omega arith), h))
]

to_hex-not_empty :
    (fuel n : ℕ) (c : ℕ) (acc : List ℕ)
    → (d : ℕ) × (rest : List ℕ) × (to_hex fuel n (c ∷ acc) ≡ d ∷ rest)
unfolding to_hex
to_hex-not_empty zero n c acc = (c, acc, refl)
to_hex-not_empty (suc fuel) n c acc = elim (Bool-cases (ltb n 16)) [
  | inl e ↦ (hex_digit n, c ∷ acc, rw e refl)
  | inr e ↦
      let m = to_hex-not_empty fuel (n / 16) (hex_digit (n % 16)) (c ∷ acc) in (m.0, m.1, rw e m.2)
]

to_hex-first : (fuel n : ℕ) → (d : ℕ) × (rest : List ℕ) × (to_hex (suc fuel) n [] ≡ d ∷ rest)
unfolding to_hex
to_hex-first fuel n = elim (Bool-cases (ltb n 16)) [
  | inl e ↦ (hex_digit n, [], rw e refl)
  | inr e ↦ let m = to_hex-not_empty fuel (n / 16) (hex_digit (n % 16)) [] in (m.0, m.1, rw e m.2)
]

no_more : (n : ℕ) → hex_digits n [] ≡ some n
unfolding hex_digits
no_more n = refl

from_hex-hex_digits :
    (c : ℕ) (cs : List ℕ) → (c == b'+') ≡ false → from_hex (c ∷ cs) ≡ hex_digits 0 (c ∷ cs)
unfolding from_hex
from_hex-hex_digits c [] h = refl
from_hex-hex_digits c (d ∷ cs) h = rw h refl

-- What is known of the digits of a number.
pub record IsHex (n : ℕ) (cs : List ℕ) : Type 0 where
  pub first : ℕ
  pub rest : List ℕ
  pub text_eq : cs ≡ first ∷ rest
  pub plain : All IsPlain cs
  pub read : from_hex cs ≡ some n

pub to_hex-IsHex : (n : ℕ) → n < usize_mod → IsHex n (to_hex (suc n) n [])
to_hex-IsHex n h =
    let cs = to_hex (suc n) n [] in
    let m = to_hex-first n n in
    let plain = to_hex-IsPlain (suc n) n [] tt in
    let head : (m.0 == b'+') ≡ false = (subst (All IsPlain) m.2 plain).0.no_plus in
    let digits : hex_digits 0 cs ≡ some n =
      hex_digits-to_hex (suc n) n [] (omega arith) h ∙ no_more n in
    record {
      first = m.0;
      rest = m.1;
      text_eq = m.2;
      plain = plain;
      read =
          ap from_hex m.2 ∙ from_hex-hex_digits m.0 m.1 head ∙ ap (hex_digits 0) (sym m.2) ∙ digits;
    }
