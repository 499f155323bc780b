-- ===== src/Crossref/Decimal.antt =====
-- Numbers in decimal digits, as the chunks have them: what is printed is parsed.
use mozsearch.Prelude.{
  ℕ, zero, suc, ◌+◌, ◌*◌, ◌-◌, ◌/◌, ◌%◌, ◌<◌, ◌≡◌, ◌≢◌, refl, ◌∙◌, true, some, List, [], ◌∷◌, ltb,
  lt→ltb, ==-false, arith, Bool-cases, inl, inr,
}
use mozsearch.Prelude.Text.{
  digits, decimal, is_decimal, IsDecimal, decimal-IsDecimal, decimal-ne-nil,
}
use mozsearch.Crossref.Payload.{usize_mod}
use mozsearch.Crossref.Merge.{usize_digits, parse_usize}

one_digit :
    (a d n : ℕ) (acc : List ℕ)
    → d < 10
    → n ≡ a * 10 + d
    → n < usize_mod
    → usize_digits a ((b'0' + d) ∷ acc) ≡ usize_digits n acc
unfolding usize_digits
one_digit a d n acc h e k =
    let back : a * 10 + (b'0' + d - b'0') ≡ n = omega arith in
    let digit : is_decimal (b'0' + d) ≡ true = ground arith in
    rw (digit, back, lt→ltb n usize_mod k)

usize_digits-digits :
    (fuel n : ℕ) (acc : List ℕ)
    → n < fuel
    → n < usize_mod
    → usize_digits 0 (digits fuel n acc) ≡ usize_digits n acc
unfolding digits
usize_digits-digits zero n acc h k = elim h [ ]
usize_digits-digits (suc fuel) n acc h k = elim (Bool-cases (ltb n 10)) [
  | inl e ↦ rw e (one_digit 0 n n acc (ground arith) (omega arith) k)
  | inr e ↦ rw e (
      usize_digits-digits fuel (n / 10) ((b'0' + n % 10) ∷ acc) (ground arith) (omega arith)
      ∙ one_digit (n / 10) (n % 10) n acc (omega arith) (omega arith) k)
]

parse_usize-IsDecimal : (cs : List ℕ) → IsDecimal cs → cs ≢ [] → parse_usize cs ≡ usize_digits 0 cs
unfolding parse_usize
parse_usize-IsDecimal [] h ne = absurd (ne refl)
parse_usize-IsDecimal (c ∷ []) h ne = refl
parse_usize-IsDecimal (c ∷ d ∷ cs) (h, hs) ne = rw (==-false c b'+' (λ e. ground arith))

pub parse_usize-decimal : (n : ℕ) → n < usize_mod → parse_usize (decimal n) ≡ some n
unfolding decimal usize_digits
parse_usize-decimal n h =
    parse_usize-IsDecimal (decimal n) (decimal-IsDecimal n) (decimal-ne-nil n)
    ∙ usize_digits-digits (suc n) n [] (omega arith) h
