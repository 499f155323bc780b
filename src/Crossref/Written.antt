-- ===== src/Crossref/Written.antt =====
-- What write_inline_and_ext writes, as entries of a file that CrossrefLookupMap reads.
use mozsearch.Prelude.{
  ℕ, suc, ◌+◌, ◌-◌, ◌≤◌, ◌<◌, ◌≡◌, refl, sym, ap, subst, ◌∙◌, Bool, true, Option, some, List, [],
  ◌∷◌, ◌++◌, leb, if◌then◌else◌, length, length-append, All, arith, append_assoc, Bool-cases, inl,
  inr,
}
use mozsearch.Prelude.Text.{decimal}
use mozsearch.Crossref.{checked_sub, range}
use mozsearch.Crossref.Entries.{Entry}
use mozsearch.Crossref.IdLine.{range-middle, checked_sub-add}
use mozsearch.Crossref.Payload.{
  usize_mod, value, or_error, at_space, from_hex, external_offset, external, lookup_payload,
}
use mozsearch.Crossref.Hex.{IsPlain, IsHex, to_hex-IsHex}
use mozsearch.Crossref.Writer.{external_storage_threshold, hex, id_line, inline_line}

-- The payload of an item that is written when the second file has so many bytes, and what it adds
-- to that file.
abbrev pub is_external : List ℕ → Bool
is_external json = leb external_storage_threshold (length (inline_line json))

abbrev pub offset_payload : ℕ → List ℕ → List ℕ → List ℕ
offset_payload offset id json =
    b'@' ∷ (hex (offset + length (id_line id) + 1) ++ (b' ' ∷ hex (length (inline_line json) - 1)))

-- A later chunk counts from its own beginning, in decimal.
abbrev pub late_payload : ℕ → List ℕ → List ℕ → List ℕ
late_payload offset id json =
    b'@'
    ∷ b'!'
    ∷ (decimal (offset + length (id_line id) + 1) ++ (b' ' ∷ hex (length (inline_line json) - 1)))

abbrev pub payload_at_offset : Bool → ℕ → List ℕ → List ℕ → List ℕ
payload_at_offset first offset id json =
    if is_external json
    then (if first then offset_payload offset id json else late_payload offset id json)
    else b':' ∷ json

abbrev pub extra_text : List ℕ → List ℕ → List ℕ
extra_text id json = if is_external json then id_line id ++ inline_line json else []

abbrev pub entries_from : Bool → ℕ → List (List ℕ × List ℕ) → List Entry
entries_from first offset [] = []
entries_from first offset ((id, json) ∷ items) =
    record { symbol = id; payload = payload_at_offset first offset id json }
    ∷ entries_from first (offset + length (extra_text id json)) items

abbrev pub extra_of : List (List ℕ × List ℕ) → List ℕ
extra_of [] = []
extra_of ((id, json) ∷ items) = extra_text id json ++ extra_of items

-- The bytes behind the space are found.
pub at_space-plain : (cs q : List ℕ) → All IsPlain cs → at_space (cs ++ (b' ' ∷ q)) ≡ some (cs, q)
at_space-plain [] q h = refl
at_space-plain (c ∷ cs) q (h, hs) = rw h.no_space (rw (at_space-plain cs q hs) refl)

module _ {V : Type 0} (from_slice : List ℕ → Option V) where
  external_payload :
      (extra : List ℕ) (c : ℕ) (hb q : List ℕ)
      → lookup_payload from_slice extra (b'@' ∷ c ∷ (hb ++ (b' ' ∷ q)))
        ≡ external from_slice extra c (hb ++ (b' ' ∷ q)) (at_space (hb ++ (b' ' ∷ q)))
  unfolding lookup_payload
  external_payload extra c [] q = refl
  external_payload extra c (h ∷ hb) q = refl

  -- Two numbers are read, and the JSON at their place.
  pub lookup_payload-numbers :
      (extra : List ℕ) (b n : ℕ) (hb hn json : List ℕ)
      → IsHex b hb
      → IsHex (suc n) hn
      → range extra b (b + n) ≡ some json
      → lookup_payload from_slice extra (b'@' ∷ (hb ++ (b' ' ∷ hn)))
        ≡ some (or_error from_slice (from_slice json))
  lookup_payload-numbers extra b n hb hn json x y r =
      let c = x.first in
      let cs = x.rest in
      let plain : All IsPlain cs = (subst (All IsPlain) x.text_eq x.plain).1 in
      let read : from_hex (c ∷ cs) ≡ some b = ap from_hex (sym x.text_eq) ∙ x.read in
      let back : checked_sub (b + suc n) 1 ≡ some (b + n) =
        subst (λ i. checked_sub i 1 ≡ some (b + n)) (omega arith) (checked_sub-add 1 (b + n)) in
      subst
        (λ l.
          lookup_payload from_slice extra (b'@' ∷ (l ++ (b' ' ∷ hn)))
          ≡ some (or_error from_slice (from_slice json)))
        (sym x.text_eq)
        (external_payload extra c cs hn
          ∙ ap (external from_slice extra c (cs ++ (b' ' ∷ hn))) (at_space-plain cs hn plain)
          ∙ ap (external_offset from_slice extra (some hn)) read
          ∙ rw y.read (rw back (rw r refl)))

  inline_payload :
      (extra json : List ℕ) (v : V)
      → 2 ≤ length json
      → from_slice json ≡ some v
      → lookup_payload from_slice extra (b':' ∷ json) ≡ some (value v)
  unfolding lookup_payload
  inline_payload extra [] v h e = absurd (omega (arith, h))
  inline_payload extra (c ∷ []) v h e = absurd (omega (arith, h))
  inline_payload extra (c ∷ d ∷ cs) v h e = rw e refl

  -- An external payload leads to the JSON in the second file.
  external_json :
      (p id json tail : List ℕ)
      → length p + length (id_line id) + length (inline_line json) < usize_mod
      → lookup_payload from_slice
          (p ++ ((id_line id ++ inline_line json) ++ tail))
          (offset_payload (length p) id json)
        ≡ some (or_error from_slice (from_slice json))
  external_json p id json tail h =
      let extra = p ++ ((id_line id ++ inline_line json) ++ tail) in
      let front = (p ++ id_line id) ++ (b':' ∷ []) in
      let more = b'\n' ∷ tail in
      let b = length p + length (id_line id) + 1 in
      let n = length json in
      let size : length (inline_line json) ≡ n + 2 =
        omega (arith, length-append json (b'\n' ∷ [])) in
      let size_front : b ≡ length front =
        omega (arith, length-append (p ++ id_line id) (b':' ∷ []), length-append p (id_line id)) in
      let same : extra ≡ front ++ (json ++ more) =
        ap (λ l. p ++ l) (append_assoc (id_line id) (inline_line json) tail)
        ∙ sym (append_assoc p (id_line id) (inline_line json ++ tail))
        ∙ ap (λ l. (p ++ id_line id) ++ (b':' ∷ l)) (append_assoc json (b'\n' ∷ []) tail)
        ∙ sym (append_assoc (p ++ id_line id) (b':' ∷ []) (json ++ more)) in
      let found : range extra b (b + n) ≡ some json =
        subst (λ l. range l b (b + n) ≡ some json) (sym same)
          (range-middle front json more b (b + n) size_front (omega (arith, size_front))) in
      let length_hex : IsHex (suc n) (hex (length (inline_line json) - 1)) =
        subst (λ i. IsHex (suc n) (hex i)) (omega (arith, size))
          (to_hex-IsHex (suc n) (omega (arith, h, size))) in
      lookup_payload-numbers extra b n (hex b) (hex (length (inline_line json) - 1)) json
        (to_hex-IsHex b (omega (arith, h, size))) length_hex found

  -- What is written of an item is read back from the two files.
  pub item_read :
      (p id json tail extra : List ℕ) (v : V)
      → extra ≡ p ++ (extra_text id json ++ tail)
      → length extra < usize_mod
      → 2 ≤ length json
      → from_slice json ≡ some v
      → lookup_payload from_slice extra (payload_at_offset true (length p) id json) ≡ some (value v)
  item_read p id json tail extra v e h two parsed = elim (Bool-cases (is_external json)) [
    | inl q ↦
        let e' : extra ≡ p ++ ((id_line id ++ inline_line json) ++ tail) = e ∙ rw q refl in
        rw q (
          subst
            (λ l. lookup_payload from_slice l (offset_payload (length p) id json) ≡ some (value v))
            (sym e')
            (external_json p id json tail (
                omega (
                  arith,
                  h,
                  ap length e',
                  length-append p ((id_line id ++ inline_line json) ++ tail),
                  length-append (id_line id ++ inline_line json) tail,
                  length-append (id_line id) (inline_line json),
                ))
              ∙ rw parsed refl))
    | inr q ↦ rw q (inline_payload extra json v two parsed)
  ]
