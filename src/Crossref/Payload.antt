-- ===== src/Crossref/Payload.antt =====
-- CrossrefLookupMap::lookup: what a payload stands for, its JSON itself or a place in the external
-- file. The parser of JSON (serde_json) is a parameter; `usize` has 64 bits.
use mozsearch.Prelude.{
  ℕ, ◌+◌, ◌*◌, ◌-◌, ◌^◌, ◌&&◌, Option, none, some, List, [], ◌∷◌, leb, ltb, ◌==◌, if◌then◌else◌,
}
use mozsearch.Prelude.Text.{◌>>=◌}
use mozsearch.Crossref.{checked_sub, range, bisect_for_payload}

abbrev pub usize_mod : ℕ
usize_mod = 2 ^ 64

abbrev pub hex_value : ℕ → Option ℕ
hex_value c =
    if leb b'0' c && leb c b'9'
    then some (c - b'0')
    else if leb b'a' c && leb c b'f'
    then some (c - b'a' + 10)
    else if leb b'A' c && leb c b'F'
    then some (c - b'A' + 10)
    else none

-- `usize::from_str_radix(_, 16)`: an optional sign, at least one digit, and no overflow.
unfoldable pub hex_digits : ℕ → List ℕ → Option ℕ
hex_digits acc [] = some acc
hex_digits acc (c ∷ cs) = hex_value c >>= λ d.
    let rest = hex_digits (acc * 16 + d) cs in if ltb (acc * 16 + d) usize_mod then rest else none

unfoldable pub from_hex : List ℕ → Option ℕ
unfolding hex_digits
from_hex [] = none
from_hex (c ∷ []) = hex_digits 0 (c ∷ [])
from_hex (c ∷ d ∷ cs) = if c == b'+' then hex_digits 0 (d ∷ cs) else hex_digits 0 (c ∷ d ∷ cs)

-- `Ok` with null or a value, the error of bad data, or serde_json's.
pub data LookupResult (V : Type 0) : Type 0 where
  null : LookupResult V
  value : V → LookupResult V
  data_error : LookupResult V
  json_error : LookupResult V

-- The bytes in front of the first space, from the second byte on, and what is behind it.
abbrev pub push_byte : ℕ → Option (List ℕ × List ℕ) → Option (List ℕ × List ℕ)
push_byte c none = none
push_byte c (some (a, b)) = some (c ∷ a, b)

abbrev pub at_space : List ℕ → Option (List ℕ × List ℕ)
at_space [] = none
at_space (c ∷ cs) =
    let rest = push_byte c (at_space cs) in if c == b' ' then some ([], cs) else rest

module _ {V : Type 0} (from_slice : List ℕ → Option V) where
  abbrev pub or_null : Option V → LookupResult V
  or_null none = null
  or_null (some v) = value v

  abbrev pub or_error : Option V → LookupResult V
  or_error none = json_error
  or_error (some v) = value v

  -- The two numbers; a number that is not one is an error, but without a space what is behind it
  -- is out of range.
  abbrev pub external_length : List ℕ → ℕ → Option ℕ → Option (LookupResult V)
  external_length extra brace_offset none = some data_error
  external_length extra brace_offset (some length_with_newline) =
      checked_sub (brace_offset + length_with_newline) 1 >>= λ end.
      range extra brace_offset end >>= λ json. some (or_error (from_slice json))

  abbrev pub external_offset : List ℕ → Option (List ℕ) → Option ℕ → Option (LookupResult V)
  external_offset extra behind none = some data_error
  external_offset extra none (some brace_offset) = none
  external_offset extra (some behind) (some brace_offset) =
      external_length extra brace_offset (from_hex behind)

  -- `first` is the byte behind the marker, which the search for a space passes over.
  abbrev pub external : List ℕ → ℕ → List ℕ → Option (List ℕ × List ℕ) → Option (LookupResult V)
  external extra first rest none = external_offset extra none (from_hex (first ∷ rest))
  external extra first rest (some (a, b)) = external_offset extra (some b) (from_hex (first ∷ a))

  unfoldable pub lookup_payload : List ℕ → List ℕ → Option (LookupResult V)
  lookup_payload extra [] = some null
  lookup_payload extra (m ∷ []) = some data_error
  lookup_payload extra (m ∷ c ∷ []) = some data_error
  lookup_payload extra (m ∷ c ∷ d ∷ cs) =
      if m == b':'
      then some (or_null (from_slice (c ∷ d ∷ cs)))
      else if m == b'@'
      then external extra c (d ∷ cs) (at_space (d ∷ cs))
      else some data_error

  unfoldable pub lookup_crossref : List ℕ → List ℕ → List ℕ → Option (LookupResult V)
  lookup_crossref inline extra search =
      bisect_for_payload inline search >>= λ payload. lookup_payload extra payload
