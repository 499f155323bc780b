-- ===== src/Mangle/Files.antt =====
-- `mangle_file` and `make_file_sym_from_path`. A path is the list of its code points.
use mozsearch.Prelude.{
  ℕ, ◌+◌, ◌/◌, ◌%◌, Bool, ◌||◌, List, [], ◌∷◌, ◌++◌, ltb, ◌==◌, if◌then◌else◌, codes,
}
use mozsearch.Tokenize.{is_lower, is_upper, is_digit}

-- The class `[a-zA-Z0-9_/]`.
abbrev pub is_safe : ℕ → Bool
is_safe c = is_lower c || is_upper c || is_digit c || c == b'_' || c == b'/'

-- `c[0].as_bytes()[0]`: the first byte of the UTF-8 encoding.
unfoldable pub first_byte : ℕ → ℕ
first_byte c =
    if ltb c 0x80
    then c
    else if ltb c 0x800
    then 0xC0 + c / 64
    else if ltb c 0x10000
    then 0xE0 + c / 4096
    else 0xF0 + c / 262144

-- A digit of `{:02X}`.
abbrev pub hex_digit : ℕ → ℕ
hex_digit d = if ltb d 10 then b'0' + d else d + 55

unfoldable pub mangle_char : ℕ → List ℕ
mangle_char c =
    if is_safe c
    then c ∷ []
    else b'@' ∷ hex_digit (first_byte c / 16) ∷ hex_digit (first_byte c % 16) ∷ []

unfoldable pub mangle_file : List ℕ → List ℕ
unfolding mangle_char first_byte
mangle_file [] = []
mangle_file (c ∷ cs) = mangle_char c ++ mangle_file cs

unfoldable pub make_file_sym_from_path : List ℕ → List ℕ
unfolding mangle_file
make_file_sym_from_path path = codes "FILE_" ++ mangle_file path
