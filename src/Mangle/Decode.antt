-- ===== src/Mangle/Decode.antt =====
-- `mangle_file` can be read back on ASCII, and confuses paths beyond it.
use mozsearch.Prelude.{
  ℕ, ◌+◌, ◌-◌, ◌*◌, ◌/◌, ◌%◌, ◌<◌, ◌≤◌, true, false, List, [], ◌∷◌, ◌++◌, ◌≡◌, refl, ap, sym, ◌∙◌,
  ltb, ◌==◌, if◌then◌else◌, Bool-cases, inl, inr, All, arith, append_assoc, drop, codes,
}
use mozsearch.Mangle.Files.{
  is_safe, first_byte, hex_digit, mangle_char, mangle_file, make_file_sym_from_path,
}

abbrev pub hex_value : ℕ → ℕ
hex_value d = if ltb d b'A' then d - b'0' else d - 55

-- A reader of mangled names: `@` and two digits are a byte.
pub demangle : List ℕ → List ℕ
demangle [] = []
demangle (c ∷ []) = c ∷ []
demangle (c ∷ h ∷ []) = c ∷ h ∷ []
demangle (c ∷ h ∷ l ∷ r) =
    let coded = demangle r in
    let plain = demangle (h ∷ l ∷ r) in
    if c == b'@' then (hex_value h * 16 + hex_value l) ∷ coded else c ∷ plain

abbrev pub IsAscii : List ℕ → Type 0
IsAscii s = All (λ c. c < 128) s

demangle-plain : (c : ℕ) (r : List ℕ) → is_safe c ≡ true → demangle (c ∷ r) ≡ c ∷ demangle r
unfolding demangle
demangle-plain c [] h = refl
demangle-plain c (x ∷ []) h = refl
demangle-plain c (x ∷ y ∷ r) h = ground arith

hex_roundtrip : (d : ℕ) → d < 16 → hex_value (hex_digit d) ≡ d
hex_roundtrip d h = ground arith

demangle-char : (c : ℕ) (r : List ℕ) → c < 128 → demangle (mangle_char c ++ r) ≡ c ∷ demangle r
unfolding mangle_char
demangle-char c r h = elim (Bool-cases (is_safe c)) [
  | inl e ↦ rw e (demangle-plain c r e)
  | inr e ↦
      rw e (
        unfold demangle first_byte in
        ground (arith, hex_roundtrip (c / 16), hex_roundtrip (c % 16)))
]

-- Every ASCII path is read back from its mangled form by a reader that takes `@` and two
-- hexadecimal digits for one byte and every other character for itself.
pub demangle-mangle_file : (path : List ℕ) → IsAscii path → demangle (mangle_file path) ≡ path
unfolding mangle_file
demangle-mangle_file [] h = unfold demangle in refl
demangle-mangle_file (c ∷ path) (h, hs) =
    demangle-char c (mangle_file path) h ∙ ap (λ r. c ∷ r) (demangle-mangle_file path hs)

-- Two ASCII paths with the same file symbol are the same path.
pub make_file_sym_from_path-injective :
    (p q : List ℕ)
    → IsAscii p
    → IsAscii q
    → make_file_sym_from_path p ≡ make_file_sym_from_path q
    → p ≡ q
make_file_sym_from_path-injective p q hp hq e =
    sym (demangle-mangle_file p hp) ∙ ap demangle (same e) ∙ demangle-mangle_file q hq
  where
    same : make_file_sym_from_path p ≡ make_file_sym_from_path q → mangle_file p ≡ mangle_file q
    same e = unfold make_file_sym_from_path in ap (drop 5) e

mangle_file-append : (p q : List ℕ) → mangle_file (p ++ q) ≡ mangle_file p ++ mangle_file q
unfolding mangle_file
mangle_file-append [] q = refl
mangle_file-append (c ∷ p) q =
    ap (λ r. mangle_char c ++ r) (mangle_file-append p q)
    ∙ sym (append_assoc (mangle_char c) (mangle_file p) (mangle_file q))

beyond : (c : ℕ) → 128 ≤ c → is_safe c ≡ false
beyond c h = ground arith

mangle_char_eq :
    (c d : ℕ) → 128 ≤ c → 128 ≤ d → first_byte c ≡ first_byte d → mangle_char c ≡ mangle_char d
unfolding mangle_char
mangle_char_eq c d hc hd e = rw (beyond c hc, beyond d hd, e)

mangle_file-cons :
    (c d : ℕ) (q : List ℕ)
    → mangle_char c ≡ mangle_char d
    → mangle_file (c ∷ q) ≡ mangle_file (d ∷ q)
unfolding mangle_file
mangle_file-cons c d q e = ap (λ r. r ++ mangle_file q) e

-- Two paths that differ in one character beyond ASCII, where both characters' UTF-8 encodings begin
-- with the same byte, have the same file symbol.
pub make_file_sym_from_path_confuses :
    (p q : List ℕ) (c d : ℕ)
    → 128 ≤ c
    → 128 ≤ d
    → first_byte c ≡ first_byte d
    → make_file_sym_from_path (p ++ (c ∷ q)) ≡ make_file_sym_from_path (p ++ (d ∷ q))
unfolding make_file_sym_from_path
make_file_sym_from_path_confuses p q c d hc hd e =
    ap (λ r. codes "FILE_" ++ r)
      (mangle_file-append p (c ∷ q)
        ∙ ap (λ r. mangle_file p ++ r) (mangle_file-cons c d q (mangle_char_eq c d hc hd e))
        ∙ sym (mangle_file-append p (d ∷ q)))
