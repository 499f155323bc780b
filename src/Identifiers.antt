-- ===== src/Identifiers.antt =====
-- tools/src/file_format/identifiers.rs: IdentMap, the lookup in the sorted file of identifiers.
-- The mapped file and the needle are lists of bytes. `none` is a panic: an index out of range, or
-- a position that drops below 0.
pub mod Lines
pub mod Search
pub mod Lookup
pub mod Results
pub mod Wanted
mod Tests
use mozsearch.Prelude.{
  ℕ, zero, suc, ◌+◌, ◌-◌, ◌/◌, Bool, true, false, ◌&&◌, ◌||◌, Option, none, some, List, [], ◌∷◌,
  ◌++◌, map, ltb, leb, ◌==◌, list_eq, if◌then◌else◌, length, get_elem?, drop, take,
}
use mozsearch.Prelude.Text.{◌>>=◌}

-- `u8::to_ascii_uppercase`
abbrev pub to_ascii_uppercase : ℕ → ℕ
to_ascii_uppercase c = if leb b'a' c && leb c b'z' then c - 32 else c

abbrev pub uppercase : List ℕ → List ℕ
uppercase s = map to_ascii_uppercase s

-- `<` of byte strings.
abbrev pub bytes_ltb : List ℕ → List ℕ → Bool
bytes_ltb s [] = false
bytes_ltb [] (b ∷ t) = true
bytes_ltb (a ∷ s) (b ∷ t) = if ltb a b then true else if ltb b a then false else bytes_ltb s t

abbrev pub is_newline : Option ℕ → Bool
is_newline none = false
is_newline (some c) = c == b'\n'

-- `pos`, moved off a newline.
abbrev pub before_newline : ℕ → Option ℕ
before_newline zero = none
before_newline (suc pos) = some pos

unfoldable pub anchor : List ℕ → ℕ → Option ℕ
anchor bytes pos = get_elem? bytes pos >>= λ c. if c == b'\n' then before_newline pos else some pos

-- `while start > 0 && bytes[start - 1] != b'\n' { start -= 1 }`
unfoldable pub line_start : List ℕ → ℕ → ℕ
line_start bytes zero = zero
line_start bytes (suc start) =
    let rest = line_start bytes start in
    if is_newline (get_elem? bytes start) then suc start else rest

-- `while end < size && bytes[end] != b'\n' { end += 1 }`, on the bytes from `end` on.
unfoldable pub line_end : ℕ → List ℕ → ℕ
line_end end [] = end
line_end end (c ∷ cs) = let rest = line_end (suc end) cs in if c == b'\n' then end else rest

-- `&bytes[start..end]`
unfoldable pub slice : List ℕ → ℕ → ℕ → List ℕ
slice bytes start end = take (end - start) (drop start bytes)

unfoldable pub line_around : List ℕ → ℕ → List ℕ
unfolding line_start line_end slice
line_around bytes pos = slice bytes (line_start bytes pos) (line_end pos (drop pos bytes))

unfoldable pub get_line : List ℕ → ℕ → Option (List ℕ)
unfolding anchor line_around
get_line bytes pos = anchor bytes pos >>= λ p. some (line_around bytes p)

-- The needle that lines are compared with.
abbrev pub bound_of : List ℕ → Bool → List ℕ
bound_of needle upper_bound =
    if upper_bound then uppercase needle ++ (b'~' ∷ []) else uppercase needle

-- The test that moves `first` behind a line.
abbrev pub goes_right : List ℕ → Bool → List ℕ → Bool
goes_right bound upper_bound line =
    bytes_ltb (uppercase line) bound || (upper_bound && list_eq (uppercase line) bound)

-- `while count > 0`, on fuel that is more than `count`.
unfoldable pub bisect_loop : (ℕ → Option Bool) → ℕ → ℕ → ℕ → Option ℕ
bisect_loop right zero first count = none
bisect_loop right (suc fuel) first count =
    let step = count / 2 in
    let pos = first + step in
    let after = bisect_loop right fuel (pos + 1) (count - (step + 1)) in
    let before = bisect_loop right fuel first step in
    if count == 0 then some first else right pos >>= λ b. if b then after else before

unfoldable pub bisect : List ℕ → List ℕ → Bool → Option ℕ
unfolding bisect_loop get_line
bisect bytes needle upper_bound =
    bisect_loop
      (λ pos. get_line bytes pos >>= λ line.
        some (goes_right (bound_of needle upper_bound) upper_bound line))
      (suc (length bytes)) 0 (length bytes)
