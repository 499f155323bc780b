-- ===== src/Crossref/Adjusted.antt =====
-- main of crossref.rs: the lines of a chunk with the places in the second file of all chunks.
use mozsearch.Prelude.{
  ℕ, suc, ◌+◌, ◌-◌, ◌%◌, ◌<◌, ◌≡◌, refl, sym, ap, ◌∙◌, true, false, some, List, [], ◌∷◌, ◌++◌, ◌==◌,
  length, length-append, All, All-append, arith, append_assoc, Bool-cases, inl, inr,
}
use mozsearch.Prelude.Text.{decimal, IsDecimal, decimal-IsDecimal}
use mozsearch.Crossref.Entries.{NoNewline, file}
use mozsearch.Crossref.Payload.{usize_mod}
use mozsearch.Crossref.Hex.{IsPlain, to_hex-IsPlain}
use mozsearch.Crossref.Writer.{hex, id_line, inline_line}
use mozsearch.Crossref.Written.{
  is_external, payload_at_offset, offset_payload, late_payload, extra_text, entries_from, extra_of,
  at_space-plain,
}
use mozsearch.Crossref.Decimal.{parse_usize-decimal}
use mozsearch.Crossref.Merge.{push_to_line, read_lines, adjusted, adjust_line, adjust_lines}

-- The items of all chunks, in their order.
abbrev pub all_of {ℓ} : {A : Type ℓ} → List (List A) → List A
all_of [] = []
all_of (c ∷ cs) = c ++ all_of cs

-- Neither text of an item has a newline.
abbrev pub InLines : List (List ℕ × List ℕ) → Type 0
InLines items = All (λ i. NoNewline i.0 × NoNewline i.1) items

read_lines-line :
    (l rest : List ℕ)
    → NoNewline l
    → read_lines (l ++ (b'\n' ∷ rest)) ≡ (l ++ (b'\n' ∷ [])) ∷ read_lines rest
unfolding read_lines
read_lines-line [] rest h = refl
read_lines-line (c ∷ l) rest (h, hs) = rw h (rw (read_lines-line l rest hs) refl)

-- The lines of a file are adjusted one by one.
adjust_two :
    (k : ℕ) (a b a' b' rest rest' : List ℕ)
    → NoNewline a
    → NoNewline b
    → adjust_line true k (a ++ (b'\n' ∷ [])) ≡ some (a' ++ (b'\n' ∷ []))
    → adjust_line true k (b ++ (b'\n' ∷ [])) ≡ some (b' ++ (b'\n' ∷ []))
    → adjust_lines true k (read_lines rest) ≡ some rest'
    → adjust_lines true k (read_lines (a ++ (b'\n' ∷ (b ++ (b'\n' ∷ rest)))))
      ≡ some (a' ++ (b'\n' ∷ (b' ++ (b'\n' ∷ rest'))))
adjust_two k a b a' b' rest rest' ha hb ea eb er = rw (read_lines-line a (b ++ (b'\n' ∷ rest)) ha) (
    rw (read_lines-line b rest hb) (
      rw ea (
        rw eb (
          rw er (
            ap some (
              append_assoc a' (b'\n' ∷ []) ((b' ++ (b'\n' ∷ [])) ++ rest')
              ∙ ap (λ l. a' ++ (b'\n' ∷ l)) (append_assoc b' (b'\n' ∷ []) rest')))))))

all_of-push_to_line : (c : ℕ) (ls : List (List ℕ)) → all_of (push_to_line c ls) ≡ c ∷ all_of ls
all_of-push_to_line c [] = refl
all_of-push_to_line c (l ∷ ls) = refl

all_of-read_lines : (bytes : List ℕ) → all_of (read_lines bytes) ≡ bytes
unfolding read_lines
all_of-read_lines [] = refl
all_of-read_lines (c ∷ cs) = elim (Bool-cases (c == b'\n')) [
  | inl e ↦ rw e (ap (λ l. c ∷ l) (all_of-read_lines cs))
  | inr e ↦ rw e (all_of-push_to_line c (read_lines cs) ∙ ap (λ l. c ∷ l) (all_of-read_lines cs))
]

all_kept : (k : ℕ) (ls : List (List ℕ)) → adjust_lines false k ls ≡ some (all_of ls)
unfolding adjust_line
all_kept k [] = refl
all_kept k (l ∷ ls) = rw (all_kept k ls) refl

-- In the first chunk every line is kept.
pub adjust_lines-first :
    (k : ℕ) (bytes : List ℕ) → adjust_lines false k (read_lines bytes) ≡ some bytes
adjust_lines-first k bytes = all_kept k (read_lines bytes) ∙ ap some (all_of-read_lines bytes)

-- Of a later chunk too, if the line is an identifier's or has the value itself.
id_kept : (k : ℕ) (l : List ℕ) → adjust_line true k (b'!' ∷ l) ≡ some (b'!' ∷ l)
unfolding adjust_line
id_kept k [] = refl
id_kept k (c ∷ l) = refl

inline_kept : (k : ℕ) (l : List ℕ) → adjust_line true k (b':' ∷ l) ≡ some (b':' ∷ l)
unfolding adjust_line
inline_kept k [] = refl
inline_kept k (c ∷ l) = refl

IsDecimal-IsPlain : (cs : List ℕ) → IsDecimal cs → All IsPlain cs
IsDecimal-IsPlain [] h = tt
IsDecimal-IsPlain (c ∷ cs) (h, hs) = (
  record { no_plus = ground arith; no_space = ground arith; no_newline = ground arith },
  IsDecimal-IsPlain cs hs,
)

late_front : (n : ℕ) → All IsPlain (b'@' ∷ b'!' ∷ decimal n)
late_front n = (
  record { no_plus = refl; no_space = refl; no_newline = refl },
  (
    record { no_plus = refl; no_space = refl; no_newline = refl },
    IsDecimal-IsPlain (decimal n) (decimal-IsDecimal n),
  ),
)

late_read :
    (k n : ℕ) (behind : List ℕ)
    → n + k < usize_mod
    → adjust_line true k ((b'@' ∷ b'!' ∷ decimal n) ++ (b' ' ∷ behind))
      ≡ some ((b'@' ∷ hex (n + k)) ++ (b' ' ∷ behind))
unfolding adjust_line
late_read k n behind h =
    let same : (n + k) % usize_mod ≡ n + k = omega arith in
    ap (adjusted k) (at_space-plain (b'@' ∷ b'!' ∷ decimal n) behind (late_front n))
    ∙ rw (parse_usize-decimal n (omega arith))
        (ap (λ i. some ((b'@' ∷ hex i) ++ (b' ' ∷ behind))) same)

late_adjusted :
    (k offset : ℕ) (id json : List ℕ)
    → k + offset + length (id_line id) + 1 < usize_mod
    → adjust_line true k (late_payload offset id json ++ (b'\n' ∷ []))
      ≡ some (offset_payload (k + offset) id json ++ (b'\n' ∷ []))
late_adjusted k offset id json h =
    let n = offset + length (id_line id) + 1 in
    let size = hex (length (inline_line json) - 1) in
    let sum : n + k ≡ k + offset + length (id_line id) + 1 = omega arith in
    ap (adjust_line true k) (append_assoc (b'@' ∷ b'!' ∷ decimal n) (b' ' ∷ size) (b'\n' ∷ []))
    ∙ late_read k n (size ++ (b'\n' ∷ [])) (omega (arith, h))
    ∙ ap (λ i. some ((b'@' ∷ hex i) ++ (b' ' ∷ (size ++ (b'\n' ∷ []))))) sum
    ∙ ap some (
        sym (
          append_assoc (b'@' ∷ hex (k + offset + length (id_line id) + 1)) (b' ' ∷ size)
            (b'\n' ∷ [])))

-- The payload line of a later chunk is that of the file as a whole.
payload_adjusted :
    (k offset : ℕ) (id json : List ℕ)
    → k + offset + length (extra_text id json) < usize_mod
    → adjust_line true k (payload_at_offset false offset id json ++ (b'\n' ∷ []))
      ≡ some (payload_at_offset true (k + offset) id json ++ (b'\n' ∷ []))
payload_adjusted k offset id json h = elim (Bool-cases (is_external json)) [
  | inl q ↦
      let size : length (extra_text id json) ≡ length (id_line id) + length (inline_line json) =
        rw q (length-append (id_line id) (inline_line json)) in
      rw q (late_adjusted k offset id json (omega (arith, h, size)))
  | inr q ↦ rw q (inline_kept k (json ++ (b'\n' ∷ [])))
]

pub NoNewline-plain : (cs : List ℕ) → All IsPlain cs → NoNewline cs
NoNewline-plain [] h = tt
NoNewline-plain (c ∷ cs) (h, hs) = (h.no_newline, NoNewline-plain cs hs)

payload-NoNewline :
    (offset : ℕ) (id json : List ℕ)
    → NoNewline json
    → NoNewline (payload_at_offset false offset id json)
payload-NoNewline offset id json h =
    let n = offset + length (id_line id) + 1 in
    let size = length (inline_line json) - 1 in
    elim (Bool-cases (is_external json)) [
      | inl q ↦ rw q (
          All-append (λ c. (c == b'\n') ≡ false) (b'@' ∷ b'!' ∷ decimal n) (b' ' ∷ hex size)
            (NoNewline-plain (b'@' ∷ b'!' ∷ decimal n) (late_front n))
            (refl, NoNewline-plain (hex size) (to_hex-IsPlain (suc size) size [] tt)))
      | inr q ↦ rw q (refl, h)
    ]

-- All lines of a later chunk.
pub entries_adjusted :
    (k offset : ℕ) (items : List (List ℕ × List ℕ))
    → InLines items
    → k + offset + length (extra_of items) < usize_mod
    → adjust_lines true k (read_lines (file (entries_from false offset items)))
      ≡ some (file (entries_from true (k + offset) items))
unfolding read_lines
entries_adjusted k offset [] w h = refl
entries_adjusted k offset ((id, json) ∷ items) (w, ws) h =
    let more = length (extra_text id json) in
    let size = length-append (extra_text id json) (extra_of items) in
    let rest = entries_adjusted k (offset + more) items ws (omega (arith, h, size)) in
    adjust_two k (b'!' ∷ id) (payload_at_offset false offset id json) (b'!' ∷ id)
      (payload_at_offset true (k + offset) id json)
      (file (entries_from false (offset + more) items))
      (file (entries_from true (k + offset + more) items)) (refl, w.0)
      (payload-NoNewline offset id json w.1) (id_kept k (id ++ (b'\n' ∷ [])))
      (payload_adjusted k offset id json (omega (arith, h, size)))
      (rest ∙ ap (λ i. some (file (entries_from true i items))) (omega arith))
