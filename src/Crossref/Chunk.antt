-- ===== src/Crossref/Chunk.antt =====
-- write_inline_and_ext: the two files after the items of a chunk.
use mozsearch.Prelude.{
  ℕ, ◌+◌, ◌-◌, ◌≡◌, sym, ap, ◌∙◌, Bool, true, false, List, [], ◌∷◌, ◌++◌, length, length-append,
  arith, append_assoc, append-nil, Bool-cases, inl, inr,
}
use mathlib.Core.Path.{Path}
use mozsearch.Prelude.Text.{decimal}
use mozsearch.Crossref.Entries.{Entry, entry_text, file, entry_text-append}
use mozsearch.Crossref.Writer.{Files, hex, id_line, inline_line, write_inline_and_ext, write_all}
use mozsearch.Crossref.Written.{
  is_external, payload_at_offset, offset_payload, late_payload, extra_text, entries_from, extra_of,
}

files_eq :
    {a a' b b' : List ℕ} {c c' : ℕ}
    → a ≡ a'
    → b ≡ b'
    → c ≡ c'
    → Path Files
        (record { out = a; ext_out = b; ext_offset = c })
        (record { out = a'; ext_out = b'; ext_offset = c' })
files_eq p q r = λ i. record { out = p i; ext_out = q i; ext_offset = r i }

two_lines :
    (out id payload : List ℕ)
    → (out ++ id_line id) ++ (payload ++ (b'\n' ∷ []))
      ≡ out ++ entry_text (record { symbol = id; payload = payload }) []
two_lines out id payload =
    append_assoc out (id_line id) (payload ++ (b'\n' ∷ []))
    ∙ ap (λ l. out ++ l) (append_assoc (b'!' ∷ id) (b'\n' ∷ []) (payload ++ (b'\n' ∷ [])))

-- Both lines of an item that is external, with the numbers in the first file.
external_files :
    (id json payload number : List ℕ) (f : Files)
    → number ≡ payload ++ (b'\n' ∷ [])
    → Path Files
        (record {
          out = (f.out ++ id_line id) ++ number;
          ext_out = (f.ext_out ++ id_line id) ++ inline_line json;
          ext_offset = f.ext_offset + length (id_line id) + length (inline_line json);
        })
        (record {
          out = f.out ++ entry_text (record { symbol = id; payload = payload }) [];
          ext_out = f.ext_out ++ (id_line id ++ inline_line json);
          ext_offset = f.ext_offset + length (id_line id ++ inline_line json);
        })
external_files id json payload number f e =
    files_eq (ap (λ l. (f.out ++ id_line id) ++ l) e ∙ two_lines f.out id payload)
      (append_assoc f.ext_out (id_line id) (inline_line json))
      (omega (arith, length-append (id_line id) (inline_line json)))

-- The two files after an item is written.
write_one :
    (first : Bool) (id json : List ℕ) (f : Files)
    → write_inline_and_ext first id json f ≡ record {
      out =
          f.out
          ++ entry_text
              (record { symbol = id; payload = payload_at_offset first f.ext_offset id json })
              [];
      ext_out = f.ext_out ++ extra_text id json;
      ext_offset = f.ext_offset + length (extra_text id json);
    }
unfolding write_inline_and_ext
write_one true id json f = elim (Bool-cases (is_external json)) [
  | inl q ↦
      let b = hex (f.ext_offset + length (id_line id) + 1) in
      let n = hex (length (inline_line json) - 1) in
      rw q (
        external_files id json (offset_payload f.ext_offset id json)
          (b'@' ∷ (b ++ (b' ' ∷ (n ++ (b'\n' ∷ []))))) f
          (sym (append_assoc (b'@' ∷ b) (b' ' ∷ n) (b'\n' ∷ []))))
  | inr q ↦
      rw q (files_eq (two_lines f.out id (b':' ∷ json)) (sym (append-nil f.ext_out)) (omega arith))
]
write_one false id json f = elim (Bool-cases (is_external json)) [
  | inl q ↦
      let b = decimal (f.ext_offset + length (id_line id) + 1) in
      let n = hex (length (inline_line json) - 1) in
      rw q (
        external_files id json (late_payload f.ext_offset id json)
          (b'@' ∷ b'!' ∷ (b ++ (b' ' ∷ (n ++ (b'\n' ∷ []))))) f
          (sym (append_assoc (b'@' ∷ b'!' ∷ b) (b' ' ∷ n) (b'\n' ∷ []))))
  | inr q ↦
      rw q (files_eq (two_lines f.out id (b':' ∷ json)) (sym (append-nil f.ext_out)) (omega arith))
]

pub write_all-out :
    (first : Bool) (items : List (List ℕ × List ℕ)) (f : Files)
    → (write_all first items f).out ≡ f.out ++ file (entries_from first f.ext_offset items)
unfolding write_all
write_all-out first [] f = sym (append-nil f.out)
write_all-out first ((id, json) ∷ items) f =
    let e : Entry = record {
      symbol = id;
      payload = payload_at_offset first f.ext_offset id json;
    } in
    let one = write_one first id json f in
    let rest = file (entries_from first (f.ext_offset + length (extra_text id json)) items) in
    ap (λ g. (write_all first items g).out) one
    ∙ write_all-out first items (record {
      out = f.out ++ entry_text e [];
      ext_out = f.ext_out ++ extra_text id json;
      ext_offset = f.ext_offset + length (extra_text id json);
    })
    ∙ append_assoc f.out (entry_text e []) rest
    ∙ ap (λ l. f.out ++ l) (sym (entry_text-append e [] rest))

pub write_all-ext_out :
    (first : Bool) (items : List (List ℕ × List ℕ)) (f : Files)
    → (write_all first items f).ext_out ≡ f.ext_out ++ extra_of items
unfolding write_all
write_all-ext_out first [] f = sym (append-nil f.ext_out)
write_all-ext_out first ((id, json) ∷ items) f =
    let e : Entry = record {
      symbol = id;
      payload = payload_at_offset first f.ext_offset id json;
    } in
    ap (λ g. (write_all first items g).ext_out) (write_one first id json f)
    ∙ write_all-ext_out first items (record {
      out = f.out ++ entry_text e [];
      ext_out = f.ext_out ++ extra_text id json;
      ext_offset = f.ext_offset + length (extra_text id json);
    })
    ∙ append_assoc f.ext_out (extra_text id json) (extra_of items)

pub write_all-ext_offset :
    (first : Bool) (items : List (List ℕ × List ℕ)) (f : Files)
    → (write_all first items f).ext_offset ≡ f.ext_offset + length (extra_of items)
unfolding write_all
write_all-ext_offset first [] f = omega arith
write_all-ext_offset first ((id, json) ∷ items) f =
    let e : Entry = record {
      symbol = id;
      payload = payload_at_offset first f.ext_offset id json;
    } in
    let next : Files = record {
      out = f.out ++ entry_text e [];
      ext_out = f.ext_out ++ extra_text id json;
      ext_offset = f.ext_offset + length (extra_text id json);
    } in
    ap (λ g. (write_all first items g).ext_offset) (write_one first id json f)
    ∙ write_all-ext_offset first items next
    ∙ omega (arith, length-append (extra_text id json) (extra_of items))
