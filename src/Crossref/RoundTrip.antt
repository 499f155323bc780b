-- ===== src/Crossref/RoundTrip.antt =====
-- write_inline_and_ext and CrossrefLookupMap::lookup: what is written is looked up.
use mozsearch.Prelude.{
  ℕ, suc, ◌+◌, ◌-◌, ◌≤◌, ◌<◌, ◌≡◌, refl, sym, ap, subst, ◌∙◌, true, false, Option, some, List, [],
  ◌∷◌, ◌++◌, ◌==◌, list_eq, if◌then◌else◌, if-elim, length, length-append, All, All-append,
  append_assoc, Bool-cases, inl, inr,
}
use mozsearch.Identifiers.{bytes_ltb}
use mozsearch.Crossref.Entries.{IsEntry, NoNewline, file, IsSorted, payload_of}
use mozsearch.Crossref.Bisect.{bisect_for_payload-payload_of}
use mozsearch.Crossref.Payload.{
  usize_mod, LookupResult, null, value, lookup_payload, lookup_crossref,
}
use mozsearch.Crossref.Hex.{to_hex-IsPlain}
use mozsearch.Crossref.Merge.{merge_chunks, merge_extra, write_chunks}
use mozsearch.Crossref.Adjusted.{all_of, InLines, NoNewline-plain}
use mozsearch.Crossref.Merged.{merge_chunks-write_all}
use mozsearch.Crossref.Chunk.{write_all-out, write_all-ext_out}
use mozsearch.Crossref.Writer.{no_files, hex, id_line, inline_line, write_all}
use mozsearch.Crossref.Written.{
  is_external, payload_at_offset, extra_text, entries_from, extra_of, item_read,
}

payload_at_offset-IsEntry :
    (offset : ℕ) (id json : List ℕ)
    → NoNewline id
    → NoNewline json
    → IsEntry (record { symbol = id; payload = payload_at_offset true offset id json })
payload_at_offset-IsEntry offset id json hi hj =
    let b = offset + length (id_line id) + 1 in
    let n = length (inline_line json) - 1 in
    if-elim (λ payload. IsEntry (record { symbol = id; payload = payload })) (is_external json)
      (λ q. record {
        first = b'@';
        rest = hex b ++ (b' ' ∷ hex n);
        payload_eq = refl;
        not_id = refl;
        one_line = hi;
        payload_line = (
          refl,
          All-append (λ c. (c == b'\n') ≡ false) (hex b) (b' ' ∷ hex n)
              (NoNewline-plain (hex b) (to_hex-IsPlain (suc b) b [] tt))
              (refl, NoNewline-plain (hex n) (to_hex-IsPlain (suc n) n [] tt)),
        );
      })
      (λ q. record {
        first = b':';
        rest = json;
        payload_eq = refl;
        not_id = refl;
        one_line = hi;
        payload_line = (refl, hj);
      })

module _ {V : Type 0} (to_json : V → List ℕ) (from_slice : List ℕ → Option V) where
  abbrev pub texts : List (List ℕ × V) → List (List ℕ × List ℕ)
  texts [] = []
  texts ((id, v) ∷ items) = (id, to_json v) ∷ texts items

  -- A symbol without a newline, and a value whose text has none, is no single byte, and is read
  -- back by the parser.
  pub record IsItem (item : List ℕ × V) : Type 0 where
    pub one_line : NoNewline item.0
    pub json_line : NoNewline (to_json item.1)
    pub two_bytes : 2 ≤ length (to_json item.1)
    pub parsed : from_slice (to_json item.1) ≡ some item.1

  abbrev pub IsAscending : List (List ℕ × V) → Type 0
  IsAscending [] = Unit {0}
  IsAscending (x ∷ items) = All (λ y. bytes_ltb x.0 y.0 ≡ true) items × IsAscending items

  -- The value of a symbol, and null if it has none.
  abbrev pub value_of : List ℕ → List (List ℕ × V) → LookupResult V
  value_of search [] = null
  value_of search ((id, v) ∷ items) = if list_eq id search then value v else value_of search items

  entries-IsEntry :
      (offset : ℕ) (items : List (List ℕ × V))
      → All IsItem items
      → All IsEntry (entries_from true offset (texts items))
  entries-IsEntry offset [] h = tt
  entries-IsEntry offset ((id, v) ∷ items) (h, hs) = (
    payload_at_offset-IsEntry offset id (to_json v) h.one_line h.json_line,
    entries-IsEntry (offset + length (extra_text id (to_json v))) items hs,
  )

  entries_above :
      (id : List ℕ) (offset : ℕ) (items : List (List ℕ × V))
      → All (λ y. bytes_ltb id y.0 ≡ true) items
      → All (λ f. bytes_ltb id f.symbol ≡ true) (entries_from true offset (texts items))
  entries_above id offset [] h = tt
  entries_above id offset ((k, v) ∷ items) (h, hs) =
      (h, entries_above id (offset + length (extra_text k (to_json v))) items hs)

  entries-IsSorted :
      (offset : ℕ) (items : List (List ℕ × V))
      → IsAscending items
      → IsSorted (entries_from true offset (texts items))
  entries-IsSorted offset [] h = tt
  entries-IsSorted offset ((id, v) ∷ items) (h, hs) =
      let next = offset + length (extra_text id (to_json v)) in
      (entries_above id next items h, entries-IsSorted next items hs)

  entries_read :
      (search p : List ℕ) (items : List (List ℕ × V)) (extra : List ℕ)
      → extra ≡ p ++ extra_of (texts items)
      → length extra < usize_mod
      → All IsItem items
      → lookup_payload from_slice extra
          (payload_of search (entries_from true (length p) (texts items)))
        ≡ some (value_of search items)
  unfolding lookup_payload
  entries_read search p [] extra e h w = refl
  entries_read search p ((id, v) ∷ items) extra e h (w, ws) =
      elim (Bool-cases (list_eq id search)) [
        | inl q ↦ rw q (
            item_read from_slice p id (to_json v) (extra_of (texts items)) extra v e h w.two_bytes
              w.parsed)
        | inr q ↦
            let more = extra_text id (to_json v) in
            rw q (
              subst
                (λ n.
                  lookup_payload from_slice extra
                    (payload_of search (entries_from true n (texts items)))
                  ≡ some (value_of search items))
                (length-append p more)
                (entries_read search (p ++ more) items extra
                  (e ∙ sym (append_assoc p more (extra_of (texts items)))) h ws))
      ]

  -- What one thread writes is looked up.
  lookup_crossref-write_all :
      (items : List (List ℕ × V)) (search : List ℕ)
      → All IsItem items
      → IsAscending items
      → length (write_all true (texts items) no_files).ext_out < usize_mod
      → lookup_crossref from_slice
          (write_all true (texts items) no_files).out
          (write_all true (texts items) no_files).ext_out
          search
        ≡ some (value_of search items)
  unfolding lookup_crossref
  lookup_crossref-write_all items search w o h =
      let f = no_files in
      let es = entries_from true 0 (texts items) in
      let extra = (write_all true (texts items) f).ext_out in
      let found =
        bisect_for_payload-payload_of es search (entries-IsEntry 0 items w)
          (entries-IsSorted 0 items o) in
      let out_eq : (write_all true (texts items) f).out ≡ file es =
        write_all-out true (texts items) f in
      let read = entries_read search [] items extra (write_all-ext_out true (texts items) f) h w in
      rw out_eq (rw found read)

  abbrev pub chunk_texts : List (List (List ℕ × V)) → List (List (List ℕ × List ℕ))
  chunk_texts [] = []
  chunk_texts (c ∷ cs) = texts c ∷ chunk_texts cs

  texts-append : (xs ys : List (List ℕ × V)) → texts (xs ++ ys) ≡ texts xs ++ texts ys
  texts-append [] ys = refl
  texts-append ((id, v) ∷ xs) ys = ap (λ l. (id, to_json v) ∷ l) (texts-append xs ys)

  all_of-chunk_texts :
      (chunks : List (List (List ℕ × V))) → all_of (chunk_texts chunks) ≡ texts (all_of chunks)
  all_of-chunk_texts [] = refl
  all_of-chunk_texts (c ∷ cs) =
      ap (λ l. texts c ++ l) (all_of-chunk_texts cs) ∙ sym (texts-append c (all_of cs))

  texts-InLines : (items : List (List ℕ × V)) → All IsItem items → InLines (texts items)
  texts-InLines [] h = tt
  texts-InLines (x ∷ items) (h, hs) = ((h.one_line, h.json_line), texts-InLines items hs)

  chunks-InLines :
      (chunks : List (List (List ℕ × V)))
      → All (All IsItem) chunks
      → All InLines (chunk_texts chunks)
  chunks-InLines [] h = tt
  chunks-InLines (c ∷ cs) (h, hs) = (texts-InLines c h, chunks-InLines cs hs)

  all_of-IsItem :
      (chunks : List (List (List ℕ × V))) → All (All IsItem) chunks → All IsItem (all_of chunks)
  all_of-IsItem [] h = tt
  all_of-IsItem (c ∷ cs) (h, hs) = All-append IsItem c (all_of cs) h (all_of-IsItem cs hs)

  -- Values under symbols in ascending order are divided into chunks in any way, a thread writes
  -- the two files of each chunk by `write_inline_and_ext`, and the files are merged. Then the merge
  -- does not panic, and `lookup` finds in the two merged files the value of a symbol, whether it is
  -- stored inline or externally, and null for any other symbol, without a panic or an error; if
  -- symbols and values have no newline, values have two bytes or more, the parser reads them back,
  -- and the second file, as one thread writes it, has fewer than 2^64 bytes.
  pub lookup_crossref-merge_chunks :
      (chunks : List (List (List ℕ × V))) (search : List ℕ)
      → All (All IsItem) chunks
      → IsAscending (all_of chunks)
      → length (write_all true (texts (all_of chunks)) no_files).ext_out < usize_mod
      → (out : List ℕ) × (merge_chunks (write_chunks (chunk_texts chunks)) ≡ some out)
        × (lookup_crossref from_slice out (merge_extra (write_chunks (chunk_texts chunks))) search
            ≡ some (value_of search (all_of chunks)))
  lookup_crossref-merge_chunks chunks search w o h =
      let same = all_of-chunk_texts chunks in
      let one = write_all true (texts (all_of chunks)) no_files in
      let m =
        merge_chunks-write_all (chunk_texts chunks) (chunks-InLines chunks w)
          (subst (λ l. length (write_all true l no_files).ext_out < usize_mod) (sym same) h) in
      let extra : merge_extra (write_chunks (chunk_texts chunks)) ≡ one.ext_out =
        m.1 ∙ ap (λ l. (write_all true l no_files).ext_out) same in
      (
        one.out,
        m.0 ∙ ap (λ l. some (write_all true l no_files).out) same,
        ap (λ l. lookup_crossref from_slice one.out l search) extra
            ∙ lookup_crossref-write_all (all_of chunks) search (all_of-IsItem chunks w) o h,
      )
