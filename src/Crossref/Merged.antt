-- ===== src/Crossref/Merged.antt =====
-- main of crossref.rs: the merge of the chunks gives the entries of all items in one file.
use mozsearch.Prelude.{
  ℕ, ◌+◌, ◌%◌, ◌<◌, ◌≡◌, refl, sym, ap, ◌∙◌, Bool, true, false, some, List, [], ◌∷◌, ◌++◌, length,
  length-append, All, arith, append_assoc,
}
use mozsearch.Crossref.Entries.{file, file-append}
use mozsearch.Crossref.Payload.{usize_mod}
use mozsearch.Crossref.Writer.{no_files, write_all}
use mozsearch.Crossref.Written.{payload_at_offset, extra_text, entries_from, extra_of}
use mozsearch.Crossref.Chunk.{write_all-out, write_all-ext_out, write_all-ext_offset}
use mozsearch.Crossref.Merge.{
  read_lines, adjust_lines, merge_from, merge_chunks, merge_extra, write_from, write_chunks,
}
use mozsearch.Crossref.Adjusted.{all_of, InLines, adjust_lines-first, entries_adjusted}

entries_from-append :
    (offset : ℕ) (xs ys : List (List ℕ × List ℕ))
    → entries_from true offset (xs ++ ys)
      ≡ entries_from true offset xs ++ entries_from true (offset + length (extra_of xs)) ys
entries_from-append offset [] ys = ap (λ i. entries_from true i ys) (omega arith)
entries_from-append offset ((id, json) ∷ xs) ys =
    let more = extra_text id json in
    ap (λ l. record { symbol = id; payload = payload_at_offset true offset id json } ∷ l)
      (entries_from-append (offset + length more) xs ys
        ∙ ap (λ i. entries_from true (offset + length more) xs ++ entries_from true i ys)
            (omega (arith, length-append more (extra_of xs))))

extra_of-append :
    (xs ys : List (List ℕ × List ℕ)) → extra_of (xs ++ ys) ≡ extra_of xs ++ extra_of ys
extra_of-append [] ys = refl
extra_of-append ((id, json) ∷ xs) ys =
    ap (λ l. extra_text id json ++ l) (extra_of-append xs ys)
    ∙ sym (append_assoc (extra_text id json) (extra_of xs) (extra_of ys))

first_chunk :
    (c : List (List ℕ × List ℕ))
    → adjust_lines false 0 (read_lines (write_all true c no_files).out)
      ≡ some (file (entries_from true 0 c))
first_chunk c =
    adjust_lines-first 0 (write_all true c no_files).out ∙ ap some (write_all-out true c no_files)

later_chunk :
    (total : ℕ) (c : List (List ℕ × List ℕ))
    → InLines c
    → total + length (extra_of c) < usize_mod
    → adjust_lines true total (read_lines (write_all false c no_files).out)
      ≡ some (file (entries_from true total c))
later_chunk total c w h =
    ap (λ l. adjust_lines true total (read_lines l)) (write_all-out false c no_files)
    ∙ entries_adjusted total 0 c w (omega (arith, h))
    ∙ ap (λ i. some (file (entries_from true i c))) (omega arith)

next_total :
    (first : Bool) (total : ℕ) (c : List (List ℕ × List ℕ))
    → total + length (extra_of c) < usize_mod
    → (total + (write_all first c no_files).ext_offset) % usize_mod ≡ total + length (extra_of c)
next_total first total c h =
    ap (λ i. (total + i) % usize_mod) (write_all-ext_offset first c no_files) ∙ omega (arith, h)

chunk_then :
    (total : ℕ) (c items : List (List ℕ × List ℕ))
    → file (entries_from true total c)
        ++ file (entries_from true (total + length (extra_of c)) items)
      ≡ file (entries_from true total (c ++ items))
chunk_then total c items = sym (
    ap file (entries_from-append total c items)
    ∙ file-append (entries_from true total c)
        (entries_from true (total + length (extra_of c)) items))

later_chunks :
    (total : ℕ) (chunks : List (List (List ℕ × List ℕ)))
    → All InLines chunks
    → total + length (extra_of (all_of chunks)) < usize_mod
    → merge_from true total (write_from false chunks)
      ≡ some (file (entries_from true total (all_of chunks)))
later_chunks total [] w h = refl
later_chunks total (c ∷ chunks) (w, ws) h =
    let size = ap length (extra_of-append c (all_of chunks)) in
    let sum = length-append (extra_of c) (extra_of (all_of chunks)) in
    let here = later_chunk total c w (omega (arith, h, size, sum)) in
    let next = next_total false total c (omega (arith, h, size, sum)) in
    let rest = later_chunks (total + length (extra_of c)) chunks ws (omega (arith, h, size, sum)) in
    rw here (rw next (rw rest (ap some (chunk_then total c (all_of chunks)))))

chunks_entries :
    (chunks : List (List (List ℕ × List ℕ)))
    → All InLines chunks
    → length (extra_of (all_of chunks)) < usize_mod
    → merge_chunks (write_chunks chunks) ≡ some (file (entries_from true 0 (all_of chunks)))
unfolding merge_chunks write_chunks
chunks_entries [] w h = refl
chunks_entries (c ∷ chunks) (w, ws) h =
    let size = ap length (extra_of-append c (all_of chunks)) in
    let sum = length-append (extra_of c) (extra_of (all_of chunks)) in
    let here = first_chunk c in
    let next = next_total true 0 c (omega (arith, h, size, sum)) in
    let rest = later_chunks (0 + length (extra_of c)) chunks ws (omega (arith, h, size, sum)) in
    rw here (rw next (rw rest (ap some (chunk_then 0 c (all_of chunks)))))

extra_from :
    (first : Bool) (chunks : List (List (List ℕ × List ℕ)))
    → merge_extra (write_from first chunks) ≡ extra_of (all_of chunks)
unfolding merge_extra
extra_from first [] = refl
extra_from first (c ∷ chunks) =
    ap (λ l. l ++ merge_extra (write_from false chunks)) (write_all-ext_out first c no_files)
    ∙ ap (λ l. extra_of c ++ l) (extra_from false chunks)
    ∙ sym (extra_of-append c (all_of chunks))

-- However the items are divided into chunks, the merge of the files that threads write of these
-- does not panic, and gives what one thread writes of all items: the same first file, where each
-- place in the second file is adjusted, and the same second file; if identifiers and values have
-- no newline, and the second file of all items has fewer than 2^64 bytes.
pub merge_chunks-write_all :
    (chunks : List (List (List ℕ × List ℕ)))
    → All InLines chunks
    → length (write_all true (all_of chunks) no_files).ext_out < usize_mod
    → (merge_chunks (write_chunks chunks) ≡ some (write_all true (all_of chunks) no_files).out)
      × (merge_extra (write_chunks chunks) ≡ (write_all true (all_of chunks) no_files).ext_out)
unfolding write_chunks
merge_chunks-write_all chunks w h =
    let items = all_of chunks in
    let extra = write_all-ext_out true items no_files in
    (
      chunks_entries chunks w (omega (arith, h, ap length extra))
          ∙ ap some (sym (write_all-out true items no_files)),
      extra_from true chunks ∙ sym extra,
    )
