-- ===== src/Crossref/Tests.antt =====
-- Lookups in small files; a value is its text.
use mozsearch.Prelude.{
  ℕ, zero, suc, ◌<◌, ◌≡◌, refl, true, Option, none, some, List, [], ◌∷◌, length, replicate, codes,
  arith,
}
use mozsearch.Crossref.{bisect_for_payload}
use mozsearch.Crossref.Entries.{Entry, IsEntry, NoNewline, file}
use mozsearch.Crossref.Bisect.{bisect_for_payload-payload_of}
use mozsearch.Crossref.Payload.{
  usize_mod, value, data_error, lookup_payload, lookup_crossref, hex_digits, from_hex,
}
use mozsearch.Crossref.Writer.{no_files, write_inline_and_ext, write_all}
use mozsearch.Crossref.Written.{is_external}
use mozsearch.Crossref.Merge.{merge_chunks, merge_extra, write_chunks}
use mozsearch.Crossref.Adjusted.{all_of}
use mozsearch.Crossref.Merged.{merge_chunks-write_all}
use mozsearch.Crossref.RoundTrip.{IsItem, texts, chunk_texts, lookup_crossref-merge_chunks}

abbrev entry : List ℕ → List ℕ → Entry
entry symbol payload = record { symbol = symbol; payload = payload }

abbrev entries : List Entry
entries = entry (codes "F") (codes ":{}") ∷ entry (codes "T_b") (codes "@0 1") ∷ []

first-IsEntry : IsEntry (entry (codes "F") (codes ":{}"))
first-IsEntry = record {
  first = b':';
  rest = codes "{}";
  payload_eq = refl;
  not_id = refl;
  one_line = (refl, tt);
  payload_line = (refl, (refl, (refl, tt)));
}

second-IsEntry : IsEntry (entry (codes "T_b") (codes "@0 1"))
second-IsEntry = record {
  first = b'@';
  rest = codes "0 1";
  payload_eq = refl;
  not_id = refl;
  one_line = (refl, (refl, (refl, tt)));
  payload_line = (refl, (refl, (refl, (refl, tt))));
}

bisect_for_payload-payload_of_example :
    bisect_for_payload (file entries) (codes "T_b") ≡ some (codes "@0 1")
bisect_for_payload-payload_of_example =
    bisect_for_payload-payload_of entries (codes "T_b") (first-IsEntry, (second-IsEntry, tt))
      ((refl, tt), (tt, tt))

abbrev as_text : List ℕ → List ℕ
as_text v = v

abbrev parse : List ℕ → Option (List ℕ)
parse text = some text

object-IsItem : IsItem as_text parse (codes "F", codes "{}")
object-IsItem = record {
  one_line = (refl, tt);
  json_line = (refl, (refl, tt));
  two_bytes = omega arith;
  parsed = refl;
}

-- A value that is stored externally.
abbrev digits_value : List ℕ
digits_value = replicate 3100 b'1'

replicate-NoNewline : (n : ℕ) → NoNewline (replicate n b'1')
replicate-NoNewline zero = tt
replicate-NoNewline (suc n) = (refl, replicate-NoNewline n)

stored_externally : is_external digits_value ≡ true
stored_externally = refl

digits-IsItem : IsItem as_text parse (codes "T", digits_value)
digits-IsItem = record {
  one_line = (refl, tt);
  json_line = replicate-NoNewline 3100;
  two_bytes = omega arith;
  parsed = refl;
}

abbrev chunks : List (List (List ℕ × List ℕ))
chunks = ((codes "F", codes "{}") ∷ []) ∷ ((codes "T", digits_value) ∷ []) ∷ []

small_extra :
    length (write_all true (texts as_text parse (all_of chunks)) no_files).ext_out < usize_mod
unfolding write_all write_inline_and_ext
small_extra = omega arith

lookup_crossref-merge_chunks_example :
    (out : List ℕ) × (merge_chunks (write_chunks (chunk_texts as_text parse chunks)) ≡ some out)
    × (lookup_crossref parse out
          (merge_extra (write_chunks (chunk_texts as_text parse chunks)))
          (codes "T")
        ≡ some (value digits_value))
lookup_crossref-merge_chunks_example =
    lookup_crossref-merge_chunks as_text parse chunks (codes "T")
      ((object-IsItem, tt), ((digits-IsItem, tt), tt)) ((refl, tt), (tt, tt)) small_extra

merge_chunks-write_all_example :
    (merge_chunks (write_chunks (chunk_texts as_text parse chunks))
      ≡ some (write_all true (texts as_text parse (all_of chunks)) no_files).out)
    × (merge_extra (write_chunks (chunk_texts as_text parse chunks))
        ≡ (write_all true (texts as_text parse (all_of chunks)) no_files).ext_out)
merge_chunks-write_all_example =
    merge_chunks-write_all (chunk_texts as_text parse chunks)
      ((((refl, tt), (refl, (refl, tt))), tt), ((((refl, tt), replicate-NoNewline 3100), tt), tt))
      small_extra

-- The place in the second file of a later chunk is bad data until it is adjusted.
not_adjusted : lookup_payload parse (codes "!T\n:[1]\n") (codes "@!4 4") ≡ some data_error
unfolding lookup_payload from_hex hex_digits
not_adjusted = refl

-- Data of one byte are an error.
one_byte : lookup_payload parse [] (codes ":5") ≡ some data_error
unfolding lookup_payload
one_byte = refl

-- An offset with nothing behind it is a panic, not an error.
no_length : lookup_payload parse (codes "{}") (codes "@0a") ≡ none
unfolding lookup_payload from_hex hex_digits
no_length = refl
