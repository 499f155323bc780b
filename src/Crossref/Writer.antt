-- ===== src/Crossref/Writer.antt =====
-- tools/src/bin/crossref.rs: write_inline_and_ext, which writes the two files of cross references.
-- The text of a JSON value is a parameter.
use mozsearch.Prelude.{ℕ, suc, ◌+◌, ◌-◌, ◌*◌, Bool, List, [], ◌∷◌, ◌++◌, leb, if◌then◌else◌, length}
use mozsearch.Prelude.Text.{decimal}
use mozsearch.Crossref.Hex.{to_hex}

abbrev pub external_storage_threshold : ℕ
external_storage_threshold = 1024 * 3

-- The two files and the size of the second.
pub record Files : Type 0 where
  pub out : List ℕ
  pub ext_out : List ℕ
  pub ext_offset : ℕ

abbrev pub hex : ℕ → List ℕ
hex n = to_hex (suc n) n []

abbrev pub id_line : List ℕ → List ℕ
id_line id = b'!' ∷ (id ++ (b'\n' ∷ []))

abbrev pub inline_line : List ℕ → List ℕ
inline_line json = b':' ∷ (json ++ (b'\n' ∷ []))

abbrev pub ext_offset_line : Bool → ℕ → ℕ → List ℕ
ext_offset_line is_first_chunk marker_offset marker_length =
    if is_first_chunk
    then b'@' ∷ (hex marker_offset ++ (b' ' ∷ (hex marker_length ++ (b'\n' ∷ []))))
    else b'@' ∷ b'!' ∷ (decimal marker_offset ++ (b' ' ∷ (hex marker_length ++ (b'\n' ∷ []))))

unfoldable pub write_inline_and_ext : Bool → List ℕ → List ℕ → Files → Files
write_inline_and_ext is_first_chunk id json f =
    if leb external_storage_threshold (length (inline_line json))
    then (let marker_offset = f.ext_offset + length (id_line id) + 1 in
        let marker_length = length (inline_line json) - 1 in
        record {
          out = (f.out ++ id_line id) ++ ext_offset_line is_first_chunk marker_offset marker_length;
          ext_out = (f.ext_out ++ id_line id) ++ inline_line json;
          ext_offset = f.ext_offset + length (id_line id) + length (inline_line json);
        })
    else record f { out = (f.out ++ id_line id) ++ inline_line json }

abbrev pub no_files : Files
no_files = record { out = []; ext_out = []; ext_offset = 0 }

-- The loop of a thread over the symbols of its chunk.
unfoldable pub write_all : Bool → List (List ℕ × List ℕ) → Files → Files
unfolding write_inline_and_ext
write_all is_first_chunk [] f = f
write_all is_first_chunk ((id, json) ∷ items) f =
    write_all is_first_chunk items (write_inline_and_ext is_first_chunk id json f)
