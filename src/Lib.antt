-- ===== src/Lib.antt =====
-- Searchfox (mozsearch): the Rust tools under tools/src that index and render source code.
--
-- A file on its way to a page is cut into tokens by one of the tokenizers of tools/src/tokenize.rs;
-- the tokens are joined with analysis records (tools/src/file_format/analysis.rs), which indexers
-- write once per platform and which are merged first; symbols are made of paths and cut into
-- segments (tools/src/file_format/analysis_manglings.rs); names are looked up in the sorted file of
-- identifiers (tools/src/file_format/identifiers.rs); line coverage is interpolated
-- (tools/src/file_format/coverage.rs). The parts meet in the data they hand on, so each is a module
-- of its own here.
--
-- Prelude          Boolean tests, lists measured in native numbers, maps from numbers (Prelude/
--                  Keys), and the parts of Rust's standard library on texts that several
--                  components use (Prelude/Text).
-- Tokenize         tokenize.rs: Token, TokenKind and the cursor. Scan and Boundaries state what a
--                  list of tokens promises its readers. Plain and Yaml are tokenize_plain and
--                  tokenize_yaml, CLike is tokenize_c_like (State, Raw, Comments, Quotes, Words
--                  hold its branches, Step one turn of its outer loop), TagLike tokenize_tag_like
--                  (State, Text, Tags and Step its first loop, Scripts its second), Xpidl is
--                  tokenize_xpidl. Embed moves the tokens of a part of a text. Each tokenizer
--                  has its proofs in a child module Tiling or Order.
-- Mangle           analysis_manglings.rs: Files is mangle_file and make_file_sym_from_path, Decode
--                  a decoder, Pretty is split_pretty, Segments the names it is run on.
-- Analysis         analysis.rs: Locations is Location, LineRange, SourceRange with their texts and
--                  union; Source and Merge are AnalysisSource and its merge; RoundTrips, Union,
--                  Maps, Levels, LevelLoop, Symbols and Expansions hold the proofs.
-- Coverage         coverage.rs: interpolate_coverage, and its specification line by line.
-- Merger           merger.rs: the records at one location, sorted by name and merged where the name is
--                  the same; Distinct is about what comes out.
-- Blame            blame.rs and bin/build-blame.rs: LineData, sanitize and count_lines; Unmodified is
--                  unmodified_lines on the patches of libgit2, Unmodified/Edits the edits they say;
--                  Transfer is blame_for_path, Transferred what it does with a parent's lines, Edited
--                  both together.
-- Identifiers      identifiers.rs: IdentMap on the bytes of its file; Lookup is lookup, Lines is about
--                  get_line, Search about bisect, Results and Wanted about lookup. The loop of bisect
--                  has fuel, one more than the size of the file, since `count` drops in every turn.
--
-- Crossref         crossref_lookup.rs: CrossrefLookupMap on the bytes of its two files. Entries is the
--                  sorted file, Lines and IdLine are about get_id_line, Search and Bisect about
--                  bisect_for_payload, Payload is lookup. Writer is write_inline_and_ext of
--                  bin/crossref.rs and Merge the merge of the chunks there; Chunk, Adjusted and
--                  Merged are about these, Written and RoundTrip about all of it. The loop of
--                  bisect_for_payload has fuel, one more than the size of the file, since `count`
--                  drops in every turn.
-- SymbolGraph      cmd_pipeline/symbol_graph.rs: Petgraph is a record of what is used of the crate
--                  petgraph, with its laws; Named is NamedSymbolGraph, its maps in Named/Invariant and its
--                  refinement of a graph of ids in Named/Refine; Nodes is SymbolGraphNodeSet and
--                  Edges SymbolGraphEdgeSet, each with what its operations keep; Propagate is
--                  propagate_edge and propagate_paths, Propagate/Search and Propagate/Simple are
--                  about the paths that are searched; Badges is label_to_badge_info; Lambda is
--                  is_lambda_pretty. A node's id, an edge's id and a symbol are numbers.
--
-- How code is modelled. A text is the list of its code points; a position in it is the number of
-- UTF-8 bytes in front, and a cursor carries the text that is left, so that peek_char, get_char and
-- peek_pos are functions of it. The closures of the tokenizers over mutable locals are functions on
-- a record of these locals. An inner `loop` is a fold over the text left whose turn goes on or
-- ends, so it is structural; an outer loop has fuel, one more than the length of the text, which is
-- enough because every turn reads at least one character; running out of it would be `none`. A
-- panic is `none` too. A map is an association list with one entry for each key. Numbers are
-- natural; the 32-bit fields of locations are bounded where they are parsed, and positions are
-- bounded by the text, which fits in memory.
--
-- Parameters, for code that is not in the repository or is a table: the letters beyond ASCII
-- (char::is_alphabetic), the unique of itertools, tokenize_css (on the crate cssparser), the crate
-- petgraph with its search for simple paths, JSON and its parser (serde_json), the
-- server that is asked for a symbol, the patches of libgit2. Strings interned by the ustr crate
-- are texts, those of symbols in graphs numbers.
--
-- Not modelled: the tokenizers on top of cssparser and
-- tree-sitter, format.rs and the HTML output, the batch jobs and servers around the libraries, the
-- JSON and TOML formats (serde), everything on libgit2, and the parts in C++, Python, shell and
-- JavaScript.
pub mod Prelude
pub mod Coverage
pub mod Tokenize
pub mod Mangle
pub mod Analysis
pub mod Identifiers
pub mod Merger
pub mod Blame
pub mod SymbolGraph
pub mod Crossref
