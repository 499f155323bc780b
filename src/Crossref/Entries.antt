-- ===== src/Crossref/Entries.antt =====
-- The file of cross references that the lookup relies on: entries of two lines, sorted by symbol.
use mozsearch.Prelude.{
  ℕ, ◌+◌, ◌-◌, ◌≡◌, refl, sym, ap, ◌∙◌, true, false, List, [], ◌∷◌, ◌++◌, ◌==◌, list_eq,
  if◌then◌else◌, length, length-append, All, Bool-cases, inl, inr, arith, ◌<◌, ◌≤◌, ltb, ltb→lt,
  append_assoc,
}
use mozsearch.Identifiers.{bytes_ltb}

pub record Entry : Type 0 where
  pub symbol : List ℕ
  pub payload : List ℕ

abbrev pub NoNewline : List ℕ → Type 0
NoNewline cs = All (λ c. (c == b'\n') ≡ false) cs

-- A payload has a first byte, which is not that of an identifier line; neither line has a newline.
pub record IsEntry (e : Entry) : Type 0 where
  pub first : ℕ
  pub rest : List ℕ
  pub payload_eq : e.payload ≡ first ∷ rest
  pub not_id : (first == b'!') ≡ false
  pub one_line : NoNewline e.symbol
  pub payload_line : NoNewline e.payload

-- The two lines, in front of what follows.
abbrev pub entry_text : Entry → List ℕ → List ℕ
entry_text e after = (b'!' ∷ e.symbol) ++ (b'\n' ∷ (e.payload ++ (b'\n' ∷ after)))

abbrev pub entry_size : Entry → ℕ
entry_size e = 3 + length e.symbol + length e.payload

abbrev pub file : List Entry → List ℕ
file [] = []
file (e ∷ es) = entry_text e (file es)

abbrev pub IsSorted : List Entry → Type 0
IsSorted [] = Unit {0}
IsSorted (e ∷ es) = All (λ f. bytes_ltb e.symbol f.symbol ≡ true) es × IsSorted es

-- The payload of a symbol, and nothing if no entry has it.
abbrev pub payload_of : List ℕ → List Entry → List ℕ
payload_of symbol [] = []
payload_of symbol (e ∷ es) = if list_eq e.symbol symbol then e.payload else payload_of symbol es

abbrev pub AllOther : List ℕ → List Entry → Type 0
AllOther symbol es = All (λ e. list_eq e.symbol symbol ≡ false) es

pub payload_of-behind :
    (symbol : List ℕ) (xs ys : List Entry)
    → AllOther symbol xs
    → payload_of symbol (xs ++ ys) ≡ payload_of symbol ys
payload_of-behind symbol [] ys h = refl
payload_of-behind symbol (x ∷ xs) ys (h, hs) = rw h (payload_of-behind symbol xs ys hs)

pub payload_of-none :
    (symbol : List ℕ) (xs : List Entry) → AllOther symbol xs → payload_of symbol xs ≡ []
payload_of-none symbol [] h = refl
payload_of-none symbol (x ∷ xs) (h, hs) = rw h (payload_of-none symbol xs hs)

pub payload_of-before :
    (symbol : List ℕ) (xs ys : List Entry)
    → AllOther symbol ys
    → payload_of symbol (xs ++ ys) ≡ payload_of symbol xs
payload_of-before symbol [] ys h = payload_of-none symbol ys h
payload_of-before symbol (x ∷ xs) ys h = elim (Bool-cases (list_eq x.symbol symbol)) [
  | inl q ↦ rw q refl
  | inr q ↦ rw q (payload_of-before symbol xs ys h)
]

pub entry_text-append : (e : Entry) (a b : List ℕ) → entry_text e (a ++ b) ≡ entry_text e a ++ b
entry_text-append e a b =
    ap (λ l. (b'!' ∷ e.symbol) ++ (b'\n' ∷ l)) (sym (append_assoc e.payload (b'\n' ∷ a) b))
    ∙ sym (append_assoc (b'!' ∷ e.symbol) (b'\n' ∷ (e.payload ++ (b'\n' ∷ a))) b)

pub file-append : (xs ys : List Entry) → file (xs ++ ys) ≡ file xs ++ file ys
file-append [] ys = refl
file-append (x ∷ xs) ys =
    ap (entry_text x) (file-append xs ys) ∙ entry_text-append x (file xs) (file ys)

pub entry_text-length :
    (e : Entry) (a : List ℕ)
    → length (entry_text e a) ≡ 3 + length e.symbol + length e.payload + length a
entry_text-length e a = omega (
  arith,
  length-append (b'!' ∷ e.symbol) (b'\n' ∷ (e.payload ++ (b'\n' ∷ a))),
  length-append e.payload (b'\n' ∷ a),
)

-- The entry that a position of the file lies in.
pub record Located (es : List Entry) (i : ℕ) : Type 0 where
  pub before : List Entry
  pub entry : Entry
  pub after : List Entry
  pub offset : ℕ
  pub split : es ≡ before ++ (entry ∷ after)
  pub at : i ≡ length (file before) + offset
  pub inside : offset < 3 + length entry.symbol + length entry.payload

pub locate : (es : List Entry) (i : ℕ) → i < length (file es) → Located es i
locate [] i h = absurd (omega (arith, h))
locate (e ∷ es) i h =
    let size = 3 + length e.symbol + length e.payload in
    elim (Bool-cases (ltb i size)) [
      | inl q ↦ record {
        before = [];
        entry = e;
        after = es;
        offset = i;
        split = refl;
        at = omega arith;
        inside = ltb→lt i size q;
      }
      | inr q ↦
          let l =
            locate es (i - size)
              (omega (arith, h, entry_text-length e (file es), below i size q)) in
          record {
            before = e ∷ l.before;
            entry = l.entry;
            after = l.after;
            offset = l.offset;
            split = ap (λ x. e ∷ x) l.split;
            at = omega (arith, l.at, below i size q, entry_text-length e (file l.before));
            inside = l.inside;
          }
    ]
  where
    below : (a b : ℕ) → ltb a b ≡ false → b ≤ a
    below a b h = ground arith

-- What the order says of the entries around one.
pub IsSorted-split :
    (xs : List Entry) (e : Entry) (ys : List Entry)
    → IsSorted (xs ++ (e ∷ ys))
    → All (λ f. bytes_ltb f.symbol e.symbol ≡ true) xs
      × All (λ f. bytes_ltb e.symbol f.symbol ≡ true) ys
      × IsSorted xs
      × IsSorted ys
IsSorted-split [] e ys (h, hs) = (tt, h, tt, hs)
IsSorted-split (x ∷ xs) e ys (h, hs) =
    let m = IsSorted-split xs e ys hs in
    let p = All-split xs h in ((p.1, m.0), m.1, (p.0, m.2), m.3)
  where
    All-split :
        (zs : List Entry)
        → All (λ f. bytes_ltb x.symbol f.symbol ≡ true) (zs ++ (e ∷ ys))
        → All (λ f. bytes_ltb x.symbol f.symbol ≡ true) zs × (bytes_ltb x.symbol e.symbol ≡ true)
    All-split [] k = (tt, k.0)
    All-split (z ∷ zs) k = let r = All-split zs k.1 in ((k.0, r.0), r.1)
