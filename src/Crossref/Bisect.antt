-- ===== src/Crossref/Bisect.antt =====
-- bisect_for_payload on a sorted file: it finds the payload of a symbol, or nothing if there is
-- none.
use mozsearch.Prelude.{
  ℕ, zero, suc, ◌+◌, ◌/◌, ◌<◌, ◌≡◌, refl, sym, ap, subst, ◌∙◌, false, some, List, [], ◌∷◌, ◌++◌,
  ==_iff, ==-true, ◌==◌, length, length-append, All, arith, append_assoc, append-nil, Bool-cases,
  inl, inr,
}
use mozsearch.Crossref.{get_id_line, payload_at, behind_payload, bisect_payload, bisect_for_payload}
use mozsearch.Crossref.Entries.{
  Entry, IsEntry, entry_text, entry_size, file, IsSorted, payload_of, entry_text-append,
  file-append, entry_text-length, Located, locate, IsSorted-split,
}
use mozsearch.Crossref.Lines.{EndsLine, at_start}
use mozsearch.Crossref.IdLine.{
  get_id_line-entry_text, payload_at-entry_text, behind_payload-entry_text,
}
use mozsearch.Crossref.Search.{EndsLine-entry_text, entry_text-file, EndsLine-file, bisect_turn}

half : (n : ℕ) → 0 < n → n / 2 < n
half n h = omega (arith, h)

no_bytes : (m : List Entry) (search : List ℕ) → length (file m) ≡ 0 → payload_of search m ≡ []
no_bytes [] search h = refl
no_bytes (e ∷ m) search h = absurd (omega (arith, h, entry_text-length e (file m)))

All-around {ℓ κ} :
    {A : Type ℓ} (P : A → Type κ) (xs : List A) (e : A) (ys : List A)
    → All P (xs ++ (e ∷ ys))
    → All P xs × P e × All P ys
All-around P [] e ys h = (tt, h.0, h.1)
All-around P (x ∷ xs) e ys h = let r = All-around P xs e ys h.1 in ((h.0, r.0), r.1, r.2)

unfoldable Finds : List ℕ → ℕ → Type 0
Finds search fuel =
    (p : List ℕ) (m : List Entry) (tail bytes : List ℕ)
    → bytes ≡ p ++ (file m ++ tail)
    → EndsLine p
    → All IsEntry m
    → IsSorted m
    → length (file m) < fuel
    → bisect_payload bytes search fuel (length p) (length (file m)) ≡ some (payload_of search m)

file-length :
    (xs : List Entry) (e : Entry) (ys : List Entry)
    → length (file (xs ++ (e ∷ ys))) ≡ length (file xs) + (entry_size e + length (file ys))
file-length xs e ys =
    ap length (file-append xs (e ∷ ys))
    ∙ omega (arith, length-append (file xs) (file (e ∷ ys)), entry_text-length e (file ys))

-- A window with a sample in its entry `e`.
sampled :
    (search : List ℕ) (fuel : ℕ) (p : List ℕ) (xs : List Entry) (e : Entry) (ys : List Entry)
    (tail bytes : List ℕ) (off : ℕ)
    → Finds search fuel
    → bytes ≡ p ++ (file (xs ++ (e ∷ ys)) ++ tail)
    → EndsLine p
    → All IsEntry (xs ++ (e ∷ ys))
    → IsSorted (xs ++ (e ∷ ys))
    → length (file (xs ++ (e ∷ ys))) < suc fuel
    → length (file (xs ++ (e ∷ ys))) / 2 ≡ length (file xs) + off
    → off < entry_size e
    → bisect_payload bytes search (suc fuel) (length p) (length (file (xs ++ (e ∷ ys))))
      ≡ some (payload_of search (xs ++ (e ∷ ys)))
unfolding Finds
sampled search fuel p xs e ys tail bytes off finds b s w o h at inside =
    let count = length (file (xs ++ (e ∷ ys))) in
    let total = file-length xs e ys in
    let ws = All-around IsEntry xs e ys w in
    let os = IsSorted-split xs e ys o in
    let p1 = p ++ file xs in
    let s1 = EndsLine-file p xs s in
    let size1 = length-append p (file xs) in
    let p2 = p1 ++ entry_text e [] in
    let size2 : length p2 ≡ length p + (length (file xs) + entry_size e) =
      omega (arith, size1, length-append p1 (entry_text e []), entry_text-length e []) in
    let b0 : bytes ≡ p ++ (file xs ++ (entry_text e (file ys) ++ tail)) =
      b
      ∙ ap (λ l. p ++ l)
          (ap (λ l. l ++ tail) (file-append xs (e ∷ ys))
            ∙ append_assoc (file xs) (file (e ∷ ys)) tail) in
    let b1 : bytes ≡ p1 ++ entry_text e (file ys ++ tail) =
      b0
      ∙ sym (append_assoc p (file xs) (entry_text e (file ys) ++ tail))
      ∙ ap (λ l. p1 ++ l) (sym (entry_text-append e (file ys) tail)) in
    let b2 : bytes ≡ p2 ++ (file ys ++ tail) = b1 ∙ entry_text-file p1 e (file ys ++ tail) in
    let id_end = length p1 + length (b'!' ∷ e.symbol) in
    let pos : length p1 + off ≡ length p + count / 2 = omega (arith, size1, at) in
    let line : get_id_line bytes (length p + count / 2)
        ≡ some (e.symbol, length p + length (file xs), id_end) =
      subst (λ n. get_id_line bytes (length p + count / 2) ≡ some (e.symbol, n, id_end)) size1
        (subst (λ n. get_id_line bytes n ≡ some (e.symbol, length p1, id_end)) pos
          (subst (λ l. get_id_line l (length p1 + off) ≡ some (e.symbol, length p1, id_end))
            (sym b1) (get_id_line-entry_text p1 e (file ys ++ tail) ws.1 s1 off inside))) in
    let payload : payload_at bytes id_end ≡ some e.payload =
      subst (λ l. payload_at l id_end ≡ some e.payload) (sym b1)
        (payload_at-entry_text p1 e (file ys ++ tail) ws.1 s1) in
    let next : behind_payload bytes (length p + count / 2) id_end
        ≡ length p + (length (file xs) + entry_size e) =
      subst (λ n. behind_payload bytes n id_end ≡ length p + (length (file xs) + entry_size e)) pos
        (subst
          (λ l.
            behind_payload l (length p1 + off) id_end
            ≡ length p + (length (file xs) + entry_size e))
          (sym b1)
          (behind_payload-entry_text p1 e (file ys ++ tail) ws.1 s1 off inside
            ∙ omega (arith, size1))) in
    let left =
      finds p xs (entry_text e (file ys) ++ tail) bytes b0 s ws.0 os.2 (omega (arith, h, total)) in
    let right =
      finds p2 ys tail bytes b2 (EndsLine-entry_text p1 e) ws.2 os.3 (omega (arith, h, total)) in
    bisect_turn search bytes fuel (length p) count off (entry_size e) id_end xs e ys
      (positive count (omega (arith, total))) at total line payload next os.0 os.1 left
      (subst
        (λ n. bisect_payload bytes search fuel n (length (file ys)) ≡ some (payload_of search ys))
        size2 right)
  where
    positive : (n : ℕ) → 0 < n → (n == 0) ≡ false
    positive n h = ground arith

sampled_in :
    (search : List ℕ) (fuel : ℕ) (p : List ℕ) (m : List Entry) (tail bytes : List ℕ)
    → Finds search fuel
    → Located m (length (file m) / 2)
    → bytes ≡ p ++ (file m ++ tail)
    → EndsLine p
    → All IsEntry m
    → IsSorted m
    → length (file m) < suc fuel
    → bisect_payload bytes search (suc fuel) (length p) (length (file m))
      ≡ some (payload_of search m)
sampled_in search fuel p m tail bytes finds l b s w o h =
    subst
      (λ x.
        bytes ≡ p ++ (file x ++ tail)
        → All IsEntry x
        → IsSorted x
        → length (file x) < suc fuel
        → length (file x) / 2 ≡ length (file l.before) + l.offset
        → bisect_payload bytes search (suc fuel) (length p) (length (file x))
          ≡ some (payload_of search x))
      (sym l.split)
      (λ b' w' o' h' at.
        sampled search fuel p l.before l.entry l.after tail bytes l.offset finds b' s w' o' h' at
          l.inside)
      b w o h l.at

empty_window :
    (search : List ℕ) (fuel first : ℕ) (m : List Entry) (bytes : List ℕ)
    → length (file m) ≡ 0
    → bisect_payload bytes search (suc fuel) first (length (file m)) ≡ some (payload_of search m)
unfolding bisect_payload
empty_window search fuel first m bytes e =
    rw (==-true (length (file m)) 0 e) (ap some (sym (no_bytes m search e)))

bisect_payload-Finds : (search : List ℕ) (fuel : ℕ) → Finds search fuel
unfolding Finds
bisect_payload-Finds search zero p m tail bytes b s w o h = absurd (omega (arith, h))
bisect_payload-Finds search (suc fuel) p m tail bytes b s w o h =
    let count = length (file m) in
    elim (Bool-cases (count == 0)) [
      | inl q ↦ empty_window search fuel (length p) m bytes ((==_iff count 0).0 q)
      | inr q ↦
          let l = locate m (count / 2) (half count (positive count q)) in
          sampled_in search fuel p m tail bytes (bisect_payload-Finds search fuel) l b s w o h
    ]
  where
    positive : (n : ℕ) → (n == 0) ≡ false → 0 < n
    positive n h = ground arith

-- In every file of entries that are sorted by their symbols, whose lines have no newline and whose
-- payloads are not empty and do not begin as identifier lines, `bisect_for_payload` ends without a
-- panic, with the payload of the symbol that is searched, or with nothing if no entry has it.
pub bisect_for_payload-payload_of :
    (es : List Entry) (search : List ℕ)
    → All IsEntry es
    → IsSorted es
    → bisect_for_payload (file es) search ≡ some (payload_of search es)
unfolding bisect_for_payload Finds
bisect_for_payload-payload_of es search w o =
    bisect_payload-Finds search (suc (length (file es))) [] es [] (file es)
      (sym (append-nil (file es))) (at_start refl) w o (omega arith)
