-- ===== src/Crossref/IdLine.antt =====
-- get_id_line: from every position in the two lines of an entry, its identifier line.
use mozsearch.Prelude.{
  ℕ, suc, ◌+◌, ◌-◌, ◌≤◌, ◌<◌, ◌≡◌, refl, sym, ap, subst, ◌∙◌, true, false, Option, some, List, [],
  ◌∷◌, ◌++◌, leb, leb→le, ◌==◌, if-elim, length, length-append, get_elem?, get_elem?-append, drop,
  drop-append, take-append, arith, append_assoc, Bool-cases, inl, inr,
}
use mozsearch.Crossref.{
  to_newline, checked_sub, range, walk_back, off_newline, get_id_line, payload_at, behind_payload,
}
use mozsearch.Crossref.Entries.{NoNewline, Entry, IsEntry, entry_text}
use mozsearch.Crossref.Lines.{
  EndsLine, to_newline-line, byte_in_line, walk_back-line, walk_back-start, walk_back-reset,
}

pub checked_sub-add : (a b : ℕ) → checked_sub (a + b) a ≡ some b
checked_sub-add a b = rw (leb-true a (a + b) (omega arith)) (ap some (omega arith))
  where
    leb-true : (x y : ℕ) → x ≤ y → leb x y ≡ true
    leb-true x y h = ground arith

-- The bytes between two places.
pub range-middle :
    (p xs q : List ℕ) (i j : ℕ)
    → i ≡ length p
    → j ≡ length p + length xs
    → range (p ++ (xs ++ q)) i j ≡ some xs
unfolding range
range-middle p xs q i j hi hj =
    let bytes = p ++ (xs ++ q) in
    let l1 = length-append p (xs ++ q) in
    let l2 = length-append xs q in
    let t1 : leb i j ≡ true = leb-true i j (omega (arith, hi, hj)) in
    let t2 : leb j (length bytes) ≡ true = leb-true j (length bytes) (omega (arith, l1, l2, hj)) in
    let size : j - i ≡ length xs = omega (arith, hi, hj) in
    let dropped : drop i bytes ≡ xs ++ q = drop-append p (xs ++ q) i 0 (omega (arith, hi)) in
    rw (t1, t2, size, dropped, take-append xs q) refl
  where
    leb-true : (x y : ℕ) → x ≤ y → leb x y ≡ true
    leb-true x y h = ground arith

above : (a b : ℕ) → leb a b ≡ false → b < a
above a b h = ground arith

newline_behind :
    (p xs q : List ℕ) → get_elem? (p ++ (xs ++ (b'\n' ∷ q))) (length p + length xs) ≡ some b'\n'
newline_behind p xs q =
    get_elem?-append p (xs ++ (b'\n' ∷ q)) (length p + length xs) (length xs) refl
    ∙ get_elem?-append xs (b'\n' ∷ q) (length xs) 0 (omega arith)

module _ (p : List ℕ) (e : Entry) (after : List ℕ) (w : IsEntry e) (s : EndsLine p) where
  abbrev bytes : List ℕ
  bytes = p ++ entry_text e after

  abbrev id_line : List ℕ
  id_line = b'!' ∷ e.symbol

  id_line-NoNewline : NoNewline id_line
  id_line-NoNewline = (refl, w.one_line)

  -- The place of the newline at the end of the identifier line.
  abbrev id_end : ℕ
  id_end = length p + length id_line

  -- From a place in the identifier line, or its newline.
  from_id_line :
      (k end : ℕ) → k ≤ length id_line → walk_back bytes (length p + k) end ≡ some (length p, end)
  from_id_line k end h =
      walk_back-line p id_line (e.payload ++ (b'\n' ∷ after)) end k id_line-NoNewline h
      ∙ walk_back-start p (e.symbol ++ (b'\n' ∷ (e.payload ++ (b'\n' ∷ after)))) end s

  abbrev front : List ℕ
  front = p ++ id_line

  bytes_payload : bytes ≡ (front ++ (b'\n' ∷ [])) ++ (e.payload ++ (b'\n' ∷ after))
  bytes_payload =
      sym (append_assoc p id_line (b'\n' ∷ (e.payload ++ (b'\n' ∷ after))))
      ∙ sym (append_assoc front (b'\n' ∷ []) (e.payload ++ (b'\n' ∷ after)))

  -- From a place in the payload, or its newline.
  from_payload :
      (k end : ℕ)
      → k ≤ length e.payload
      → walk_back bytes (suc id_end + k) end ≡ some (length p, id_end)
  from_payload k end h =
      let b2 = front ++ (b'\n' ∷ []) in
      let more = e.payload ++ (b'\n' ∷ after) in
      let size : length b2 ≡ suc id_end =
        omega (arith, length-append front (b'\n' ∷ []), length-append p id_line) in
      let over = walk_back-line b2 e.payload after end k w.payload_line h in
      let reset : walk_back (b2 ++ more) (length b2) end
          ≡ walk_back (b2 ++ more) (length front) (length front) =
        subst
          (λ l.
            walk_back (b2 ++ (l ++ (b'\n' ∷ after))) (length b2) end
            ≡ walk_back (b2 ++ (l ++ (b'\n' ∷ after))) (length front) (length front))
          (sym w.payload_eq)
          (walk_back-reset front (w.rest ++ (b'\n' ∷ after)) w.first end w.not_id) in
      let at_end : walk_back (b2 ++ more) (length front) (length front) ≡ some (length p, id_end) =
        subst (λ l. walk_back l (length front) (length front) ≡ some (length p, id_end))
          bytes_payload
          (subst (λ n. walk_back bytes n n ≡ some (length p, id_end))
            (sym (length-append p id_line)) (from_id_line (length id_line) id_end (omega arith))) in
      subst (λ l. walk_back l (suc id_end + k) end ≡ some (length p, id_end)) (sym bytes_payload)
        (subst (λ n. walk_back (b2 ++ more) (n + k) end ≡ some (length p, id_end)) size
          (over ∙ reset ∙ at_end))

  to_id_end : (k : ℕ) → k ≤ length id_line → to_newline bytes (length p + k) ≡ id_end
  to_id_end k h = to_newline-line p id_line (e.payload ++ (b'\n' ∷ after)) k id_line-NoNewline h

  symbol_range : range bytes (suc (length p)) id_end ≡ some e.symbol
  symbol_range =
      let more = b'\n' ∷ (e.payload ++ (b'\n' ∷ after)) in
      let size = length-append p (b'!' ∷ []) in
      subst (λ l. range l (suc (length p)) id_end ≡ some e.symbol)
        (append_assoc p (b'!' ∷ []) (e.symbol ++ more))
        (range-middle (p ++ (b'!' ∷ [])) e.symbol more (suc (length p)) id_end (omega (arith, size))
          (omega (arith, size)))

  -- The identifier is read from where the walk ends.
  id_line_from :
      (pos q end : ℕ)
      → off_newline bytes pos ≡ some q
      → walk_back bytes q q ≡ some (length p, end)
      → to_newline bytes end ≡ id_end
      → get_id_line bytes pos ≡ some (e.symbol, length p, id_end)
  unfolding get_id_line
  id_line_from pos q end h k t = rw h (rw k (rw t (rw symbol_range refl)))

  -- A byte that is no newline is where the walk begins; from a newline it begins one before it.
  stays :
      (pos c : ℕ)
      → get_elem? bytes pos ≡ some c
      → (c == b'\n') ≡ false
      → off_newline bytes pos ≡ some pos
  stays pos c h n = rw h (rw n refl)

  moves :
      (pos : ℕ) → get_elem? bytes (suc pos) ≡ some b'\n' → off_newline bytes (suc pos) ≡ some pos
  moves pos h = rw h (subst (λ n. checked_sub n 1 ≡ some pos) (omega arith) (checked_sub-add 1 pos))

  in_id_line :
      (k : ℕ)
      → k ≤ length id_line
      → get_id_line bytes (length p + k) ≡ some (e.symbol, length p, id_end)
  in_id_line k h =
      let more = e.payload ++ (b'\n' ∷ after) in
      elim (Bool-cases (leb (suc k) (length id_line))) [
        | inl q ↦
            let pos = length p + k in
            let b =
              byte_in_line p id_line (b'\n' ∷ more) k id_line-NoNewline
                (omega (arith, leb→le (suc k) (length id_line) q)) in
            id_line_from pos pos pos (stays pos b.0 b.1 b.2) (from_id_line k pos h) (to_id_end k h)
        | inr q ↦
            let pos = length p + length e.symbol in
            let last : suc pos ≡ length p + length id_line = omega arith in
            let nl : get_elem? bytes (suc pos) ≡ some b'\n' =
              subst (λ n. get_elem? bytes n ≡ some b'\n') (sym last)
                (newline_behind p id_line more) in
            let at : suc pos ≡ length p + k = omega (arith, h, above (suc k) (length id_line) q) in
            subst (λ n. get_id_line bytes n ≡ some (e.symbol, length p, id_end)) at
              (id_line_from (suc pos) pos pos (moves pos nl)
                (from_id_line (length e.symbol) pos (omega arith))
                (to_id_end (length e.symbol) (omega arith)))
      ]

  in_payload :
      (k : ℕ)
      → k ≤ length e.payload
      → get_id_line bytes (suc id_end + k) ≡ some (e.symbol, length p, id_end)
  in_payload k h =
      let b2 = front ++ (b'\n' ∷ []) in
      let size : length b2 ≡ suc id_end =
        omega (arith, length-append front (b'\n' ∷ []), length-append p id_line) in
      let ends : to_newline bytes id_end ≡ id_end = to_id_end (length id_line) (omega arith) in
      let moved : (n : ℕ) (o : Option ℕ)
          → get_elem? (b2 ++ (e.payload ++ (b'\n' ∷ after))) (length b2 + n) ≡ o
          → get_elem? bytes (suc id_end + n) ≡ o =
        λ n o g.
          subst (λ l. get_elem? l (suc id_end + n) ≡ o) (sym bytes_payload)
            (subst (λ i. get_elem? (b2 ++ (e.payload ++ (b'\n' ∷ after))) (i + n) ≡ o) size g) in
      elim (Bool-cases (leb (suc k) (length e.payload))) [
        | inl q ↦
            let pos = suc id_end + k in
            let b =
              byte_in_line b2 e.payload (b'\n' ∷ after) k w.payload_line
                (omega (arith, leb→le (suc k) (length e.payload) q)) in
            id_line_from pos pos id_end (stays pos b.0 (moved k (some b.0) b.1) b.2)
              (from_payload k pos h) ends
        | inr q ↦
            let pos = suc id_end + length w.rest in
            let full : length e.payload ≡ suc (length w.rest) = ap length w.payload_eq in
            let nl : get_elem? bytes (suc pos) ≡ some b'\n' =
              subst (λ n. get_elem? bytes n ≡ some b'\n') (omega (arith, full))
                (moved (length e.payload) (some b'\n') (newline_behind b2 e.payload after)) in
            let at : suc pos ≡ suc id_end + k =
              omega (arith, h, full, above (suc k) (length e.payload) q) in
            subst (λ n. get_id_line bytes n ≡ some (e.symbol, length p, id_end)) at
              (id_line_from (suc pos) pos id_end (moves pos nl)
                (from_payload (length w.rest) pos (omega (arith, full))) ends)
      ]

  -- From any place of the entry, its identifier line is found.
  pub get_id_line-entry_text :
      (k : ℕ)
      → k < 3 + length e.symbol + length e.payload
      → get_id_line bytes (length p + k) ≡ some (e.symbol, length p, id_end)
  get_id_line-entry_text k h = elim (Bool-cases (leb k (length id_line))) [
    | inl q ↦ in_id_line k (leb→le k (length id_line) q)
    | inr q ↦
        let j = k - (length id_line + 1) in
        subst (λ i. get_id_line bytes i ≡ some (e.symbol, length p, id_end))
          (omega (arith, above k (length id_line) q))
          (in_payload j (omega (arith, h, above k (length id_line) q)))
  ]

  -- The payload line, from the place behind its first byte.
  to_payload_end :
      (n k : ℕ)
      → n ≡ suc id_end + k
      → k ≤ length e.payload
      → to_newline bytes n ≡ suc id_end + length e.payload
  to_payload_end n k at h =
      let b2 = front ++ (b'\n' ∷ []) in
      let size : length b2 ≡ suc id_end =
        omega (arith, length-append front (b'\n' ∷ []), length-append p id_line) in
      subst (λ i. to_newline bytes i ≡ suc id_end + length e.payload) (sym at)
        (subst (λ l. to_newline l (suc id_end + k) ≡ suc id_end + length e.payload)
          (sym bytes_payload)
          (subst
            (λ i. to_newline (b2 ++ (e.payload ++ (b'\n' ∷ after))) (i + k) ≡ i + length e.payload)
            size (to_newline-line b2 e.payload after k w.payload_line h)))

  pub payload_at-entry_text : payload_at bytes id_end ≡ some e.payload
  payload_at-entry_text =
      let b2 = front ++ (b'\n' ∷ []) in
      let size : length b2 ≡ suc id_end =
        omega (arith, length-append front (b'\n' ∷ []), length-append p id_line) in
      let full : length e.payload ≡ suc (length w.rest) = ap length w.payload_eq in
      let ends : to_newline bytes (suc (suc id_end)) ≡ suc id_end + length e.payload =
        to_payload_end (suc (suc id_end)) 1 (omega arith) (omega (arith, full)) in
      subst (λ n. range bytes (suc id_end) n ≡ some e.payload) (sym ends)
        (subst (λ l. range l (suc id_end) (suc id_end + length e.payload) ≡ some e.payload)
          (sym bytes_payload)
          (range-middle b2 e.payload (b'\n' ∷ after) (suc id_end) (suc id_end + length e.payload)
            (sym size) (omega (arith, size))))

  -- From any place of the entry, the place behind it is found.
  pub behind_payload-entry_text :
      (k : ℕ)
      → k < 3 + length e.symbol + length e.payload
      → behind_payload bytes (length p + k) id_end
        ≡ length p + (3 + length e.symbol + length e.payload)
  behind_payload-entry_text k h =
      let pos = length p + k in
      if-elim (λ i. suc (to_newline bytes i) ≡ length p + (3 + length e.symbol + length e.payload))
        (leb pos id_end)
        (λ q. ap suc (to_payload_end (suc id_end) 0 (omega arith) (omega arith)) ∙ omega arith)
        (λ q.
          let j = k - (length id_line + 1) in
          let b = above pos id_end q in
          ap suc (to_payload_end pos j (omega (arith, b)) (omega (arith, h, b))) ∙ omega arith)
