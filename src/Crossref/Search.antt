-- ===== src/Crossref/Search.antt =====
-- bisect_for_payload: what the order of the entries tells of those around a sample, and one turn
-- of the loop.
use mozsearch.Prelude.{
  ℕ, suc, ◌+◌, ◌/◌, ◌≡◌, refl, sym, ap, subst, ◌∙◌, true, false, some, List, [], ◌∷◌, ◌++◌, ◌==◌,
  list_eq, list_eq_iff, length, All, arith, append_assoc, append-nil, ◌⊎◌, Bool-cases, inl, inr,
}
use mathlib.Core.Bool.{true≢false}
use mozsearch.Identifiers.{bytes_ltb}
use mozsearch.Crossref.{checked_sub, get_id_line, payload_at, behind_payload, bisect_payload}
use mozsearch.Crossref.Order.{bytes_ltb-irreflexive, bytes_ltb-total, bytes_ltb-transitive}
use mozsearch.Crossref.Entries.{
  Entry, entry_text, file, payload_of, AllOther, payload_of-behind, payload_of-before,
  entry_text-append,
}
use mozsearch.Crossref.Lines.{EndsLine, behind}
use mozsearch.Crossref.IdLine.{checked_sub-add}

pub EndsLine-entry_text : (p : List ℕ) (e : Entry) → EndsLine (p ++ entry_text e [])
EndsLine-entry_text p e =
    let line = b'!' ∷ e.symbol in
    behind (p ++ (line ++ (b'\n' ∷ e.payload))) (
      ap (λ l. p ++ l) (sym (append_assoc line (b'\n' ∷ e.payload) (b'\n' ∷ [])))
      ∙ sym (append_assoc p (line ++ (b'\n' ∷ e.payload)) (b'\n' ∷ [])))

pub entry_text-file :
    (p : List ℕ) (e : Entry) (q : List ℕ) → p ++ entry_text e q ≡ (p ++ entry_text e []) ++ q
entry_text-file p e q =
    ap (λ l. p ++ l) (entry_text-append e [] q) ∙ sym (append_assoc p (entry_text e []) q)

pub EndsLine-file : (p : List ℕ) (es : List Entry) → EndsLine p → EndsLine (p ++ file es)
EndsLine-file p [] h = subst EndsLine (sym (append-nil p)) h
EndsLine-file p (e ∷ es) h =
    subst EndsLine (sym (entry_text-file p e (file es)))
      (EndsLine-file (p ++ entry_text e []) es (EndsLine-entry_text p e))

less_other : (s t : List ℕ) → bytes_ltb s t ≡ true → list_eq s t ≡ false
less_other s t h = elim (Bool-cases (list_eq s t)) [
  | inl q ↦ absurd (
      true≢false (
        sym h
        ∙ subst (λ x. bytes_ltb s x ≡ false) ((list_eq_iff s t).0 q) (bytes_ltb-irreflexive s)))
  | inr q ↦ q
]

greater_other : (s t : List ℕ) → bytes_ltb t s ≡ true → list_eq s t ≡ false
greater_other s t h = elim (Bool-cases (list_eq s t)) [
  | inl q ↦ absurd (
      true≢false (
        sym h
        ∙ subst (λ x. bytes_ltb x s ≡ false) ((list_eq_iff s t).0 q) (bytes_ltb-irreflexive s)))
  | inr q ↦ q
]

All-map {ℓ κ λ'} :
    {A : Type ℓ} (P : A → Type κ) (Q : A → Type λ') (xs : List A)
    → ((x : A) → P x → Q x)
    → All P xs
    → All Q xs
All-map P Q [] f h = tt
All-map P Q (x ∷ xs) f (h, hs) = (f x h, All-map P Q xs f hs)

-- What lies in front of an entry that is not greater than a symbol is not the symbol's.
AllOther-before :
    (search : List ℕ) (e : Entry) (xs : List Entry)
    → list_eq e.symbol search ≡ true ⊎ bytes_ltb e.symbol search ≡ true
    → All (λ f. bytes_ltb f.symbol e.symbol ≡ true) xs
    → AllOther search xs
AllOther-before search e xs c h =
    All-map (λ f. bytes_ltb f.symbol e.symbol ≡ true) (λ f. list_eq f.symbol search ≡ false) xs
      (λ f k. less_other f.symbol search (below f k c)) h
  where
    below :
        (f : Entry)
        → bytes_ltb f.symbol e.symbol ≡ true
        → list_eq e.symbol search ≡ true ⊎ bytes_ltb e.symbol search ≡ true
        → bytes_ltb f.symbol search ≡ true
    below f k (inl q) =
        subst (λ x. bytes_ltb f.symbol x ≡ true) ((list_eq_iff e.symbol search).0 q) k
    below f k (inr q) = bytes_ltb-transitive f.symbol e.symbol search k q

-- What lies behind an entry that is greater is not.
AllOther-behind :
    (search : List ℕ) (e : Entry) (xs : List Entry)
    → bytes_ltb search e.symbol ≡ true
    → All (λ f. bytes_ltb e.symbol f.symbol ≡ true) xs
    → AllOther search (e ∷ xs)
AllOther-behind search e xs c h = (
  greater_other e.symbol search c,
  All-map (λ f. bytes_ltb e.symbol f.symbol ≡ true) (λ f. list_eq f.symbol search ≡ false) xs
      (λ f k. greater_other f.symbol search (bytes_ltb-transitive search e.symbol f.symbol c k)) h,
)

sub_at : (a b c : ℕ) → a ≡ b + c → checked_sub a b ≡ some c
sub_at a b c h = subst (λ n. checked_sub n b ≡ some c) (sym h) (checked_sub-add b c)

-- One turn of the loop: the sample lies in the entry `e`, behind `xs` and in front of `ys`.
pub bisect_turn :
    (search bytes : List ℕ) (fuel first count off size id_end : ℕ) (xs : List Entry) (e : Entry)
    (ys : List Entry)
    → (count == 0) ≡ false
    → count / 2 ≡ length (file xs) + off
    → count ≡ length (file xs) + (size + length (file ys))
    → get_id_line bytes (first + count / 2) ≡ some (e.symbol, first + length (file xs), id_end)
    → payload_at bytes id_end ≡ some e.payload
    → behind_payload bytes (first + count / 2) id_end ≡ first + (length (file xs) + size)
    → All (λ f. bytes_ltb f.symbol e.symbol ≡ true) xs
    → All (λ f. bytes_ltb e.symbol f.symbol ≡ true) ys
    → bisect_payload bytes search fuel first (length (file xs)) ≡ some (payload_of search xs)
    → bisect_payload bytes search fuel (first + (length (file xs) + size)) (length (file ys))
      ≡ some (payload_of search ys)
    → bisect_payload bytes search (suc fuel) first count ≡ some (payload_of search (xs ++ (e ∷ ys)))
unfolding bisect_payload
bisect_turn search bytes fuel first count off size id_end xs e ys nz at total line payload next
      below above left right =
    let n = length (file xs) in
    elim (Bool-cases (list_eq e.symbol search)) [
      | inl q ↦
          let found =
            payload_of-behind search xs (e ∷ ys) (AllOther-before search e xs (inl q) below) in
          rw (nz, line) (rw (q, payload) (ap some (sym (found ∙ rw q refl))))
      | inr q ↦ elim (Bool-cases (bytes_ltb e.symbol search)) [
        | inl r ↦
            let skip =
              payload_of-behind search xs (e ∷ ys) (AllOther-before search e xs (inr r) below) in
            let skipped = sub_at (first + (n + size)) first (n + size) refl in
            let rest = sub_at count (n + size) (length (file ys)) (omega (arith, total)) in
            rw (nz, line)
              (rw (q, r)
                (rw next (rw skipped (rw rest (right ∙ ap some (sym (skip ∙ rw q refl)))))))
        | inr r ↦
            let above_all =
              AllOther-behind search e ys (bytes_ltb-total e.symbol search q r) above in
            let back = sub_at (first + count / 2) (first + n) off (omega (arith, at)) in
            let rest = sub_at (count / 2) off n (omega (arith, at)) in
            rw (nz, line)
              (rw (q, r)
                (rw back (
                  rw rest (left ∙ ap some (sym (payload_of-before search xs (e ∷ ys) above_all))))))
      ]
    ]
