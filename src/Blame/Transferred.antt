-- ===== src/Blame/Transferred.antt =====
-- blame_for_path: the lines of a file have the blame of the parent's lines that they are.
use mozsearch.Prelude.{
  ℕ, zero, suc, ◌<◌, ◌≡◌, ◌⊎◌, refl, sym, ap, subst, ◌∙◌, true, false, some, List, [], ◌∷◌, ◌++◌,
  ◌==◌, list_eq, list_eq_iff, length, get_elem?, codes, All, arith, Bool-cases, inl, inr,
}
use mozsearch.Blame.{LineData, serialize, deserialize, is_path_unchanged}
use mozsearch.Blame.RoundTrips.{IsColonFree, deserialize-serialize}
use mozsearch.Blame.Transfer.{Parent, set_line, from_parent, transfer}

-- The text of a line of blame.
abbrev pub line_text : List ℕ → List ℕ → List ℕ → List ℕ
line_text rev name lineno = rev ++ (b':' ∷ name ++ (b':' ∷ lineno ++ (b':' ∷ [])))

-- A text that is a line of blame, its three fields without a colon.
pub record IsLine (line : List ℕ) : Type 0 where
  pub rev : List ℕ
  pub name : List ℕ
  pub lineno : List ℕ
  pub line_eq : line ≡ line_text rev name lineno
  pub plain_rev : IsColonFree rev
  pub plain_name : IsColonFree name
  pub plain_lineno : IsColonFree lineno

-- What is taken over for a parent's line: the line as it is, if the file has the parent's path or
-- the line names a path already; or else the line with the parent's path in place of the `%`.
pub data IsTaken (path : List ℕ) (p : Parent) (line taken : List ℕ) : Type 0 where
  same_path : path ≡ p.parent_path → taken ≡ line → IsTaken path p line taken
  has_path :
      (l : IsLine line)
      → ¬ (path ≡ p.parent_path)
      → ¬ (l.name ≡ codes "%")
      → taken ≡ line
      → IsTaken path p line taken
  renamed :
      (l : IsLine line)
      → ¬ (path ≡ p.parent_path)
      → l.name ≡ codes "%"
      → taken ≡ line_text l.rev p.parent_path l.lineno
      → IsTaken path p line taken

differ : (a b : List ℕ) → list_eq a b ≡ false → ¬ (a ≡ b)
differ a b h e = let same : list_eq a b ≡ true = (list_eq_iff a b).1 e in ground arith

from_parent-IsTaken :
    (path : List ℕ) (p : Parent) (line : List ℕ)
    → (path ≡ p.parent_path) ⊎ IsLine line
    → (taken : List ℕ) × (from_parent path p line ≡ some taken) × IsTaken path p line taken
unfolding from_parent serialize is_path_unchanged
from_parent-IsTaken path p line h = elim (Bool-cases (list_eq path p.parent_path)) [
  | inl e ↦ (line, rw e refl, same_path ((list_eq_iff path p.parent_path).0 e) refl)
  | inr e ↦
      let other = differ path p.parent_path e in
      elim h [
        | inl same ↦ absurd (other same)
        | inr l ↦
            let d : LineData = record { rev = l.rev; path = l.name; lineno = l.lineno } in
            let read : deserialize line ≡ some d =
              ap deserialize l.line_eq
              ∙ deserialize-serialize d l.plain_rev l.plain_name l.plain_lineno in
            elim (Bool-cases (list_eq l.name (codes "%"))) [
              | inl u ↦ (
                line_text l.rev p.parent_path l.lineno,
                rw e (rw read (rw u refl)),
                renamed l other ((list_eq_iff l.name (codes "%")).0 u) refl,
              )
              | inr u ↦ (
                line,
                rw e (rw read (rw u (ap some (sym l.line_eq)))),
                has_path l other (differ l.name (codes "%") u) refl,
              )
            ]
      ]
]

set_line-lookup :
    (n : ℕ) (line : List ℕ) (bs : List (List ℕ))
    → n < length bs
    → (after : List (List ℕ)) × (set_line n line bs ≡ some after)
      × (length after ≡ length bs)
      × (get_elem? after n ≡ some line)
      × ((m : ℕ) → (m == n) ≡ false → get_elem? after m ≡ get_elem? bs m)
set_line-lookup n line [] h = absurd (omega (arith, h))
set_line-lookup zero line (b ∷ bs) h = (line ∷ bs, refl, refl, refl, others)
  where
    others : (m : ℕ) → (m == 0) ≡ false → get_elem? (line ∷ bs) m ≡ get_elem? (b ∷ bs) m
    others zero e = ground arith
    others (suc m) e = refl
set_line-lookup (suc n) line (b ∷ bs) h =
    let r = set_line-lookup n line bs (omega (arith, h)) in
    (b ∷ r.0, rw r.1 refl, ap suc r.2, r.3, others r.0 r.4)
  where
    others :
        (after : List (List ℕ))
        → ((m : ℕ) → (m == n) ≡ false → get_elem? after m ≡ get_elem? bs m)
        → (m : ℕ) → (m == suc n) ≡ false
        → get_elem? (b ∷ after) m ≡ get_elem? (b ∷ bs) m
    others after f zero e = refl
    others after f (suc m) e = f m (ground arith)

-- A pair whose line is there, and the parent's line, which is a line of blame if the file had
-- another path.
pub record IsTransferable (path : List ℕ) (p : Parent) (size : ℕ) (q : ℕ × ℕ) : Type 0 where
  pub inside : q.0 < size
  pub parent_line : List ℕ
  pub has_line : get_elem? p.blame q.1 ≡ some parent_line
  pub readable : (path ≡ p.parent_path) ⊎ IsLine parent_line

-- Each line is in one pair at most.
abbrev pub IsAscending : List (ℕ × ℕ) → Type 0
IsAscending [] = Unit {0}
IsAscending (q ∷ qs) = All (λ r. q.0 < r.0) qs × IsAscending qs

-- The line of a pair is what is taken over for the parent's line.
pub record IsTold (path : List ℕ) (p : Parent) (after : List (List ℕ)) (q : ℕ × ℕ) : Type 0 where
  pub parent_line : List ℕ
  pub taken : List ℕ
  pub has_line : get_elem? p.blame q.1 ≡ some parent_line
  pub is_taken : IsTaken path p parent_line taken
  pub line_eq : get_elem? after q.0 ≡ some taken

-- The lines of the pairs are the parent's, and the others are as they were.
pub record IsTransferred (path : List ℕ) (p : Parent) (qs : List (ℕ × ℕ))
    (before after : List (List ℕ)) : Type 0 where
  pub same_size : length after ≡ length before
  pub told : All (IsTold path p after) qs
  pub own : (i : ℕ) → All (λ q. (i == q.0) ≡ false) qs → get_elem? after i ≡ get_elem? before i

ascending_other :
    (i : ℕ) (qs : List (ℕ × ℕ)) → All (λ r. i < r.0) qs → All (λ q. (i == q.0) ≡ false) qs
ascending_other i [] h = tt
ascending_other i (q ∷ qs) (h, hs) = (ground arith, ascending_other i qs hs)

-- Let the pairs ascend and lie in the two files, and let each of the parent's lines in them be a
-- line of blame with three fields without a colon, if the parent's path is another one. Then
-- `transfer` does not panic, and the line of each pair is afterwards the parent's line: as it is,
-- if the path is the parent's or the line names a path already, and with the parent's path in
-- place of the `%` otherwise. All other lines stay as they were, and there are as many as before.
pub transfer-IsTransferred :
    (path : List ℕ) (p : Parent) (qs : List (ℕ × ℕ)) (blame : List (List ℕ))
    → All (IsTransferable path p (length blame)) qs
    → IsAscending qs
    → (after : List (List ℕ)) × (transfer path p qs blame ≡ some after)
      × IsTransferred path p qs blame after
transfer-IsTransferred path p [] blame h s =
    (blame, refl, record { same_size = refl; told = tt; own = λ i u. refl })
transfer-IsTransferred path p (q ∷ qs) blame (h, hs) (s, ss) =
    let t = from_parent-IsTaken path p h.parent_line h.readable in
    let l = set_line-lookup q.0 t.0 blame h.inside in
    let r =
      transfer-IsTransferred path p qs l.0
        (subst (λ n. All (IsTransferable path p n) qs) (sym l.2) hs) ss in
    let here : IsTold path p r.0 q = record {
      parent_line = h.parent_line;
      taken = t.0;
      has_line = h.has_line;
      is_taken = t.2;
      line_eq = r.2.own q.0 (ascending_other q.0 qs s) ∙ l.3;
    } in
    (
      r.0,
      rw h.has_line (rw t.1 (rw l.1 r.1)),
      record {
        same_size = r.2.same_size ∙ l.2;
        told = (here, r.2.told);
        own = λ i (u, us). r.2.own i us ∙ l.4 i u;
      },
    )
