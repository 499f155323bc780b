-- ===== src/SymbolGraph/Edges/Details.antt =====
-- SymbolGraphEdgeSet: the details that are merged, the map from pairs, and the change of one info.
use mozsearch.Prelude.{
  ℕ, ◌≡◌, refl, sym, subst, Bool, true, false, ◌&&◌, some, List, [], ◌∷◌, ◌++◌, ◌==◌, ==_iff,
  ==-true, list_eq_iff, if◌then◌else◌, if-elim, length, get_elem?, All, arith, Bool-cases, inl, inr,
}
use mozsearch.SymbolGraph.Edges.{
  EdgeDetail, jump, hover_class, EdgeInfo, detail_eq, has_detail, merge_details, lookup_pair,
  insert_pair,
}

detail_eq_refl : (d : EdgeDetail) → detail_eq d d ≡ true
detail_eq_refl (jump a) = (list_eq_iff a a).1 refl
detail_eq_refl (hover_class a) = (list_eq_iff a a).1 refl

-- All of the first list are in the second.
unfoldable pub AllIn : List EdgeDetail → List EdgeDetail → Type 0
AllIn ds details = All (λ d. has_detail d details ≡ true) ds

has_detail-append :
    (d : EdgeDetail) (xs ys : List EdgeDetail)
    → has_detail d xs ≡ true
    → has_detail d (xs ++ ys) ≡ true
has_detail-append d [] ys h = ground arith
has_detail-append d (x ∷ xs) ys h = elim (Bool-cases (detail_eq x d)) [
  | inl q ↦ rw q refl
  | inr q ↦
      let later : has_detail d xs ≡ true =
        subst (λ t. (if t then true else has_detail d xs) ≡ true) q h in
      rw q (has_detail-append d xs ys later)
]

has_detail-last : (d : EdgeDetail) (xs : List EdgeDetail) → has_detail d (xs ++ (d ∷ [])) ≡ true
has_detail-last d [] = rw (detail_eq_refl d) refl
has_detail-last d (x ∷ xs) = elim (Bool-cases (detail_eq x d)) [
  | inl q ↦ rw q refl
  | inr q ↦ rw q (has_detail-last d xs)
]

pub has_detail-merge_details :
    (d : EdgeDetail) (old ds : List EdgeDetail)
    → has_detail d old ≡ true
    → has_detail d (merge_details old ds) ≡ true
has_detail-merge_details d old [] h = h
has_detail-merge_details d old (x ∷ ds) h = elim (Bool-cases (has_detail x old)) [
  | inl q ↦ rw q (has_detail-merge_details d old ds h)
  | inr q ↦
      rw q (has_detail-merge_details d (old ++ (x ∷ [])) ds (has_detail-append d old (x ∷ []) h))
]

pub merge_details-AllIn : (old ds : List EdgeDetail) → AllIn ds (merge_details old ds)
unfolding AllIn
merge_details-AllIn old [] = tt
merge_details-AllIn old (x ∷ ds) =
    if-elim (λ l. AllIn (x ∷ ds) (merge_details l ds)) (has_detail x old)
      (λ q. (has_detail-merge_details x old ds q, merge_details-AllIn old ds))
      (λ q. (
        has_detail-merge_details x (old ++ (x ∷ [])) ds (has_detail-last x old),
        merge_details-AllIn (old ++ (x ∷ [])) ds,
      ))

-- Details that are all there already change nothing.
pub merge_details_known : (old ds : List EdgeDetail) → AllIn ds old → merge_details old ds ≡ old
unfolding AllIn
merge_details_known old [] h = refl
merge_details_known old (d ∷ ds) (h, hs) = rw h (merge_details_known old ds hs)

AllIn-cons : (x : EdgeDetail) (xs ds : List EdgeDetail) → AllIn ds xs → AllIn ds (x ∷ xs)
unfolding AllIn
AllIn-cons x xs [] h = tt
AllIn-cons x xs (d ∷ ds) (h, hs) = (rw h (if_same (detail_eq x d)), AllIn-cons x xs ds hs)
  where
    if_same : (b : Bool) → (if b then true else true) ≡ true
    if_same true = refl
    if_same false = refl

pub AllIn-self : (ds : List EdgeDetail) → AllIn ds ds
unfolding AllIn
AllIn-self [] = tt
AllIn-self (d ∷ ds) = (rw (detail_eq_refl d) refl, AllIn-cons d ds ds (AllIn-self ds))

pub lookup_pair-insert_same :
    (a b v : ℕ) (m : List ((ℕ × ℕ) × ℕ)) → lookup_pair a b (insert_pair a b v m) ≡ some v
lookup_pair-insert_same a b v [] = rw (==-true a a refl, ==-true b b refl) refl
lookup_pair-insert_same a b v (((x, y), w) ∷ m) = elim (Bool-cases (x == a && y == b)) [
  | inl q ↦ rw q (rw (==-true a a refl, ==-true b b refl) refl)
  | inr q ↦ rw q (rw q (lookup_pair-insert_same a b v m))
]

pub pair_eq : (a b c d : ℕ) → a == c && b == d ≡ true → (a ≡ c) × (b ≡ d)
pair_eq a b c d h = ((==_iff a c).0 (ground arith), (==_iff b d).0 (ground arith))

pub lookup_pair-insert_other :
    (a b c d v : ℕ) (m : List ((ℕ × ℕ) × ℕ))
    → a == c && b == d ≡ false
    → lookup_pair c d (insert_pair a b v m) ≡ lookup_pair c d m
lookup_pair-insert_other a b c d v [] h = rw h refl
lookup_pair-insert_other a b c d v (((x, y), w) ∷ m) h = elim (Bool-cases (x == a && y == b)) [
  | inl q ↦
      let e = pair_eq x y a b q in
      let same : x == c && y == d ≡ false =
        subst (λ z. z == c && y == d ≡ false) (sym e.0)
          (subst (λ z. a == c && z == d ≡ false) (sym e.1) h) in
      rw q (rw (h, same) refl)
  | inr q ↦ elim (Bool-cases (x == c && y == d)) [
    | inl r ↦ rw q (rw r refl)
    | inr r ↦ rw q (rw r (lookup_pair-insert_other a b c d v m h))
  ]
]

-- The info at a number is changed, and no other.
pub record IsUpdated (n : ℕ) (f : EdgeInfo → EdgeInfo) (infos : List EdgeInfo)
    (after : List EdgeInfo) : Type 0 where
  pub here : (i : EdgeInfo) → get_elem? infos n ≡ some i → get_elem? after n ≡ some (f i)
  pub others : (m : ℕ) → (m == n) ≡ false → get_elem? after m ≡ get_elem? infos m
  pub same_size : length after ≡ length infos
