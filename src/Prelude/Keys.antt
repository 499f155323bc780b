-- ===== src/Prelude/Keys.antt =====
-- Maps from numbers, as association lists with one entry for each key; and lists read by an index.
use Prim.Native.Nat.{ℕ, zero, suc, ◌<◌, ◌≤◌}
use mathlib.Core.Path.{◌≡◌, refl, sym, subst}
use mathlib.Core.Bool.{false}
use mathlib.Core.Logic.{inl, inr}
use mathlib.Core.Option.{Option, none, some}
use mathlib.Core.List.{List, [], ◌∷◌, ◌++◌}
use native.Mathlib.Omega.{arith}
use mozsearch.Prelude.Tests.{◌==◌, ==-true, ==_iff, if◌then◌else◌, Bool-cases}
use mozsearch.Prelude.Lists.{length, get_elem?, get_elem?-append}

module _ {ℓ} {A : Type ℓ} where
  abbrev pub lookup_key : ℕ → List (ℕ × A) → Option A
  lookup_key k [] = none
  lookup_key k ((key, v) ∷ m) = if key == k then some v else lookup_key k m

  abbrev pub insert_key : ℕ → A → List (ℕ × A) → List (ℕ × A)
  insert_key k v [] = (k, v) ∷ []
  insert_key k v ((key, w) ∷ m) = if key == k then (k, v) ∷ m else (key, w) ∷ insert_key k v m

  pub lookup_key-insert_same :
      (k : ℕ) (v : A) (m : List (ℕ × A)) → lookup_key k (insert_key k v m) ≡ some v
  lookup_key-insert_same k v [] = rw (==-true k k refl) refl
  lookup_key-insert_same k v ((key, w) ∷ m) = elim (Bool-cases (key == k)) [
    | inl e ↦ rw e (rw (==-true k k refl) refl)
    | inr e ↦ rw e (rw e (lookup_key-insert_same k v m))
  ]

  pub lookup_key-insert_other :
      (j k : ℕ) (v : A) (m : List (ℕ × A))
      → (k == j) ≡ false
      → lookup_key j (insert_key k v m) ≡ lookup_key j m
  lookup_key-insert_other j k v [] h = rw h refl
  lookup_key-insert_other j k v ((key, w) ∷ m) h = elim (Bool-cases (key == k)) [
    | inl e ↦
        let same : (key == j) ≡ false =
          subst (λ x. (x == j) ≡ false) (sym ((==_iff key k).0 e)) h in
        rw e (rw (h, same) refl)
    | inr e ↦ elim (Bool-cases (key == j)) [
      | inl f ↦ rw e (rw f refl)
      | inr f ↦ rw e (rw f (lookup_key-insert_other j k v m h))
    ]
  ]

  -- An element that is put at the end of a list.
  pub get_elem?-last : (xs : List A) (x : A) → get_elem? (xs ++ (x ∷ [])) (length xs) ≡ some x
  get_elem?-last xs x = get_elem?-append xs (x ∷ []) (length xs) 0 (omega arith)

  pub get_elem?-before :
      (xs ys : List A) (i : ℕ) → i < length xs → get_elem? (xs ++ ys) i ≡ get_elem? xs i
  get_elem?-before [] ys i h = absurd (omega (arith, h))
  get_elem?-before (x ∷ xs) ys zero h = refl
  get_elem?-before (x ∷ xs) ys (suc i) h = get_elem?-before xs ys i (omega (arith, h))

  pub get_elem?-beyond : (xs : List A) (i : ℕ) → length xs ≤ i → get_elem? xs i ≡ none
  get_elem?-beyond [] i h = refl
  get_elem?-beyond (x ∷ xs) zero h = absurd (omega (arith, h))
  get_elem?-beyond (x ∷ xs) (suc i) h = get_elem?-beyond xs i (omega (arith, h))

  pub get_elem?-there : (xs : List A) (i : ℕ) → i < length xs → (x : A) × (get_elem? xs i ≡ some x)
  get_elem?-there [] i h = absurd (omega (arith, h))
  get_elem?-there (x ∷ xs) zero h = (x, refl)
  get_elem?-there (x ∷ xs) (suc i) h = get_elem?-there xs i (omega (arith, h))

  pub get_elem?-lt : (xs : List A) (i : ℕ) (x : A) → get_elem? xs i ≡ some x → i < length xs
  get_elem?-lt [] i x h = ground arith
  get_elem?-lt (y ∷ xs) zero x h = omega arith
  get_elem?-lt (y ∷ xs) (suc i) x h = omega (arith, get_elem?-lt xs i x h)

  pub get_elem?-not_last :
      (xs : List A) (x : A) (i : ℕ)
      → (length xs == i) ≡ false
      → get_elem? (xs ++ (x ∷ [])) i ≡ get_elem? xs i
  get_elem?-not_last [] x zero h = ground arith
  get_elem?-not_last [] x (suc i) h = refl
  get_elem?-not_last (y ∷ xs) x zero h = refl
  get_elem?-not_last (y ∷ xs) x (suc i) h = get_elem?-not_last xs x i (ground arith)
