-- ===== src/SymbolGraph/Badges/Labels.antt =====
-- DerivedSymbolInfo: the badges that the labels of a symbol give, described label by label.
use mozsearch.Prelude.{
  ℕ, ◌≡◌, ◌⊎◌, refl, sym, ap, ◌∙◌, true, false, Option, none, some, List, [], ◌∷◌, ◌++◌, ◌==◌,
  ==_iff, codes, Bool-cases, inl, inr, arith,
}
use mozsearch.SymbolGraph.Badges.{SymbolBadge, has_prefix, badge_of_label, badges_of, label_badges}

abbrev pub BeginsWith : List ℕ → List ℕ → Type 0
BeginsWith p label = (rest : List ℕ) × (label ≡ p ++ rest)

-- A label that asks for a diagram.
abbrev pub IsDiagram : List ℕ → Type 0
IsDiagram label =
    BeginsWith (codes "calls-diagram:") label
    ⊎ BeginsWith (codes "class-diagram:") label
    ⊎ BeginsWith (codes "uses-diagram:") label

-- The badges of the labels, in their order: none for what is no string and for what asks for a
-- diagram, and the priority and the text of the table for each other label.
pub data AreBadges : List (Option (List ℕ)) → List SymbolBadge → Type 0 where
  no_labels : AreBadges [] []
  no_string :
      {ls : List (Option (List ℕ))} {bs : List SymbolBadge}
      → AreBadges ls bs
      → AreBadges (none ∷ ls) bs
  diagram :
      {label : List ℕ} {ls : List (Option (List ℕ))} {bs : List SymbolBadge}
      → IsDiagram label
      → AreBadges ls bs
      → AreBadges (some label ∷ ls) bs
  shown :
      {label : List ℕ} {ls : List (Option (List ℕ))} {bs : List SymbolBadge}
      → ¬ IsDiagram label
      → AreBadges ls bs
      → AreBadges (some label ∷ ls) (
          record {
            pri = (badge_of_label label).0;
            label = (badge_of_label label).1;
            source_jump = none;
          }
          ∷ bs)

-- What is no array has no badges.
abbrev pub AreBadgesOf : Option (List (Option (List ℕ))) → List SymbolBadge → Type 0
AreBadgesOf none bs = bs ≡ []
AreBadgesOf (some labels) bs = AreBadges labels bs

has_prefix-BeginsWith : (p label : List ℕ) → has_prefix p label ≡ true → BeginsWith p label
has_prefix-BeginsWith [] label h = (label, refl)
has_prefix-BeginsWith (x ∷ p) [] h = ground arith
has_prefix-BeginsWith (x ∷ p) (c ∷ label) h = elim (Bool-cases (c == x)) [
  | inl e ↦
      let r = has_prefix-BeginsWith p label (sym (rw e refl) ∙ h) in
      (r.0, ap (λ y. y ∷ label) ((==_iff c x).0 e) ∙ ap (λ l. x ∷ l) r.1)
  | inr e ↦ ground arith
]

has_prefix-append : (p rest : List ℕ) → has_prefix p (p ++ rest) ≡ true
has_prefix-append [] rest = refl
has_prefix-append (x ∷ p) rest = rw ((==_iff x x).1 refl) (has_prefix-append p rest)

no_prefix : (p label : List ℕ) → has_prefix p label ≡ false → ¬ BeginsWith p label
no_prefix p label h b =
    let yes : has_prefix p label ≡ true = ap (has_prefix p) b.1 ∙ has_prefix-append p b.0 in
    ground arith

badges_of-AreBadges : (labels : List (Option (List ℕ))) → AreBadges labels (badges_of labels)
badges_of-AreBadges [] = no_labels
badges_of-AreBadges (none ∷ labels) = no_string (badges_of-AreBadges labels)
badges_of-AreBadges (some label ∷ labels) =
    let rest = badges_of-AreBadges labels in
    elim (Bool-cases (has_prefix (codes "calls-diagram:") label)) [
      | inl a ↦ rw a (diagram (inl (has_prefix-BeginsWith (codes "calls-diagram:") label a)) rest)
      | inr a ↦ elim (Bool-cases (has_prefix (codes "class-diagram:") label)) [
        | inl b ↦
            rw (a, b)
              (diagram (inr (inl (has_prefix-BeginsWith (codes "class-diagram:") label b))) rest)
        | inr b ↦ elim (Bool-cases (has_prefix (codes "uses-diagram:") label)) [
          | inl c ↦
              rw (a, b, c)
                (diagram (inr (inr (has_prefix-BeginsWith (codes "uses-diagram:") label c))) rest)
          | inr c ↦
              rw (a, b, c)
                (shown
                  (λ d. elim d [
                    | inl x ↦ no_prefix (codes "calls-diagram:") label a x
                    | inr y ↦ elim y [
                      | inl x ↦ no_prefix (codes "class-diagram:") label b x
                      | inr x ↦ no_prefix (codes "uses-diagram:") label c x
                    ]
                  ])
                  rest)
        ]
      ]
    ]

pub label_badges-AreBadgesOf :
    (labels : Option (List (Option (List ℕ)))) → AreBadgesOf labels (label_badges labels)
label_badges-AreBadgesOf none = refl
label_badges-AreBadgesOf (some labels) = badges_of-AreBadges labels
