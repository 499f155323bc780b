-- ===== src/Analysis/LevelLoop.antt =====
-- tools/src/file_format/analysis.rs: the loop over the symbols of a merge.
use mozsearch.Prelude.{
  ◌≡◌, refl, ap, sym, subst, ◌∙◌, true, false, none, some, List, [], ◌∷◌, ◌++◌, map, append-nil,
  append_assoc, list_eq, list_eq_iff, if◌then◌else◌, length, arith, Bool-cases, Option-cases, inl,
  inr, All, ◌≢◌, if-elim,
}
use mozsearch.Analysis.Source.{
  Text, ConfidenceLevel, cpp_template_heuristic, concrete, max, Map, get, modify_or_insert,
  level_step, level_loop, levels_of,
}
use mozsearch.Analysis.Maps.{get-append_some, get-append_none, get-modify_same, get-modify_other}
use mozsearch.Analysis.Levels.{
  member, first_ones, highest, keys, keys-append, member-keys_empty, member-keys_full, keys-modify,
}

-- A symbol that is new, and one that is not.
pub level_step_new :
    (s : Text) (c : ConfidenceLevel) (syms : List Text) (m : Map ConfidenceLevel)
    → get s m ≡ none
    → level_step s c (syms, m) ≡ (syms ++ (s ∷ []), m ++ ((s, c) ∷ []))
unfolding level_step
level_step_new s c syms m h = rw h refl

pub level_step_known :
    (s : Text) (c : ConfidenceLevel) (syms : List Text) (m : Map ConfidenceLevel)
    (d : ConfidenceLevel)
    → get s m ≡ some d
    → level_step s c (syms, m) ≡ (syms, modify_or_insert s (λ e. max c e) c m)
unfolding level_step
level_step_known s c syms m d h = rw h refl

-- The symbols of the map are those pushed, and they are the first ones.
pub level_loop-first_ones :
    (ss : List Text) (cs : List ConfidenceLevel) (syms : List Text) (m : Map ConfidenceLevel)
    → length ss ≡ length cs
    → keys m ≡ syms
    → (level_loop ss cs (syms, m)).0 ≡ syms ++ first_ones syms ss
unfolding level_loop first_ones
level_loop-first_ones [] cs syms m l k = sym (append-nil syms)
level_loop-first_ones (s ∷ ss) [] syms m l k = ground arith
level_loop-first_ones (s ∷ ss) (c ∷ cs) syms m l k = elim (Option-cases (get s m)) [
  | inl e ↦
      let fresh : member s syms ≡ false =
        subst (λ x. member s x ≡ false) k (member-keys_empty s m e) in
      rw fresh (
        ap (λ st. (level_loop ss cs st).0) (level_step_new s c syms m e)
        ∙ level_loop-first_ones ss cs _ _ (omega (arith, l))
            (keys-append m _ ∙ ap (λ r. r ++ (s ∷ [])) k)
        ∙ append_assoc syms (s ∷ []) _)
  | inr (d, e) ↦
      let seen : member s syms ≡ true =
        subst (λ x. member s x ≡ true) k (member-keys_full s m d e) in
      rw seen (
        ap (λ st. (level_loop ss cs st).0) (level_step_known s c syms m d e)
        ∙ level_loop-first_ones ss cs syms _ (omega (arith, l)) (keys-modify s _ c m d e ∙ k))
]

pub max_assoc : (a b c : ConfidenceLevel) → max (max a b) c ≡ max b (max a c)
max_assoc cpp_template_heuristic b c = refl
max_assoc concrete cpp_template_heuristic c = refl
max_assoc concrete concrete c = refl

pub list_eq_refl : (t : Text) → list_eq t t ≡ true
list_eq_refl t = (list_eq_iff t t).1 refl

pub some-none : (d : ConfidenceLevel) → some d ≢ none
some-none d = λ e. ground arith

-- One step and the level of a symbol that has one.
pub get-level_step :
    (t s : Text) (c d : ConfidenceLevel) (syms : List Text) (m : Map ConfidenceLevel)
    → get t m ≡ some d
    → get t (level_step s c (syms, m)).1 ≡ some (if list_eq s t then max c d else d)
get-level_step t s c d syms m h = elim (Option-cases (get s m)) [
  | inl e ↦ rw (level_step_new s c syms m e) (elim (Bool-cases (list_eq s t)) [
    | inl q ↦ absurd (some-none d (sym h ∙ subst (λ x. get x m ≡ none) ((list_eq_iff s t).0 q) e))
    | inr q ↦ rw q (get-append_some t m _ d h)
  ])
  | inr (b, e) ↦ rw (level_step_known s c syms m b e) (elim (Bool-cases (list_eq s t)) [
    | inl q ↦ rw q (
        subst (λ x. get t (modify_or_insert x (λ w. max c w) c m) ≡ some (max c d))
          (sym ((list_eq_iff s t).0 q)) (get-modify_same t (λ w. max c w) c m d h))
    | inr q ↦ rw q (get-modify_other s t _ c m q ∙ h)
  ])
]

pub max-lowest : (d : ConfidenceLevel) → max d cpp_template_heuristic ≡ d
max-lowest cpp_template_heuristic = refl
max-lowest concrete = refl

-- A symbol that has a level ends with the highest of it and of those to come.
pub get-level_loop-some :
    (t : Text) (ss : List Text) (cs : List ConfidenceLevel) (syms : List Text)
    (m : Map ConfidenceLevel) (d : ConfidenceLevel)
    → get t m ≡ some d
    → get t (level_loop ss cs (syms, m)).1 ≡ some (max d (highest t ss cs))
unfolding level_loop highest
get-level_loop-some t [] cs syms m d h = h ∙ ap (λ x. some x) (sym (max-lowest d))
get-level_loop-some t (s ∷ ss) [] syms m d h = h ∙ ap (λ x. some x) (sym (max-lowest d))
get-level_loop-some t (s ∷ ss) (c ∷ cs) syms m d h = elim (Bool-cases (list_eq s t)) [
  | inl q ↦
      get-level_loop-some t ss cs (level_step s c (syms, m)).0 (level_step s c (syms, m)).1
        (max c d) (get-level_step t s c d syms m h ∙ rw q refl)
      ∙ rw q (ap (λ x. some x) (max_assoc c d (highest t ss cs)))
  | inr q ↦
      get-level_loop-some t ss cs (level_step s c (syms, m)).0 (level_step s c (syms, m)).1 d
        (get-level_step t s c d syms m h ∙ rw q refl)
      ∙ rw q refl
]

pub get-level_step_other :
    (t s : Text) (c : ConfidenceLevel) (syms : List Text) (m : Map ConfidenceLevel)
    → get t m ≡ none
    → list_eq s t ≡ false
    → get t (level_step s c (syms, m)).1 ≡ none
unfolding get
get-level_step_other t s c syms m h q = elim (Option-cases (get s m)) [
  | inl e ↦ rw (level_step_new s c syms m e) (get-append_none t m _ h ∙ rw q refl)
  | inr (b, e) ↦ rw (level_step_known s c syms m b e) (get-modify_other s t _ c m q ∙ h)
]

pub get-level_step_same :
    (t s : Text) (c : ConfidenceLevel) (syms : List Text) (m : Map ConfidenceLevel)
    → get t m ≡ none
    → list_eq s t ≡ true
    → get t (level_step s c (syms, m)).1 ≡ some c
unfolding get
get-level_step_same t s c syms m h q =
    let e : get s m ≡ none = subst (λ x. get x m ≡ none) (sym ((list_eq_iff s t).0 q)) h in
    rw (level_step_new s c syms m e) (get-append_none t m _ h ∙ rw q refl)

-- A symbol that has no level yet ends with the highest of those to come.
pub get-level_loop-none :
    (t : Text) (ss : List Text) (cs : List ConfidenceLevel) (syms : List Text)
    (m : Map ConfidenceLevel)
    → length ss ≡ length cs
    → member t ss ≡ true
    → get t m ≡ none
    → get t (level_loop ss cs (syms, m)).1 ≡ some (highest t ss cs)
unfolding level_loop highest
get-level_loop-none t [] cs syms m l k h = ground arith
get-level_loop-none t (s ∷ ss) [] syms m l k h = ground arith
get-level_loop-none t (s ∷ ss) (c ∷ cs) syms m l k h = elim (Bool-cases (list_eq s t)) [
  | inl q ↦
      get-level_loop-some t ss cs (level_step s c (syms, m)).0 (level_step s c (syms, m)).1 c
        (get-level_step_same t s c syms m h q)
      ∙ rw q refl
  | inr q ↦
      get-level_loop-none t ss cs (level_step s c (syms, m)).0 (level_step s c (syms, m)).1
        (omega (arith, l)) (ground arith) (get-level_step_other t s c syms m h q)
      ∙ rw q refl
]

pub levels_of-All :
    (f : Text → ConfidenceLevel) (m : Map ConfidenceLevel) (ts : List Text)
    → All (λ t. get t m ≡ some (f t)) ts
    → levels_of ts m ≡ some (map f ts)
unfolding levels_of
levels_of-All f m [] h = refl
levels_of-All f m (t ∷ ts) (h, hs) = rw (h, levels_of-All f m ts hs) refl

-- What is kept occurs in the list.
pub first_ones-All :
    (P : Text → Type 0) (seen ts : List Text)
    → ((t : Text) → member t ts ≡ true → P t)
    → All P (first_ones seen ts)
unfolding first_ones
first_ones-All P seen [] f = tt
first_ones-All P seen (t ∷ ts) f =
    let tail : (u : Text) → member u ts ≡ true → P u = λ u h. f u (ground arith) in
    if-elim (All P) (member t seen) (λ e. first_ones-All P seen ts tail)
      (λ e. (f t (rw (list_eq_refl t) refl), first_ones-All P (seen ++ (t ∷ [])) ts tail))
