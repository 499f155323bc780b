-- ===== src/Analysis/Expansions.antt =====
-- tools/src/file_format/analysis.rs: what a merge does to the expansion infos.
use mozsearch.Prelude.{
  All, Bool-cases, inl, inr, list_eq, if◌then◌else◌, [], ◌∷◌, arith, subst, ◌≡◌, refl, sym, ap, ◌∙◌,
  Option, none, some, List, ◌++◌, ℕ,
}
use mathlib.Core.Option.{some-injective}
use mozsearch.Prelude.Text.{◌>>=◌}
use mozsearch.Analysis.Source.{Text, Map, get, merge_map, in_expansion_at}
use mozsearch.Analysis.Merge.{merge_expansions}
use mozsearch.Analysis.Maps.{IsMap, combine, combine-none, get-merge_map}

-- The value under a key and a platform.
abbrev pub platform_value {ℓ} : {A : Type ℓ} → Text → Text → Map (Map A) → Option A
platform_value k p m = get k m >>= get p

-- The values are maps, each with one entry for every key.
abbrev pub HasMaps : Map (Map (List ℕ)) → Type 0
HasMaps b = All (λ e. IsMap e.1) b

HasMaps-get :
    (b : Map (Map (List ℕ))) (k : Text) (w : Map (List ℕ)) → HasMaps b → get k b ≡ some w → IsMap w
unfolding get
HasMaps-get [] k w h e = ground arith
HasMaps-get ((key, v) ∷ b) k w (h, hs) e = elim (Bool-cases (list_eq key k)) [
  | inl q ↦
      subst IsMap (some-injective v w (subst (λ t. (if t then some v else get k b) ≡ some w) q e)) h
  | inr q ↦ HasMaps-get b k w hs (subst (λ t. (if t then some v else get k b) ≡ some w) q e)
]

combine-nested :
    (a b : Option (Map (List ℕ))) (p : Text)
    → ((w : Map (List ℕ)) → b ≡ some w → IsMap w)
    → (combine (merge_map (λ x y. x ++ y)) a b >>= get p)
      ≡ combine (λ x y. x ++ y) (a >>= get p) (b >>= get p)
combine-nested none b p h = refl
combine-nested (some v) none p h = sym (combine-none _ (get p v))
combine-nested (some v) (some w) p h = get-merge_map (λ x y. x ++ y) v w p (h w refl)

-- Two infos about places of expansion, where the second has each key once on both levels, are
-- merged, and then the offsets of a symbol on a platform are ours in front of theirs if both have
-- some, and those of the one that has any if not.
pub merge_expansions-platform_value :
    (a b : Map (Map (List ℕ))) (k p : Text)
    → IsMap b
    → HasMaps b
    → (m : Map (Map (List ℕ))) × (merge_expansions
          (some (in_expansion_at a))
          (some (in_expansion_at b))
        ≡ some (some (in_expansion_at m)))
      × (platform_value k p m
          ≡ combine (λ x y. x ++ y) (platform_value k p a) (platform_value k p b))
unfolding merge_expansions
merge_expansions-platform_value a b k p h inner = (
  _,
  refl,
  ap (λ o. o >>= get p) (get-merge_map (merge_map (λ x y. x ++ y)) a b k h)
      ∙ combine-nested (get k a) (get k b) p (λ w e. HasMaps-get b k w inner e),
)
