-- ===== src/Tokenize/TagLike/Slices.antt =====
-- `&string[from..to]` between two boundaries is the text between them.
use mozsearch.Prelude.{
  ℕ, ◌+◌, ◌-◌, ◌≤◌, ◌<◌, List, [], ◌∷◌, ◌++◌, ◌≡◌, refl, ap, sym, subst, ◌∙◌, arith, append_assoc,
  ==-false,
}
use mozsearch.Tokenize.{byte_len, width}
use mozsearch.Tokenize.Scan.{byte_len-append}
use mozsearch.Tokenize.Boundaries.{IsBoundary}
use mozsearch.Tokenize.Embed.{Between}
use mozsearch.Tokenize.TagLike.Step.{drop_bytes, take_bytes, slice}

width_positive : (c : ℕ) → 0 < width c
width_positive c = ground arith

-- Of two ways to cut a text the one that cuts earlier leaves more.
prefix_cut :
    (a x b y : List ℕ)
    → a ++ x ≡ b ++ y
    → byte_len a ≤ byte_len b
    → (m : List ℕ) × (b ≡ a ++ m) × (x ≡ m ++ y)
prefix_cut [] x b y e h = (b, refl, e)
prefix_cut (c ∷ a) x [] y e h = absurd (omega (arith, h, width_positive c))
prefix_cut (c ∷ a) x (d ∷ b) y e h =
    let same : c ≡ d = ground arith in
    let tails : a ++ x ≡ b ++ y = ground arith in
    let (m, p, q) = prefix_cut a x b y tails (omega (arith, h, ap (λ w. width w) same)) in
    (m, rw (same, p) refl, q)

drop_bytes-append : (a x : List ℕ) → drop_bytes (a ++ x) (byte_len a) ≡ x
unfolding drop_bytes
drop_bytes-append [] [] = refl
drop_bytes-append [] (c ∷ x) = refl
drop_bytes-append (c ∷ a) x =
    let pos = width_positive c in
    let more : width c + byte_len a - width c ≡ byte_len a = omega arith in
    rw (==-false (width c + byte_len a) 0 (λ e. omega (arith, e, pos)), more)
      (drop_bytes-append a x)

take_bytes-append : (m y : List ℕ) → take_bytes (m ++ y) (byte_len m) ≡ m
unfolding take_bytes
take_bytes-append [] [] = refl
take_bytes-append [] (c ∷ y) = refl
take_bytes-append (c ∷ m) y =
    let pos = width_positive c in
    let more : width c + byte_len m - width c ≡ byte_len m = omega arith in
    rw (==-false (width c + byte_len m) 0 (λ e. omega (arith, e, pos)), more)
      (ap (λ r. c ∷ r) (take_bytes-append m y))

pub slice-Between :
    {text : List ℕ} {from to : ℕ}
    → IsBoundary text from
    → IsBoundary text to
    → from ≤ to
    → Between text from to (slice text from to)
unfolding slice
slice-Between {text} {from} {to} f t le =
    let (m, p, q) =
      prefix_cut f.before f.behind t.before t.behind (sym f.split ∙ t.split)
        (omega (arith, le, f.size, t.size)) in
    let size : to - from ≡ byte_len m =
      omega (arith, f.size, t.size, ap byte_len p, byte_len-append f.before m) in
    let start : drop_bytes text from ≡ f.behind =
      ap (λ n. drop_bytes text n) f.size
      ∙ ap (λ s. drop_bytes s (byte_len f.before)) f.split
      ∙ drop_bytes-append f.before f.behind in
    let part : take_bytes (drop_bytes text from) (to - from) ≡ m =
      rw (start, size, q) (take_bytes-append m t.behind) in
    rw part (record {
      before = f.before;
      behind = t.behind;
      split = f.split ∙ ap (λ s. f.before ++ s) q;
      begins = f.size;
      ends = omega (arith, size, le);
    })

byte_len-empty : (m : List ℕ) → byte_len m ≡ 0 → m ≡ []
byte_len-empty [] h = refl
byte_len-empty (c ∷ m) h = absurd (omega (arith, h, width_positive c))

-- Two parts that meet are one part.
pub Between-join :
    {text : List ℕ} {a b c : ℕ} {p q : List ℕ}
    → Between text a b p
    → Between text b c q
    → Between text a c (p ++ q)
Between-join {text} {a} {b} {c} {p} {q} x y =
    let same : (x.before ++ p) ++ x.behind ≡ y.before ++ (q ++ y.behind) =
      append_assoc x.before p x.behind ∙ sym x.split ∙ y.split in
    let size = byte_len-append x.before p in
    let (m, e, f) =
      prefix_cut (x.before ++ p) x.behind y.before (q ++ y.behind) same
        (omega (arith, size, x.begins, x.ends, y.begins)) in
    let none : m ≡ [] = byte_len-empty m (
      omega (
        arith,
        ap byte_len e,
        byte_len-append (x.before ++ p) m,
        size,
        x.begins,
        x.ends,
        y.begins,
      )) in
    let rest : x.behind ≡ q ++ y.behind = subst (λ r. x.behind ≡ r ++ (q ++ y.behind)) none f in
    record {
      before = x.before;
      behind = y.behind;
      split =
          x.split
          ∙ ap (λ r. x.before ++ (p ++ r)) rest
          ∙ ap (λ r. x.before ++ r) (sym (append_assoc p q y.behind));
      begins = x.begins;
      ends = omega (arith, x.ends, y.ends, byte_len-append p q);
    }
