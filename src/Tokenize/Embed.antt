-- ===== src/Tokenize/Embed.antt =====
-- Tokens of a part of a text, moved to where the part stands: what the tokenizers that call
-- `tokenize_c_like` and `tokenize_css` on a part do with the tokens, `t.start + start`.
use mozsearch.Prelude.{ℕ, ◌+◌, List, [], ◌∷◌, ◌++◌, ◌≡◌, ap, sym, subst, ◌∙◌, arith, append_assoc}
use mozsearch.Tokenize.{Token, token, byte_len}
use mozsearch.Tokenize.Scan.{byte_len-append}
use mozsearch.Tokenize.Boundaries.{IsBoundary, InOrder}

abbrev pub move_token : ℕ → Token → Token
move_token n t = token (t.start + n) (t.end + n) t.kind

abbrev pub move_tokens : ℕ → List Token → List Token
move_tokens n [] = []
move_tokens n (t ∷ ts) = move_token n t ∷ move_tokens n ts

-- The text between two positions.
pub record Between (text : List ℕ) (from to : ℕ) (part : List ℕ) : Type 0 where
  pub before : List ℕ
  pub behind : List ℕ
  pub split : text ≡ before ++ (part ++ behind)
  pub begins : from ≡ byte_len before
  pub ends : to ≡ from + byte_len part

module _ {text : List ℕ} {from to : ℕ} {part : List ℕ} where
  pub Between-start : Between text from to part → IsBoundary text from
  Between-start b = record {
    before = b.before;
    behind = part ++ b.behind;
    split = b.split;
    size = b.begins;
  }

  pub Between-end : Between text from to part → IsBoundary text to
  Between-end b = record {
    before = b.before ++ part;
    behind = b.behind;
    split = b.split ∙ sym (append_assoc b.before part b.behind);
    size = omega (arith, b.begins, b.ends, byte_len-append b.before part);
  }

  IsBoundary-move :
      {pos : ℕ} → Between text from to part → IsBoundary part pos → IsBoundary text (pos + from)
  IsBoundary-move b c = record {
    before = b.before ++ c.before;
    behind = c.behind ++ b.behind;
    split = b.split ∙ ap (λ p. b.before ++ (p ++ b.behind)) c.split ∙ simp append_assoc;
    size = omega (arith, b.begins, c.size, byte_len-append b.before c.before);
  }

  -- Tokens in order in the part are in order in the text once they are moved.
  InOrder-move_from :
      (lo hi : ℕ) (ts : List Token)
      → Between text from to part
      → InOrder part lo ts hi
      → InOrder text (lo + from) (move_tokens from ts) (hi + from)
  InOrder-move_from lo hi [] b h = omega arith
  InOrder-move_from lo hi (t ∷ ts) b (h1, h2, h3, h4, hs) = (
    omega arith,
    omega arith,
    IsBoundary-move b h3,
    IsBoundary-move b h4,
    InOrder-move_from t.end hi ts b hs,
  )

  pub InOrder-move :
      (ts : List Token)
      → Between text from to part
      → InOrder part 0 ts (byte_len part)
      → InOrder text from (move_tokens from ts) to
  InOrder-move ts b h =
      let hi : byte_len part + from ≡ to = omega (arith, b.ends) in
      let lo : 0 + from ≡ from = omega arith in
      subst (λ n. InOrder text n (move_tokens from ts) to) lo
        (subst (λ n. InOrder text (0 + from) (move_tokens from ts) n) hi
          (InOrder-move_from 0 (byte_len part) ts b h))

pub InOrder-append :
    (text : List ℕ) (lo mid hi : ℕ) (xs ys : List Token)
    → InOrder text lo xs mid
    → InOrder text mid ys hi
    → InOrder text lo (xs ++ ys) hi
InOrder-append text lo mid hi [] [] h k = omega arith
InOrder-append text lo mid hi [] (t ∷ ys) h (k1, k2, k3, k4, ks) = (omega arith, k2, k3, k4, ks)
InOrder-append text lo mid hi (t ∷ xs) ys (h1, h2, h3, h4, hs) k =
    (h1, h2, h3, h4, InOrder-append text t.end mid hi xs ys hs k)
