-- ===== src/Tokenize/TagLike/Scripts.antt =====
-- The second loop of `tokenize_tag_like`: the tokens of scripts, styles and some attributes are put
-- in place of their text. `tokenize_css` is a parameter, since it stands on the cssparser crate.
-- `none` is a failed assertion.
use mozsearch.Prelude.{
  ℕ, Bool, true, false, ◌&&◌, ◌||◌, Option, none, some, List, [], ◌∷◌, ◌++◌, list_eq, if◌then◌else◌,
  get_elem?, codes,
}
use mozsearch.Prelude.Text.{◌>>=◌}
use mozsearch.Tokenize.{
  Token, token, TokenKind, plain_text, punctuation, identifier, string_literal, comment,
  regular_expression_literal, tag_name, tag_attr_name, end_tag_name, newline,
}
use mozsearch.Tokenize.Embed.{move_tokens}
use mozsearch.Tokenize.CLike.State.{LanguageSpec}
use mozsearch.Tokenize.CLike.Step.{tokenize_c_like}
use mozsearch.Tokenize.TagLike.State.{peek_ahead}
use mozsearch.Tokenize.TagLike.Step.{slice, tag_tokens}

-- The locals of the loop; the top of `tag_stack` comes first.
pub record Emitter : Type 0 where
  pub result : List Token
  pub script : List ℕ
  pub style : List ℕ
  pub tag_stack : List (List ℕ)
  pub has_src_attr : Bool
  pub in_script : Bool
  pub script_has_src : Bool
  pub script_start : ℕ
  pub in_style : Bool
  pub style_start : ℕ
  pub literal_is_id : Bool
  pub literal_is_js : Bool
  pub literal_is_css : Bool

abbrev pub initial : Emitter
initial = record {
  result = [];
  script = [];
  style = [];
  tag_stack = [];
  has_src_attr = false;
  in_script = false;
  script_has_src = false;
  script_start = 0;
  in_style = false;
  style_start = 0;
  literal_is_id = false;
  literal_is_js = false;
  literal_is_css = false;
}

abbrev pub is_some_text : Option (List ℕ) → List ℕ → Bool
is_some_text none check = false
is_some_text (some t) check = list_eq t check

-- `peek`: the tag at a depth of the stack.
unfoldable pub peek : List (List ℕ) → ℕ → List ℕ → Bool
peek tag_stack index check = is_some_text (get_elem? tag_stack index) check

abbrev pub pop : List (List ℕ) → List (List ℕ)
pop [] = []
pop (t ∷ ts) = ts

abbrev pub push_result : Token → Emitter → Emitter
push_result t e = record e { result = e.result ++ (t ∷ []) }

unfoldable pub starting_script : List (List ℕ) → Bool
unfolding peek
starting_script stack =
    peek stack 0 (codes "script")
    || peek stack 0 (codes "constructor")
    || peek stack 0 (codes "destructor")
    || peek stack 0 (codes "handler")
    || peek stack 0 (codes "field")
    || (peek stack 1 (codes "method") && peek stack 0 (codes "body"))
    || (peek stack 1 (codes "property") && peek stack 0 (codes "getter"))
    || (peek stack 1 (codes "property") && peek stack 0 (codes "setter"))

-- The name of an attribute.
unfoldable pub on_attr_name : List ℕ → Token → Emitter → Emitter
unfolding peek
on_attr_name name t e =
    let named =
      (peek e.tag_stack 0 (codes "field")
        || peek e.tag_stack 0 (codes "property")
        || peek e.tag_stack 0 (codes "method")
        || peek e.tag_stack 0 (codes "parameter"))
      && list_eq name (codes "name") in
    push_result t (record e {
      literal_is_id = e.literal_is_id || named;
      literal_is_js = e.literal_is_js || peek_ahead (codes "on") name;
      literal_is_css = e.literal_is_css || list_eq name (codes "style");
      has_src_attr = e.has_src_attr || list_eq name (codes "src");
    })

-- Plain text, newlines and comments are collected inside scripts and styles.
unfoldable pub on_text : List ℕ → Token → Emitter → Emitter
on_text text t e =
    if e.in_script
    then record e { script = e.script ++ text }
    else if e.in_style
    then record e { style = e.style ++ text }
    else push_result t e

module _ (unicode : ℕ → Bool) (tokenize_css : List ℕ → List Token)
    (script_spec : LanguageSpec) where
  -- A script, tokenized and moved to where it stands; it goes behind the result.
  unfoldable pub emit_script : List ℕ → ℕ → Emitter → Option Emitter
  unfolding tokenize_c_like
  emit_script script start e = tokenize_c_like unicode script_spec script >>= λ ts.
      some (record e { result = e.result ++ move_tokens start ts })

  abbrev pub emit_style : List ℕ → ℕ → Emitter → Emitter
  emit_style style start e = record e {
    result = e.result ++ move_tokens start (tokenize_css style);
  }

  unfoldable pub on_literal : List ℕ → Token → Emitter → Option Emitter
  unfolding emit_script
  on_literal text t e =
      if e.literal_is_id
      then some
          (push_result (token t.start t.end (identifier none)) (record e { literal_is_id = false }))
      else if e.literal_is_js
      then emit_script text t.start (record e { literal_is_js = false })
      else if e.literal_is_css
      then some (emit_style text t.start (record e { literal_is_css = false }))
      else some (push_result t e)

  -- `</` behind a script.
  unfoldable pub end_script : Token → Emitter → Option Emitter
  unfolding emit_script
  end_script t e =
      let leave : Emitter → Emitter =
        λ e'. push_result t (record e' { script = []; in_script = false }) in
      if e.script_has_src
      then some (leave (record e { script_has_src = false }))
      else emit_script e.script e.script_start e >>= λ e'. some (leave e')

  unfoldable pub on_punctuation : List ℕ → Token → Emitter → Option Emitter
  unfolding end_script starting_script peek
  on_punctuation punc t e =
      let e' = record e {
        tag_stack = if list_eq punc (codes "/>") then pop e.tag_stack else e.tag_stack;
      } in
      let starts = starting_script e'.tag_stack in
      if starts && list_eq punc (codes ">")
      then some (
          push_result t (record e' {
            in_script = true;
            script_has_src = e'.has_src_attr;
            script_start = t.end;
          }))
      else if e'.in_script && list_eq punc (codes "</")
      then end_script t e'
      else if e'.in_script
      then some (record e' { script = e'.script ++ punc })
      else if peek e'.tag_stack 0 (codes "style") && list_eq punc (codes ">")
      then some (push_result t (record e' { in_style = true; style_start = t.end }))
      else if e'.in_style && list_eq punc (codes "</")
      then some (
          push_result t
            (record (emit_style e'.style e'.style_start e') { style = []; in_style = false }))
      else if e'.in_style
      then some (record e' { style = e'.style ++ punc })
      else some (push_result t e')

  -- One token of the loop by its kind; `text` is the token's text.
  unfoldable pub emit : TokenKind → List ℕ → Token → Emitter → Option Emitter
  unfolding on_attr_name on_text on_literal on_punctuation
  emit tag_name text t e =
      some (push_result t (record e { has_src_attr = false; tag_stack = text ∷ e.tag_stack }))
  emit end_tag_name text t e =
      some (push_result t (record e { has_src_attr = false; tag_stack = pop e.tag_stack }))
  emit tag_attr_name text t e = some (on_attr_name text t e)
  emit plain_text text t e = some (on_text text t e)
  emit newline text t e = some (on_text text t e)
  emit comment text t e = some (on_text text t e)
  emit string_literal text t e = on_literal text t e
  emit punctuation text t e = on_punctuation text t e
  emit (identifier sym) text t e =
      if e.in_script || e.in_style then none else some (push_result t e)
  emit regular_expression_literal text t e =
      if e.in_script || e.in_style then none else some (push_result t e)

  unfoldable pub emit_loop : List ℕ → List Token → Emitter → Option Emitter
  unfolding emit slice
  emit_loop string [] e = some e
  emit_loop string (t ∷ ts) e = emit t.kind (slice string t.start t.end) t e >>= emit_loop string ts

  -- What is left at the end of the text: a style, and a script.
  abbrev pub end_style : Emitter → List Token
  end_style e = if e.in_style then (emit_style e.style e.style_start e).result else e.result

  unfoldable pub emit_end : Emitter → Option (List Token)
  unfolding emit_script
  emit_end e =
      (if e.in_script && e.script_has_src then emit_script e.script e.script_start e else some e)
      >>= λ e'. some (end_style e')

  unfoldable pub tokenize_tag_like : List ℕ → Option (List Token)
  unfolding emit_loop emit_end tag_tokens
  tokenize_tag_like string =
      tag_tokens unicode string >>= λ ts. emit_loop string ts initial >>= emit_end
