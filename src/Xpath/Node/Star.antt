-- ===== src/Xpath/Node/Star.antt =====
-- fix_star replaces the star by the name of the element in the body.
use openxcap.Prelude.{
  ℕ, ◌≡◌, ◌≢◌, refl, ap, ◌∙◌, true, false, Option, some, [], ◌∷◌, ◌++◌, arith, Str, codes, All,
  Without, split_on-Without, strip_left, str_eq, str_eq_iff, ok, lookup, split_on-append,
}
use openxcap.Xpath.{tag, qname, StepName, Namespaces, ElementSelector}
use openxcap.Xpath.Node.{
  is_space, ends_tag, tag_chars, nonempty, behind_bracket, match_tag, parse_qname, with_last_name,
  ends_in_star, fix_star,
}

tag_chars-append :
    (name s : Str) (c : ℕ)
    → All (λ x. ends_tag x ≡ false) name
    → ends_tag c ≡ true
    → tag_chars (name ++ c ∷ s) ≡ name
unfolding tag_chars
tag_chars-append [] s c h e = rw e refl
tag_chars-append (x ∷ name) s c h e = rw h.0 (ap (λ l. x ∷ l) (tag_chars-append name s c h.1 e))

strip_left-append :
    (spaces s : Str) (c : ℕ)
    → All (λ x. is_space x ≡ true) spaces
    → is_space c ≡ false
    → strip_left is_space (spaces ++ c ∷ s) ≡ c ∷ s
unfolding strip_left
strip_left-append [] s c h e = rw e refl
strip_left-append (x ∷ spaces) s c h e = rw h.0 (strip_left-append spaces s c h.1 e)

-- a name as it stands in a tag, ended by the character `c`
abbrev pub IsTagName : Str → ℕ → Type 0
IsTagName name c = (name ≢ []) × (All (λ x. ends_tag x ≡ false) name × (ends_tag c ≡ true))

match_tag-body :
    (spaces name s : Str) (c : ℕ)
    → All (λ x. is_space x ≡ true) spaces
    → IsTagName name c
    → match_tag (spaces ++ b'<' ∷ (name ++ c ∷ s)) ≡ some name
unfolding match_tag behind_bracket
match_tag-body spaces [] s c h t = absurd (t.0 refl)
match_tag-body spaces (x ∷ name) s c h t =
    ap behind_bracket (strip_left-append spaces (x ∷ (name ++ c ∷ s)) b'<' h refl)
    ∙ ap nonempty (tag_chars-append (x ∷ name) s c t.1.0 t.1.1)

fix_star-match :
    (body name : Str) (selector : ElementSelector) (n : StepName)
    → ends_in_star selector.steps ≡ true
    → match_tag body ≡ some name
    → parse_qname selector.namespace selector.namespaces name ≡ ok n
    → fix_star body selector ≡ ok (record selector { steps = with_last_name n selector.steps })
unfolding fix_star
fix_star-match body name selector n h m q = rw (h, m, q) refl

parse_qname-plain :
    (namespace : Option Str) (namespaces : Namespaces) (name : Str)
    → Without b':' name
    → name ≢ codes "*"
    → parse_qname namespace namespaces name ≡ ok (qname namespace (tag name))
unfolding parse_qname
parse_qname-plain namespace namespaces name w ne =
    let e = split_on-Without b':' name w in ground (arith, str_eq_iff name (codes "*"))

prefixed_not_star : (prefix local : Str) → str_eq (prefix ++ b':' ∷ local) (codes "*") ≡ false
unfolding str_eq
prefixed_not_star [] local = refl
prefixed_not_star (x ∷ []) local = ground arith
prefixed_not_star (x ∷ y ∷ prefix) local = ground arith

parse_qname-prefixed :
    (namespace : Option Str) (namespaces : Namespaces) (prefix local ns : Str)
    → Without b':' prefix
    → Without b':' local
    → lookup prefix namespaces ≡ some ns
    → parse_qname namespace namespaces (prefix ++ b':' ∷ local) ≡ ok (qname (some ns) (tag local))
unfolding parse_qname
parse_qname-prefixed namespace namespaces prefix local ns wp wl found =
    let e =
      split_on-append b':' prefix local wp
      ∙ ap (λ l. prefix ∷ l) (split_on-Without b':' local wl) in
    ground (arith, prefixed_not_star prefix local)

-- Where a selector ends in a star without a position, and the body is an element with a name, that
-- name stands in place of the star: in the default namespace if the name has no prefix.
pub fix_star-plain :
    (spaces name s : Str) (c : ℕ) (selector : ElementSelector)
    → ends_in_star selector.steps ≡ true
    → All (λ x. is_space x ≡ true) spaces
    → IsTagName name c
    → Without b':' name
    → name ≢ codes "*"
    → fix_star (spaces ++ b'<' ∷ (name ++ c ∷ s)) selector
      ≡ ok (record selector {
        steps = with_last_name (qname selector.namespace (tag name)) selector.steps;
      })
fix_star-plain spaces name s c selector h sp t w ne =
    fix_star-match (spaces ++ b'<' ∷ (name ++ c ∷ s)) name selector
      (qname selector.namespace (tag name)) h (match_tag-body spaces name s c sp t)
      (parse_qname-plain selector.namespace selector.namespaces name w ne)

-- With a prefix that the query of the selector binds, the name is in that namespace.
pub fix_star-prefixed :
    (spaces prefix local s ns : Str) (c : ℕ) (selector : ElementSelector)
    → ends_in_star selector.steps ≡ true
    → All (λ x. is_space x ≡ true) spaces
    → IsTagName (prefix ++ b':' ∷ local) c
    → Without b':' prefix
    → Without b':' local
    → lookup prefix selector.namespaces ≡ some ns
    → fix_star (spaces ++ b'<' ∷ ((prefix ++ b':' ∷ local) ++ c ∷ s)) selector
      ≡ ok (record selector { steps = with_last_name (qname (some ns) (tag local)) selector.steps })
fix_star-prefixed spaces prefix local s ns c selector h sp t wp wl found =
    fix_star-match (spaces ++ b'<' ∷ ((prefix ++ b':' ∷ local) ++ c ∷ s)) (prefix ++ b':' ∷ local)
      selector (qname (some ns) (tag local)) h
      (match_tag-body spaces (prefix ++ b':' ∷ local) s c sp t)
      (parse_qname-prefixed selector.namespace selector.namespaces prefix local ns wp wl found)
